-- ===== src/Controllers/Boot.antt =====
-- `bootControlPlane` of controllers/reconcile.go and `generateMicroK8sConfig` of configs.go: the
-- creation of one control plane machine with its infrastructure and bootstrap objects.
pub mod Quiet
pub mod Owned
pub mod Report
use cluster_api_control_plan.Common.{
  ℕ, String, ◌<>◌, Bool, true, false, Option, none, some, List, [], ◌∷◌, length, get_elem?,
}
use cluster_api_control_plan.Kube.{
  Error, wrap, Res, ok, err, severity_error, ObjectReference, OwnerReference, Machine, Cluster,
  CloneTemplateInput, MicroK8sConfigSpec, MicroK8sConfig, Result,
}
use cluster_api_control_plan.Api.{
  MicroK8sControlPlane, group_version, machines_created_condition,
  infrastructure_template_cloning_failed_reason, bootstrap_template_cloning_failed_reason,
  machine_generation_failed_reason,
}
use cluster_api_control_plan.Calls.{Call}
use cluster_api_control_plan.Platform.{Platform}
use cluster_api_control_plan.Run.{
  Stmt, Func, ◌>>=◌, ◌>>◌, pure, return, check, deref, func, invoke, call, read_mcp, read_cluster,
  update_conditions,
}
use cluster_api_control_plan.Controllers.Owned.{control_plane_selector}

-- A pair of a result and an error, as Go's functions return it.
abbrev pub Reconciled : Type 0
Reconciled = Result × Option Error

abbrev pub no_requeue : Result
no_requeue = record { requeue = false; requeue_after = 0 }

abbrev pub requeue_now : Result
requeue_now = record { requeue = true; requeue_after = 0 }

abbrev pub after_seconds : ℕ → Result
after_seconds n = record { requeue = false; requeue_after = n }

-- `getFailureDomain`: the keys of the map, none for a nil map.
unfoldable pub get_failure_domain : Cluster → List String
get_failure_domain cluster = elim cluster.failure_domains [ none ↦ [] | some keys ↦ keys ]

abbrev pub owner : MicroK8sControlPlane → Option Bool → Option Bool → OwnerReference
owner mcp controller block = record {
  api_version = group_version;
  kind = "MicroK8sControlPlane";
  name = mcp.name;
  uid = mcp.uid;
  controller = controller;
  block_owner_deletion = block;
}

abbrev pub clone_input : MicroK8sControlPlane → Cluster → CloneTemplateInput
clone_input mcp cluster = record {
  template_ref = mcp.spec.machine_template.infrastructure_template;
  namespace = mcp.namespace;
  owner_ref = owner mcp none none;
  cluster_name = cluster.name;
  labels = control_plane_selector cluster.name;
}

abbrev pub bootstrap_config : MicroK8sControlPlane → MicroK8sConfigSpec → String → MicroK8sConfig
bootstrap_config mcp spec name = record {
  name = name;
  namespace = mcp.namespace;
  uid = "";
  owner_references = owner mcp none (some true) ∷ [];
  spec = spec;
}

-- The reference to the configuration, read from the object as the API server filled it.
abbrev pub bootstrap_reference : MicroK8sConfig → ObjectReference
bootstrap_reference config = record {
  api_version = "bootstrap.cluster.x-k8s.io/v1beta1";
  kind = "MicroK8sConfig";
  name = config.name;
  namespace = config.namespace;
  uid = config.uid;
}

-- The machine before its failure domain is chosen.
abbrev pub new_machine :
    MicroK8sControlPlane → Cluster → String → ObjectReference → ObjectReference → Machine
new_machine mcp cluster name infra_ref bootstrap_ref = record {
  name = name;
  namespace = mcp.namespace;
  labels = control_plane_selector cluster.name;
  owner_references = owner mcp (some true) (some true) ∷ [];
  creation_timestamp = 0;
  deletion_timestamp = none;
  cluster_name = cluster.name;
  version = some mcp.spec.version;
  provider_id = none;
  failure_domain = none;
  infrastructure_ref = infra_ref;
  bootstrap_ref = some bootstrap_ref;
  node_ref = none;
  addresses = [];
  conditions = [];
}

module _ (p : Platform) where
  -- The copy of the specification is shallow in Go, and the object as it was stored is decoded into
  -- what it points to; that is taken to come back as it was sent.
  unfoldable pub generate_micro_k8s_config : MicroK8sConfigSpec → Func (Res ObjectReference)
  generate_micro_k8s_config spec = func do
    mcp ← read_mcp
    name ← call p (Call.generate_name (mcp.name <> "-"))
    (config, failure) ← call p (Call.create_config (bootstrap_config mcp spec name))
    check failure (λ e. err (wrap e "Failed to create bootstrap configuration"))
    pure (ok (bootstrap_reference config))

  -- The choice of a failure domain: `rand.Intn(n)` is below `n`, and an index out of range panics.
  unfoldable pub place : List String → Machine → Stmt Reconciled Machine
  place [] machine = pure machine
  place (d ∷ ds) machine = do
    i ← call p (Call.rand_intn (length (d ∷ ds)))
    domain ← deref (get_elem? (d ∷ ds) i)
    pure (record machine { failure_domain = some domain })

  -- A failed step marks `MachinesCreated` false with its reason and the text of the error.
  abbrev pub not_created : {A : Type 0} → String → Error → Error → Stmt Reconciled A
  not_created reason cause e = do
    update_conditions
        (p.mark_false machines_created_condition reason severity_error (p.error_text cause) [])
    return (no_requeue, some e)

  -- The last step: the machine is placed and created. Its version is in Go the address of the control
  -- plane's, which the stored machine is decoded into; it is taken to come back as it was sent.
  unfoldable pub create_machine :
      MicroK8sControlPlane
      → Cluster
      → ObjectReference
      → ObjectReference
      → Stmt Reconciled Reconciled
  create_machine mcp cluster infra_ref bootstrap_ref = do
    name ← call p (Call.generate_name (mcp.name <> "-"))
    machine ←
        place (get_failure_domain cluster) (new_machine mcp cluster name infra_ref bootstrap_ref)
    failure ← call p (Call.create_machine machine)
    elim failure [
      | none ↦ pure (requeue_now, none)
      | some e ↦ not_created machine_generation_failed_reason e (wrap e "Failed to create machine")
    ]

  unfoldable pub boot_control_plane : Bool → Func Reconciled
  boot_control_plane first = func do
    mcp ← read_mcp
    cluster ← read_cluster
    cloned ← call p (Call.clone_template (clone_input mcp cluster))
    infra_ref ← elim cloned [
      | ok ref ↦ pure ref
      | err e ↦ not_created infrastructure_template_cloning_failed_reason e e
    ]
    configured ← invoke (generate_micro_k8s_config mcp.spec.control_plane_config)
    bootstrap_ref ← elim configured [
      | ok ref ↦ pure ref
      | err e ↦ not_created bootstrap_template_cloning_failed_reason e e
    ]
    create_machine mcp cluster infra_ref bootstrap_ref
