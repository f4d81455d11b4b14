-- ===== src/Controllers/Upgrade.antt =====
-- The upgrade of nodes in place: the helpers at the end of controllers/reconcile.go, and the loop
-- over the machines in `reconcileMachines`.
pub mod Quiet
pub mod Updates
pub mod Waiting
use cluster_api_control_plan.Common.{
  ℕ, zero, suc, String, ◌<>◌, true, Option, none, some, List, [], ◌∷◌, str_eq, has_prefix,
  trim_prefix, if◌then◌else◌,
}
use cluster_api_control_plan.Common.Int.{pos}
use cluster_api_control_plan.Kube.{Error, Res, ok, err, ObjectKey, Machine, Pod}
use cluster_api_control_plan.Calls.{Call, KubernetesClient}
use cluster_api_control_plan.Platform.{Platform}
use cluster_api_control_plan.Run.{
  Stmt, Func, ◌>>=◌, ◌>>◌, pass, pure, return, deref, or_return, func, invoke, call, for_each,
  read_mcp, read_cluster,
}
use cluster_api_control_plan.Controllers.Boot.{Reconciled, after_seconds}

-- A read of a Go map of texts: the empty text at a missing key.
unfoldable pub value_at : String → List (String × String) → String
value_at k [] = ""
value_at k ((j, v) ∷ m) = if str_eq j k then v else value_at k m

-- The request that the pod's shell sends to snapd.
abbrev pub refresh_command : String → String
refresh_command channel =
    "curl -X POST -H \"Content-Type: application/json\" --unix-socket /run/snapd.socket -d '{\"action\": \"refresh\",\"channel\":\""
    <> (channel <> "/stable\"}' http://localhost/v2/snaps/microk8s")

abbrev pub upgrade_pod : String → String → Pod
upgrade_pod node_name channel = record {
  name = "upgrade-pod";
  node_name = node_name;
  container_name = "upgrade";
  image = "curlimages/curl:7.87.0";
  command = "su" ∷ "-c" ∷ [];
  args = refresh_command channel ∷ [];
  privileged = true;
  run_as_user = pos 0;
  volume_mount = ("snapd-socket", "/run/snapd.socket");
  host_path_volume = ("snapd-socket", "/run/snapd.socket");
}

module _ (p : Platform) (kubeclient : KubernetesClient) where
  unfoldable pub create_upgrade_pod : String → String → Func (Res Pod)
  create_upgrade_pod node_name node_version = func do
    let channel = trim_prefix (p.major_minor node_version) "v"
    pod ←
        or_return (← call p (Call.create_pod kubeclient "default" (upgrade_pod node_name channel)))
          err
    pure (ok pod)

  -- The loop on the attempts left. Each round cuts the wanted version to its major and minor part.
  unfoldable pub await_version : ℕ → String → String → Stmt (Option Error) (Option Error)
  await_version zero node_name node_version = pure none
  await_version (suc attempts) node_name node_version = do
    node ← or_return (← call p (Call.get_node kubeclient node_name)) some
    let wanted = p.major_minor node_version
    let rest = do call p (Call.sleep 10); await_version attempts node_name wanted
    if has_prefix (p.major_minor node.kubelet_version) wanted then pure none else rest

  abbrev pub upgrade_attempts : ℕ
  upgrade_attempts = 60

  unfoldable pub wait_for_node_upgrade : String → String → Func (Option Error)
  wait_for_node_upgrade node_name node_version =
      func (await_version upgrade_attempts node_name node_version)

  -- The body of the `for` loop leaves it on every path, so it runs once.
  unfoldable pub wait_for_pod_deletion : String → Func (Option Error)
  wait_for_pod_deletion pod_name = func do
    failure ← call p (Call.delete_pod kubeclient "default" pod_name 0)
    call p (Call.sleep 10)
    elim failure [
      | none ↦ pure none
      | some e ↦ if p.is_not_found e then pure none else return (some e)
    ]

  -- The object behind a pointer that is nil after an error.
  abbrev pub non_nil : {A : Type 0} → Res A → Option A
  non_nil (ok a) = some a
  non_nil (err e) = none

  -- The body of the loop over the machines. Only the error of the first call ends it; the other
  -- errors are logged. `pod` is nil after an error, and is read at the end. The version of the machine is in Go
  -- the address of the control plane's, and is taken to come back from the update as it was sent.
  unfoldable pub upgrade_machine : Machine → Stmt Reconciled (Unit {0})
  upgrade_machine machine = do
    mcp ← read_mcp
    cluster ← read_cluster
    node_name ← deref machine.node_ref
    node ←
        or_return (← call p (Call.get_node kubeclient node_name)) (λ e. (after_seconds 20, some e))
    pod ← invoke (create_upgrade_pod node.name mcp.spec.version)
    _ ← invoke (wait_for_node_upgrade node.name mcp.spec.version)
    call p (Call.sleep 10)
    let key : ObjectKey = record {
      namespace = cluster.namespace;
      name = value_at "cluster.x-k8s.io/machine" node.annotations;
    }
    (current_machine, _) ← call p (Call.get_machine key)
    _ ← call p (Call.update_machine (record current_machine { version = some mcp.spec.version }))
    call p (Call.sleep 10)
    pod' ← deref (non_nil pod)
    _ ← invoke (wait_for_pod_deletion pod'.name)
    pass

  unfoldable pub upgrade_in_place : List Machine → Stmt Reconciled (Unit {0})
  upgrade_in_place machines = for_each machines upgrade_machine
