-- ===== src/Controllers/Machines.antt =====
-- `reconcileMachines` of controllers/reconcile.go, with `bootstrapCluster` and the stubs of
-- healthchecks.go: the decision to create, upgrade or delete machines.
pub mod Quiet
pub mod Refusal
pub mod Safety
use cluster_api_control_plan.Common.{
  ℕ, zero, String, Bool, true, false, not, ◌&&◌, ◌||◌, Option, none, some, List, [], ◌∷◌, length,
  ltb, leb, ◌==◌, str_eq, if◌then◌else◌,
}
use cluster_api_control_plan.Common.Int.{ℤ, pos, ltb_ℤ}
use cluster_api_control_plan.Kube.{
  Error, errorf, Res, ok, err, num, severity_error, severity_warning, severity_info, ObjectKey,
  Address, Machine, Cluster,
}
use cluster_api_control_plan.Api.{
  MicroK8sControlPlane, smart_upgrade_strategy_type, in_place_upgrade_strategy_type,
  rolling_upgrade_strategy_type, resized_condition, scaling_up_reason, scaling_down_reason,
  machines_bootstrapped, waiting_for_micro_k8s_boot_reason, machines_ready_condition,
  machines_created_condition, get_conditions,
}
use cluster_api_control_plan.Calls.{KubernetesClient}
use cluster_api_control_plan.Platform.{Platform}
use cluster_api_control_plan.Run.{
  Stmt, Func, ◌>>=◌, ◌>>◌, pass, pure, return, deref, or_return, when, func, invoke, read_mcp,
  read_cluster, write_mcp, update_conditions,
}
use cluster_api_control_plan.Controllers.Boot.{
  Reconciled, no_requeue, after_seconds, boot_control_plane,
}
use cluster_api_control_plan.Controllers.Owned.{less}
use cluster_api_control_plan.Controllers.ScaleDown.{
  closing_early, close_after, scale_down_control_plane,
}
use cluster_api_control_plan.Controllers.Kubeconfig.{kubeconfig_for_cluster}
use cluster_api_control_plan.Controllers.Upgrade.{upgrade_in_place}

abbrev pub key_of : Cluster → ObjectKey
key_of cluster = record { namespace = cluster.namespace; name = cluster.name }

-- `ensureNodesBooted` and `nodesHealthcheck`, which are not written yet and report no error.
unfoldable pub ensure_nodes_booted : List Machine → Option Error
ensure_nodes_booted machines = none

unfoldable pub nodes_healthcheck : List Machine → Option Error
nodes_healthcheck machines = none

-- The inner loop of `bootstrapCluster`: the first internal address.
unfoldable pub internal_ip : List Address → Option String
internal_ip [] = none
internal_ip (a ∷ addresses) =
    if str_eq a.type_ "InternalIP" then some a.address else internal_ip addresses

-- The loop over the machines, with the addresses found.
unfoldable pub machine_addresses : List Machine → Res (List String)
machine_addresses [] = ok []
machine_addresses (m ∷ machines) = elim (internal_ip m.addresses) [
  | none ↦ err (errorf "machine %q doesn't have an InternalIP address yet" (m.name ∷ []))
  | some a ↦ elim (machine_addresses machines) [ ok as' ↦ ok (a ∷ as') | err e ↦ err e ]
]

unfoldable pub bootstrap_cluster : List Machine → Option Error
unfolding machine_addresses internal_ip
bootstrap_cluster machines = elim (machine_addresses machines) [
  | err e ↦ some e
  | ok [] ↦ some (errorf "no machine addresses to use for bootstrap" [])
  | ok (a ∷ as') ↦ none
]

-- What the code does about a version that differs.
pub data Upgrade : Type 0 where
  rolling in_place keep : Upgrade

-- The default of an empty strategy.
abbrev pub selected_strategy : String → String
selected_strategy strategy = if str_eq strategy "" then smart_upgrade_strategy_type else strategy

-- The two tests on the strategy and on the number of machines.
unfoldable pub upgrade_by : String → ℕ → Upgrade
upgrade_by strategy machines =
    if str_eq strategy rolling_upgrade_strategy_type
      || (str_eq strategy smart_upgrade_strategy_type && leb 3 machines)
    then rolling
    else if str_eq strategy in_place_upgrade_strategy_type
        || (str_eq strategy smart_upgrade_strategy_type && ltb machines 3)
    then in_place
    else keep

-- `oldVersion != "" && semver.Compare(oldVersion, newVersion) != 0`.
abbrev pub is_nonzero : ℤ → Bool
is_nonzero (pos zero) = false
is_nonzero _ = true

module _ (p : Platform) where
  unfoldable pub version_differs : String → String → Bool
  version_differs old_version new_version =
      not (str_eq old_version "") && is_nonzero (p.compare_versions old_version new_version)

  -- `conditions.MarkFalse(mcp, ResizedCondition, …)` with the two numbers.
  abbrev pub mark_scaling_up : {R : Type 0} → ℤ → ℕ → Stmt R (Unit {0})
  mark_scaling_up desired machines = update_conditions (
      p.mark_false resized_condition scaling_up_reason severity_warning
        "Scaling up control plane to %d replicas (actual %d)"
        (num desired ∷ num (pos machines) ∷ []))

  abbrev pub mark_scaling_down : {R : Type 0} → ℤ → ℕ → Stmt R (Unit {0})
  mark_scaling_down desired machines = update_conditions (
      p.mark_false resized_condition scaling_down_reason severity_warning
        "Scaling down control plane to %d replicas (actual %d)"
        (num desired ∷ num (pos machines) ∷ []))

  -- The version of the oldest machine, with the machines in order of age; none without machines.
  unfoldable pub sort_and_read : List Machine → Stmt Reconciled (List Machine × String)
  sort_and_read [] = pure ([], "")
  sort_and_read (m ∷ ms) = elim (p.sort less (m ∷ ms)) [
    | [] ↦ deref none
    | oldest ∷ rest ↦ do version ← deref oldest.version; pure (oldest ∷ rest, p.major_minor version)
  ]

  -- The upgrade step. A rolling upgrade adds a machine once the number is the desired one. The
  -- client of an upgrade in place is handed on, to be closed when the function ends.
  unfoldable pub upgrade_stage :
      ℤ → ℕ → List Machine → Upgrade → Stmt Reconciled (Option KubernetesClient)
  upgrade_stage desired n machines keep = pure none
  upgrade_stage desired n machines rolling = do
    let surge = do
      mark_scaling_up desired n
      booted ← invoke (boot_control_plane p false)
      return booted
    if not (ltb_ℤ (pos n) desired) && not (ltb_ℤ desired (pos n)) then surge else pure none
  upgrade_stage desired n machines in_place = do
    cluster ← read_cluster
    kubeclient ←
        or_return (← invoke (kubeconfig_for_cluster p (key_of cluster)))
          (λ e. (after_seconds 20, some e))
    closing_early p kubeclient (upgrade_in_place p kubeclient machines)
    pure (some kubeclient)

  -- An error with a request to come back is logged and dropped.
  abbrev pub drop_error : Reconciled → Reconciled
  drop_error (res, none) = (res, none)
  drop_error (res, some e) =
      if res.requeue || ltb 0 res.requeue_after then (res, none) else (res, some e)

  -- The case of too many machines.
  unfoldable pub scale_down_stage : ℤ → ℕ → List Machine → Stmt Reconciled Reconciled
  scale_down_stage desired n machines = do
    mark_scaling_down desired n
    when (ltb n 4) (do
      update_conditions (
          p.mark_false resized_condition scaling_down_reason severity_error
            "Cannot scale down control plane nodes to less than 3 nodes" [])
      return (no_requeue, none))
    elim (ensure_nodes_booted machines) [ none ↦ pass | some e ↦ return (after_seconds 10, none) ]
    cluster ← read_cluster
    deleted ← invoke (scale_down_control_plane p (key_of cluster) machines)
    pure (drop_error deleted)

  -- The case of the desired number.
  unfoldable pub settle_stage : List Machine → Stmt Reconciled Reconciled
  settle_stage machines = do
    mcp ← read_mcp
    when (not mcp.status.bootstrapped) (elim (bootstrap_cluster machines) [
      | some e ↦ do
        update_conditions (
            p.mark_false machines_bootstrapped waiting_for_micro_k8s_boot_reason severity_info
              (p.error_text e) [])
        return (after_seconds 20, none)
      | none ↦ do
        update_conditions (p.mark_true machines_bootstrapped)
        marked ← read_mcp
        write_mcp (record marked { status = record (marked.status) { bootstrapped = true } })
    ])
    settled ← read_mcp
    when (p.has_condition machines_ready_condition (get_conditions settled))
        (update_conditions (p.mark_true resized_condition))
    update_conditions (p.mark_true machines_created_condition)
    pure (no_requeue, none)

  -- The `switch` on the number of machines and the desired one.
  unfoldable pub replica_stage : ℤ → ℕ → List Machine → Stmt Reconciled Reconciled
  replica_stage desired n machines =
      if ltb_ℤ (pos n) desired
      then if n == 0
        then invoke (boot_control_plane p true)
        else mark_scaling_up desired n >> invoke (boot_control_plane p false)
      else if ltb_ℤ desired (pos n)
      then scale_down_stage desired n machines
      else settle_stage machines

  -- The upgrade step, if the version differs, and the switch, on the desired number, the number of
  -- machines, and the sorted machines with the version of the oldest.
  unfoldable pub resize :
      MicroK8sControlPlane → ℤ → ℕ → List Machine × String → Stmt Reconciled Reconciled
  resize mcp desired n (sorted, old_version) = do
    let upgrade = upgrade_by (selected_strategy mcp.spec.upgrade_strategy) n
    kubeclient ←
        (if version_differs old_version (p.major_minor mcp.spec.version)
          then upgrade_stage desired n sorted upgrade
          else pure none)
    close_after p kubeclient (replica_stage desired n sorted)

  -- `numMachines` is read before the slice is sorted in place.
  unfoldable pub reconcile_machines : List Machine → Func Reconciled
  reconcile_machines machines = func do
    mcp ← read_mcp
    desired ← deref mcp.spec.replicas
    sorted ← sort_and_read machines
    resize mcp desired (length machines) sorted
