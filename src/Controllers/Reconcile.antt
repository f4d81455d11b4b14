-- ===== src/Controllers/Reconcile.antt =====
-- `Reconcile` of controllers/microk8scontrolplane_controller.go, and `reconcile` with its phases of
-- controllers/reconcile.go.
pub mod Conditions
pub mod Rounds
use cluster_api_control_plan.Common.{
  String, Bool, true, false, not, Option, none, some, List, [], ◌∷◌, ◌++◌, if◌then◌else◌,
}
use cluster_api_control_plan.Kube.{
  Error, Res, ok, err, severity_warning, severity_info, ObjectKey, Machine, Cluster, Result,
}
use cluster_api_control_plan.Api.{
  MicroK8sControlPlane, micro_k8s_control_plane_finalizer, machines_ready_condition,
  machines_created_condition, resized_condition, available_condition, machines_bootstrapped,
  waiting_for_micro_k8s_boot_reason, waiting_for_machines_reason, get_conditions,
  control_plane_components_healthy_condition, control_plane_components_unhealthy_reason,
  control_plane_components_inspection_failed_reason,
}
use cluster_api_control_plan.Calls.{
  Call, add_source_ref, with_step_counter_if, with_status_observed_generation,
  with_owned_conditions,
}
use cluster_api_control_plan.Platform.{Platform}
use cluster_api_control_plan.Run.{
  State, Outcome, returned, panicked, Stmt, Func, ◌>>=◌, ◌>>◌, pass, pure, return, or_return, check,
  when, func, invoke, call, read_mcp, read_cluster, write_mcp, write_cluster, update_conditions,
}
use cluster_api_control_plan.Controllers.Boot.{Reconciled, no_requeue, requeue_now, after_seconds}
use cluster_api_control_plan.Controllers.Owned.{get_control_plane_machines_for_cluster}
use cluster_api_control_plan.Controllers.Machines.{key_of, nodes_healthcheck, reconcile_machines}
use cluster_api_control_plan.Controllers.Delete.{reconcile_delete}
use cluster_api_control_plan.Controllers.Status.{update_status}

-- `errors.Is(err, &errServiceUnhealthy{})` compares with a pointer that was just made, so no error
-- is that one.
unfoldable pub is_service_unhealthy : Error → Bool
is_service_unhealthy e = false

-- The address of the variable `v` of the loop, which is one for all rounds, since go.mod asks for Go
-- 1.19.
pub data Getter : Type 0 where
  address_of_v : Getter

-- The loop: each round stores a machine in `v`, and the address of `v` in `conditionGetters`.
unfoldable pub fill_getters :
    List Machine → List Getter → Option Machine → List Getter × Option Machine
fill_getters [] getters v = (getters, v)
fill_getters (m ∷ machines) getters v =
    fill_getters machines (getters ++ (address_of_v ∷ [])) (some m)

-- What reading through the getters gives, after the loop.
unfoldable pub read_getters : List Getter → Option Machine → List Machine
read_getters [] v = []
read_getters (address_of_v ∷ getters) none = []
read_getters (address_of_v ∷ getters) (some m) = m ∷ read_getters getters (some m)

unfoldable pub condition_getters : List Machine → List Machine
condition_getters machines =
    let (getters, v) = fill_getters machines [] none in read_getters getters v

abbrev pub summary_conditions : List String
summary_conditions =
    machines_created_condition ∷ resized_condition ∷ machines_ready_condition ∷ available_condition
    ∷ machines_bootstrapped ∷ []

abbrev pub owned_conditions : List String
owned_conditions =
    machines_created_condition ∷ "Ready" ∷ resized_condition ∷ machines_ready_condition
    ∷ available_condition ∷ machines_bootstrapped ∷ []

module _ (p : Platform) where
  unfoldable pub reconcile_external_reference : Func (Option Error)
  reconcile_external_reference = func do
    mcp ← read_mcp
    cluster ← read_cluster
    let reference = mcp.spec.machine_template.infrastructure_template
    obj ← or_return (← call p (Call.get_external reference cluster.namespace)) some
    check (← call p (Call.new_external_patch_helper obj)) some
    let owners = p.ensure_owner_ref obj.owner_references (record {
      api_version = "cluster.x-k8s.io/v1beta1";
      kind = "Cluster";
      name = cluster.name;
      uid = cluster.uid;
      controller = none;
      block_owner_deletion = none;
    })
    failure ← call p (Call.patch_external obj (record obj { owner_references = owners }))
    pure failure

  unfoldable pub reconcile_node_health : List Machine → Func Reconciled
  reconcile_node_health machines = func (elim (nodes_healthcheck machines) [
    | none ↦ do
      update_conditions (p.mark_true control_plane_components_healthy_condition)
      pure (no_requeue, none)
    | some e ↦ do
      let reason =
          if is_service_unhealthy e
          then control_plane_components_unhealthy_reason
          else control_plane_components_inspection_failed_reason
      update_conditions (
          p.mark_false control_plane_components_healthy_condition reason severity_warning
            (p.error_text e) [])
      pure (after_seconds 10, some e)
  ])

  -- A condition that is not there yet is set to false, with its first reason.
  abbrev pub ensure_condition : String → String → Stmt Reconciled (Unit {0})
  ensure_condition type_ reason = do
    mcp ← read_mcp
    when (not (p.has_condition type_ (get_conditions mcp)))
        (update_conditions (p.mark_false type_ reason severity_info "" []))

  unfoldable pub reconcile_conditions : List Machine → Func Reconciled
  reconcile_conditions machines = func do
    ensure_condition available_condition waiting_for_micro_k8s_boot_reason
    ensure_condition machines_bootstrapped waiting_for_machines_reason
    pure (no_requeue, none)

  -- The loop over the phases, with the result and the errors so far.
  unfoldable pub run_phases :
      List (List Machine → Func Reconciled) → List Machine → Reconciled → Stmt Reconciled Reconciled
  run_phases [] machines acc = pure acc
  run_phases (phase ∷ phases) machines (result, errs) = do
    (phase_result, failure) ← invoke (phase machines)
    let errs' : Option Error = elim failure [
      | none ↦ errs
      | some e ↦ p.new_aggregate (errs ∷ some e ∷ [])
    ]
    run_phases phases machines (p.lowest_non_zero_result result phase_result, errs')

  unfoldable pub reconcile : Func Reconciled
  reconcile = func do
    check (← invoke reconcile_external_reference) (λ e. (no_requeue, some e))
    cluster ← read_cluster
    when (not (p.endpoint_is_valid cluster.endpoint_host cluster.endpoint_port))
        (return (no_requeue, none))
    mcp ← read_mcp
    listed ← invoke (get_control_plane_machines_for_cluster p (key_of cluster) mcp.name)
    owned ← or_return listed (λ e. (no_requeue, some e))
    update_conditions (
        p.set_aggregate machines_ready_condition (condition_getters owned)
          (add_source_ref ∷ with_step_counter_if false ∷ []))
    (result, errs) ←
        run_phases (reconcile_node_health ∷ reconcile_conditions ∷ reconcile_machines p ∷ []) owned
          (no_requeue, none)
    now ← read_cluster
    when (not result.requeue) (
        write_cluster
          (record now { conditions = p.mark_true "ControlPlaneInitialized" now.conditions }))
    pure (result, errs)

  -- `patchMicroK8sControlPlane`, with the object that the patch helper was made from.
  unfoldable pub patch_micro_k8s_control_plane : MicroK8sControlPlane → Func (Option Error)
  patch_micro_k8s_control_plane before = func do
    update_conditions (p.set_summary summary_conditions)
    mcp ← read_mcp
    failure ← call p (
        Call.patch_mcp before mcp
          (with_status_observed_generation ∷ with_owned_conditions owned_conditions ∷ []))
    pure failure

  -- The deferred function: the status and the patch are attempted, and errors are logged.
  unfoldable pub finish : MicroK8sControlPlane → Func Result
  finish before = func do
    _ ← invoke (update_status p)
    _ ← invoke (patch_micro_k8s_control_plane before)
    pure (after_seconds 30)

  -- What a panic of the body becomes after the deferred function has run.
  abbrev pub with_result : Outcome Reconciled → Outcome Result → Outcome Reconciled
  with_result (returned (res, failure)) (returned res') = returned (res', failure)
  with_result _ _ = panicked

  -- The `return r.reconcile…(…)` of the two cases.
  unfoldable pub reconcile_body : Func Reconciled
  reconcile_body s = elim s.mcp.deletion_timestamp [
    | none ↦ reconcile s
    | some _ ↦ reconcile_delete p s
  ]

  -- The body under the deferred function, which replaces the result.
  unfoldable pub reconcile_deferred : MicroK8sControlPlane → Func Reconciled
  reconcile_deferred before s =
      let (body, t) = reconcile_body s in
      let (res, u) = finish before t in (with_result body res, u)

  -- The object without the finalizer gets it, and nothing else happens in this round.
  unfoldable pub initialize : MicroK8sControlPlane → Stmt Reconciled Reconciled
  initialize before = do
    write_mcp (record before {
      finalizers = p.add_finalizer before.finalizers micro_k8s_control_plane_finalizer;
    })
    failure ← invoke (patch_micro_k8s_control_plane before)
    pure (no_requeue, failure)

  -- The part of `Reconcile` from the check of the owner on.
  unfoldable pub reconcile_owned : Option Cluster → Stmt Reconciled Reconciled
  reconcile_owned none = return (requeue_now, none)
  reconcile_owned (some cluster) = do
    write_cluster cluster
    mcp ← read_mcp
    when (p.is_paused cluster mcp) (return (requeue_now, none))
    when (not cluster.infrastructure_ready) (return (requeue_now, none))
    check (← call p (Call.new_patch_helper mcp)) (λ e. (requeue_now, none))
    let deferred = invoke (reconcile_deferred mcp)
    let has_finalizer = p.contains_finalizer mcp.finalizers micro_k8s_control_plane_finalizer
    (if has_finalizer then deferred else initialize mcp)

  -- `Reconcile` on a request.
  unfoldable pub reconcile_request : ObjectKey → Func Reconciled
  reconcile_request req = func do
    mcp ←
        or_return (← call p (Call.get_mcp req))
          (λ e. if p.is_not_found e then (no_requeue, none) else (requeue_now, none))
    write_mcp mcp
    owner ←
        or_return (← call p (Call.get_owner_cluster mcp.owner_references mcp.namespace))
          (λ e. if p.is_not_found e then (after_seconds 20, none) else (no_requeue, some e))
    reconcile_owned owner
