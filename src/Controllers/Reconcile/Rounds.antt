-- ===== src/Controllers/Reconcile/Rounds.antt =====
-- One round of `Reconcile`, as a whole.
use cluster_api_control_plan.Common.{
  ◌≡◌, refl, arith, false, ◌≤◌, ◌+◌, Option, none, some, List, [], ◌∷◌,
}
use cluster_api_control_plan.Kube.{Error, ok, ObjectKey, Machine, Cluster, Result}
use cluster_api_control_plan.Api.{MicroK8sControlPlane, micro_k8s_control_plane_finalizer}
use cluster_api_control_plan.Calls.{Call}
use cluster_api_control_plan.Platform.{Platform}
use cluster_api_control_plan.Run.{State, Outcome, returned, panicked}
use cluster_api_control_plan.Run.Tally.{Class, same, tally}
use cluster_api_control_plan.Controllers.Boot.{Reconciled, after_seconds}
use cluster_api_control_plan.Controllers.Owned.{get_control_plane_machines_for_cluster}
use cluster_api_control_plan.Controllers.Machines.{reconcile_machines}
use cluster_api_control_plan.Controllers.Machines.Quiet.{changes}
use cluster_api_control_plan.Controllers.Machines.Safety.{changes_le_one}
use cluster_api_control_plan.Controllers.Status.{update_status}
use cluster_api_control_plan.Controllers.Status.Quiet.{tally-update_status}
use cluster_api_control_plan.Controllers.Reconcile.{
  reconcile_external_reference, reconcile_node_health, reconcile_conditions, run_phases, reconcile,
  patch_micro_k8s_control_plane, finish, reconcile_body, reconcile_deferred, initialize,
  reconcile_owned, reconcile_request,
}

module _ (p : Platform) where
  changes-external :
      (s : State) → changes (reconcile_external_reference p s).1.trace ≡ changes s.trace
  unfolding reconcile_external_reference
  changes-external s = ground arith

  changes-node_health :
      (ms : List Machine) (s : State)
      → changes (reconcile_node_health p ms s).1.trace ≡ changes s.trace
  unfolding reconcile_node_health
  changes-node_health ms s = ground arith

  changes-conditions :
      (ms : List Machine) (s : State)
      → changes (reconcile_conditions p ms s).1.trace ≡ changes s.trace
  unfolding reconcile_conditions
  changes-conditions ms s = ground arith

  changes-phases :
      (ms : List Machine) (acc : Reconciled) (s : State)
      → changes
          (run_phases p
            (reconcile_node_health p ∷ reconcile_conditions p ∷ reconcile_machines p ∷ [])
            ms
            acc
            s).1.trace
        ≤ changes s.trace + 1
  unfolding run_phases
  changes-phases ms acc s =
      grind (arith, changes-node_health, changes-conditions, changes_le_one p ms)

  changes-reconcile : (s : State) → changes (reconcile p s).1.trace ≤ changes s.trace + 1
  unfolding reconcile get_control_plane_machines_for_cluster
  changes-reconcile s = grind (arith, changes-external, changes-phases)

  pub tally-finish :
      (k : Class) (before : MicroK8sControlPlane) (s : State)
      → same Class.mcp_patch k ≡ false
      → tally k (finish p before s).1.trace ≡ tally k s.trace
  unfolding finish patch_micro_k8s_control_plane
  tally-finish k before s h = grind (arith, tally-update_status p)

  changes-deferred :
      (before : MicroK8sControlPlane) (s : State)
      → s.mcp.deletion_timestamp ≡ none
      → changes (reconcile_deferred p before s).1.trace ≤ changes s.trace + 1
  unfolding reconcile_deferred reconcile_body
  changes-deferred before s present = grind (
    arith,
    changes-reconcile s,
    λ (t : State). tally-finish Class.machine_creation before t refl,
    λ (t : State). tally-finish Class.machine_deletion before t refl,
  )

  changes-initialize :
      (before : MicroK8sControlPlane) (s : State)
      → changes (initialize p before s).1.trace ≡ changes s.trace
  unfolding initialize patch_micro_k8s_control_plane
  changes-initialize before s = ground arith

  changes-owned :
      (owner : Option Cluster) (s : State)
      → s.mcp.deletion_timestamp ≡ none
      → changes (reconcile_owned p owner s).1.trace ≤ changes s.trace + 1
  unfolding reconcile_owned
  changes-owned none s present = omega arith
  changes-owned (some c) s present =
      let u : State = record s { cluster = c; trace = Call.new_patch_helper s.mcp ∷ s.trace } in
      ground (arith, changes-deferred s.mcp u present, changes-initialize s.mcp u)

  -- One round of `Reconcile` on an object that is not being deleted creates one machine or deletes
  -- one machine or does neither, whatever the API servers answer, and however the round ends.
  pub request_changes_le_one :
      (req : ObjectKey) (mcp : MicroK8sControlPlane) (s : State)
      → p.answer s.trace (Call.get_mcp req) ≡ ok mcp
      → mcp.deletion_timestamp ≡ none
      → changes (reconcile_request p req s).1.trace ≤ changes s.trace + 1
  unfolding reconcile_request
  request_changes_le_one req mcp s got present = grind (arith, changes-owned)

  owned_before_finalizer :
      (owner : Option Cluster) (k : Class) (s : State)
      → p.contains_finalizer s.mcp.finalizers micro_k8s_control_plane_finalizer ≡ false
      → same Class.mcp_patch k ≡ false
      → let t = (reconcile_owned p owner s).1 in
        (tally k t.trace ≡ tally k s.trace)
        × (tally Class.mcp_patch t.trace ≤ tally Class.mcp_patch s.trace + 1)
  unfolding reconcile_owned initialize patch_micro_k8s_control_plane
  owned_before_finalizer none k s lacks other = (refl, omega arith)
  owned_before_finalizer (some c) k s lacks other = ground arith

  -- As long as the object lacks the finalizer, a round of `Reconcile` makes none of the counted
  -- calls but the patch of the object: it creates, updates and deletes no machine, deletes no node,
  -- and creates no infrastructure or bootstrap object; and it patches once at most.
  pub request_before_finalizer :
      (req : ObjectKey) (mcp : MicroK8sControlPlane) (k : Class) (s : State)
      → p.answer s.trace (Call.get_mcp req) ≡ ok mcp
      → p.contains_finalizer mcp.finalizers micro_k8s_control_plane_finalizer ≡ false
      → same Class.mcp_patch k ≡ false
      → let t = (reconcile_request p req s).1 in
        (tally k t.trace ≡ tally k s.trace)
        × (tally Class.mcp_patch t.trace ≤ tally Class.mcp_patch s.trace + 1)
  unfolding reconcile_request
  request_before_finalizer req mcp k s got lacks other =
      grind (arith, λ (owner : Option Cluster) (t : State). owned_before_finalizer owner k t)

  -- Once the deferred function has run to its end, a round that returns asks to come back in 30
  -- seconds, whatever its body has asked for, with the error of the body; and it has patched the
  -- object once.
  pub deferred_result :
      (before : MicroK8sControlPlane) (s : State) (res : Result) (e : Option Error)
      → (reconcile_deferred p before s).0 ≡ returned (res, e)
      → (res ≡ after_seconds 30)
        × ((body : Result) × ((reconcile_body p s).0 ≡ returned (body, e)))
        × (tally Class.mcp_patch (reconcile_deferred p before s).1.trace
            ≡ tally Class.mcp_patch (reconcile_body p s).1.trace + 1)
  unfolding reconcile_deferred finish patch_micro_k8s_control_plane
  deferred_result before s res e ends =
      by_body (reconcile_body p s).0 refl (update_status p (reconcile_body p s).1).0 refl
    where
      by_body :
          (o : Outcome Reconciled)
          → (reconcile_body p s).0 ≡ o
          → (u : Outcome (Option Error)) → (update_status p (reconcile_body p s).1).0 ≡ u
          → (res ≡ after_seconds 30)
            × ((body : Result) × ((reconcile_body p s).0 ≡ returned (body, e)))
            × (tally Class.mcp_patch (reconcile_deferred p before s).1.trace
                ≡ tally Class.mcp_patch (reconcile_body p s).1.trace + 1)
      by_body panicked b u h = absurd (ground arith)
      by_body (returned (body, e')) b panicked h = absurd (ground arith)
      by_body (returned (body, e')) b (returned f) h = (
        ground arith,
        (body, ground arith),
        ground (arith, tally-update_status p Class.mcp_patch (reconcile_body p s).1),
      )
