-- ===== src/Tests/Rounds.antt =====
-- Whole rounds of `Reconcile`, deletion and the status.
use cluster_api_control_plan.Common.{
  ◌≡◌, ◌⊎◌, inl, refl, ◌≤◌, ◌+◌, arith, true, false, none, some, [], ◌∷◌,
}
use cluster_api_control_plan.Common.Int.{pos, sub_ℕ}
use cluster_api_control_plan.Kube.{ok, ObjectKey, Address, Machine, Result}
use cluster_api_control_plan.Api.{available_condition, machines_bootstrapped, get_conditions}
use cluster_api_control_plan.Calls.{Call}
use cluster_api_control_plan.Run.{State, Outcome, returned, for_each}
use cluster_api_control_plan.Run.Tally.{Class, tally}
use cluster_api_control_plan.Controllers.Boot.{Reconciled, no_requeue, after_seconds}
use cluster_api_control_plan.Controllers.Owned.{
  control_plane_selector, get_control_plane_machines_for_cluster,
}
use cluster_api_control_plan.Controllers.Delete.{
  reconcile_delete, release, delete_all, submit_deletion, delete_secret,
}
use cluster_api_control_plan.Controllers.Delete.Finalizer.{
  secret_deletion, release_when_empty, reconcile_delete_all,
}
use cluster_api_control_plan.Controllers.Machines.Quiet.{changes}
use cluster_api_control_plan.Controllers.Reconcile.{
  reconcile_request, reconcile_deferred, reconcile_body, finish, patch_micro_k8s_control_plane,
  reconcile_conditions,
}
use cluster_api_control_plan.Controllers.Reconcile.Rounds.{
  request_changes_le_one, request_before_finalizer, deferred_result,
}
use cluster_api_control_plan.Controllers.Reconcile.Conditions.{reconcile_conditions_completes}
use cluster_api_control_plan.Controllers.Status.{
  has_address, find_machine_with_address, node_status, update_status,
}
use cluster_api_control_plan.Controllers.Status.Counts.{
  Found, find_machine_with_address_lem, node_status_counts,
}
use cluster_api_control_plan.Controllers.Status.Dying.{machines_query, update_status_dying}
use cluster_api_control_plan.Tests.World.{
  Scenario, four, world, start, control_plane, machine, node, a_cluster, world-MarksConditions,
}

abbrev req : ObjectKey
req = record { namespace = "ns"; name = "cp" }

request_changes_le_one_example :
    changes (reconcile_request (world four) req (start four)).1.trace ≤ 0 + 1
request_changes_le_one_example =
    request_changes_le_one (world four) req (control_plane four) (start four) refl refl

-- The object before its first round.
abbrev fresh : Scenario
fresh = record four { finalizers = []; machines = [] }

request_before_finalizer_example :
    let t = (reconcile_request (world fresh) req (start fresh)).1 in
    (tally Class.machine_creation t.trace ≡ 0) × (tally Class.mcp_patch t.trace ≤ 0 + 1)
request_before_finalizer_example =
    request_before_finalizer (world fresh) req (control_plane fresh) Class.machine_creation
      (start fresh) refl refl refl

-- The object under deletion, with machines and without.
abbrev dying : Scenario
dying = record four { deletion_timestamp = some 5 }

abbrev dead : Scenario
dead = record four { deletion_timestamp = some 5; machines = [] }

reconcile_delete_all_example :
    let (r, t) = reconcile_delete (world dying) (start dying) in
    (r ≡ returned (after_seconds 30, none))
    × (t.trace
        ≡ secret_deletion a_cluster "jointoken"
          ∷ secret_deletion a_cluster "ca"
          ∷ secret_deletion a_cluster "kubeconfig"
          ∷ Call.delete_machine (machine "c" 3)
          ∷ Call.delete_machine (machine "d" 4)
          ∷ Call.delete_machine (machine "a" 1)
          ∷ Call.delete_machine (machine "b" 2)
          ∷ machines_query (start dying)
          ∷ [])
    × (t.mcp.finalizers ≡ dying.finalizers)
reconcile_delete_all_example =
    reconcile_delete_all (world dying) (λ trace m. inl refl) (machine "b" 2)
      (machine "a" 1 ∷ machine "d" 4 ∷ machine "c" 3 ∷ []) (start dying) refl

deleted : Outcome Reconciled × State
unfolding reconcile_delete get_control_plane_machines_for_cluster release delete_all submit_deletion
    delete_secret for_each
deleted = reconcile_delete (world dead) (start dead)

release_when_empty_example :
    (world dead).answer [] (Call.list_machines "ns" (control_plane_selector "c")) ≡ ok []
unfolding deleted
release_when_empty_example = release_when_empty (world dead) (start dead) (omega arith)

-- The two parts of a round on the object without machines that is being deleted.
deferred : Outcome Reconciled × State
unfolding reconcile_deferred reconcile_body finish patch_micro_k8s_control_plane update_status
    deleted
deferred = reconcile_deferred (world dead) (control_plane dead) (start dead)

deferred_result_example :
    (after_seconds 30 ≡ after_seconds 30)
    × ((body : Result) × ((reconcile_body (world dead) (start dead)).0 ≡ returned (body, none)))
    × (tally Class.mcp_patch
          (reconcile_deferred (world dead) (control_plane dead) (start dead)).1.trace
        ≡ tally Class.mcp_patch (reconcile_body (world dead) (start dead)).1.trace + 1)
unfolding deferred
deferred_result_example =
    deferred_result (world dead) (control_plane dead) (start dead) (after_seconds 30) none refl

node_status_counts_example :
    let t = (node_status (world four) (node "v1.25" ∷ node "v1.25" ∷ []) (start four)).1 in
    (t.mcp.status.ready_replicas ≡ pos 2)
    × (t.mcp.status.unavailable_replicas ≡ sub_ℕ 0 2)
    × (t.mcp.status.initialized ≡ true)
    × (t.mcp.status.ready ≡ true)
node_status_counts_example =
    node_status_counts (world four) (node "v1.25" ∷ node "v1.25" ∷ []) 0 (start four) refl refl
      (omega arith) (omega arith)

abbrev address : Address
address = record { type_ = "Hostname"; address = "10.0.0.1" }

-- Only the second machine has the address, and under another type.
abbrev elsewhere : Machine
elsewhere = record (machine "a" 1) {
  addresses = (record { type_ = "Hostname"; address = "10.0.0.9" }) ∷ [];
}

find_machine_with_address_lem_example :
    Found (elsewhere ∷ machine "b" 2 ∷ []) "10.0.0.1" (some (machine "b" 2))
unfolding find_machine_with_address has_address
find_machine_with_address_lem_example =
    find_machine_with_address_lem (elsewhere ∷ machine "b" 2 ∷ []) address

update_status_dying_example :
    let (r, t) = update_status (world dying) (start dying) in
    (r ≡ returned none)
    × (t.trace ≡ machines_query (start dying) ∷ [])
    × (t.mcp.status.selector ≡ "")
    × (t.mcp.status.replicas ≡ pos 4)
    × (t.mcp.status.unavailable_replicas ≡ pos 4)
    × (t.mcp.status.ready_replicas ≡ pos 0)
    × (t.mcp.status.ready ≡ false)
    × (t.mcp.status.initialized ≡ false)
update_status_dying_example =
    update_status_dying (world dying) (start dying) 5 "" (dying.machines) refl refl refl
      (omega arith)

reconcile_conditions_completes_example :
    let (r, t) = reconcile_conditions (world four) [] (start four) in
    (r ≡ returned (no_requeue, none))
    × (t.trace ≡ [])
    × ((world four).has_condition available_condition (get_conditions t.mcp) ≡ true)
    × ((world four).has_condition machines_bootstrapped (get_conditions t.mcp) ≡ true)
    × (((world four).has_condition "Resized" [] ≡ false)
        ⊎ ((world four).get_condition "Resized" (get_conditions t.mcp) ≡ none))
reconcile_conditions_completes_example =
    reconcile_conditions_completes (world four) (world-MarksConditions four) [] "Resized"
      (start four)
