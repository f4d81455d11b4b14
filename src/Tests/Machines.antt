-- ===== src/Tests/Machines.antt =====
-- The creation, deletion and upgrade of machines.
use cluster_api_control_plan.Common.{◌≡◌, inl, refl, ◌≤◌, ◌+◌, arith, true, none, some, [], ◌∷◌}
use cluster_api_control_plan.Common.Int.{pos}
use cluster_api_control_plan.Kube.{api_error, err, ObjectKey, Machine}
use cluster_api_control_plan.Calls.{Call, KubernetesClient}
use cluster_api_control_plan.Run.{State, Outcome, returned, panic}
use cluster_api_control_plan.Run.Tally.{Class, tally}
use cluster_api_control_plan.Controllers.Boot.{
  Reconciled, no_requeue, requeue_now, boot_control_plane,
}
use cluster_api_control_plan.Controllers.Boot.Report.{BootReport, boot_control_plane_reports}
use cluster_api_control_plan.Controllers.Kubeconfig.{
  kubeconfig_for_cluster, create_kubeconfig, has_secret_named, entry,
}
use cluster_api_control_plan.Controllers.Kubeconfig.Shadowed.{own_secret, kubeconfig_shadowed}
use cluster_api_control_plan.Controllers.Machines.{
  reconcile_machines, sort_and_read, version_differs, bootstrap_cluster,
}
use cluster_api_control_plan.Controllers.Machines.Refusal.{
  refused, reconcile_machines_refuses, Bootstrapped, lacks_ip, bootstrap_cluster_cases,
}
use cluster_api_control_plan.Controllers.Machines.Safety.{removals_of_few, creations_of_many}
use cluster_api_control_plan.Controllers.ScaleDown.{
  scale_down_control_plane, scale_down_with, choose, consider, finish_deletion, remove,
}
use cluster_api_control_plan.Controllers.ScaleDown.Choice.{
  last_deleted, IsOldest, scale_down_control_plane-IsOldest,
}
use cluster_api_control_plan.Controllers.ScaleDown.NilNode.{EndsAt, scale_down_nil_node}
use cluster_api_control_plan.Controllers.Upgrade.{
  value_at, create_upgrade_pod, upgrade_machine, wait_for_node_upgrade,
}
use cluster_api_control_plan.Controllers.Upgrade.Waiting.{
  slept, wait_for_node_upgrade_bounded, wait_for_node_upgrade_timeout, upgrade_machine_nil_pod,
}
use cluster_api_control_plan.Tests.World.{
  Scenario, four, world, world-MarksConditions, start, machine, node, secret_in, a_cluster,
}

abbrev key : ObjectKey
key = record { namespace = "ns"; name = "c" }

abbrev client : KubernetesClient
client = record { kubeconfig = 1 ∷ [] }

-- `scaleDownControlPlane` in the scenario with four machines.
scaled : Outcome Reconciled × State
unfolding scale_down_control_plane scale_down_with choose consider finish_deletion remove
    kubeconfig_for_cluster create_kubeconfig has_secret_named entry
scaled = scale_down_control_plane (world four) key (four.machines) (start four)

scaled-run :
    (scaled.0 ≡ returned (requeue_now, none))
    × (last_deleted scaled.1.trace ≡ some (machine "a" 1))
    × (tally Class.machine_deletion scaled.1.trace ≡ 1)
unfolding scaled
scaled-run = (refl, refl, refl)

scale_down_control_plane-IsOldest_example :
    (m : Machine) × (last_deleted
        (scale_down_control_plane (world four) key (four.machines) (start four)).1.trace
      ≡ some m)
    × IsOldest m (four.machines)
unfolding scaled
scale_down_control_plane-IsOldest_example =
    scale_down_control_plane-IsOldest (world four) key (start four) (four.machines) (omega arith)

removals_of_few_example :
    tally Class.machine_deletion
      (reconcile_machines (world four) (machine "a" 1 ∷ []) (start four)).1.trace
    ≡ 0
removals_of_few_example =
    removals_of_few (world four) (machine "a" 1 ∷ []) (start four) Class.machine_deletion (pos 3)
      refl refl (inl (omega arith))

creations_of_many_example :
    tally Class.machine_creation
      (reconcile_machines (world four) (four.machines) (start four)).1.trace
    ≡ 0
creations_of_many_example =
    creations_of_many (world four) (four.machines) (start four) Class.machine_creation (pos 3) refl
      refl (omega arith)

boot_control_plane_reports_example :
    BootReport (world four) (start four) (boot_control_plane (world four) true (start four))
boot_control_plane_reports_example =
    boot_control_plane_reports (world four) (λ trace n. omega arith) (world-MarksConditions four)
      true (start four)

-- A kubeconfig secret of the same name in another namespace, and none in the cluster's own.
abbrev shadow : Scenario
shadow = record four {
  secrets = secret_in "other" ∷ [];
  secret = err (api_error "NotFound" "c-kubeconfig");
}

kubeconfig_shadowed_example : kubeconfig_for_cluster (world shadow) key (start shadow) ≡ (
  returned (err (api_error "NotFound" "c-kubeconfig")),
  record (start shadow) { trace = own_secret key ∷ Call.get_cluster key ∷ Call.list_secrets ∷ [] },
)
kubeconfig_shadowed_example =
    kubeconfig_shadowed (world shadow) key (start shadow) (secret_in "other")
      (secret_in "other" ∷ []) a_cluster (api_error "NotFound" "c-kubeconfig") (inl refl) refl refl
      refl refl

-- Two machines, one wanted replica.
abbrev two : Scenario
two = record four { replicas = pos 1; machines = machine "a" 1 ∷ machine "b" 2 ∷ [] }

reconcile_machines_refuses_example :
    let (r, t) = reconcile_machines (world two) (two.machines) (start two) in
    (r ≡ returned (no_requeue, none))
    × (t.trace ≡ [])
    × ((world two).get_condition "Resized" t.mcp.status.conditions ≡ some (refused (world two)))
unfolding sort_and_read version_differs
reconcile_machines_refuses_example =
    reconcile_machines_refuses (world two) (world-MarksConditions two) (pos 1) (two.machines)
      (two.machines) "v1.25" (start two) refl (omega arith) (omega arith) refl refl

-- The second machine has only an external address.
abbrev addressless : Machine
addressless = record (machine "b" 2) {
  addresses = (record { type_ = "ExternalIP"; address = "10.0.0.2" }) ∷ [];
}

bootstrap_cluster_cases_example :
    Bootstrapped (machine "a" 1 ∷ addressless ∷ []) (some (lacks_ip addressless))
unfolding bootstrap_cluster
bootstrap_cluster_cases_example = bootstrap_cluster_cases (machine "a" 1 ∷ addressless ∷ [])

-- A machine that is being deleted, with no node.
abbrev leaving : Machine
leaving = record (machine "b" 2) { deletion_timestamp = some 9; node_ref = none }

scale_down_nil_node_example :
    EndsAt
      (world four)
      client
      none
      ((kubeconfig_for_cluster (world four) key (start four)).1.trace)
      (scale_down_control_plane (world four) key (machine "a" 1 ∷ leaving ∷ []) (start four))
unfolding kubeconfig_for_cluster has_secret_named entry
scale_down_nil_node_example =
    scale_down_nil_node (world four) key leaving (machine "a" 1 ∷ []) 9 (start four) client refl
      refl

wait_for_node_upgrade_bounded_example :
    slept (wait_for_node_upgrade (world four) client "a" "v1.25" (start four)).1.trace ≤ 0 + 600
wait_for_node_upgrade_bounded_example =
    wait_for_node_upgrade_bounded (world four) client "a" "v1.25" (start four)

wait_for_node_upgrade_timeout_example :
    let (r, t) = wait_for_node_upgrade (world four) client "a" "v1.25" (start four) in
    (r ≡ returned none) × (slept t.trace ≡ 600)
wait_for_node_upgrade_timeout_example =
    wait_for_node_upgrade_timeout (world four) client "a" "v1.25" (node "v1.24") (start four)
      (λ trace. refl) (λ v. refl) refl

upgrade_machine_nil_pod_example :
    let (r, t) = upgrade_machine (world four) client (machine "a" 1) (start four) in
    let u =
      (create_upgrade_pod
        (world four)
        client
        "a"
        "v1.25"
        (record (start four) { trace = Call.get_node client "a" ∷ [] })).1 in
    let v = (wait_for_node_upgrade (world four) client "a" "v1.25" u).1 in
    let unnamed : ObjectKey = record { namespace = "ns"; name = "" } in
    let current = ((world four).answer (Call.sleep 10 ∷ v.trace) (Call.get_machine unnamed)).0 in
    (r ≡ panic)
    × (t.trace
        ≡ Call.sleep 10
          ∷ Call.update_machine (record current { version = some "v1.25" })
          ∷ Call.get_machine unnamed
          ∷ Call.sleep 10
          ∷ v.trace)
unfolding value_at
upgrade_machine_nil_pod_example =
    upgrade_machine_nil_pod (world four) client (machine "a" 1) "a" (node "v1.24")
      (api_error "Forbidden" "no pods") (start four) refl (λ trace. refl) (λ trace pod. refl)
