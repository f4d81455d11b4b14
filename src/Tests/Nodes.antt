-- ===== src/Tests/Nodes.antt =====
-- The nodes of the workload cluster, their provider IDs and their upgrade in place; and the machine
-- that is created for one.
use cluster_api_control_plan.Common.{
  ◌≡◌, ◌⊎◌, refl, arith, true, some, ◌≤◌, ◌+◌, ◌*◌, length, List, [], ◌∷◌,
}
use cluster_api_control_plan.Kube.{ok, Machine, Node}
use cluster_api_control_plan.Calls.{Call, Reply, KubernetesClient}
use cluster_api_control_plan.Platform.{Platform}
use cluster_api_control_plan.Run.Loops.{spent}
use cluster_api_control_plan.Controllers.Boot.{
  generate_micro_k8s_config, get_failure_domain, place, create_machine, boot_control_plane,
}
use cluster_api_control_plan.Controllers.Boot.Owned.{
  last_created, IsOwned, boot_control_plane-IsOwned,
}
use cluster_api_control_plan.Controllers.Upgrade.{upgrade_in_place}
use cluster_api_control_plan.Controllers.Upgrade.Updates.{strays, updates, upgrade_in_place-updates}
use cluster_api_control_plan.Controllers.Status.{update_provider_id}
use cluster_api_control_plan.Controllers.Status.Provided.{
  misplaced, node_updates, update_provider_id_owners,
}
use cluster_api_control_plan.Controllers.Upgrade.Waiting.{slept}
use cluster_api_control_plan.Controllers.Machines.{reconcile_machines}
use cluster_api_control_plan.Growth.Sleeping.{reconcile_machines_sleeps, reconcile_machines_calls}
use cluster_api_control_plan.Tests.Fleet.{keeping-sorts}
use cluster_api_control_plan.Tests.World.{four, world, start, answer, machine, node, a_cluster}

abbrev client : KubernetesClient
client = record { kubeconfig = [] }

abbrev nodes : List Node
nodes = node "v1.25" ∷ []

abbrev machines : List Machine
machines = machine "b" 2 ∷ machine "a" 1 ∷ machine "d" 4 ∷ machine "c" 3 ∷ []

abbrev listing_answer : List Call → (c : Call) → Reply c
listing_answer trace (Call.list_nodes kubeclient selector) = ok nodes
listing_answer trace c = answer four trace c

abbrev listing : Platform
listing = record (world four) { answer = listing_answer }

update_provider_id_owners_example :
    let t = (update_provider_id listing client (start four)).1 in
    (misplaced machines t.trace ≡ 0) × (node_updates t.trace ≤ 0 + 1)
update_provider_id_owners_example =
    update_provider_id_owners listing client nodes machines (start four) refl refl

upgrade_in_place-updates_example :
    let (r, t) = upgrade_in_place listing client machines (start four) in
    (strays "v1.25" t.trace ≡ 0) × (updates t ≤ 0 + 4) × ((updates t ≡ 0 + 4) ⊎ (spent r ≡ 1))
upgrade_in_place-updates_example =
    upgrade_in_place-updates listing client "v1.25" machines (start four) refl

boot_control_plane-IsOwned_example :
    (m : Machine) × (last_created (boot_control_plane listing true (start four)).1.trace ≡ some m)
    × IsOwned ((start four).mcp) a_cluster m
unfolding boot_control_plane generate_micro_k8s_config create_machine place get_failure_domain
boot_control_plane-IsOwned_example =
    boot_control_plane-IsOwned listing true (start four) (omega arith)

reconcile_machines_sleeps_example :
    slept (reconcile_machines listing machines (start four)).1.trace ≤ 0 + 630 * 4
reconcile_machines_sleeps_example =
    reconcile_machines_sleeps listing keeping-sorts machines (start four)

reconcile_machines_calls_example :
    length (reconcile_machines listing machines (start four)).1.trace ≤ 0 + 23 + 128 * 4
reconcile_machines_calls_example =
    reconcile_machines_calls listing keeping-sorts machines (start four)
