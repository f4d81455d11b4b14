-- ===== src/Controllers/Upgrade/Quiet.antt =====
-- An upgrade in place updates machines, and creates and deletes none.
use cluster_api_control_plan.Common.{ℕ, zero, suc, ◌≡◌, refl, arith, String, false, List}
use cluster_api_control_plan.Kube.{Machine}
use cluster_api_control_plan.Calls.{KubernetesClient}
use cluster_api_control_plan.Platform.{Platform}
use cluster_api_control_plan.Run.{State}
use cluster_api_control_plan.Run.Tally.{Class, same, tally}
use cluster_api_control_plan.Run.Loops.{tally-for_each}
use cluster_api_control_plan.Controllers.Upgrade.{
  create_upgrade_pod, await_version, wait_for_node_upgrade, wait_for_pod_deletion, upgrade_machine,
  upgrade_in_place,
}

module _ (p : Platform) (kubeclient : KubernetesClient) (k : Class) where
  tally-create_upgrade_pod :
      (node version : String) (s : State)
      → tally k (create_upgrade_pod p kubeclient node version s).1.trace ≡ tally k s.trace
  unfolding create_upgrade_pod
  tally-create_upgrade_pod node version s = ground arith

  tally-await_version :
      (n : ℕ) (node version : String) (s : State)
      → tally k (await_version p kubeclient n node version s).1.trace ≡ tally k s.trace
  unfolding await_version
  tally-await_version zero node version s = refl
  tally-await_version (suc n) node version s =
      grind (arith, λ (v : String) (t : State). tally-await_version n node v t)

  tally-wait_for_node_upgrade :
      (node version : String) (s : State)
      → tally k (wait_for_node_upgrade p kubeclient node version s).1.trace ≡ tally k s.trace
  unfolding wait_for_node_upgrade
  tally-wait_for_node_upgrade node version s = ground (arith, tally-await_version 60 node version s)

  tally-wait_for_pod_deletion :
      (pod : String) (s : State)
      → tally k (wait_for_pod_deletion p kubeclient pod s).1.trace ≡ tally k s.trace
  unfolding wait_for_pod_deletion
  tally-wait_for_pod_deletion pod s = ground arith

  tally-upgrade_machine :
      (m : Machine) (s : State)
      → same Class.machine_update k ≡ false
      → tally k (upgrade_machine p kubeclient m s).1.trace ≡ tally k s.trace
  unfolding upgrade_machine
  tally-upgrade_machine m s h =
      grind
        (arith, tally-create_upgrade_pod, tally-wait_for_node_upgrade, tally-wait_for_pod_deletion)

  pub tally-upgrade_in_place :
      (ms : List Machine) (s : State)
      → same Class.machine_update k ≡ false
      → tally k (upgrade_in_place p kubeclient ms s).1.trace ≡ tally k s.trace
  unfolding upgrade_in_place
  tally-upgrade_in_place ms s h =
      tally-for_each k (upgrade_machine p kubeclient) (λ m t. tally-upgrade_machine m t h) ms s
