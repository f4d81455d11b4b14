-- ===== src/Controllers/Status/Quiet.antt =====
-- Updating the status changes no machine, and no object but nodes and the kubeconfig secret.
use cluster_api_control_plan.Common.{◌≡◌, refl, arith, List, [], ◌∷◌}
use cluster_api_control_plan.Kube.{Address, Machine, Node}
use cluster_api_control_plan.Calls.{KubernetesClient}
use cluster_api_control_plan.Platform.{Platform}
use cluster_api_control_plan.Run.{State}
use cluster_api_control_plan.Run.Tally.{Class, tally}
use cluster_api_control_plan.Run.Loops.{tally-for_each}
use cluster_api_control_plan.Controllers.Owned.{get_control_plane_machines_for_cluster}
use cluster_api_control_plan.Controllers.Kubeconfig.Quiet.{tally-kubeconfig_for_cluster}
use cluster_api_control_plan.Controllers.Status.{
  adopt_machine, provide_id, update_provider_id, node_status, observe_nodes, update_status,
}

module _ (p : Platform) (k : Class) where
  tally-adopt_machine :
      (c : KubernetesClient) (ms : List Machine) (node : Node) (as' : List Address) (s : State)
      → tally k (adopt_machine p c ms node as' s).1.trace ≡ tally k s.trace
  unfolding adopt_machine
  tally-adopt_machine c ms node [] s = refl
  tally-adopt_machine c ms node (a ∷ as') s = ground (arith, tally-adopt_machine c ms node as' s)

  tally-provide_id :
      (c : KubernetesClient) (ms : List Machine) (node : Node) (s : State)
      → tally k (provide_id p c ms node s).1.trace ≡ tally k s.trace
  unfolding provide_id
  tally-provide_id c ms node s = ground (arith, tally-adopt_machine c ms node node.addresses s)

  tally-update_provider_id :
      (c : KubernetesClient) (s : State)
      → tally k (update_provider_id p c s).1.trace ≡ tally k s.trace
  unfolding update_provider_id
  tally-update_provider_id c s =
      grind
        (arith, λ (ms : List Machine). tally-for_each k (provide_id p c ms) (tally-provide_id c ms))

  tally-node_status :
      (nodes : List Node) (s : State) → tally k (node_status p nodes s).1.trace ≡ tally k s.trace
  unfolding node_status
  tally-node_status nodes s = ground arith

  tally-observe_nodes :
      (c : KubernetesClient) (s : State) → tally k (observe_nodes p c s).1.trace ≡ tally k s.trace
  unfolding observe_nodes
  tally-observe_nodes c s = grind (arith, tally-update_provider_id, tally-node_status)

  pub tally-update_status : (s : State) → tally k (update_status p s).1.trace ≡ tally k s.trace
  unfolding update_status get_control_plane_machines_for_cluster
  tally-update_status s = grind (arith, tally-observe_nodes, tally-kubeconfig_for_cluster p k)
