-- ===== src/Growth/Rounds.antt =====
-- A round of `Reconcile` only adds calls to the trace.
use cluster_api_control_plan.Common.{ℕ, ◌≡◌, arith, ◌≤◌, List, [], ◌∷◌, Option, none, some}
use cluster_api_control_plan.Kube.{ok, Machine, Cluster, Address, Node, ObjectKey}
use cluster_api_control_plan.Api.{MicroK8sControlPlane}
use cluster_api_control_plan.Calls.{Call, KubernetesClient}
use cluster_api_control_plan.Platform.{Platform}
use cluster_api_control_plan.Run.{State}
use cluster_api_control_plan.Controllers.Boot.{Reconciled}
use cluster_api_control_plan.Controllers.Owned.{get_control_plane_machines_for_cluster}
use cluster_api_control_plan.Controllers.Machines.{reconcile_machines}
use cluster_api_control_plan.Controllers.Status.{
  adopt_machine, provide_id, update_provider_id, node_status, observe_nodes, update_status,
}
use cluster_api_control_plan.Controllers.Reconcile.{
  reconcile_external_reference, reconcile_node_health, reconcile_conditions, run_phases, reconcile,
  patch_micro_k8s_control_plane, finish, reconcile_body, reconcile_deferred, initialize,
  reconcile_owned, reconcile_request,
}
use cluster_api_control_plan.Growth.Machines.{
  for_each-grows, kubeconfig_for_cluster-grows, reconcile_machines-grows,
}

module _ (f : List Call → ℕ) (mono : (c : Call) (t : List Call) → f t ≤ f (c ∷ t))
    (p : Platform) where
  adopt_machine-grows :
      (c : KubernetesClient) (ms : List Machine) (node : Node) (as' : List Address) (s : State)
      → f s.trace ≤ f (adopt_machine p c ms node as' s).1.trace
  unfolding adopt_machine
  adopt_machine-grows c ms node [] s = omega arith
  adopt_machine-grows c ms node (a ∷ as') s =
      grind (arith, mono, adopt_machine-grows c ms node as' s)

  provide_id-grows :
      (c : KubernetesClient) (ms : List Machine) (node : Node) (s : State)
      → f s.trace ≤ f (provide_id p c ms node s).1.trace
  unfolding provide_id
  provide_id-grows c ms node s = ground (arith, adopt_machine-grows c ms node node.addresses s)

  update_provider_id-grows :
      (c : KubernetesClient) (s : State) → f s.trace ≤ f (update_provider_id p c s).1.trace
  unfolding update_provider_id
  update_provider_id-grows c s = grind (
    arith,
    mono,
    λ (ms : List Machine). for_each-grows f mono (provide_id p c ms) (provide_id-grows c ms),
  )

  node_status-grows :
      (nodes : List Node) (s : State) → f s.trace ≤ f (node_status p nodes s).1.trace
  unfolding node_status
  node_status-grows nodes s = ground arith

  observe_nodes-grows :
      (c : KubernetesClient) (s : State) → f s.trace ≤ f (observe_nodes p c s).1.trace
  unfolding observe_nodes
  observe_nodes-grows c s = grind (arith, mono, update_provider_id-grows, node_status-grows)

  update_status-grows : (s : State) → f s.trace ≤ f (update_status p s).1.trace
  unfolding update_status get_control_plane_machines_for_cluster
  update_status-grows s =
      grind (arith, mono, observe_nodes-grows, kubeconfig_for_cluster-grows f mono p)

  pub external-grows : (s : State) → f s.trace ≤ f (reconcile_external_reference p s).1.trace
  unfolding reconcile_external_reference
  external-grows s = grind (arith, mono)

  node_health-grows :
      (ms : List Machine) (s : State) → f s.trace ≤ f (reconcile_node_health p ms s).1.trace
  unfolding reconcile_node_health
  node_health-grows ms s = ground arith

  conditions-grows :
      (ms : List Machine) (s : State) → f s.trace ≤ f (reconcile_conditions p ms s).1.trace
  unfolding reconcile_conditions
  conditions-grows ms s = ground arith

  phases-grow :
      (ms : List Machine) (acc : Reconciled) (s : State)
      → f s.trace
        ≤ f
            (run_phases p
              (reconcile_node_health p ∷ reconcile_conditions p ∷ reconcile_machines p ∷ [])
              ms
              acc
              s).1.trace
  unfolding run_phases
  phases-grow ms acc s =
      grind (arith, node_health-grows, conditions-grows, reconcile_machines-grows f mono p)

  reconcile-grows : (s : State) → f s.trace ≤ f (reconcile p s).1.trace
  unfolding reconcile get_control_plane_machines_for_cluster
  reconcile-grows s = grind (arith, mono, external-grows, phases-grow)

  pub finish-grows :
      (before : MicroK8sControlPlane) (s : State) → f s.trace ≤ f (finish p before s).1.trace
  unfolding finish patch_micro_k8s_control_plane
  finish-grows before s = grind (arith, mono, update_status-grows)

  deferred-grows :
      (before : MicroK8sControlPlane) (s : State)
      → s.mcp.deletion_timestamp ≡ none
      → f s.trace ≤ f (reconcile_deferred p before s).1.trace
  unfolding reconcile_deferred reconcile_body
  deferred-grows before s present = grind (arith, reconcile-grows s, finish-grows before)

  owned-grows :
      (owner : Option Cluster) (s : State)
      → s.mcp.deletion_timestamp ≡ none
      → f s.trace ≤ f (reconcile_owned p owner s).1.trace
  unfolding reconcile_owned initialize patch_micro_k8s_control_plane
  owned-grows none s present = omega arith
  owned-grows (some c) s present = grind (arith, mono, deferred-grows)

  pub request-grows :
      (req : ObjectKey) (mcp : MicroK8sControlPlane) (s : State)
      → p.answer s.trace (Call.get_mcp req) ≡ ok mcp
      → mcp.deletion_timestamp ≡ none
      → f s.trace ≤ f (reconcile_request p req s).1.trace
  unfolding reconcile_request
  request-grows req mcp s got present = grind (arith, mono, owned-grows)
