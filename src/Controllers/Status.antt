-- ===== src/Controllers/Status.antt =====
-- controllers/status.go: the status of the control plane object, and the provider IDs of nodes.
pub mod Dying
pub mod Provided
pub mod Counts
pub mod Quiet
use cluster_api_control_plan.Common.{
  String, Bool, true, false, not, ◌||◌, Option, none, some, List, [], ◌∷◌, length, str_eq,
  if◌then◌else◌,
}
use cluster_api_control_plan.Common.Int.{ℤ, pos, to_int32, sub_int32, inc_int32}
use cluster_api_control_plan.Kube.{Error, wrap, Address, Machine, Node}
use cluster_api_control_plan.Api.{MicroK8sControlPlaneStatus, available_condition}
use cluster_api_control_plan.Calls.{Call, KubernetesClient}
use cluster_api_control_plan.Platform.{Platform}
use cluster_api_control_plan.Run.{
  Stmt, Func, ◌>>=◌, ◌>>◌, pass, pure, return, deref, or_return, check, func, invoke, call,
  for_each, read_mcp, read_cluster, write_mcp, update_conditions,
}
use cluster_api_control_plan.Controllers.Owned.{
  cluster_label_name, control_plane_selector, get_control_plane_machines_for_cluster,
}
use cluster_api_control_plan.Controllers.ScaleDown.{closing}
use cluster_api_control_plan.Controllers.Kubeconfig.{kubeconfig_for_cluster}
use cluster_api_control_plan.Controllers.Machines.{key_of}

-- The loop over a machine's addresses in `findMachineWithAddress`.
unfoldable pub has_address : String → List Address → Bool
has_address address [] = false
has_address address (a ∷ addresses) = str_eq a.address address || has_address address addresses

unfoldable pub find_machine_with_address : List Machine → Address → Option Machine
unfolding has_address
find_machine_with_address [] address = none
find_machine_with_address (m ∷ machines) address =
    if has_address address.address m.addresses
    then some m
    else find_machine_with_address machines address

module _ (p : Platform) where
  -- The loop over the addresses of a node, which ends at the first that a machine has.
  unfoldable pub adopt_machine :
      KubernetesClient → List Machine → Node → List Address → Stmt (Option Error) (Unit {0})
  adopt_machine kubeclient machines node [] = pass
  adopt_machine kubeclient machines node (address ∷ addresses) =
      elim (find_machine_with_address machines address) [
        | none ↦ adopt_machine kubeclient machines node addresses
        | some machine ↦ do
          provider_id ← deref machine.provider_id
          check (← call p (Call.update_node kubeclient (record node { provider_id = provider_id })))
              some
      ]

  -- One round of the loop over the nodes.
  unfoldable pub provide_id :
      KubernetesClient → List Machine → Node → Stmt (Option Error) (Unit {0})
  provide_id kubeclient machines node =
      if not (p.is_node_ready node) || not (str_eq node.provider_id "")
      then pass
      else adopt_machine kubeclient machines node node.addresses

  unfoldable pub update_provider_id : KubernetesClient → Func (Option Error)
  update_provider_id kubeclient = func do
    cluster ← read_cluster
    nodes ← or_return (← call p (Call.list_nodes kubeclient none)) some
    let request = Call.list_machines cluster.namespace ((cluster_label_name, cluster.name) ∷ [])
    machines ← or_return (← call p request) some
    for_each nodes (provide_id kubeclient machines)
    pure none

  -- `ReadyReplicas++` for each node that is ready.
  unfoldable pub count_ready : List Node → ℤ → ℤ
  count_ready [] ready = ready
  count_ready (node ∷ nodes) ready =
      count_ready nodes (if p.is_node_ready node then inc_int32 ready else ready)

  -- The fields set from the machines alone.
  abbrev pub basic_status : ℤ → MicroK8sControlPlaneStatus → MicroK8sControlPlaneStatus
  basic_status replicas status = record status {
    ready = false;
    replicas = replicas;
    ready_replicas = pos 0;
    unavailable_replicas = replicas;
  }

  abbrev pub update_status_fields :
      (MicroK8sControlPlaneStatus → MicroK8sControlPlaneStatus) → Stmt (Option Error) (Unit {0})
  update_status_fields f = do mcp ← read_mcp; write_mcp (record mcp { status = f mcp.status })

  -- The fields set from the control plane nodes of the workload cluster.
  unfoldable pub node_status : List Node → Stmt (Option Error) (Unit {0})
  node_status nodes = do
    update_status_fields (λ status.
        let ready_replicas = count_ready nodes status.ready_replicas in
        record status {
          ready_replicas = ready_replicas;
          unavailable_replicas = sub_int32 status.replicas ready_replicas;
        })
    elim nodes [
      | [] ↦ pass
      | node ∷ rest ↦ do
        update_status_fields (λ status. record status { initialized = true })
        update_conditions (p.mark_true available_condition)
        update_status_fields (λ status. record status { ready = true })
    ]

  -- What is done with a client of the workload cluster.
  unfoldable pub observe_nodes : KubernetesClient → Stmt (Option Error) (Option Error)
  observe_nodes kubeclient = do
    check (← invoke (update_provider_id kubeclient)) some
    selector ← or_return (p.exists_requirement "node.kubernetes.io/microk8s-controlplane") some
    nodes ← or_return (← call p (Call.list_nodes kubeclient (some selector))) some
    node_status nodes
    pure none

  unfoldable pub update_status : Func (Option Error)
  update_status = func do
    cluster ← read_cluster
    selector ←
        or_return (p.selector_string (control_plane_selector cluster.name))
          (λ e. some (wrap e "failed to parse label selector"))
    update_status_fields (λ status. record status { selector = selector })
    mcp ← read_mcp
    listed ← invoke (get_control_plane_machines_for_cluster p (key_of cluster) mcp.name)
    owned ← or_return listed some
    update_status_fields (basic_status (to_int32 (length owned)))
    elim mcp.deletion_timestamp [ none ↦ pass | some t ↦ return none ]
    kubeclient ← or_return (← invoke (kubeconfig_for_cluster p (key_of cluster))) (λ e. none)
    closing p kubeclient (observe_nodes kubeclient)
