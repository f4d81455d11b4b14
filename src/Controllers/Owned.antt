-- ===== src/Controllers/Owned.antt =====
-- The machines of a control plane: the query for them, their order by age, and the mapping from a
-- cluster to the object to reconcile (controllers/microk8scontrolplane_controller.go, utils.go).
use cluster_api_control_plan.Common.{
  String, Bool, Option, none, some, List, [], ◌∷◌, ltb, str_eq, if◌then◌else◌,
}
use cluster_api_control_plan.Kube.{Res, ok, err, ObjectKey, ObjectReference, Machine, Cluster}
use cluster_api_control_plan.Calls.{Call}
use cluster_api_control_plan.Platform.{Platform}
use cluster_api_control_plan.Run.{Func, ◌>>=◌, pure, or_return, func, call}

-- `clusterv1.ClusterLabelName` and `clusterv1.MachineControlPlaneLabelName` of Cluster API.
abbrev pub cluster_label_name : String
cluster_label_name = "cluster.x-k8s.io/cluster-name"

abbrev pub machine_control_plane_label_name : String
machine_control_plane_label_name = "cluster.x-k8s.io/control-plane"

abbrev pub control_plane_selector : String → List (String × String)
control_plane_selector cluster_name =
    (cluster_label_name, cluster_name) ∷ (machine_control_plane_label_name, "") ∷ []

-- `SortByCreationTimestamp.Less`: `it[j]` is after `it[i]`.
abbrev pub less : Machine → Machine → Bool
less a b = ltb a.creation_timestamp b.creation_timestamp

-- The name of the control plane is not used in the query.
unfoldable pub get_control_plane_machines_for_cluster :
    Platform → ObjectKey → String → Func (Res (List Machine))
get_control_plane_machines_for_cluster p cluster cp_name = func do
  let request = Call.list_machines cluster.namespace (control_plane_selector cluster.name)
  items ← or_return (← call p request) err
  pure (ok items)

-- An object that a watch reports.
pub data WatchedObject : Type 0 where
  a_cluster : Cluster → WatchedObject
  another : WatchedObject

-- A nil reference, and one of another kind, give no request.
pub requests_for : Option ObjectReference → List ObjectKey
requests_for none = []
requests_for (some ref) =
    if str_eq ref.kind "MicroK8sControlPlane"
    then (record { namespace = ref.namespace; name = ref.name }) ∷ []
    else []

unfoldable pub cluster_to_micro_k8s_control_plane : WatchedObject → List ObjectKey
unfolding requests_for
cluster_to_micro_k8s_control_plane (a_cluster c) = requests_for c.control_plane_ref
cluster_to_micro_k8s_control_plane another = []
