-- ===== src/Controllers/Status/Dying.antt =====
-- The status of a control plane that is being deleted.
use cluster_api_control_plan.Common.{
  ℕ, String, ◌≡◌, arith, false, none, some, ◌^◌, ◌<◌, List, ◌∷◌, length,
}
use cluster_api_control_plan.Common.Int.{pos, to_int32-eq_pos}
use cluster_api_control_plan.Kube.{ok, Machine}
use cluster_api_control_plan.Calls.{Call}
use cluster_api_control_plan.Platform.{Platform}
use cluster_api_control_plan.Run.{State, returned}
use cluster_api_control_plan.Controllers.Owned.{
  control_plane_selector, get_control_plane_machines_for_cluster,
}
use cluster_api_control_plan.Controllers.Status.{update_status}

-- The query for the machines of the cluster.
abbrev pub machines_query : State → Call
machines_query s = Call.list_machines s.cluster.namespace (control_plane_selector s.cluster.name)

-- For a control plane that is being deleted, if the selector is parsed and the query for the machines
-- is answered with fewer than 2^31 machines, `updateStatus` makes no other call than this query, and
-- so none to the workload cluster. It succeeds, counts all
-- machines as unavailable and none as ready, sets ready to false and keeps initialized.
pub update_status_dying :
    (p : Platform) (s : State) (time : ℕ) (selector : String) (machines : List Machine)
    → s.mcp.deletion_timestamp ≡ some time
    → p.selector_string (control_plane_selector s.cluster.name) ≡ ok selector
    → p.answer s.trace (machines_query s) ≡ ok machines
    → length machines < 2 ^ 31
    → let (r, t) = update_status p s in
      (r ≡ returned none)
      × (t.trace ≡ machines_query s ∷ s.trace)
      × (t.mcp.status.selector ≡ selector)
      × (t.mcp.status.replicas ≡ pos (length machines))
      × (t.mcp.status.unavailable_replicas ≡ pos (length machines))
      × (t.mcp.status.ready_replicas ≡ pos 0)
      × (t.mcp.status.ready ≡ false)
      × (t.mcp.status.initialized ≡ s.mcp.status.initialized)
unfolding update_status get_control_plane_machines_for_cluster
update_status_dying p s time selector machines deleted parsed listed few =
    ground (arith, to_int32-eq_pos (length machines) few)
