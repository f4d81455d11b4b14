-- ===== src/Controllers/Delete/Finalizer.antt =====
-- What `reconcileDelete` deletes, and when it lets the object go.
use cluster_api_control_plan.Common.{
  ◌≡◌, ◌≢◌, ◌⊎◌, refl, arith, true, none, some, ◌<>◌, String, List, [], ◌∷◌,
}
use cluster_api_control_plan.Kube.{Error, ok, Machine, Cluster}
use cluster_api_control_plan.Calls.{Call}
use cluster_api_control_plan.Platform.{Platform}
use cluster_api_control_plan.Run.{State, next, returned, for_each}
use cluster_api_control_plan.Run.Tally.{Class, tally}
use cluster_api_control_plan.Run.Loops.{tally-for_each}
use cluster_api_control_plan.Controllers.Boot.{after_seconds}
use cluster_api_control_plan.Controllers.Owned.{
  control_plane_selector, get_control_plane_machines_for_cluster,
}
use cluster_api_control_plan.Controllers.Delete.{
  submit_deletion, delete_secret, delete_all, reconcile_delete,
}

module _ (p : Platform) where
  tally-submit_deletion :
      (m : Machine) (s : State)
      → tally Class.mcp_update (submit_deletion p m s).1.trace ≡ tally Class.mcp_update s.trace
  unfolding submit_deletion
  tally-submit_deletion m s = ground arith

  tally-delete_secret :
      (k : Class) (name : String) (s : State)
      → tally k (delete_secret p name s).1.trace ≡ tally k s.trace
  unfolding delete_secret
  tally-delete_secret k name s = ground arith

  tally-delete_all :
      (ms : List Machine) (s : State)
      → tally Class.mcp_update (delete_all p ms s).1.trace ≡ tally Class.mcp_update s.trace
  unfolding delete_all
  tally-delete_all ms s = grind (
    arith,
    tally-for_each Class.mcp_update (submit_deletion p) tally-submit_deletion ms,
    tally-for_each Class.mcp_update (delete_secret p) (tally-delete_secret Class.mcp_update),
  )

  -- `reconcileDelete` updates the control plane object, which is how its finalizer goes, only if
  -- the query for its machines was answered with no machine.
  pub release_when_empty :
      (s : State)
      → tally Class.mcp_update (reconcile_delete p s).1.trace ≢ tally Class.mcp_update s.trace
      → p.answer s.trace
          (Call.list_machines s.cluster.namespace (control_plane_selector s.cluster.name))
        ≡ ok []
  unfolding reconcile_delete get_control_plane_machines_for_cluster
  release_when_empty s grown = grind (arith, tally-delete_all)

-- The trace after the requests to delete the machines that are not being deleted, in their order.
abbrev pub submitted : List Machine → List Call → List Call
submitted [] trace = trace
submitted (m ∷ ms) trace = elim m.deletion_timestamp [
  | none ↦ submitted ms (Call.delete_machine m ∷ trace)
  | some t ↦ submitted ms trace
]

-- The request to delete one of the cluster's secrets.
abbrev pub secret_deletion : Cluster → String → Call
secret_deletion cluster secret_name =
    Call.delete_secret
      (record { namespace = cluster.namespace; name = cluster.name <> ("-" <> secret_name) })

-- The API server accepts the deletion of machines, or does not find them.
abbrev pub AcceptsDeletions : Platform → Type 0
AcceptsDeletions p =
    (trace : List Call) (m : Machine)
    → (p.answer trace (Call.delete_machine m) ≡ none)
      ⊎ ((e : Error) × (p.answer trace (Call.delete_machine m) ≡ some e)
          × (p.is_not_found e ≡ true))

module _ (p : Platform) (accepts : AcceptsDeletions p) where
  submit_all :
      (ms : List Machine) (s : State)
      → for_each ms (submit_deletion p) s ≡ (next tt, record s { trace = submitted ms s.trace })
  unfolding for_each submit_deletion
  submit_all [] s = refl
  submit_all (m ∷ ms) s = ground (
    arith,
    accepts s.trace m,
    submit_all ms s,
    submit_all ms (record s { trace = Call.delete_machine m ∷ s.trace }),
  )

  abbrev without_secrets : State → List Call
  without_secrets s =
      secret_deletion (s.cluster) "jointoken"
      ∷ secret_deletion (s.cluster) "ca"
      ∷ secret_deletion (s.cluster) "kubeconfig"
      ∷ s.trace

  secrets_deleted :
      (s : State)
      → for_each ("kubeconfig" ∷ "ca" ∷ "jointoken" ∷ []) (delete_secret p) s
        ≡ (next tt, record s { trace = without_secrets s })
  unfolding for_each delete_secret
  secrets_deleted s = refl

  delete_all_lem :
      (ms : List Machine) (s : State)
      → let (r, t) = delete_all p ms s in
        (r ≡ next (after_seconds 30, none))
        × (t.trace ≡ without_secrets (record s { trace = submitted ms s.trace }))
        × (t.mcp.finalizers ≡ s.mcp.finalizers)
  unfolding delete_all
  delete_all_lem ms s =
      grind (arith, submit_all ms s, secrets_deleted (record s { trace = submitted ms s.trace }))

  -- If the query for the machines is answered with some machines, and the API server accepts
  -- deletions, then `reconcileDelete` asks for the deletion of each machine that is not being
  -- deleted, in their order, and of no other, and then for that of the secrets kubeconfig, ca and
  -- jointoken of the cluster; it makes no other call, keeps the finalizers, and asks to come back
  -- in 30 seconds.
  pub reconcile_delete_all :
      (m : Machine) (ms : List Machine) (s : State)
      → p.answer s.trace
          (Call.list_machines s.cluster.namespace (control_plane_selector s.cluster.name))
        ≡ ok (m ∷ ms)
      → let (r, t) = reconcile_delete p s in
        let query =
          Call.list_machines s.cluster.namespace (control_plane_selector s.cluster.name) in
        (r ≡ returned (after_seconds 30, none))
        × (t.trace
            ≡ secret_deletion (s.cluster) "jointoken"
              ∷ secret_deletion (s.cluster) "ca"
              ∷ secret_deletion (s.cluster) "kubeconfig"
              ∷ submitted (m ∷ ms) (query ∷ s.trace))
        × (t.mcp.finalizers ≡ s.mcp.finalizers)
  unfolding reconcile_delete get_control_plane_machines_for_cluster
  reconcile_delete_all m ms s listed = grind (arith, delete_all_lem (m ∷ ms))
