-- ===== src/Controllers/Delete.antt =====
-- `reconcileDelete` of controllers/reconcile.go.
pub mod Finalizer
use cluster_api_control_plan.Common.{ℕ, String, ◌<>◌, none, some, List, [], ◌∷◌, if◌then◌else◌}
use cluster_api_control_plan.Kube.{severity_info, ObjectKey, Machine}
use cluster_api_control_plan.Api.{micro_k8s_control_plane_finalizer, resized_condition}
use cluster_api_control_plan.Calls.{Call}
use cluster_api_control_plan.Platform.{Platform}
use cluster_api_control_plan.Run.{
  Stmt, Func, ◌>>=◌, ◌>>◌, pass, pure, return, or_return, func, invoke, call, for_each, read_mcp,
  read_cluster, write_mcp, update_conditions,
}
use cluster_api_control_plan.Controllers.Boot.{Reconciled, no_requeue, after_seconds}
use cluster_api_control_plan.Controllers.Owned.{get_control_plane_machines_for_cluster}
use cluster_api_control_plan.Controllers.Machines.{key_of}

-- `requeueDuration`, in seconds.
abbrev pub requeue_duration : ℕ
requeue_duration = 30

module _ (p : Platform) where
  -- One round of the loop over the machines: a machine that is being deleted is passed over.
  unfoldable pub submit_deletion : Machine → Stmt Reconciled (Unit {0})
  submit_deletion machine = elim machine.deletion_timestamp [
    | some t ↦ pass
    | none ↦ do
      failure ← call p (Call.delete_machine machine)
      elim failure [
        | none ↦ pass
        | some e ↦ if p.is_not_found e then pass else return (no_requeue, some e)
      ]
  ]

  -- One round of the loop over the secrets; an error is logged.
  unfoldable pub delete_secret : String → Stmt Reconciled (Unit {0})
  delete_secret secret_name = do
    cluster ← read_cluster
    let key : ObjectKey = record {
      namespace = cluster.namespace;
      name = cluster.name <> ("-" <> secret_name);
    }
    _ ← call p (Call.delete_secret key)
    pass

  -- No machine is left: the finalizer goes, and the object is updated.
  unfoldable pub release : Stmt Reconciled Reconciled
  release = do
    mcp ← read_mcp
    (updated, failure) ← call p (
        Call.update_mcp (record mcp {
          finalizers = p.remove_finalizer mcp.finalizers micro_k8s_control_plane_finalizer;
        }))
    write_mcp updated
    pure (no_requeue, failure)

  -- The deletions of the machines and of the cluster's secrets.
  unfoldable pub delete_all : List Machine → Stmt Reconciled Reconciled
  delete_all machines = do
    for_each machines submit_deletion
    for_each ("kubeconfig" ∷ "ca" ∷ "jointoken" ∷ []) delete_secret
    update_conditions (p.mark_false resized_condition "Deleting" severity_info "" [])
    pure (after_seconds requeue_duration, none)

  unfoldable pub reconcile_delete : Func Reconciled
  reconcile_delete = func do
    mcp ← read_mcp
    cluster ← read_cluster
    listed ← invoke (get_control_plane_machines_for_cluster p (key_of cluster) mcp.name)
    owned ← or_return listed (λ e. (no_requeue, some e))
    elim owned [ [] ↦ release | m ∷ ms ↦ delete_all (m ∷ ms) ]
