-- ===== src/Controllers/ScaleDown.antt =====
-- `scaleDownControlPlane` of controllers/reconcile.go: the choice of the machine to delete, and its
-- deletion with its node.
pub mod Quiet
pub mod NilNode
pub mod Choice
use cluster_api_control_plan.Common.{Option, none, some, List, [], ◌∷◌, ltb, if◌then◌else◌}
use mathlib.Core.List.{reverse}
use cluster_api_control_plan.Kube.{errorf, Res, ok, err, ObjectKey, Machine, Node}
use cluster_api_control_plan.Calls.{Call, KubernetesClient}
use cluster_api_control_plan.Platform.{Platform}
use cluster_api_control_plan.Run.{
  Stmt, Func, next, exit, panic, ◌>>=◌, ◌>>◌, pass, pure, return, fail, check, deref, or_return,
  func, invoke, call,
}
use cluster_api_control_plan.Controllers.Boot.{Reconciled, no_requeue, requeue_now, after_seconds}
use cluster_api_control_plan.Controllers.Kubeconfig.{kubeconfig_for_cluster}

-- `machine.CreationTimestamp.Before(&deleteMachine.CreationTimestamp)`.
abbrev pub older : Machine → Machine → Machine
older machine chosen =
    if ltb machine.creation_timestamp chosen.creation_timestamp then machine else chosen

module _ (p : Platform) (kubeclient : KubernetesClient) where
  -- A node that is gone already is no error.
  abbrev pub get_node_or_requeue : Res Node → Stmt Reconciled Node
  get_node_or_requeue (ok node) = pure node
  get_node_or_requeue (err e) = return (after_seconds 20, if p.is_not_found e then none else some e)

  -- A machine that is being deleted: only its node is removed in this round. A machine without a
  -- node reference panics here, since it is read before the test for nil.
  unfoldable pub finish_deletion : Machine → Stmt Reconciled (Unit {0})
  finish_deletion machine = do
    node_name ← deref machine.node_ref
    node ← get_node_or_requeue (← call p (Call.get_node kubeclient node_name))
    check (← call p (Call.delete_node kubeclient node.name)) (λ e. (after_seconds 20, some e))
    return (after_seconds 20, none)

  -- One round of the loop, on the machine to be deleted so far.
  unfoldable pub consider : Machine → Machine → Stmt Reconciled Machine
  consider machine chosen = do
    elim machine.deletion_timestamp [ none ↦ pass | some _ ↦ finish_deletion machine ]
    elim machine.node_ref [ none ↦ return (after_seconds 10, none) | some _ ↦ pass ]
    pure (older machine chosen)

  -- The loop, on the machines from the last to the first.
  unfoldable pub choose : List Machine → Machine → Stmt Reconciled Machine
  choose [] chosen = pure chosen
  choose (machine ∷ rest) chosen = consider machine chosen >>= choose rest

  -- What follows the loop.
  unfoldable pub remove : Machine → Stmt Reconciled Reconciled
  remove machine = do
    node_name ← elim machine.node_ref [
      | none ↦
          return (
            after_seconds 20,
            some (errorf "%q machine does not have a nodeRef" (machine.name ∷ [])),
          )
      | some name ↦ pure name
    ]
    check (← call p (Call.delete_machine machine)) (λ e. (no_requeue, some e))
    check (← call p (Call.delete_node kubeclient node_name)) (λ e. (after_seconds 20, some e))
    pure (requeue_now, none)

module _ (p : Platform) where
  -- `defer kubeclient.Close()`: the client is closed however the body leaves.
  abbrev pub closing : {R A : Type 0} → KubernetesClient → Stmt R A → Stmt R A
  closing kubeclient m s =
      let (r, t) = m s in (r, record t { trace = Call.close_client kubeclient ∷ t.trace })

  -- The same where the function runs on after `m`: the client is closed now only if `m` leaves it,
  -- and `close_after` closes it at the function's end.
  abbrev pub closing_early : {R A : Type 0} → KubernetesClient → Stmt R A → Stmt R A
  closing_early kubeclient m s =
      let (r, t) = m s in
      elim r [
        | next a ↦ (next a, t)
        | exit x ↦ (exit x, record t { trace = Call.close_client kubeclient ∷ t.trace })
        | panic ↦ (panic, record t { trace = Call.close_client kubeclient ∷ t.trace })
      ]

  abbrev pub close_after : {R A : Type 0} → Option KubernetesClient → Stmt R A → Stmt R A
  close_after none m = m
  close_after (some kubeclient) m = closing kubeclient m

  -- The body after the client is made, on the machines from the last to the first; an index into
  -- an empty slice panics.
  unfoldable pub scale_down_with : KubernetesClient → List Machine → Stmt Reconciled Reconciled
  scale_down_with kubeclient [] = fail
  scale_down_with kubeclient (last ∷ rest) =
      choose p kubeclient (last ∷ rest) last >>= remove p kubeclient

  unfoldable pub scale_down_control_plane : ObjectKey → List Machine → Func Reconciled
  scale_down_control_plane cluster [] =
      func (return (no_requeue, some (errorf "no machines found" [])))
  scale_down_control_plane cluster (first ∷ machines) = func do
    kubeclient ←
        or_return (← invoke (kubeconfig_for_cluster p cluster)) (λ e. (after_seconds 20, some e))
    closing kubeclient (scale_down_with kubeclient (reverse (first ∷ machines)))
