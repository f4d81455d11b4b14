-- ===== src/Controllers/ScaleDown/NilNode.antt =====
-- A machine that is being deleted and has no node.
use mathlib.Core.Path.{subst}
use mathlib.Core.List.{reverse, reverse-append}
use cluster_api_control_plan.Common.{
  ◌≡◌, arith, none, some, ℕ, refl, ◌≢◌, Option, String, List, [], ◌∷◌, ◌++◌,
}
use cluster_api_control_plan.Kube.{ObjectKey, Machine, Node, Res, ok, err}
use cluster_api_control_plan.Calls.{Call, KubernetesClient}
use cluster_api_control_plan.Platform.{Platform}
use cluster_api_control_plan.Run.{State, func, Outcome, returned, panicked}
use cluster_api_control_plan.Controllers.Kubeconfig.{kubeconfig_for_cluster}
use cluster_api_control_plan.Controllers.Boot.{Reconciled}
use cluster_api_control_plan.Controllers.ScaleDown.{
  closing, finish_deletion, consider, choose, scale_down_with, scale_down_control_plane,
}

-- The calls after the read of a node, newest first: the node is deleted if it was read, and the client
-- is closed.
abbrev pub calls_after : KubernetesClient → Res Node → List Call
calls_after c (err e) = Call.close_client c ∷ []
calls_after c (ok node) = Call.close_client c ∷ Call.delete_node c node.name ∷ []

-- How a scale-down ends from the trace `u` on that comes to a machine under deletion with this node
-- reference: a nil one panics before any call but the close of the client, another is read first.
abbrev pub EndsAt :
    Platform → KubernetesClient → Option String → List Call → Outcome Reconciled × State → Type 0
EndsAt p c none u (r, t) = (r ≡ panicked) × (t.trace ≡ Call.close_client c ∷ u)
EndsAt p c (some name) u (r, t) =
    (r ≢ panicked)
    × (t.trace ≡ calls_after c (p.answer u (Call.get_node c name)) ++ (Call.get_node c name ∷ u))

scale_down_with-ends :
    (p : Platform) (c : KubernetesClient) (m : Machine) (ms : List Machine) (t : ℕ) (s : State)
    (node_name : Option String)
    → m.deletion_timestamp ≡ some t
    → m.node_ref ≡ node_name
    → EndsAt p c node_name (s.trace) (func (closing p c (scale_down_with p c (m ∷ ms))) s)
unfolding scale_down_with choose consider finish_deletion
scale_down_with-ends p c m ms t s none deleting nodeless = (ground arith, ground arith)
scale_down_with-ends p c m ms t s (some name) deleting named =
    by_node (p.answer s.trace (Call.get_node c name)) refl
  where
    by_node :
        (r : Res Node)
        → p.answer s.trace (Call.get_node c name) ≡ r
        → EndsAt p c (some name) (s.trace) (func (closing p c (scale_down_with p c (m ∷ ms))) s)
    by_node (err e) read = (ground (arith, read), ground (arith, read))
    by_node (ok node) read = (ground (arith, read), ground (arith, read))

scale_down_control_plane-last :
    (p : Platform) (key : ObjectKey) (m : Machine) (ms : List Machine) (s : State)
    (c : KubernetesClient)
    → (kubeconfig_for_cluster p key s).0 ≡ returned (ok c)
    → func (closing p c (scale_down_with p c (m ∷ reverse ms))) (kubeconfig_for_cluster p key s).1
      ≡ scale_down_control_plane p key (ms ++ (m ∷ [])) s
unfolding scale_down_control_plane
scale_down_control_plane-last p key m [] s c made = ground (arith, made)
scale_down_control_plane-last p key m (f ∷ ms) s c made =
    ground (arith, made, reverse-append (f ∷ ms) (m ∷ []))

-- If the last machine of the slice is being deleted and a client can be made, then
-- `scaleDownControlPlane` panics if and only if this machine has no node reference. Then no call but the
-- close of the client comes after the client is made; and else the node of that name is read, if it is
-- found its deletion is asked for, and the client is closed.
pub scale_down_nil_node :
    (p : Platform) (key : ObjectKey) (m : Machine) (ms : List Machine) (t : ℕ) (s : State)
    (c : KubernetesClient)
    → m.deletion_timestamp ≡ some t
    → (kubeconfig_for_cluster p key s).0 ≡ returned (ok c)
    → EndsAt p c m.node_ref
        ((kubeconfig_for_cluster p key s).1.trace)
        (scale_down_control_plane p key (ms ++ (m ∷ [])) s)
scale_down_nil_node p key m ms t s c deleting made =
    subst (EndsAt p c m.node_ref ((kubeconfig_for_cluster p key s).1.trace))
      (scale_down_control_plane-last p key m ms s c made)
      (scale_down_with-ends p c m (reverse ms) t (kubeconfig_for_cluster p key s).1 m.node_ref
        deleting refl)
