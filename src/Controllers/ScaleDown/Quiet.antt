-- ===== src/Controllers/ScaleDown/Quiet.antt =====
-- Which calls `scaleDownControlPlane` makes, and how often.
use cluster_api_control_plan.Common.{◌≡◌, refl, arith, Bool, true, false, ◌≤◌, ◌+◌, List, [], ◌∷◌}
use mathlib.Core.List.{reverse}
use cluster_api_control_plan.Kube.{ObjectKey, Machine}
use cluster_api_control_plan.Calls.{KubernetesClient}
use cluster_api_control_plan.Platform.{Platform}
use cluster_api_control_plan.Run.{State}
use cluster_api_control_plan.Run.Loops.{spent}
use cluster_api_control_plan.Run.Tally.{Class, tally}
use cluster_api_control_plan.Controllers.Kubeconfig.Quiet.{tally-kubeconfig_for_cluster}
use cluster_api_control_plan.Controllers.ScaleDown.{
  finish_deletion, consider, choose, remove, scale_down_with, scale_down_control_plane,
}

-- The kinds of calls that a scale-down makes.
abbrev pub removes : Class → Bool
removes Class.machine_deletion = true
removes Class.node_deletion = true
removes _ = false

module _ (p : Platform) (kubeclient : KubernetesClient) (k : Class) where
  tally-finish_deletion :
      (m : Machine) (s : State)
      → removes k ≡ false
      → tally k (finish_deletion p kubeclient m s).1.trace ≡ tally k s.trace
  unfolding finish_deletion
  tally-finish_deletion m s h = ground arith

  tally-finish_deletion_le :
      (m : Machine) (s : State)
      → let (r, t) = finish_deletion p kubeclient m s in tally k t.trace ≤ tally k s.trace + spent r
  unfolding finish_deletion
  tally-finish_deletion_le m s = ground arith

  tally-consider :
      (m chosen : Machine) (s : State)
      → removes k ≡ false
      → tally k (consider p kubeclient m chosen s).1.trace ≡ tally k s.trace
  unfolding consider
  tally-consider m chosen s h = ground (arith, tally-finish_deletion m s h)

  tally-consider_le :
      (m chosen : Machine) (s : State)
      → let (r, t) = consider p kubeclient m chosen s in tally k t.trace ≤ tally k s.trace + spent r
  unfolding consider
  tally-consider_le m chosen s = ground (arith, tally-finish_deletion_le m s)

  tally-choose :
      (ms : List Machine) (chosen : Machine) (s : State)
      → removes k ≡ false
      → tally k (choose p kubeclient ms chosen s).1.trace ≡ tally k s.trace
  unfolding choose
  tally-choose [] chosen s h = refl
  tally-choose (m ∷ ms) chosen s h =
      grind (arith, tally-consider m chosen s h, λ (c : Machine) (t : State). tally-choose ms c t h)

  tally-choose_le :
      (ms : List Machine) (chosen : Machine) (s : State)
      → let (r, t) = choose p kubeclient ms chosen s in tally k t.trace ≤ tally k s.trace + spent r
  unfolding choose
  tally-choose_le [] chosen s = omega arith
  tally-choose_le (m ∷ ms) chosen s =
      grind
        (arith, tally-consider_le m chosen s, λ (c : Machine) (t : State). tally-choose_le ms c t)

  tally-remove :
      (m : Machine) (s : State)
      → removes k ≡ false
      → tally k (remove p kubeclient m s).1.trace ≡ tally k s.trace
  unfolding remove
  tally-remove m s h = ground arith

  tally-remove_le :
      (m : Machine) (s : State) → tally k (remove p kubeclient m s).1.trace ≤ tally k s.trace + 1
  unfolding remove
  tally-remove_le m s = ground arith

  tally-scale_down_with :
      (ms : List Machine) (s : State)
      → removes k ≡ false
      → tally k (scale_down_with p kubeclient ms s).1.trace ≡ tally k s.trace
  unfolding scale_down_with
  tally-scale_down_with [] s h = refl
  tally-scale_down_with (m ∷ ms) s h =
      grind (arith, tally-choose (m ∷ ms) m s h, λ (c : Machine) (t : State). tally-remove c t h)

  tally-scale_down_with_le :
      (ms : List Machine) (s : State)
      → tally k (scale_down_with p kubeclient ms s).1.trace ≤ tally k s.trace + 1
  unfolding scale_down_with
  tally-scale_down_with_le [] s = omega arith
  tally-scale_down_with_le (m ∷ ms) s = grind (arith, tally-choose_le (m ∷ ms) m s, tally-remove_le)

module _ (p : Platform) (k : Class) (key : ObjectKey) where
  pub tally-scale_down_control_plane :
      (ms : List Machine) (s : State)
      → removes k ≡ false
      → tally k (scale_down_control_plane p key ms s).1.trace ≡ tally k s.trace
  unfolding scale_down_control_plane
  tally-scale_down_control_plane [] s h = refl
  tally-scale_down_control_plane (m ∷ ms) s h = grind (
    arith,
    tally-kubeconfig_for_cluster p k key s,
    λ (c : KubernetesClient) (t : State). tally-scale_down_with p c k (reverse (m ∷ ms)) t h,
  )

  pub tally-scale_down_control_plane_le :
      (ms : List Machine) (s : State)
      → tally k (scale_down_control_plane p key ms s).1.trace ≤ tally k s.trace + 1
  unfolding scale_down_control_plane
  tally-scale_down_control_plane_le [] s = omega arith
  tally-scale_down_control_plane_le (m ∷ ms) s = grind (
    arith,
    tally-kubeconfig_for_cluster p k key s,
    λ (c : KubernetesClient) (t : State). tally-scale_down_with_le p c k (reverse (m ∷ ms)) t,
  )
