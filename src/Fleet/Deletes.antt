-- ===== src/Fleet/Deletes.antt =====
-- `reconcileMachines` deletes a machine only of four or more, all of them with a node and none of
-- them being deleted.
use native.Mathlib.Decide.{dec_lt, ℕ_discrete}
use mathlib.Core.List.{Permᴰ}
use cluster_api_control_plan.Common.{
  ℕ, Bool, Bool-cases, ◌≡◌, inl, inr, refl, arith, ◌≤◌, ◌<◌, List, [], ◌∷◌, length, All, String,
}
use cluster_api_control_plan.Common.Int.{ℤ}
use cluster_api_control_plan.Kube.{ObjectKey, Machine}
use cluster_api_control_plan.Api.{MicroK8sControlPlane}
use cluster_api_control_plan.Platform.{Platform}
use cluster_api_control_plan.Run.{State, next}
use cluster_api_control_plan.Run.Tally.{Class, tally}
use cluster_api_control_plan.Controllers.Boot.Quiet.{tally-boot_control_plane}
use cluster_api_control_plan.Controllers.Owned.{less}
use cluster_api_control_plan.Controllers.ScaleDown.{scale_down_control_plane}
use cluster_api_control_plan.Controllers.ScaleDown.Choice.{
  IsSteady, scale_down_control_plane-IsOldest,
}
use cluster_api_control_plan.Controllers.Machines.{
  Upgrade, version_differs, sort_and_read, scale_down_stage, replica_stage, resize,
  reconcile_machines,
}
use cluster_api_control_plan.Controllers.Machines.Quiet.{tally-settle_stage, tally-upgrade_stage}
use cluster_api_control_plan.Controllers.Machines.Safety.{ends_in_resize, removals_of_few}
use cluster_api_control_plan.Fleet.Count.{live, live-AllSteady, live-Perm, length-Perm}

-- `sort.Sort` orders the machines, and neither adds nor drops one.
abbrev pub SortsMachines : Platform → Type 0
SortsMachines p = (ms : List Machine) → Permᴰ (p.sort less ms) ms

-- The requests to delete machines.
abbrev deletions : State → ℕ
deletions s = tally Class.machine_deletion s.trace

All-IsSteady :
    (m : Machine) (ms : List Machine)
    → All (λ x. IsSteady x × (m.creation_timestamp ≤ x.creation_timestamp)) ms
    → All IsSteady ms
All-IsSteady m [] h = tt
All-IsSteady m (x ∷ ms) h = (h.0.0, All-IsSteady m ms h.1)

module _ (p : Platform) where
  unsteady-scale_down :
      (key : ObjectKey) (ms : List Machine) (s : State)
      → ¬ All IsSteady ms
      → deletions (scale_down_control_plane p key ms s).1 ≡ deletions s
  unsteady-scale_down key ms s h =
      elim (ℕ_discrete (deletions (scale_down_control_plane p key ms s).1) (deletions s)) [
        | yes e ↦ e
        | no grown ↦
            let (m, gone, (among, all)) = scale_down_control_plane-IsOldest p key s ms grown in
            absurd (h (All-IsSteady m ms all))
      ]

  unsteady-scale_down_stage :
      (d : ℤ) (n : ℕ) (ms : List Machine) (s : State)
      → ¬ All IsSteady ms
      → deletions (scale_down_stage p d n ms s).1 ≡ deletions s
  unfolding scale_down_stage
  unsteady-scale_down_stage d n ms s h =
      grind (arith, λ (key : ObjectKey) (t : State). unsteady-scale_down key ms t h)

  unsteady-replica_stage :
      (d : ℤ) (n : ℕ) (ms : List Machine) (s : State)
      → ¬ All IsSteady ms
      → deletions (replica_stage p d n ms s).1 ≡ deletions s
  unfolding replica_stage
  unsteady-replica_stage d n ms s h = grind (
    arith,
    λ (f : Bool) (t : State). tally-boot_control_plane p Class.machine_deletion f t refl,
    λ (t : State). unsteady-scale_down_stage d n ms t h,
    tally-settle_stage p Class.machine_deletion ms,
  )

  unsteady-resize :
      (mcp : MicroK8sControlPlane) (d : ℤ) (n : ℕ) (l : List Machine × String) (s : State)
      → ¬ All IsSteady l.0
      → deletions (resize p mcp d n l s).1 ≡ deletions s
  unfolding resize
  unsteady-resize mcp d n l s h =
      elim (Bool-cases (version_differs p l.1 (p.major_minor mcp.spec.version))) [
        | inl e ↦ rw e (
            grind (
              arith,
              λ (u : Upgrade) (t : State).
                  tally-upgrade_stage p Class.machine_deletion d n l.0 u t refl,
              λ (t : State). unsteady-replica_stage d n l.0 t h,
            ))
        | inr e ↦ rw e (unsteady-replica_stage d n l.0 s h)
      ]

  pub sorted_eq :
      (m : Machine) (ms : List Machine) (s : State) (l : List Machine × String)
      → sort_and_read p (m ∷ ms) s ≡ (next l, s)
      → l.0 ≡ p.sort less (m ∷ ms)
  unfolding sort_and_read
  sorted_eq m ms s l e = ground arith

  unsorted_eq :
      (s : State) (l : List Machine × String) → sort_and_read p [] s ≡ (next l, s) → l.0 ≡ []
  unfolding sort_and_read
  unsorted_eq s l e = ground arith

  module _ (sorts : SortsMachines p) where
    pub sorted-Perm :
        (ms : List Machine) (s : State) (l : List Machine × String)
        → sort_and_read p ms s ≡ (next l, s)
        → Permᴰ l.0 ms
    sorted-Perm [] s l e = rw (unsorted_eq s l e) Permᴰ.nil
    sorted-Perm (m ∷ ms) s l e = rw (sorted_eq m ms s l e) (sorts (m ∷ ms))

    -- With fewer than four machines that are not being deleted it asks for no deletion.
    pub deletions_of_few :
        (ms : List Machine) (s : State)
        → live ms < 4
        → deletions (reconcile_machines p ms s).1 ≡ deletions s
    deletions_of_few ms s few = elim (ends_in_resize p ms s) [
      | inl e ↦ rw e
      | inr (d, sorted, wanted, found, ends) ↦ elim (dec_lt (length ms) 4) [
        | yes h ↦ removals_of_few p ms s Class.machine_deletion d wanted refl (inl h)
        | no h ↦ rw ends (
            unsteady-resize s.mcp d (length ms) sorted s λ all.
              let q = sorted-Perm ms s sorted found in
              omega (arith, live-AllSteady sorted.0 all, live-Perm q, length-Perm q))
      ]
    ]
