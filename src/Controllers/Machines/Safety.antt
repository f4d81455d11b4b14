-- ===== src/Controllers/Machines/Safety.antt =====
-- What one run of `reconcileMachines` can do to the machines, whatever the API servers answer and
-- however the run ends.
use cluster_api_control_plan.Common.{
  ℕ, Bool-cases, Option-cases, ◌≡◌, ◌≢◌, ◌⊎◌, inl, inr, arith, true, false, ◌≤◌, ◌+◌, ◌<◌, some,
  List, length, String,
}
use cluster_api_control_plan.Common.Int.{ℤ, pos, ◌<ℤ◌}
use cluster_api_control_plan.Kube.{Machine}
use cluster_api_control_plan.Api.{MicroK8sControlPlane}
use cluster_api_control_plan.Platform.{Platform}
use cluster_api_control_plan.Run.{State, next}
use cluster_api_control_plan.Run.Tally.{Class, same, tally}
use cluster_api_control_plan.Controllers.Boot.Quiet.{boots}
use cluster_api_control_plan.Controllers.ScaleDown.Quiet.{removes}
use cluster_api_control_plan.Controllers.Machines.{
  Upgrade, version_differs, sort_and_read, resize, reconcile_machines,
}
use cluster_api_control_plan.Controllers.Machines.Quiet.{
  sort_and_read_cases, tally-upgrade_stage, tally-upgrade_stage_off, tally-replica_stage_enough,
  tally-replica_stage_few, changes, changes-upgrade_stage, changes-replica_stage,
}

boots_of_removes : (k : Class) → removes k ≡ true → boots k ≡ false
boots_of_removes k h = ground arith

removes_of_boots : (k : Class) → boots k ≡ true → removes k ≡ false
removes_of_boots k h = ground arith

update_of_boots : (k : Class) → boots k ≡ true → same Class.machine_update k ≡ false
update_of_boots k h = ground arith

ne_of_lt : (d : ℤ) (n : ℕ) → d <ℤ pos n → d ≢ pos n
ne_of_lt d n h = ground arith

not_lt : (d : ℤ) (n : ℕ) → d <ℤ pos n → ¬ (pos n <ℤ d)
not_lt d n h = ground arith

-- The same for `resize`, by whether the version differs.
module _ (p : Platform) (mcp : MicroK8sControlPlane) (d : ℤ) (n : ℕ)
    (l : List Machine × String) where
  tally-resize_few :
      (k : Class) (s : State)
      → removes k ≡ true
      → (n < 4) ⊎ (¬ (d <ℤ pos n))
      → tally k (resize p mcp d n l s).1.trace ≡ tally k s.trace
  unfolding resize
  tally-resize_few k s r few =
      elim (Bool-cases (version_differs p l.1 (p.major_minor mcp.spec.version))) [
        | inl e ↦ rw e (
            grind (
              arith,
              λ (u : Upgrade) (t : State). tally-upgrade_stage p k d n l.0 u t r,
              λ (t : State). tally-replica_stage_few p k d n l.0 t few (boots_of_removes k r),
            ))
        | inr e ↦ rw e (tally-replica_stage_few p k d n l.0 s few (boots_of_removes k r))
      ]

  tally-resize_many :
      (k : Class) (s : State)
      → boots k ≡ true
      → d <ℤ pos n
      → tally k (resize p mcp d n l s).1.trace ≡ tally k s.trace
  unfolding resize
  tally-resize_many k s b many =
      elim (Bool-cases (version_differs p l.1 (p.major_minor mcp.spec.version))) [
        | inl e ↦ rw e (
            grind (
              arith,
              λ (u : Upgrade) (t : State).
                  tally-upgrade_stage_off p k d n l.0 u t (update_of_boots k b) (ne_of_lt d n many),
              λ (t : State).
                  tally-replica_stage_enough p k d n l.0 t (not_lt d n many) (removes_of_boots k b),
            ))
        | inr e ↦
            rw e (tally-replica_stage_enough p k d n l.0 s (not_lt d n many) (removes_of_boots k b))
      ]

  tally-resize_le : (s : State) → changes (resize p mcp d n l s).1.trace ≤ changes s.trace + 1
  unfolding resize
  tally-resize_le s = elim (Bool-cases (version_differs p l.1 (p.major_minor mcp.spec.version))) [
    | inl e ↦ rw e (grind (arith, changes-upgrade_stage p, changes-replica_stage p d n l.0))
    | inr e ↦ rw e (changes-replica_stage p d n l.0 s)
  ]

module _ (p : Platform) (ms : List Machine) (s : State) where
  -- A run of `reconcileMachines` panics with nothing done, or comes to `resize`.
  pub ends_in_resize :
      ((reconcile_machines p ms s).1 ≡ s)
      ⊎ ((d : ℤ) × (sorted : List Machine × String) × (s.mcp.spec.replicas ≡ some d)
          × (sort_and_read p ms s ≡ (next sorted, s))
          × ((reconcile_machines p ms s).1 ≡ (resize p s.mcp d (length ms) sorted s).1))
  unfolding reconcile_machines
  ends_in_resize = elim (Option-cases s.mcp.spec.replicas) [
    | inl nil ↦ inl (ground arith)
    | inr (d, e) ↦ elim (sort_and_read_cases p ms s) [
      | inl (sorted, found) ↦ inr (d, sorted, e, found, ground arith)
      | inr broken ↦ inl (ground arith)
    ]
  ]

  -- With fewer than four machines, or with no more machines than desired replicas, a run of
  -- `reconcileMachines` asks neither for the deletion of a machine nor for that of a node.
  pub removals_of_few :
      (k : Class) (d : ℤ)
      → s.mcp.spec.replicas ≡ some d
      → removes k ≡ true
      → (length ms < 4) ⊎ (¬ (d <ℤ pos (length ms)))
      → tally k (reconcile_machines p ms s).1.trace ≡ tally k s.trace
  removals_of_few k d wanted r few = elim ends_in_resize [
    | inl e ↦ rw e
    | inr (d', sorted, e, found, ends) ↦
        rw ends (tally-resize_few p s.mcp d' (length ms) sorted k s r (ground arith))
  ]

  -- A run of `reconcileMachines` creates one machine or deletes one machine, or does neither: the
  -- requests to create and to delete machines together are one at most.
  pub changes_le_one : changes (reconcile_machines p ms s).1.trace ≤ changes s.trace + 1
  changes_le_one = elim ends_in_resize [
    | inl e ↦ rw e (omega arith)
    | inr (d, sorted, e, found, ends) ↦ rw ends (tally-resize_le p s.mcp d (length ms) sorted s)
  ]

  -- With more machines than desired replicas, a run of `reconcileMachines` creates no machine, no
  -- bootstrap configuration and no infrastructure object.
  pub creations_of_many :
      (k : Class) (d : ℤ)
      → s.mcp.spec.replicas ≡ some d
      → boots k ≡ true
      → d <ℤ pos (length ms)
      → tally k (reconcile_machines p ms s).1.trace ≡ tally k s.trace
  creations_of_many k d wanted b many = elim ends_in_resize [
    | inl e ↦ rw e
    | inr (d', sorted, e, found, ends) ↦
        rw ends (tally-resize_many p s.mcp d' (length ms) sorted k s b (ground arith))
  ]
