-- ===== src/Controllers/Machines/Quiet.antt =====
-- Which calls each stage of `reconcileMachines` makes, and how often.
use cluster_api_control_plan.Common.{
  ℕ, ◌≡◌, ◌≢◌, ◌⊎◌, inl, inr, refl, arith, Bool, true, false, ◌≤◌, ◌+◌, ◌<◌, List, [], ◌∷◌, String,
  Option, none, some,
}
use cluster_api_control_plan.Common.Int.{ℤ, pos, negsuc, ◌<ℤ◌}
use cluster_api_control_plan.Kube.{Machine}
use cluster_api_control_plan.Platform.{Platform}
use cluster_api_control_plan.Run.{State, next, panic}
use cluster_api_control_plan.Run.Loops.{spent}
use cluster_api_control_plan.Run.Tally.{Class, same, tally}
use cluster_api_control_plan.Calls.{Call}
use cluster_api_control_plan.Controllers.Boot.{boot_control_plane}
use cluster_api_control_plan.Controllers.Boot.Quiet.{
  boots, tally-boot_control_plane, tally-boot_control_plane_le,
}
use cluster_api_control_plan.Controllers.Kubeconfig.Quiet.{tally-kubeconfig_for_cluster}
use cluster_api_control_plan.Controllers.ScaleDown.Quiet.{
  removes, tally-scale_down_control_plane, tally-scale_down_control_plane_le,
}
use cluster_api_control_plan.Controllers.Upgrade.Quiet.{tally-upgrade_in_place}
use cluster_api_control_plan.Controllers.Owned.{less}
use cluster_api_control_plan.Controllers.Machines.{
  Upgrade, rolling, in_place, keep, sort_and_read, upgrade_stage, scale_down_stage, settle_stage,
  replica_stage,
}

-- The sort and the read of the oldest version change nothing and do not return early.
pub sort_and_read_cases :
    (p : Platform) (ms : List Machine) (s : State)
    → ((x : List Machine × String) × (sort_and_read p ms s ≡ (next x, s)))
      ⊎ (sort_and_read p ms s ≡ (panic, s))
unfolding sort_and_read
sort_and_read_cases p [] s = inl (([], ""), refl)
sort_and_read_cases p (m ∷ ms) s = by_sorted (p.sort less (m ∷ ms)) refl
  where
    by_oldest :
        (oldest : Machine) (rest : List Machine)
        → p.sort less (m ∷ ms) ≡ oldest ∷ rest
        → (v : Option String) → oldest.version ≡ v
        → ((x : List Machine × String) × (sort_and_read p (m ∷ ms) s ≡ (next x, s)))
          ⊎ (sort_and_read p (m ∷ ms) s ≡ (panic, s))
    by_oldest oldest rest e none h = inr (ground arith)
    by_oldest oldest rest e (some v) h = inl ((oldest ∷ rest, p.major_minor v), ground arith)

    by_sorted :
        (l : List Machine)
        → p.sort less (m ∷ ms) ≡ l
        → ((x : List Machine × String) × (sort_and_read p (m ∷ ms) s ≡ (next x, s)))
          ⊎ (sort_and_read p (m ∷ ms) s ≡ (panic, s))
    by_sorted [] e = inr (ground arith)
    by_sorted (oldest ∷ rest) e = by_oldest oldest rest e oldest.version refl

module _ (p : Platform) (k : Class) where
  pub tally-settle_stage :
      (ms : List Machine) (s : State) → tally k (settle_stage p ms s).1.trace ≡ tally k s.trace
  unfolding settle_stage
  tally-settle_stage ms s = ground arith

  -- The upgrade stage deletes nothing.
  pub tally-upgrade_stage :
      (d : ℤ) (n : ℕ) (ms : List Machine) (u : Upgrade) (s : State)
      → removes k ≡ true
      → tally k (upgrade_stage p d n ms u s).1.trace ≡ tally k s.trace
  unfolding upgrade_stage
  tally-upgrade_stage d n ms keep s h = refl
  tally-upgrade_stage d n ms rolling s h =
      grind (arith, λ (t : State). tally-boot_control_plane p k false t)
  tally-upgrade_stage d n ms in_place s h =
      grind (arith, tally-kubeconfig_for_cluster p k, tally-upgrade_in_place p)

  -- The case of too many machines boots none, and deletes one at most.
  pub tally-scale_down_stage :
      (d : ℤ) (n : ℕ) (ms : List Machine) (s : State)
      → removes k ≡ false
      → tally k (scale_down_stage p d n ms s).1.trace ≡ tally k s.trace
  unfolding scale_down_stage
  tally-scale_down_stage d n ms s h = grind (arith, tally-scale_down_control_plane p k)

  pub tally-scale_down_stage_le :
      (d : ℤ) (n : ℕ) (ms : List Machine) (s : State)
      → tally k (scale_down_stage p d n ms s).1.trace ≤ tally k s.trace + 1
  unfolding scale_down_stage
  tally-scale_down_stage_le d n ms s = grind (arith, tally-scale_down_control_plane_le p k)

  -- Below four machines it does nothing.
  pub tally-scale_down_stage_few :
      (d : ℤ) (n : ℕ) (ms : List Machine) (s : State)
      → n < 4
      → tally k (scale_down_stage p d n ms s).1.trace ≡ tally k s.trace
  unfolding scale_down_stage
  tally-scale_down_stage_few d n ms s h = ground arith

  -- The upgrade stage creates one machine at most, and then the function returns.
  pub tally-upgrade_stage_le :
      (d : ℤ) (n : ℕ) (ms : List Machine) (u : Upgrade) (s : State)
      → same Class.machine_update k ≡ false
      → let (r, t) = upgrade_stage p d n ms u s in tally k t.trace ≤ tally k s.trace + spent r
  unfolding upgrade_stage
  tally-upgrade_stage_le d n ms keep s h = omega arith
  tally-upgrade_stage_le d n ms rolling s h = grind (arith, tally-boot_control_plane_le p k)
  tally-upgrade_stage_le d n ms in_place s h =
      grind (arith, tally-kubeconfig_for_cluster p k, tally-upgrade_in_place p)

  -- It creates none unless the number of machines is the desired one.
  pub tally-upgrade_stage_off :
      (d : ℤ) (n : ℕ) (ms : List Machine) (u : Upgrade) (s : State)
      → same Class.machine_update k ≡ false
      → d ≢ pos n
      → tally k (upgrade_stage p d n ms u s).1.trace ≡ tally k s.trace
  unfolding upgrade_stage
  tally-upgrade_stage_off d n ms keep s h off = refl
  tally-upgrade_stage_off (pos d) n ms rolling s h off = ground arith
  tally-upgrade_stage_off (negsuc d) n ms rolling s h off = ground arith
  tally-upgrade_stage_off d n ms in_place s h off =
      grind (arith, tally-kubeconfig_for_cluster p k, tally-upgrade_in_place p)

  -- With enough machines the switch creates none, with too few or the right number it deletes none.
  pub tally-replica_stage_le :
      (d : ℤ) (n : ℕ) (ms : List Machine) (s : State)
      → tally k (replica_stage p d n ms s).1.trace ≤ tally k s.trace + 1
  unfolding replica_stage
  tally-replica_stage_le d n ms s =
      grind (arith, tally-boot_control_plane_le p k, tally-scale_down_stage_le, tally-settle_stage)

  pub tally-replica_stage_enough :
      (d : ℤ) (n : ℕ) (ms : List Machine) (s : State)
      → ¬ (pos n <ℤ d)
      → removes k ≡ false
      → tally k (replica_stage p d n ms s).1.trace ≡ tally k s.trace
  unfolding replica_stage
  tally-replica_stage_enough d n ms s h r =
      grind (arith, tally-scale_down_stage, tally-settle_stage)

  pub tally-replica_stage_few :
      (d : ℤ) (n : ℕ) (ms : List Machine) (s : State)
      → (n < 4) ⊎ (¬ (d <ℤ pos n))
      → boots k ≡ false
      → tally k (replica_stage p d n ms s).1.trace ≡ tally k s.trace
  unfolding replica_stage
  tally-replica_stage_few d n ms s (inl h) b = grind (
    arith,
    λ (f : Bool) (t : State). tally-boot_control_plane p k f t b,
    tally-scale_down_stage_few,
    tally-settle_stage,
  )
  tally-replica_stage_few d n ms s (inr h) b =
      grind
        (arith, λ (f : Bool) (t : State). tally-boot_control_plane p k f t b, tally-settle_stage)

-- The requests to create and to delete machines.
abbrev pub changes : List Call → ℕ
changes trace = tally Class.machine_creation trace + tally Class.machine_deletion trace

module _ (p : Platform) where
  changes-boot :
      (first : Bool) (s : State)
      → changes (boot_control_plane p first s).1.trace ≤ changes s.trace + 1
  changes-boot first s = omega (
    arith,
    tally-boot_control_plane_le p Class.machine_creation first s,
    tally-boot_control_plane p Class.machine_deletion first s refl,
  )

  changes-scale_down_stage :
      (d : ℤ) (n : ℕ) (ms : List Machine) (s : State)
      → changes (scale_down_stage p d n ms s).1.trace ≤ changes s.trace + 1
  changes-scale_down_stage d n ms s = omega (
    arith,
    tally-scale_down_stage_le p Class.machine_deletion d n ms s,
    tally-scale_down_stage p Class.machine_creation d n ms s refl,
  )

  changes-settle_stage :
      (ms : List Machine) (s : State) → changes (settle_stage p ms s).1.trace ≤ changes s.trace + 1
  changes-settle_stage ms s = omega (
    arith,
    tally-settle_stage p Class.machine_deletion ms s,
    tally-settle_stage p Class.machine_creation ms s,
  )

  pub changes-replica_stage :
      (d : ℤ) (n : ℕ) (ms : List Machine) (s : State)
      → changes (replica_stage p d n ms s).1.trace ≤ changes s.trace + 1
  unfolding replica_stage
  changes-replica_stage d n ms s =
      grind (arith, changes-boot, changes-scale_down_stage, changes-settle_stage)

  pub changes-upgrade_stage :
      (d : ℤ) (n : ℕ) (ms : List Machine) (u : Upgrade) (s : State)
      → let (r, t) = upgrade_stage p d n ms u s in changes t.trace ≤ changes s.trace + spent r
  changes-upgrade_stage d n ms u s = omega (
    arith,
    tally-upgrade_stage p Class.machine_deletion d n ms u s refl,
    tally-upgrade_stage_le p Class.machine_creation d n ms u s refl,
  )
