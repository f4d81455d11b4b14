-- ===== src/Fleet/Renewal/Plan.antt =====
-- What the rounds of a rolling upgrade come to, as a plan on two numbers: the machines, and those of
-- them that have another version than the wanted one.
use cluster_api_control_plan.Common.{
  ℕ, zero, suc, ◌≡◌, arith, ◌≤◌, ◌+◌, ◌-◌, ◌*◌, ltb, ◌==◌, if◌then◌else◌,
}

-- One round, with `d` wanted replicas: too few machines become one more; of too many the oldest goes;
-- and with the right number one more comes as long as one is behind.
abbrev pub planned : ℕ → ℕ → ℕ → ℕ × ℕ
planned d n o =
    if ltb n d
    then (n + 1, o)
    else if ltb d n
    then (n - 1, o - 1)
    else if o == 0
    then (n, o)
    else (n + 1, o)

-- `k` rounds.
unfoldable pub plan_rounds : ℕ → ℕ → ℕ × ℕ → ℕ × ℕ
plan_rounds d zero (n, o) = (n, o)
plan_rounds d (suc k) (n, o) = let (n', o') = plan_rounds d k (n, o) in planned d n' o'

-- The rounds that are still needed, at most.
needed : ℕ → ℕ × ℕ → ℕ
needed d (n, o) = if ltb d n then (n - d) + 2 * o - (if o == 0 then 0 else 2) else (d - n) + 2 * o

needed_falls : (d n o : ℕ) → needed d (planned d n o) ≤ needed d (n, o) - 1
unfolding needed
needed_falls d n o = ground arith

needed-plan_rounds : (d k n o : ℕ) → needed d (plan_rounds d k (n, o)) ≤ needed d (n, o) - k
unfolding plan_rounds
needed-plan_rounds d zero n o = omega arith
needed-plan_rounds d (suc k) n o =
    let (n', o') = plan_rounds d k (n, o) in
    omega (arith, needed_falls d n' o', needed-plan_rounds d k n o)

done : (d : ℕ) (x : ℕ × ℕ) → needed d x ≤ 0 → (x.0 ≡ d) × (x.1 ≡ 0)
unfolding needed
done d (n, o) h = ground arith

-- After enough rounds there are `d` machines, and none is behind.
pub plan_rounds-done :
    (d k n o : ℕ) → (d - n) + (n - d) + 2 * o ≤ k → plan_rounds d k (n, o) ≡ (d, 0)
plan_rounds-done d k n o enough =
    let (same, none_behind) =
      done d (plan_rounds d k (n, o))
        (omega (arith, needed-plan_rounds d k n o, needed_le d n o)) in
    cc (same, none_behind)
  where
    needed_le : (d n o : ℕ) → needed d (n, o) ≤ (d - n) + (n - d) + 2 * o
    needed_le d n o = unfold needed in ground arith

-- Three or more machines stay three or more, if three or more are wanted.
planned_quorum : (d n o : ℕ) → 3 ≤ d → 3 ≤ n → 3 ≤ (planned d n o).0
planned_quorum d n o h k = ground arith

pub plan_rounds_quorum : (d k n o : ℕ) → 3 ≤ d → 3 ≤ n → 3 ≤ (plan_rounds d k (n, o)).0
unfolding plan_rounds
plan_rounds_quorum d zero n o h j = j
plan_rounds_quorum d (suc k) n o h j =
    let (n', o') = plan_rounds d k (n, o) in
    planned_quorum d n' o' h (plan_rounds_quorum d k n o h j)
