-- ===== src/Run/Loops.antt =====
-- Loops whose rounds make no call of a kind make none.
use cluster_api_control_plan.Common.{ℕ, ◌≡◌, refl, arith, List, [], ◌∷◌}
use cluster_api_control_plan.Run.{State, Flow, next, exit, panic, Stmt, for_each}
use cluster_api_control_plan.Run.Tally.{Class, tally}

-- A statement that runs on has spent nothing; one that leaves may have.
abbrev pub spent : {R A : Type 0} → Flow R A → ℕ
spent (next a) = 0
spent (exit r) = 1
spent panic = 1

module _ {R A : Type 0} (k : Class) (body : A → Stmt R (Unit {0}))
    (quiet : (x : A) (s : State) → tally k (body x s).1.trace ≡ tally k s.trace) where
  pub tally-for_each :
      (xs : List A) (s : State) → tally k (for_each xs body s).1.trace ≡ tally k s.trace
  unfolding for_each
  tally-for_each [] s = refl
  tally-for_each (x ∷ xs) s = ground (arith, quiet x s, tally-for_each xs (body x s).1)
