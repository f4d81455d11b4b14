-- ===== src/Run.antt =====
-- Go's control flow: statements that run on, return early or panic, over the two objects that the
-- controllers change in place and the trace of the calls.
pub mod Tally
pub mod Loops
use cluster_api_control_plan.Common.{Option, none, some, List, [], ◌∷◌, Bool, if◌then◌else◌}
use cluster_api_control_plan.Kube.{Error, Res, ok, err, Cluster, Condition}
use cluster_api_control_plan.Api.{MicroK8sControlPlane, get_conditions, set_conditions}
use cluster_api_control_plan.Platform.{Platform}
use cluster_api_control_plan.Calls.{Call, Reply}

-- `mcp` and `cluster` are what the pointers of those names point to. The newest call is first.
pub record State : Type 0 where
  pub mcp : MicroK8sControlPlane
  pub cluster : Cluster
  pub trace : List Call

-- Where a statement of a function with results of type `R` leaves: to the next one with a value,
-- out of the function, or by a panic.
pub data Flow (R A : Type 0) : Type 0 where
  next : A → Flow R A
  exit : R → Flow R A
  panic : Flow R A

-- How a call of a Go function ends.
pub data Outcome (R : Type 0) : Type 0 where
  returned : R → Outcome R
  panicked : Outcome R

abbrev pub Stmt : Type 0 → Type 0 → Type 0
Stmt R A = State → Flow R A × State

abbrev pub Func : Type 0 → Type 0
Func R = State → Outcome R × State

infixl 5 ◌>>=◌ ◌>>◌
abbrev pub ◌>>=◌ : {R A B : Type 0} → Stmt R A → (A → Stmt R B) → Stmt R B
◌>>=◌ m f s =
    let (r, t) = m s in elim r [ next a ↦ f a t | exit x ↦ (exit x, t) | panic ↦ (panic, t) ]

abbrev pub ◌>>◌ : {R B : Type 0} → Stmt R (Unit {0}) → Stmt R B → Stmt R B
m >> k = m >>= λ _. k

module _ {R : Type 0} where
  abbrev pub pass : Stmt R (Unit {0})
  pass s = (next tt, s)

  abbrev pub pure : {A : Type 0} → A → Stmt R A
  pure a s = (next a, s)

  abbrev pub return : {A : Type 0} → R → Stmt R A
  return x s = (exit x, s)

  abbrev pub fail : {A : Type 0} → Stmt R A
  fail s = (panic, s)

  -- `*p`, which panics at nil.
  abbrev pub deref : {A : Type 0} → Option A → Stmt R A
  deref none = fail
  deref (some a) = pure a

  -- `if err != nil { return … }`, on a pair of a value and an error and on an error alone.
  abbrev pub or_return : {A : Type 0} → Res A → (Error → R) → Stmt R A
  or_return (ok a) f = pure a
  or_return (err e) f = return (f e)

  abbrev pub check : Option Error → (Error → R) → Stmt R (Unit {0})
  check none f = pass
  check (some e) f = return (f e)

  abbrev pub when : Bool → Stmt R (Unit {0}) → Stmt R (Unit {0})
  when b m = if b then m else pass

  -- The bodies of loops over slices: `for _, x := range xs`, where `continue` is `pass`.
  unfoldable pub for_each : {A : Type 0} → List A → (A → Stmt R (Unit {0})) → Stmt R (Unit {0})
  for_each [] body = pass
  for_each (x ∷ xs) body = body x >> for_each xs body

-- A function of its body; a body that runs off its end has no result and is not written.
abbrev pub func : {R : Type 0} → Stmt R R → Func R
func m s =
    let (r, t) = m s in
    elim r [ next x ↦ (returned x, t) | exit x ↦ (returned x, t) | panic ↦ (panicked, t) ]

-- A call of a function of the program.
abbrev pub invoke : {R A : Type 0} → Func A → Stmt R A
invoke f s = let (r, t) = f s in elim r [ returned a ↦ (next a, t) | panicked ↦ (panic, t) ]

-- A call out of the program.
abbrev pub call : {R : Type 0} → Platform → (c : Call) → Stmt R (Reply c)
call p c s = (next (p.answer s.trace c), record s { trace = c ∷ s.trace })

-- `conditions.MarkTrue(mcp, …)`, `conditions.MarkFalse(mcp, …)` and other changes of `*mcp`.
module _ {R : Type 0} where
  abbrev pub read_mcp : Stmt R MicroK8sControlPlane
  read_mcp s = (next s.mcp, s)

  abbrev pub read_cluster : Stmt R Cluster
  read_cluster s = (next s.cluster, s)

  abbrev pub write_mcp : MicroK8sControlPlane → Stmt R (Unit {0})
  write_mcp mcp s = (next tt, record s { mcp = mcp })

  abbrev pub write_cluster : Cluster → Stmt R (Unit {0})
  write_cluster cluster s = (next tt, record s { cluster = cluster })

  abbrev pub update_conditions : (List Condition → List Condition) → Stmt R (Unit {0})
  update_conditions f s =
      (next tt, record s { mcp = set_conditions (f (get_conditions s.mcp)) (s.mcp) })
