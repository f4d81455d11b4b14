-- ===== src/DeepCopy/Memory.antt =====
-- Go's memory, as far as copies need it: cells that are allocated one after the other, and the types
-- whose values reach cells.
use cluster_api_control_plan.Common.{
  ℕ, suc, ◌≡◌, refl, ◌∙◌, arith, Option, none, some, ◌≤◌, ◌<◌, ◌==◌, if◌then◌else◌,
}

pub record Memory (C : Type 0) : Type 0 where
  pub next : ℕ
  pub cell : ℕ → Option C

-- `none` is a fault, such as a read at an address that was never allocated.
abbrev pub M : Type 0 → Type 0 → Type 0
M C A = Memory C → Option (A × Memory C)

module _ {C : Type 0} where
  abbrev pub pure : {A : Type 0} → A → M C A
  pure a m = some (a, m)

  infixl 5 ◌>>=◌
  abbrev pub ◌>>=◌ : {A B : Type 0} → M C A → (A → M C B) → M C B
  ◌>>=◌ x f m = elim (x m) [ none ↦ none | some (a, n) ↦ f a n ]

  -- `new` and `make`, with what is then written into the new cell.
  abbrev pub alloc : C → M C ℕ
  alloc c m =
      some (
        m.next,
        record m { next = suc m.next; cell = λ a. if a == m.next then some c else m.cell a },
      )

  -- A read of a cell as a value of a type.
  abbrev pub load : {A : Type 0} → (C → Option A) → ℕ → M C A
  load as_a a m = elim (m.cell a) [
    | none ↦ none
    | some c ↦ elim (as_a c) [ none ↦ none | some v ↦ some (v, m) ]
  ]

  -- `n` comes after `m`, and has the same in the cells from `lo` up to `hi`; all else may differ.
  abbrev pub Keeps : ℕ → ℕ → Memory C → Memory C → Type 0
  Keeps lo hi m n = (m.next ≤ n.next) × ((a : ℕ) → lo ≤ a → a < hi → n.cell a ≡ m.cell a)

  -- A run from `m` ends well, leaves the cells that were there, and its result has the property in
  -- every later memory in which the cells that it has allocated are kept, whatever the others hold.
  abbrev pub Copies :
      {A : Type 0} → Memory C → Option (A × Memory C) → (Memory C → A → Type 0) → Type 0
  Copies {A} m r P =
      (v : A) × (n : Memory C) × (r ≡ some (v, n))
      × Keeps 0 m.next m n
      × ((k : Memory C) → Keeps m.next n.next n k → P k v)

  module _ {A : Type 0} where
    pub Copies-pure : (m : Memory C) (v : A) → Copies m (pure v m) (λ k w. w ≡ v)
    Copies-pure m v = (v, m, refl, (omega arith, λ a lo hi. refl), λ k kept. refl)

    pub Copies-mono :
        {P Q : Memory C → A → Type 0} (m : Memory C) (r : Option (A × Memory C))
        → Copies m r P
        → ((k : Memory C) (v : A) → P k v → Q k v)
        → Copies m r Q
    Copies-mono m r (v, n, e, kept, holds) weaken =
        (v, n, e, kept, λ k later. weaken k v (holds k later))

    pub Copies-bind :
        {B : Type 0} {P : Memory C → A → Type 0} {Q : A → Memory C → B → Type 0} (m : Memory C)
        (x : M C A) (f : A → M C B)
        → Copies m (x m) P
        → ((v : A) (n : Memory C) → Keeps 0 m.next m n → Copies n (f v n) (Q v))
        → Copies m ((x >>= f) m) (λ k w. (v : A) × P k v × Q v k w)
    Copies-bind m x f (v, n, e, (grown, kept), holds) rest =
        let (w, l, e', (grown', kept'), holds') = rest v n (grown, kept) in
        (
          w,
          l,
          rw (e, ◌>>=◌) e',
          (
            omega (arith, grown, grown'),
            λ a lo hi. kept' a lo (omega (arith, grown, hi)) ∙ kept a lo hi,
          ),
          λ k (later, same). (
            v,
            holds k (
              omega (arith, grown', later),
              λ a lo hi. same a lo (omega (arith, grown', hi)) ∙ kept' a (omega arith) hi,
            ),
            holds' k (later, λ a lo hi. same a (omega (arith, grown, lo)) hi),
          ),
        )

-- A type with its deep copy. `Holds m t c` says that `t` has the content `c` in the memory `m`: it reads
-- only cells that are allocated there, and a copy has the same content and shares no cell.
pub record GoType (C T : Type 0) : Type 1 where
  pub Content : Type 0
  pub Holds : Memory C → T → Content → Type 0
  pub deep_copy_into : T → M C T
  pub local :
      (m n : Memory C) (t : T) (c : Content) → Holds m t c → Keeps 0 m.next m n → Holds n t c
  pub copies :
      (m : Memory C) (t : T) (c : Content)
      → Holds m t c
      → Copies m (deep_copy_into t m) (λ k t'. Holds k t' c)
