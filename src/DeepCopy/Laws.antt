-- ===== src/DeepCopy/Laws.antt =====
-- The pieces of a deep copy: pointers, elements and slices copy what their elements copy.
use cluster_api_control_plan.Common.{
  ℕ, suc, ◌≡◌, refl, ◌∙◌, arith, Option, none, some, ◌<◌, List, [], ◌∷◌, length, ◌==◌,
  if◌then◌else◌,
}
use cluster_api_control_plan.DeepCopy.Memory.{
  Memory, M, ◌>>=◌, pure, alloc, load, Keeps, Copies, Copies-pure, Copies-mono, Copies-bind,
}
use cluster_api_control_plan.DeepCopy.Objects.{Slice, first, elements}
use cluster_api_control_plan.DeepCopy.{copy_elements, copy_pointer, copy_slice}

module _ {C A : Type 0} (as_a : C → Option A) where
  -- The cell holds a value of the type, whose content is `c`.
  abbrev pub HoldsCell : {B : Type 0} → (Memory C → A → B → Type 0) → Memory C → ℕ → B → Type 0
  HoldsCell Holds m a c =
      (a < m.next) × (x : C) × (v : A) × (m.cell a ≡ some x) × (as_a x ≡ some v) × Holds m v c

-- The content of a pointer: nil, or that of what it points to.
abbrev pub HoldsPointer :
    {C A B : Type 0}
    → (C → Option A)
    → (Memory C → A → B → Type 0)
    → Memory C
    → Option ℕ
    → Option B
    → Type 0
HoldsPointer as_a Holds m none none = Unit
HoldsPointer as_a Holds m (some a) (some c) = HoldsCell as_a Holds m a c
HoldsPointer as_a Holds m _ _ = ⊥

-- The contents of the elements of a list, one by one.
abbrev pub HoldsAll :
    {C A B : Type 0} → (Memory C → A → B → Type 0) → Memory C → List A → List B → Type 0
HoldsAll Holds m [] [] = Unit
HoldsAll Holds m (x ∷ xs) (c ∷ cs) = Holds m x c × HoldsAll Holds m xs cs
HoldsAll Holds m _ _ = ⊥

-- The content of a slice: nil, or those of its elements.
abbrev pub HoldsSlice :
    {C A B : Type 0}
    → (C → Option (List A))
    → (Memory C → A → B → Type 0)
    → Memory C
    → Option Slice
    → Option (List B)
    → Type 0
HoldsSlice as_array Holds m none none = Unit
HoldsSlice as_array Holds m (some s) (some cs) =
    (s.len ≡ length cs)
    × HoldsCell as_array (λ m array cs. HoldsAll Holds m (elements s array) cs) m s.array cs
HoldsSlice as_array Holds m _ _ = ⊥

module _ {C A B : Type 0} (Holds : Memory C → A → B → Type 0)
    (local : (m n : Memory C) (t : A) (c : B)
      → Holds m t c
      → Keeps 0 m.next m n
      → Holds n t c) where
  pub HoldsCell-local :
      (as_a : C → Option A) (m n : Memory C) (a : ℕ) (c : B)
      → HoldsCell as_a Holds m a c
      → Keeps 0 m.next m n
      → HoldsCell as_a Holds n a c
  HoldsCell-local as_a m n a c (lt, x, v, found, typed, holds) (grown, same) = (
    omega (arith, lt, grown),
    x,
    v,
    same a (omega arith) lt ∙ found,
    typed,
    local m n v c holds (grown, same),
  )

  pub HoldsPointer-local :
      (as_a : C → Option A) (m n : Memory C) (p : Option ℕ) (c : Option B)
      → HoldsPointer as_a Holds m p c
      → Keeps 0 m.next m n
      → HoldsPointer as_a Holds n p c
  HoldsPointer-local as_a m n none none h kept = tt
  HoldsPointer-local as_a m n none (some c) h kept = h
  HoldsPointer-local as_a m n (some a) none h kept = h
  HoldsPointer-local as_a m n (some a) (some c) h kept = HoldsCell-local as_a m n a c h kept

  pub HoldsAll-local :
      (m n : Memory C) (xs : List A) (cs : List B)
      → HoldsAll Holds m xs cs
      → Keeps 0 m.next m n
      → HoldsAll Holds n xs cs
  HoldsAll-local m n [] [] h kept = tt
  HoldsAll-local m n [] (c ∷ cs) h kept = h
  HoldsAll-local m n (x ∷ xs) [] h kept = h
  HoldsAll-local m n (x ∷ xs) (c ∷ cs) h kept =
      (local m n x c h.0 kept, HoldsAll-local m n xs cs h.1 kept)

  pub HoldsSlice-local :
      (as_array : C → Option (List A)) (m n : Memory C) (p : Option Slice) (c : Option (List B))
      → HoldsSlice as_array Holds m p c
      → Keeps 0 m.next m n
      → HoldsSlice as_array Holds n p c
  HoldsSlice-local as_array m n none none h kept = tt
  HoldsSlice-local as_array m n none (some c) h kept = h
  HoldsSlice-local as_array m n (some s) none h kept = h
  HoldsSlice-local as_array m n (some s) (some cs) (len, (lt, x, v, found, typed, holds))
        (grown, same) =
      (
        len,
        (
          omega (arith, lt, grown),
          x,
          v,
          same s.array (omega arith) lt ∙ found,
          typed,
          HoldsAll-local m n (elements s v) cs holds (grown, same),
        ),
      )

-- A new cell has its value in every later memory that keeps it.
Copies-alloc :
    {C : Type 0} (m : Memory C) (c : C)
    → Copies m (alloc c m) (λ k a. (a < k.next) × (k.cell a ≡ some c))
Copies-alloc m c = (
  m.next,
  record m { next = suc m.next; cell = λ a. if a == m.next then some c else m.cell a },
  refl,
  (omega arith, λ a lo hi. ground arith),
  λ k (later, same). (omega (arith, later), same m.next (omega arith) (omega arith) ∙ ground arith),
)

HoldsAll-first :
    {C A B : Type 0} (Holds : Memory C → A → B → Type 0) (k : Memory C) (xs : List A) (cs : List B)
    → HoldsAll Holds k xs cs
    → HoldsAll Holds k (first (length cs) xs) cs
HoldsAll-first Holds k [] [] h = tt
HoldsAll-first Holds k [] (c ∷ cs) h = h
HoldsAll-first Holds k (x ∷ xs) [] h = tt
HoldsAll-first Holds k (x ∷ xs) (c ∷ cs) h = (h.0, HoldsAll-first Holds k xs cs h.1)

load_lem :
    {C A : Type 0} (as_a : C → Option A) (a : ℕ) (m : Memory C) (x : C) (v : A)
    → m.cell a ≡ some x
    → as_a x ≡ some v
    → load as_a a m ≡ some (v, m)
load_lem as_a a m x v found typed = ground (arith, found, typed)

-- A read leaves the memory alone.
Copies-load :
    {C A B : Type 0} {P : Memory C → B → Type 0} (as_a : C → Option A) (a : ℕ) (m : Memory C)
    (x : C) (v : A) (f : A → M C B)
    → m.cell a ≡ some x
    → as_a x ≡ some v
    → Copies m (f v m) P
    → Copies m ((load as_a a >>= f) m) P
Copies-load {C} {A} {B} as_a a m x v f found typed (w, n, e, kept, holds) =
    (w, n, after (load as_a a m) (load_lem as_a a m x v found typed), kept, holds)
  where
    after :
        (r : Option (A × Memory C))
        → r ≡ some (v, m)
        → elim r as (λ z. Option (B × Memory C)) [ none ↦ none | some (u, l) ↦ f u l ] ≡ some (w, n)
    after none h = absurd (cc)
    after (some (u, l)) h = ground (arith, h, e)

module _ {C A B : Type 0} (Holds : Memory C → A → B → Type 0) (into : A → M C A)
    (copies : (m : Memory C) (t : A) (c : B)
      → Holds m t c
      → Copies m (into t m) (λ k t'. Holds k t' c)) where
  pub Copies-pointer :
      (as_a : C → Option A) (cell : A → C)
      → ((v : A) → as_a (cell v) ≡ some v)
      → (m : Memory C) (p : Option ℕ) (c : Option B) → HoldsPointer as_a Holds m p c
      → Copies m (copy_pointer as_a cell into p m) (λ k q. HoldsPointer as_a Holds k q c)
  unfolding copy_pointer
  Copies-pointer as_a cell fits m none none h =
      Copies-mono m (pure none m) (Copies-pure m none) (λ k q e. rw e tt)
  Copies-pointer as_a cell fits m none (some c) h = absurd h
  Copies-pointer as_a cell fits m (some a) none h = absurd h
  Copies-pointer as_a cell fits m (some a) (some c) (lt, x, v, found, typed, holds) =
      Copies-load as_a a m x v
        (λ value. into value >>= λ out. alloc (cell out) >>= λ b. pure (some b)) found typed
        (Copies-mono m _
          (Copies-bind m (into v) (λ out. alloc (cell out) >>= λ b. pure (some b))
            (copies m v c holds)
            λ out n kept.
              Copies-bind n (alloc (cell out)) (λ b. pure (some b)) (Copies-alloc n (cell out))
                λ b l kept'. Copies-pure l (some b))
          (λ k q (out, copied, (b, (lt', there), e)).
            rw e (lt', cell out, out, there, fits out, copied)))

  pub Copies-elements :
      (xs : List A) (cs : List B) (m : Memory C)
      → HoldsAll Holds m xs cs
      → ((n k : Memory C) (t : A) (c : B) → Holds n t c → Keeps 0 n.next n k → Holds k t c)
      → Copies m (copy_elements into xs m) (λ k ys. HoldsAll Holds k ys cs)
  unfolding copy_elements
  Copies-elements [] [] m h local = Copies-mono m _ (Copies-pure m []) (λ k ys e. rw e tt)
  Copies-elements [] (c ∷ cs) m h local = absurd h
  Copies-elements (x ∷ xs) [] m h local = absurd h
  Copies-elements (x ∷ xs) (c ∷ cs) m (one, rest) local =
      Copies-mono m _
        (Copies-bind m (into x) (λ y. copy_elements into xs >>= λ ys. pure (y ∷ ys))
          (copies m x c one)
          λ y n kept.
            Copies-bind n (copy_elements into xs) (λ ys. pure (y ∷ ys))
              (Copies-elements xs cs n (HoldsAll-local Holds local m n xs cs rest kept) local)
              λ ys l kept'. Copies-pure l (y ∷ ys))
        (λ k zs (y, copied, (ys, others, e)). rw e (copied, others))

  pub Copies-slice :
      (as_array : C → Option (List A)) (cell : List A → C)
      → ((v : List A) → as_array (cell v) ≡ some v)
      → ((n k : Memory C) (t : A) (c : B) → Holds n t c → Keeps 0 n.next n k → Holds k t c)
      → (m : Memory C) (p : Option Slice) (c : Option (List B)) → HoldsSlice as_array Holds m p c
      → Copies m (copy_slice as_array cell into p m) (λ k q. HoldsSlice as_array Holds k q c)
  unfolding copy_slice
  Copies-slice as_array cell fits local m none none h =
      Copies-mono m (pure none m) (Copies-pure m none) (λ k q e. rw e tt)
  Copies-slice as_array cell fits local m none (some c) h = absurd h
  Copies-slice as_array cell fits local m (some s) none h = absurd h
  Copies-slice as_array cell fits local m (some s) (some cs)
        (len, (lt, x, v, found, typed, holds)) =
      let slice : ℕ → Option Slice = λ b. some (record { array = b; offset = 0; len = s.len }) in
      Copies-load as_array s.array m x v
        (λ array.
          copy_elements into (elements s array) >>= λ out. alloc (cell out) >>= λ b. pure (slice b))
        found typed
        (Copies-mono m _
          (Copies-bind m (copy_elements into (elements s v))
            (λ out. alloc (cell out) >>= λ b. pure (slice b))
            (Copies-elements (elements s v) cs m holds local)
            λ out n kept.
              Copies-bind n (alloc (cell out)) (λ b. pure (slice b)) (Copies-alloc n (cell out))
                λ b l kept'. Copies-pure l (slice b))
          (λ k q (out, copied, (b, (lt', there), e)). rw e (
            len,
            (lt', cell out, out, there, fits out, rw len (HoldsAll-first Holds k out cs copied)),
          )))
