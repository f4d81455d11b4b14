-- ===== src/Common/Lists.antt =====
-- Lists measured by native numbers, and predicates on lists by recursion.
use Prim.Native.Nat.{ℕ, zero, suc, ◌+◌}
use mathlib.Core.Path.{◌≡◌, subst}
use mathlib.Core.Logic.{◌⊎◌, inl, inr}
use mathlib.Core.List.{List, [], ◌∷◌, ◌++◌, reverse, reverse-cons}
use mathlib.Core.Option.{Option, none, some}
use native.Mathlib.Omega.{arith}

module _ {ℓ} {A : Type ℓ} where
  abbrev pub length : List A → ℕ
  length [] = 0
  length (x ∷ xs) = suc (length xs)

  abbrev pub get_elem? : List A → ℕ → Option A
  get_elem? [] i = none
  get_elem? (x ∷ xs) zero = some x
  get_elem? (x ∷ xs) (suc i) = get_elem? xs i

  pub length-append : (xs ys : List A) → length (xs ++ ys) ≡ length xs + length ys
  length-append [] ys = omega arith
  length-append (x ∷ xs) ys = omega (arith, length-append xs ys)

module _ {ℓ κ} {A : Type ℓ} (P : A → Type κ) where
  -- Every element satisfies `P`.
  abbrev pub All : List A → Type κ
  All [] = Unit
  All (x ∷ xs) = P x × All xs

module _ {ℓ κ} {A : Type ℓ} (P : A → Type κ) where
  All-of_append : (xs ys : List A) → All P (xs ++ ys) → All P xs × All P ys
  All-of_append [] ys h = (tt, h)
  All-of_append (x ∷ xs) ys h = let (l, r) = All-of_append xs ys h.1 in ((h.0, l), r)

  pub All-of_reverse : (xs : List A) → All P (reverse xs) → All P xs
  All-of_reverse [] h = tt
  All-of_reverse (x ∷ xs) h =
      let (l, r) =
        All-of_append (reverse xs) (x ∷ []) (subst (λ ys. All P ys) (reverse-cons x xs) h) in
      (r.0, All-of_reverse xs l)

-- `a` is one of the elements.
abbrev pub Among : {A : Type 0} → A → List A → Type 0
Among a [] = ⊥
Among a (x ∷ xs) = (a ≡ x) ⊎ Among a xs

module _ {A : Type 0} (a : A) where
  Among-of_append : (xs ys : List A) → Among a (xs ++ ys) → Among a xs ⊎ Among a ys
  Among-of_append [] ys h = inr h
  Among-of_append (x ∷ xs) ys (inl e) = inl (inl e)
  Among-of_append (x ∷ xs) ys (inr h) = elim (Among-of_append xs ys h) [
    | inl l ↦ inl (inr l)
    | inr r ↦ inr r
  ]

  pub Among-of_reverse : (xs : List A) → Among a (reverse xs) → Among a xs
  Among-of_reverse [] h = h
  Among-of_reverse (x ∷ xs) h =
      elim (Among-of_append (reverse xs) (x ∷ [])
        (subst (λ ys. Among a ys) (reverse-cons x xs) h)) [
          | inl l ↦ inr (Among-of_reverse xs l)
          | inr (inl e) ↦ inl e
          | inr (inr no_more) ↦ absurd no_more
        ]
