-- ===== src/DeepCopy/Isolation.antt =====
-- The memory that a deep copy of an API object and the object depend on.
use cluster_api_control_plan.Common.{
  ℕ, ◌≡◌, refl, ◌∙◌, arith, Option, none, some, leb, ltb, ◌&&◌, if◌then◌else◌,
}
use cluster_api_control_plan.DeepCopy.Memory.{Memory, M, Keeps, Copies}
use cluster_api_control_plan.DeepCopy.Objects.{
  Imports, Cell, control_plane, control_plane_list, as_control_plane, as_control_plane_list,
  Library,
}
use cluster_api_control_plan.DeepCopy.{
  Object, copy_pointer, copy_control_plane_into, copy_control_plane, copy_control_plane_object,
  copy_control_plane_list_into, copy_control_plane_list, copy_control_plane_list_object,
}
use cluster_api_control_plan.DeepCopy.Laws.{
  HoldsCell, HoldsPointer, HoldsCell-local, Copies-pointer,
}
use cluster_api_control_plan.DeepCopy.Copied.{
  ControlPlaneContent, ListContent, HoldsControlPlane, HoldsList, HoldsControlPlane-local,
  HoldsList-local, copy_control_plane_into-HoldsControlPlane,
  copy_control_plane_list_into-HoldsList,
}

-- The memory after writes to all cells but those from `lo` up to `hi`.
abbrev pub overwritten : {C : Type 0} → ℕ → ℕ → (ℕ → Option C) → Memory C → Memory C
overwritten lo hi others m = record m {
  cell = λ a. if leb lo a && ltb a hi then m.cell a else others a;
}

overwritten-Keeps :
    {C : Type 0} (lo hi : ℕ) (others : ℕ → Option C) (m : Memory C)
    → Keeps lo hi m (overwritten lo hi others m)
overwritten-Keeps lo hi others m = (omega arith, λ a l h. ground arith)

-- The cell at `b` is a copy, made between the memories `m` and `n`, of what the cell at `a` holds. When
-- all cells but those that are new in `n` are overwritten, the copy has the content `c`; and when all
-- cells but those that were there in `m` are, the cell at `a` has it still.
abbrev pub IsIsolated :
    {C B : Type 0}
    → (Memory C → ℕ → B → Type 0)
    → Memory C
    → Memory C
    → (ℕ → Option C)
    → ℕ
    → ℕ
    → B
    → Type 0
IsIsolated Holds m n others a b c =
    Holds (overwritten m.next n.next others n) b c × Holds (overwritten 0 m.next others n) a c

module _ {C A B : Type 0} (Holds : Memory C → A → B → Type 0)
    (local : (m n : Memory C) (t : A) (c : B) → Holds m t c → Keeps 0 m.next m n → Holds n t c)
    (into : A → M C A)
    (copies : (m : Memory C) (t : A) (c : B)
      → Holds m t c
      → Copies m (into t m) (λ k t'. Holds k t' c))
    (as_a : C → Option A) (cell : A → C) (fits : (v : A) → as_a (cell v) ≡ some v) where
  pointer_copied :
      (m : Memory C) (others : ℕ → Option C) (a : ℕ) (c : B)
      → HoldsCell as_a Holds m a c
      → (b : ℕ) × (n : Memory C) × (copy_pointer as_a cell into (some a) m ≡ some (some b, n))
        × IsIsolated (HoldsCell as_a Holds) m n others a b c
  pointer_copied m others a c holds =
      by_result (Copies-pointer Holds into copies as_a cell fits m (some a) (some c) holds)
    where
      by_result :
          Copies m
            (copy_pointer as_a cell into (some a) m)
            (λ k q. HoldsPointer as_a Holds k q (some c))
          → (b : ℕ) × (n : Memory C) × (copy_pointer as_a cell into (some a) m ≡ some (some b, n))
            × IsIsolated (HoldsCell as_a Holds) m n others a b c
      by_result (none, n, e, kept, copied) = absurd (copied n (omega arith, λ x lo hi. refl))
      by_result (some b, n, e, (grown, kept), copied) = (
        b,
        n,
        e,
        (
          copied (overwritten m.next n.next others n) (overwritten-Keeps m.next n.next others n),
          HoldsCell-local Holds local as_a m (overwritten 0 m.next others n) a c holds
              (grown, λ x lo hi. (overwritten-Keeps 0 m.next others n).1 x lo hi ∙ kept x lo hi),
        ),
      )

module _ (T : Imports) (lib : Library T) where
  -- `DeepCopyObject` of a control plane gives nil for nil. For an object with some content it returns
  -- a new one that shares no memory with it: the copy has the content when every cell that it has not
  -- allocated itself is overwritten, and the object has it still when every cell that was not there
  -- before the copy is overwritten. The copies that other packages define are assumed to do so.
  pub copy_control_plane_object-IsIsolated :
      (m : Memory (Cell T)) (others : ℕ → Option (Cell T)) (a : ℕ) (c : ControlPlaneContent T lib)
      → HoldsCell (as_control_plane T) (HoldsControlPlane T lib) m a c
      → (copy_control_plane_object T lib none m ≡ some (none, m))
        × ((b : ℕ) × (n : Memory (Cell T)) × (copy_control_plane_object T lib (some a) m
              ≡ some (some (Object.a_control_plane b), n))
            × IsIsolated
                (HoldsCell (as_control_plane T) (HoldsControlPlane T lib))
                m
                n
                others
                a
                b
                c)
  unfolding copy_control_plane_object copy_control_plane
  copy_control_plane_object-IsIsolated m others a c holds =
      let (b, n, e, isolated) =
        pointer_copied (HoldsControlPlane T lib) (HoldsControlPlane-local T lib)
          (copy_control_plane_into T lib) (copy_control_plane_into-HoldsControlPlane T lib)
          (as_control_plane T) control_plane (λ v. refl) m others a c holds in
      (unfold copy_pointer in refl, (b, n, ground (arith, e), isolated))

  -- The same for `DeepCopyObject` of a list of control planes, with the objects in it.
  pub copy_control_plane_list_object-IsIsolated :
      (m : Memory (Cell T)) (others : ℕ → Option (Cell T)) (a : ℕ) (c : ListContent T lib)
      → HoldsCell (as_control_plane_list T) (HoldsList T lib) m a c
      → (copy_control_plane_list_object T lib none m ≡ some (none, m))
        × ((b : ℕ) × (n : Memory (Cell T)) × (copy_control_plane_list_object T lib (some a) m
              ≡ some (some (Object.a_control_plane_list b), n))
            × IsIsolated (HoldsCell (as_control_plane_list T) (HoldsList T lib)) m n others a b c)
  unfolding copy_control_plane_list_object copy_control_plane_list
  copy_control_plane_list_object-IsIsolated m others a c holds =
      let (b, n, e, isolated) =
        pointer_copied (HoldsList T lib) (HoldsList-local T lib)
          (copy_control_plane_list_into T lib) (copy_control_plane_list_into-HoldsList T lib)
          (as_control_plane_list T) control_plane_list (λ v. refl) m others a c holds in
      (unfold copy_pointer in refl, (b, n, ground (arith, e), isolated))
