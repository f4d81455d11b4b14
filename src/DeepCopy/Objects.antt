-- ===== src/DeepCopy/Objects.antt =====
-- The API objects as Go stores them: the types of microk8scontrolplane_types.go with their pointers and
-- slices, and the cells of memory that these point to.
use cluster_api_control_plan.Common.{ℕ, zero, suc, String, Bool, Option, none, some, List, [], ◌∷◌}
use cluster_api_control_plan.Common.Int.{ℤ}
use cluster_api_control_plan.Api.{MachineTemplate}
use cluster_api_control_plan.DeepCopy.Memory.{GoType}

-- A slice, as a part of an array.
pub record Slice : Type 0 where
  pub array : ℕ
  pub offset : ℕ
  pub len : ℕ

abbrev pub skip : {A : Type 0} → ℕ → List A → List A
skip zero xs = xs
skip (suc n) [] = []
skip (suc n) (x ∷ xs) = skip n xs

abbrev pub first : {A : Type 0} → ℕ → List A → List A
first zero xs = []
first (suc n) [] = []
first (suc n) (x ∷ xs) = x ∷ first n xs

abbrev pub elements : {A : Type 0} → Slice → List A → List A
elements s xs = first s.len (skip s.offset xs)

-- The types of other packages, with what else memory may hold for them.
pub record Imports : Type 1 where
  pub ObjectMeta : Type 0
  pub ListMeta : Type 0
  pub ConfigSpec : Type 0
  pub Condition : Type 0
  pub Other : Type 0

pub record TypeMeta : Type 0 where
  pub kind : String
  pub api_version : String

-- The objects, on the types of the fields that reach other cells: `R` is `Option ℕ`, a pointer, in
-- memory, and the number itself in the content; so with the others.
pub record SpecOf (R G : Type 0) : Type 0 where
  pub replicas : R
  pub version : String
  pub machine_template : MachineTemplate
  pub upgrade_strategy : String
  pub control_plane_config : G

pub record StatusOf (C : Type 0) : Type 0 where
  pub selector : String
  pub replicas : ℤ
  pub ready_replicas : ℤ
  pub unavailable_replicas : ℤ
  pub initialized : Bool
  pub ready : Bool
  pub bootstrapped : Bool
  pub observed_generation : ℤ
  pub conditions : C

pub record ControlPlaneOf (O S U : Type 0) : Type 0 where
  pub type_meta : TypeMeta
  pub object_meta : O
  pub spec : S
  pub status : U

pub record ListOf (L I : Type 0) : Type 0 where
  pub type_meta : TypeMeta
  pub list_meta : L
  pub items : I

module _ (T : Imports) where
  open T use {ObjectMeta, ListMeta, ConfigSpec, Condition, Other}

  abbrev pub Spec : Type 0
  Spec = SpecOf (Option ℕ) ConfigSpec

  abbrev pub Status : Type 0
  Status = StatusOf (Option Slice)

  abbrev pub ControlPlane : Type 0
  ControlPlane = ControlPlaneOf ObjectMeta Spec Status

  abbrev pub ControlPlaneList : Type 0
  ControlPlaneList = ListOf ListMeta (Option Slice)

  -- What a cell holds.
  pub data Cell : Type 0 where
    int32 : ℤ → Cell
    conditions : List Condition → Cell
    control_planes : List ControlPlane → Cell
    machine_template : MachineTemplate → Cell
    spec : Spec → Cell
    status : Status → Cell
    control_plane : ControlPlane → Cell
    control_plane_list : ControlPlaneList → Cell
    other : Other → Cell

  abbrev pub as_int32 : Cell → Option ℤ
  as_int32 (int32 v) = some v
  as_int32 _ = none

  abbrev pub as_conditions : Cell → Option (List Condition)
  as_conditions (conditions v) = some v
  as_conditions _ = none

  abbrev pub as_control_planes : Cell → Option (List ControlPlane)
  as_control_planes (control_planes v) = some v
  as_control_planes _ = none

  abbrev pub as_machine_template : Cell → Option MachineTemplate
  as_machine_template (machine_template v) = some v
  as_machine_template _ = none

  abbrev pub as_spec : Cell → Option Spec
  as_spec (spec v) = some v
  as_spec _ = none

  abbrev pub as_status : Cell → Option Status
  as_status (status v) = some v
  as_status _ = none

  abbrev pub as_control_plane : Cell → Option ControlPlane
  as_control_plane (control_plane v) = some v
  as_control_plane _ = none

  abbrev pub as_control_plane_list : Cell → Option ControlPlaneList
  as_control_plane_list (control_plane_list v) = some v
  as_control_plane_list _ = none

  -- The copies that the other packages define.
  pub record Library : Type 1 where
    pub object_meta : GoType Cell ObjectMeta
    pub list_meta : GoType Cell ListMeta
    pub config_spec : GoType Cell ConfigSpec
    pub condition : GoType Cell Condition
