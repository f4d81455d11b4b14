-- ===== src/DeepCopy.antt =====
-- The deep copies of the API objects: api/v1beta1/zz_generated.deepcopy.go. A `DeepCopyInto` is here the
-- value that it leaves in `*out`, from the value of `*in`; a new cell is allocated with the value that
-- it comes to hold, since nothing reads it before. What other packages define brings its own copy.
pub mod Memory
pub mod Objects
pub mod Laws
pub mod Copied
pub mod Isolation
use cluster_api_control_plan.Common.{ℕ, Option, none, some, List, [], ◌∷◌, length}
use cluster_api_control_plan.Common.Int.{ℤ}
use cluster_api_control_plan.Api.{MachineTemplate}
use Memory.{M, ◌>>=◌, pure, alloc, load}
use Objects.{
  Imports, Slice, elements, Spec, Status, ControlPlane, ControlPlaneList, Cell, int32, conditions,
  control_planes, machine_template, spec, status, control_plane, control_plane_list, as_int32,
  as_conditions, as_control_planes, as_machine_template, as_spec, as_status, as_control_plane,
  as_control_plane_list, Library,
}

-- The loop over the elements of a slice, each copied into the new array.
unfoldable pub copy_elements : {C A : Type 0} → (A → M C A) → List A → M C (List A)
copy_elements into [] = pure []
copy_elements into (x ∷ xs) = do y ← into x; ys ← copy_elements into xs; pure (y ∷ ys)

-- `DeepCopy` of a type, from its `DeepCopyInto`: nil for nil, and else a pointer to a new copy.
unfoldable pub copy_pointer :
    {C A : Type 0} → (C → Option A) → (A → C) → (A → M C A) → Option ℕ → M C (Option ℕ)
copy_pointer as_a cell into none = pure none
copy_pointer as_a cell into (some a) = do
  value ← load as_a a
  out ← into value
  b ← alloc (cell out)
  pure (some b)

-- The copy of a slice: nil for nil, and else a new array of its length with copies of its elements.
unfoldable pub copy_slice :
    {C A : Type 0}
    → (C → Option (List A))
    → (List A → C)
    → (A → M C A)
    → Option Slice
    → M C (Option Slice)
copy_slice as_array cell into none = pure none
copy_slice as_array cell into (some s) = do
  array ← load as_array s.array
  out ← copy_elements into (elements s array)
  b ← alloc (cell out)
  pure (some (record { array = b; offset = 0; len = s.len }))

module _ (T : Imports) (lib : Library T) where
  abbrev pub Copy : Type 0 → Type 0
  Copy A = A → M (Cell T) A

  unfoldable pub copy_machine_template_into : Copy MachineTemplate
  copy_machine_template_into template = pure template

  -- `*out = new(int32)` and `**out = **in`.
  unfoldable pub copy_replicas : Copy (Option ℕ)
  copy_replicas = copy_pointer (as_int32 T) int32 pure

  unfoldable pub copy_spec_into : Copy (Spec T)
  copy_spec_into s = do
    replicas ← copy_replicas s.replicas
    config ← lib.config_spec.deep_copy_into s.control_plane_config
    pure (record s { replicas = replicas; control_plane_config = config })

  unfoldable pub copy_status_into : Copy (Status T)
  copy_status_into s = do
    copied ← copy_slice (as_conditions T) conditions (lib.condition.deep_copy_into) s.conditions
    pure (record s { conditions = copied })

  unfoldable pub copy_control_plane_into : Copy (ControlPlane T)
  copy_control_plane_into mcp = do
    meta ← lib.object_meta.deep_copy_into mcp.object_meta
    copied_spec ← copy_spec_into mcp.spec
    copied_status ← copy_status_into mcp.status
    pure (record mcp { object_meta = meta; spec = copied_spec; status = copied_status })

  unfoldable pub copy_control_plane_list_into : Copy (ControlPlaneList T)
  copy_control_plane_list_into l = do
    meta ← lib.list_meta.deep_copy_into l.list_meta
    items ← copy_slice (as_control_planes T) control_planes copy_control_plane_into l.items
    pure (record l { list_meta = meta; items = items })

  -- The five `DeepCopy`, on pointers.
  unfoldable pub copy_machine_template : Copy (Option ℕ)
  copy_machine_template =
      copy_pointer (as_machine_template T) machine_template copy_machine_template_into

  unfoldable pub copy_spec : Copy (Option ℕ)
  copy_spec = copy_pointer (as_spec T) spec copy_spec_into

  unfoldable pub copy_status : Copy (Option ℕ)
  copy_status = copy_pointer (as_status T) status copy_status_into

  unfoldable pub copy_control_plane : Copy (Option ℕ)
  copy_control_plane = copy_pointer (as_control_plane T) control_plane copy_control_plane_into

  unfoldable pub copy_control_plane_list : Copy (Option ℕ)
  copy_control_plane_list =
      copy_pointer (as_control_plane_list T) control_plane_list copy_control_plane_list_into

-- `runtime.Object`: a nil pointer gives the nil interface.
pub data Object : Type 0 where
  a_control_plane a_control_plane_list : ℕ → Object

module _ (T : Imports) (lib : Library T) where
  unfoldable pub copy_control_plane_object : Option ℕ → M (Cell T) (Option Object)
  copy_control_plane_object p = do
    c ← copy_control_plane T lib p
    elim c [ none ↦ pure none | some a ↦ pure (some (Object.a_control_plane a)) ]

  unfoldable pub copy_control_plane_list_object : Option ℕ → M (Cell T) (Option Object)
  copy_control_plane_list_object p = do
    c ← copy_control_plane_list T lib p
    elim c [ none ↦ pure none | some a ↦ pure (some (Object.a_control_plane_list a)) ]
