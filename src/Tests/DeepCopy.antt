-- ===== src/Tests/DeepCopy.antt =====
-- The deep copies on a memory with a list of one control plane. The metadata of an object has a pointer
-- to its labels; the other imported types are texts.
use cluster_api_control_plan.Common.{
  ℕ, ◌≡◌, get_elem?, refl, ◌∙◌, arith, Option, none, some, String, List, [], ◌∷◌, true,
}
use cluster_api_control_plan.Common.Int.{pos}
use cluster_api_control_plan.Api.{MachineTemplate}
use cluster_api_control_plan.Tests.World.{reference}
use cluster_api_control_plan.DeepCopy.Memory.{Memory, pure, GoType, Copies-pure, Copies-mono}
use cluster_api_control_plan.DeepCopy.Objects.{
  Imports, TypeMeta, ControlPlane, Cell, int32, conditions, control_planes, control_plane,
  control_plane_list, other, as_control_plane, as_control_plane_list, Library,
}
use cluster_api_control_plan.DeepCopy.{
  Object, copy_pointer, copy_control_plane_object, copy_control_plane_list_object,
}
use cluster_api_control_plan.DeepCopy.Laws.{
  HoldsCell, HoldsPointer, HoldsPointer-local, Copies-pointer,
}
use cluster_api_control_plan.DeepCopy.Copied.{
  ControlPlaneContent, ListContent, HoldsControlPlane, HoldsList,
}
use cluster_api_control_plan.DeepCopy.Isolation.{
  IsIsolated, copy_control_plane_object-IsIsolated, copy_control_plane_list_object-IsIsolated,
}

abbrev imports : Imports
imports = record {
  ObjectMeta = Option ℕ;
  ListMeta = String;
  ConfigSpec = String;
  Condition = String;
  Other = String;
}

abbrev C : Type 0
C = Cell imports

-- A type without pointers.
abbrev HoldsText : Memory C → String → String → Type 0
HoldsText m t c = t ≡ c

abbrev plain : GoType C String
plain = record {
  Content = String;
  Holds = HoldsText;
  deep_copy_into = pure;
  local = λ m n t c e kept. e;
  copies = λ m t c e. Copies-mono m _ (Copies-pure m t) (λ k w h. h ∙ e);
}

abbrev as_other : C → Option String
as_other (other v) = some v
as_other _ = none

abbrev labelled : GoType C (Option ℕ)
labelled = record {
  Content = Option String;
  Holds = HoldsPointer as_other HoldsText;
  deep_copy_into = copy_pointer as_other other pure;
  local =
      λ m n t c h kept. HoldsPointer-local HoldsText (λ m n v z e kept. e) as_other m n t c h kept;
  copies = λ m t c h.
      Copies-pointer HoldsText pure (λ m v z e. Copies-mono m _ (Copies-pure m v) (λ k w h. h ∙ e))
        as_other other (λ v. refl) m t c h;
}

abbrev library : Library imports
library = record {
  object_meta = labelled;
  list_meta = plain;
  config_spec = plain;
  condition = plain;
}

abbrev template : MachineTemplate
template = record { infrastructure_template = reference }

abbrev kind_of_mcp : TypeMeta
kind_of_mcp = record { kind = "MicroK8sControlPlane"; api_version = "v1beta1" }

-- Three replicas in cell 0, two conditions in an array of three in cell 1, labels in cell 2.
abbrev stored : ControlPlane imports
stored = record {
  type_meta = kind_of_mcp;
  object_meta = some 2;
  spec = record {
    replicas = some 0;
    version = "v1.25";
    machine_template = template;
    upgrade_strategy = "";
    control_plane_config = "config";
  };
  status = record {
    selector = "";
    replicas = pos 3;
    ready_replicas = pos 3;
    unavailable_replicas = pos 0;
    initialized = true;
    ready = true;
    bootstrapped = true;
    observed_generation = pos 1;
    conditions = some (record { array = 1; offset = 1; len = 2 });
  };
}

abbrev content : ControlPlaneContent imports library
content = record {
  type_meta = kind_of_mcp;
  object_meta = some "labels";
  spec = record {
    replicas = some (pos 3);
    version = "v1.25";
    machine_template = template;
    upgrade_strategy = "";
    control_plane_config = "config";
  };
  status = record {
    selector = "";
    replicas = pos 3;
    ready_replicas = pos 3;
    unavailable_replicas = pos 0;
    initialized = true;
    ready = true;
    bootstrapped = true;
    observed_generation = pos 1;
    conditions = some ("Ready" ∷ "Resized" ∷ []);
  };
}

abbrev cells : List C
cells =
    int32 (pos 3)
    ∷ conditions ("Old" ∷ "Ready" ∷ "Resized" ∷ [])
    ∷ other "labels"
    ∷ control_plane stored
    ∷ control_planes (stored ∷ [])
    ∷ control_plane_list (record {
      type_meta = kind_of_mcp;
      list_meta = "list";
      items = some (record { array = 4; offset = 0; len = 1 });
    })
    ∷ []

abbrev memory : Memory C
memory = record { next = 6; cell = get_elem? cells }

abbrev listed : ListContent imports library
listed = record { type_meta = kind_of_mcp; list_meta = "list"; items = some (content ∷ []) }

stored-HoldsControlPlane : HoldsControlPlane imports library memory stored content
stored-HoldsControlPlane = (
  (omega arith, other "labels", "labels", refl, refl, refl),
  ((omega arith, int32 (pos 3), pos 3, refl, refl, refl), refl, (refl, refl, refl)),
  (
    (
      refl,
      (
        omega arith,
        conditions ("Old" ∷ "Ready" ∷ "Resized" ∷ []),
        "Old" ∷ "Ready" ∷ "Resized" ∷ [],
        refl,
        refl,
        (refl, (refl, tt)),
      ),
    ),
    (refl, refl, refl, refl, refl, refl, refl, refl),
  ),
  refl,
)

object_holds :
    HoldsCell (as_control_plane imports) (HoldsControlPlane imports library) memory 3 content
object_holds = (omega arith, control_plane stored, stored, refl, refl, stored-HoldsControlPlane)

list_holds : HoldsCell (as_control_plane_list imports) (HoldsList imports library) memory 5 listed
list_holds = (
  omega arith,
  control_plane_list _,
  _,
  refl,
  refl,
  (
    refl,
    (
      refl,
      (
        omega arith,
        control_planes (stored ∷ []),
        stored ∷ [],
        refl,
        refl,
        (stored-HoldsControlPlane, tt),
      ),
    ),
    refl,
  ),
)

-- Everything else is lost.
abbrev lost : ℕ → Option C
lost a = none

copy_control_plane_object-IsIsolated_example :
    (copy_control_plane_object imports library none memory ≡ some (none, memory))
    × ((b : ℕ) × (n : Memory C) × (copy_control_plane_object imports library (some 3) memory
          ≡ some (some (Object.a_control_plane b), n))
        × IsIsolated
            (HoldsCell (as_control_plane imports) (HoldsControlPlane imports library))
            memory
            n
            lost
            3
            b
            content)
copy_control_plane_object-IsIsolated_example =
    copy_control_plane_object-IsIsolated imports library memory lost 3 content object_holds

copy_control_plane_list_object-IsIsolated_example :
    (copy_control_plane_list_object imports library none memory ≡ some (none, memory))
    × ((b : ℕ) × (n : Memory C) × (copy_control_plane_list_object imports library (some 5) memory
          ≡ some (some (Object.a_control_plane_list b), n))
        × IsIsolated
            (HoldsCell (as_control_plane_list imports) (HoldsList imports library))
            memory
            n
            lost
            5
            b
            listed)
copy_control_plane_list_object-IsIsolated_example =
    copy_control_plane_list_object-IsIsolated imports library memory lost 5 listed list_holds
