-- ===== src/DeepCopy/Copied.antt =====
-- What the API objects and their deep copies hold in memory.
use cluster_api_control_plan.Common.{◌≡◌, refl, ◌∙◌, Option, List}
use cluster_api_control_plan.Common.Int.{ℤ}
use cluster_api_control_plan.DeepCopy.Memory.{
  Memory, ◌>>=◌, pure, Keeps, Copies, Copies-pure, Copies-mono, Copies-bind,
}
use cluster_api_control_plan.DeepCopy.Objects.{
  Imports, Slice, SpecOf, StatusOf, ControlPlaneOf, ListOf, Spec, Status, ControlPlane,
  ControlPlaneList, Cell, int32, conditions, control_planes, as_int32, as_conditions,
  as_control_planes, Library,
}
use cluster_api_control_plan.DeepCopy.{
  copy_slice, copy_replicas, copy_spec_into, copy_status_into, copy_control_plane_into,
  copy_control_plane_list_into,
}
use cluster_api_control_plan.DeepCopy.Laws.{
  HoldsPointer, HoldsSlice, HoldsPointer-local, HoldsSlice-local, Copies-pointer, Copies-slice,
}

-- A number holds itself.
abbrev pub HoldsInt : {C : Type 0} → Memory C → ℤ → ℤ → Type 0
HoldsInt m v c = v ≡ c

-- The fields that are no pointer.
abbrev pub SameSpec : {R G R' G' : Type 0} → SpecOf R G → SpecOf R' G' → Type 0
SameSpec s c =
    (s.version ≡ c.version)
    × (s.machine_template ≡ c.machine_template)
    × (s.upgrade_strategy ≡ c.upgrade_strategy)

abbrev pub SameStatus : {C C' : Type 0} → StatusOf C → StatusOf C' → Type 0
SameStatus s c =
    (s.selector ≡ c.selector)
    × (s.replicas ≡ c.replicas)
    × (s.ready_replicas ≡ c.ready_replicas)
    × (s.unavailable_replicas ≡ c.unavailable_replicas)
    × (s.initialized ≡ c.initialized)
    × (s.ready ≡ c.ready)
    × (s.bootstrapped ≡ c.bootstrapped)
    × (s.observed_generation ≡ c.observed_generation)

module _ (T : Imports) (lib : Library T) where
  open T use {ObjectMeta, ListMeta}

  -- The contents of the objects.
  abbrev pub SpecContent : Type 0
  SpecContent = SpecOf (Option ℤ) lib.config_spec.Content

  abbrev pub StatusContent : Type 0
  StatusContent = StatusOf (Option (List lib.condition.Content))

  abbrev pub ControlPlaneContent : Type 0
  ControlPlaneContent = ControlPlaneOf lib.object_meta.Content SpecContent StatusContent

  abbrev pub ListContent : Type 0
  ListContent = ListOf lib.list_meta.Content (Option (List ControlPlaneContent))

  abbrev pub HoldsSpec : Memory (Cell T) → Spec T → SpecContent → Type 0
  HoldsSpec m s c =
      HoldsPointer (as_int32 T) HoldsInt m s.replicas c.replicas
      × lib.config_spec.Holds m s.control_plane_config c.control_plane_config
      × SameSpec s c

  abbrev pub HoldsStatus : Memory (Cell T) → Status T → StatusContent → Type 0
  HoldsStatus m s c =
      HoldsSlice (as_conditions T) lib.condition.Holds m s.conditions c.conditions × SameStatus s c

  abbrev pub HoldsControlPlane : Memory (Cell T) → ControlPlane T → ControlPlaneContent → Type 0
  HoldsControlPlane m o c =
      lib.object_meta.Holds m o.object_meta c.object_meta
      × HoldsSpec m o.spec c.spec
      × HoldsStatus m o.status c.status
      × (o.type_meta ≡ c.type_meta)

  abbrev pub HoldsList : Memory (Cell T) → ControlPlaneList T → ListContent → Type 0
  HoldsList m l c =
      lib.list_meta.Holds m l.list_meta c.list_meta
      × HoldsSlice (as_control_planes T) HoldsControlPlane m l.items c.items
      × (l.type_meta ≡ c.type_meta)

  HoldsSpec-local :
      (m n : Memory (Cell T)) (s : Spec T) (c : SpecContent)
      → HoldsSpec m s c
      → Keeps 0 m.next m n
      → HoldsSpec n s c
  HoldsSpec-local m n s c (replicas, config, plain) kept = (
    HoldsPointer-local HoldsInt (λ m n v z e kept. e) (as_int32 T) m n s.replicas c.replicas
        replicas kept,
    lib.config_spec.local m n s.control_plane_config c.control_plane_config config kept,
    plain,
  )

  HoldsStatus-local :
      (m n : Memory (Cell T)) (s : Status T) (c : StatusContent)
      → HoldsStatus m s c
      → Keeps 0 m.next m n
      → HoldsStatus n s c
  HoldsStatus-local m n s c (holds, plain) kept = (
    HoldsSlice-local lib.condition.Holds lib.condition.local (as_conditions T) m n s.conditions
        c.conditions holds kept,
    plain,
  )

  pub HoldsControlPlane-local :
      (m n : Memory (Cell T)) (o : ControlPlane T) (c : ControlPlaneContent)
      → HoldsControlPlane m o c
      → Keeps 0 m.next m n
      → HoldsControlPlane n o c
  HoldsControlPlane-local m n o c (meta, spec_holds, status_holds, plain) kept = (
    lib.object_meta.local m n o.object_meta c.object_meta meta kept,
    HoldsSpec-local m n o.spec c.spec spec_holds kept,
    HoldsStatus-local m n o.status c.status status_holds kept,
    plain,
  )

  pub HoldsList-local :
      (m n : Memory (Cell T)) (l : ControlPlaneList T) (c : ListContent)
      → HoldsList m l c
      → Keeps 0 m.next m n
      → HoldsList n l c
  HoldsList-local m n l c (meta, items, plain) kept = (
    lib.list_meta.local m n l.list_meta c.list_meta meta kept,
    HoldsSlice-local HoldsControlPlane HoldsControlPlane-local (as_control_planes T) m n l.items
        c.items items kept,
    plain,
  )

  -- The copies hold what the objects hold.
  copy_spec_into-HoldsSpec :
      (m : Memory (Cell T)) (s : Spec T) (c : SpecContent)
      → HoldsSpec m s c
      → Copies m (copy_spec_into T lib s m) (λ k t. HoldsSpec k t c)
  unfolding copy_spec_into copy_replicas
  copy_spec_into-HoldsSpec m s c (replicas, config, plain) =
      Copies-mono m _
        (Copies-bind m (copy_replicas T lib s.replicas)
          (λ r. lib.config_spec.deep_copy_into s.control_plane_config >>= λ g.
            pure (record s { replicas = r; control_plane_config = g }))
          (Copies-pointer HoldsInt pure
            (λ m v z e. Copies-mono m _ (Copies-pure m v) (λ k w h. h ∙ e)) (as_int32 T) int32
            (λ v. refl) m s.replicas c.replicas replicas)
          λ r n kept.
            Copies-bind n (lib.config_spec.deep_copy_into s.control_plane_config)
              (λ g. pure (record s { replicas = r; control_plane_config = g }))
              (lib.config_spec.copies n s.control_plane_config c.control_plane_config (
                lib.config_spec.local m n s.control_plane_config c.control_plane_config config
                  kept))
              λ g l kept'. Copies-pure l (record s { replicas = r; control_plane_config = g }))
        (λ k t (r, copied, (g, config', e)). rw e (copied, config', plain))

  copy_status_into-HoldsStatus :
      (m : Memory (Cell T)) (s : Status T) (c : StatusContent)
      → HoldsStatus m s c
      → Copies m (copy_status_into T lib s m) (λ k t. HoldsStatus k t c)
  unfolding copy_status_into
  copy_status_into-HoldsStatus m s c (holds, plain) =
      Copies-mono m _
        (Copies-bind m
          (copy_slice (as_conditions T) conditions (lib.condition.deep_copy_into) s.conditions)
          (λ copied. pure (record s { conditions = copied }))
          (Copies-slice lib.condition.Holds lib.condition.deep_copy_into lib.condition.copies
            (as_conditions T) conditions (λ v. refl) lib.condition.local m s.conditions c.conditions
            holds)
          λ copied n kept. Copies-pure n (record s { conditions = copied }))
        (λ k t (copied, holds', e). rw e (holds', plain))

  pub copy_control_plane_into-HoldsControlPlane :
      (m : Memory (Cell T)) (o : ControlPlane T) (c : ControlPlaneContent)
      → HoldsControlPlane m o c
      → Copies m (copy_control_plane_into T lib o m) (λ k t. HoldsControlPlane k t c)
  unfolding copy_control_plane_into
  copy_control_plane_into-HoldsControlPlane m o c (meta, spec_holds, status_holds, plain) =
      let whole : ObjectMeta → Spec T → Status T → ControlPlane T =
        λ a s u. record o { object_meta = a; spec = s; status = u } in
      Copies-mono m _
        (Copies-bind m (lib.object_meta.deep_copy_into o.object_meta)
          (λ a. copy_spec_into T lib o.spec >>= λ s.
            copy_status_into T lib o.status >>= λ u. pure (whole a s u))
          (lib.object_meta.copies m o.object_meta c.object_meta meta)
          λ a n kept.
            Copies-bind n (copy_spec_into T lib o.spec)
              (λ s. copy_status_into T lib o.status >>= λ u. pure (whole a s u))
              (copy_spec_into-HoldsSpec n o.spec c.spec
                (HoldsSpec-local m n o.spec c.spec spec_holds kept))
              λ s l kept'.
                Copies-bind l (copy_status_into T lib o.status) (λ u. pure (whole a s u))
                  (copy_status_into-HoldsStatus l o.status c.status (
                    HoldsStatus-local n l o.status c.status
                      (HoldsStatus-local m n o.status c.status status_holds kept) kept'))
                  λ u k kept''. Copies-pure k (whole a s u))
        (λ k t (a, meta', (s, spec', (u, status', e))). rw e (meta', spec', status', plain))

  pub copy_control_plane_list_into-HoldsList :
      (m : Memory (Cell T)) (l : ControlPlaneList T) (c : ListContent)
      → HoldsList m l c
      → Copies m (copy_control_plane_list_into T lib l m) (λ k t. HoldsList k t c)
  unfolding copy_control_plane_list_into
  copy_control_plane_list_into-HoldsList m l c (meta, items, plain) =
      let whole : ListMeta → Option Slice → ControlPlaneList T =
        λ a i. record l { list_meta = a; items = i } in
      let copy_items =
        copy_slice (as_control_planes T) control_planes (copy_control_plane_into T lib) in
      Copies-mono m _
        (Copies-bind m (lib.list_meta.deep_copy_into l.list_meta)
          (λ a. copy_items l.items >>= λ i. pure (whole a i))
          (lib.list_meta.copies m l.list_meta c.list_meta meta)
          λ a n kept.
            Copies-bind n (copy_items l.items) (λ i. pure (whole a i))
              (Copies-slice HoldsControlPlane (copy_control_plane_into T lib)
                copy_control_plane_into-HoldsControlPlane (as_control_planes T) control_planes
                (λ v. refl) HoldsControlPlane-local n l.items c.items
                (HoldsSlice-local HoldsControlPlane HoldsControlPlane-local (as_control_planes T) m
                  n l.items c.items items kept))
              λ i k kept'. Copies-pure k (whole a i))
        (λ k t (a, meta', (i, items', e)). rw e (meta', items', plain))
