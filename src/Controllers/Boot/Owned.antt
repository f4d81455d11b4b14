-- ===== src/Controllers/Boot/Owned.antt =====
-- The machine that `bootControlPlane` asks for belongs to the control plane and to its cluster.
use cluster_api_control_plan.Common.{
  ℕ, zero, suc, ◌≡◌, ◌≢◌, ◌⊎◌, inl, inr, refl, ◌∙◌, arith, Bool, Option, none, some, String, ◌<>◌,
  List, [], ◌∷◌, length, get_elem?, Among, true, Option-cases,
}
use cluster_api_control_plan.Kube.{
  MicroK8sConfigSpec, ObjectReference, Machine, Cluster, Res, ok, err,
}
use cluster_api_control_plan.Api.{MicroK8sControlPlane}
use cluster_api_control_plan.Calls.{Call}
use cluster_api_control_plan.Platform.{Platform}
use cluster_api_control_plan.Run.{State, next, panic, Outcome, returned, panicked}
use cluster_api_control_plan.Run.Tally.{Class, tally}
use cluster_api_control_plan.Controllers.Boot.{
  new_machine, clone_input, get_failure_domain, place, generate_micro_k8s_config, create_machine,
  boot_control_plane,
}
use cluster_api_control_plan.Controllers.Boot.Quiet.{tally-place}
use cluster_api_control_plan.Controllers.Owned.{control_plane_selector}

-- The machine of the newest request to create one.
abbrev pub last_created : List Call → Option Machine
last_created [] = none
last_created (Call.create_machine m ∷ trace) = some m
last_created (_ ∷ trace) = last_created trace

-- A failure domain is one of the given ones; there is none only where none is given.
abbrev pub IsPlaced : List String → Option String → Type 0
IsPlaced ds none = ds ≡ []
IsPlaced ds (some d) = Among d ds

-- The machine is found by the query for the machines of the cluster, is owned and controlled by the
-- control plane alone, has its version, and lies in one of the cluster's failure domains.
abbrev pub IsOwned : MicroK8sControlPlane → Cluster → Machine → Type 0
IsOwned mcp cluster m =
    (m.namespace ≡ mcp.namespace)
    × (m.cluster_name ≡ cluster.name)
    × (m.labels ≡ control_plane_selector cluster.name)
    × (m.owner_references
        ≡ record {
          api_version = "controlplane.cluster.x-k8s.io/v1beta1";
          kind = "MicroK8sControlPlane";
          name = mcp.name;
          uid = mcp.uid;
          controller = some true;
          block_owner_deletion = some true;
        }
          ∷ [])
    × (m.version ≡ some mcp.spec.version)
    × IsPlaced (get_failure_domain cluster) m.failure_domain

Among-get_elem? : (xs : List String) (i : ℕ) (x : String) → get_elem? xs i ≡ some x → Among x xs
Among-get_elem? [] i x e = absurd (cc)
Among-get_elem? (y ∷ xs) zero x e = inl (cc)
Among-get_elem? (y ∷ xs) (suc i) x e = inr (Among-get_elem? xs i x e)

module _ (p : Platform) where
  -- Only the failure domain is filled in.
  place_ends :
      (ds : List String) (m : Machine) (s : State)
      → m.failure_domain ≡ none
      → ((o : Option String) × ((place p ds m s).0 ≡ next (record m { failure_domain = o }))
          × IsPlaced ds o)
        ⊎ ((place p ds m s).0 ≡ panic)
  unfolding place
  place_ends [] m s free = inl (none, rw (← free) refl, refl)
  place_ends (d ∷ ds) m s free =
      let i = p.answer s.trace (Call.rand_intn (length (d ∷ ds))) in
      elim (Option-cases (get_elem? (d ∷ ds) i)) [
        | inl e ↦ inr (ground arith)
        | inr (x, e) ↦ inl (some x, ground arith, Among-get_elem? (d ∷ ds) i x e)
      ]

  module _ (mcp : MicroK8sControlPlane) (cluster : Cluster) (i b : ObjectReference) where
    create_machine_ends :
        (s : State)
        → ((m : Machine) × (last_created (create_machine p mcp cluster i b s).1.trace ≡ some m)
            × IsOwned mcp cluster m)
          ⊎ (tally Class.machine_creation (create_machine p mcp cluster i b s).1.trace
              ≡ tally Class.machine_creation s.trace)
    unfolding create_machine
    create_machine_ends s =
        let call = Call.generate_name (mcp.name <> "-") in
        let m = new_machine mcp cluster (p.answer s.trace call) i b in
        let t : State = record s { trace = call ∷ s.trace } in
        elim (place_ends (get_failure_domain cluster) m t refl) [
          | inl (o, e, placed) ↦ inl (
            record m { failure_domain = o },
            ground arith,
            (refl, refl, refl, refl, refl, placed),
          )
          | inr e ↦ inr (
              ground (arith, tally-place p Class.machine_creation (get_failure_domain cluster) m t))
        ]

  generate-quiet :
      (spec : MicroK8sConfigSpec) (s : State)
      → tally Class.machine_creation (generate_micro_k8s_config p spec s).1.trace
        ≡ tally Class.machine_creation s.trace
  unfolding generate_micro_k8s_config
  generate-quiet spec s = ground arith

  -- `bootControlPlane` comes to its last step, with no machine asked for before it, or asks for none.
  comes_to_create :
      (first : Bool) (s : State)
      → ((i : ObjectReference) × (b : ObjectReference) × (t : State) × (tally Class.machine_creation
              t.trace
            ≡ tally Class.machine_creation s.trace)
          × ((boot_control_plane p first s).1.trace
              ≡ (create_machine p s.mcp s.cluster i b t).1.trace))
        ⊎ (tally Class.machine_creation (boot_control_plane p first s).1.trace
            ≡ tally Class.machine_creation s.trace)
  unfolding boot_control_plane
  comes_to_create first s =
      by_clone (p.answer s.trace cloning) refl (generate_micro_k8s_config p spec u).0 refl
    where
      cloning : Call
      cloning = Call.clone_template (clone_input s.mcp s.cluster)

      u : State
      u = record s { trace = cloning ∷ s.trace }

      spec : MicroK8sConfigSpec
      spec = s.mcp.spec.control_plane_config

      by_clone :
          (r : Res ObjectReference)
          → p.answer s.trace cloning ≡ r
          → (g : Outcome (Res ObjectReference)) → (generate_micro_k8s_config p spec u).0 ≡ g
          → ((i : ObjectReference) × (b : ObjectReference) × (t : State) × (tally
                  Class.machine_creation t.trace
                ≡ tally Class.machine_creation s.trace)
              × ((boot_control_plane p first s).1.trace
                  ≡ (create_machine p s.mcp s.cluster i b t).1.trace))
            ⊎ (tally Class.machine_creation (boot_control_plane p first s).1.trace
                ≡ tally Class.machine_creation s.trace)
      by_clone (err e) h g k = inr (ground arith)
      by_clone (ok i) h panicked k = inr (ground (arith, generate-quiet spec u))
      by_clone (ok i) h (returned (err e)) k = inr (ground (arith, generate-quiet spec u))
      by_clone (ok i) h (returned (ok b)) k =
          inl (i, b, (generate_micro_k8s_config p spec u).1, generate-quiet spec u, ground arith)

  -- If `bootControlPlane` asks for a machine, then that machine has the labels by which the query for
  -- the machines of the cluster finds it, is owned and controlled by the control plane alone, has the
  -- namespace and the wanted version of the control plane and the name of the cluster, and lies in one
  -- of the cluster's failure domains, or in none if the cluster has none.
  pub boot_control_plane-IsOwned :
      (first : Bool) (s : State)
      → tally Class.machine_creation (boot_control_plane p first s).1.trace
        ≢ tally Class.machine_creation s.trace
      → (m : Machine) × (last_created (boot_control_plane p first s).1.trace ≡ some m)
        × IsOwned (s.mcp) (s.cluster) m
  boot_control_plane-IsOwned first s grown = elim (comes_to_create first s) [
    | inr e ↦ absurd (grown e)
    | inl (i, b, t, quiet, e) ↦ elim (create_machine_ends s.mcp s.cluster i b t) [
      | inr k ↦ absurd (grown (rw e (k ∙ quiet)))
      | inl (m, made, owned) ↦ (m, rw e made, owned)
    ]
  ]
