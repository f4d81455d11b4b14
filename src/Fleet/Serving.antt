-- ===== src/Fleet/Serving.antt =====
-- A run of `reconcileMachines` with servers that answer, and machines of the wanted version.
use mathlib.Core.List.{Permᴰ}
use cluster_api_control_plan.Common.{
  ℕ, ◌≡◌, refl, ap, arith, Bool, true, false, none, some, ◌≤◌, ◌+◌, ◌<◌, String, ◌<>◌, List, [],
  ◌∷◌, length, All, ltb, if◌then◌else◌,
}
use cluster_api_control_plan.Common.Int.{pos}
use cluster_api_control_plan.Kube.{
  ok, MicroK8sConfigSpec, ObjectReference, Unstructured, OwnerReference, CloneTemplateInput,
  MicroK8sConfig, Machine, Cluster,
}
use cluster_api_control_plan.Api.{MicroK8sControlPlane}
use cluster_api_control_plan.Calls.{Call}
use cluster_api_control_plan.Platform.{Platform}
use cluster_api_control_plan.Run.{State, next, returned}
use cluster_api_control_plan.Run.Tally.{Class, tally}
use cluster_api_control_plan.Controllers.Boot.{
  new_machine, clone_input, bootstrap_config, bootstrap_reference, get_failure_domain,
  generate_micro_k8s_config, create_machine, boot_control_plane,
}
use cluster_api_control_plan.Controllers.Boot.Quiet.{tally-place}
use cluster_api_control_plan.Controllers.Boot.Report.{DrawsBelow, place_total, generate-counts}
use cluster_api_control_plan.Controllers.Owned.{less}
use cluster_api_control_plan.Controllers.Machines.{
  version_differs, sort_and_read, replica_stage, resize, reconcile_machines,
}
use cluster_api_control_plan.Controllers.Machines.Quiet.{tally-settle_stage}
use cluster_api_control_plan.Fleet.Count.{length-Perm}
use cluster_api_control_plan.Fleet.Deletes.{SortsMachines}

-- The servers grant what a round without an upgrade asks of them before it creates a machine.
pub record Serves (p : Platform) (cluster : Cluster) : Type 0 where
  pub owns :
      (trace : List Call) (refs : List OwnerReference) (within : String)
      → p.answer trace (Call.get_owner_cluster refs within) ≡ ok (some cluster)
  pub ready : cluster.infrastructure_ready ≡ true
  pub endpoint : p.endpoint_is_valid cluster.endpoint_host cluster.endpoint_port ≡ true
  pub helps :
      (trace : List Call) (mcp : MicroK8sControlPlane)
      → p.answer trace (Call.new_patch_helper mcp) ≡ none
  pub finds :
      (trace : List Call) (ref : ObjectReference) (within : String)
      → (o : Unstructured) × (p.answer trace (Call.get_external ref within) ≡ ok o)
  pub helps_external :
      (trace : List Call) (o : Unstructured)
      → p.answer trace (Call.new_external_patch_helper o) ≡ none
  pub patches_external :
      (trace : List Call) (before after : Unstructured)
      → p.answer trace (Call.patch_external before after) ≡ none
  pub clones :
      (trace : List Call) (input : CloneTemplateInput)
      → (ref : ObjectReference) × (p.answer trace (Call.clone_template input) ≡ ok ref)
  pub configures :
      (trace : List Call) (config : MicroK8sConfig)
      → (p.answer trace (Call.create_config config)).1 ≡ none
  pub draws : DrawsBelow p

-- Every machine has a version, and it does not differ from the wanted one.
abbrev pub AreUpToDate : Platform → String → List Machine → Type 0
AreUpToDate p version ms =
    All
      (λ m.
        (v : String) × (m.version ≡ some v)
        × (version_differs p (p.major_minor v) (p.major_minor version) ≡ false))
      ms

module _ (p : Platform) (cluster : Cluster) (serves : Serves p cluster) where
  pub generates :
      (spec : MicroK8sConfigSpec) (s : State)
      → (ref : ObjectReference) × ((generate_micro_k8s_config p spec s).0 ≡ returned (ok ref))
  unfolding generate_micro_k8s_config
  generates spec s =
      let name = p.answer s.trace (Call.generate_name (s.mcp.name <> "-")) in
      let config = bootstrap_config s.mcp spec name in
      let trace = Call.generate_name (s.mcp.name <> "-") ∷ s.trace in
      (
        bootstrap_reference (p.answer trace (Call.create_config config)).0,
        ground (arith, serves.configures trace config),
      )

  creates :
      (mcp : MicroK8sControlPlane) (c : Cluster) (i b : ObjectReference) (s : State)
      → tally Class.machine_creation (create_machine p mcp c i b s).1.trace
        ≡ tally Class.machine_creation s.trace + 1
  unfolding create_machine
  creates mcp c i b s =
      let name = p.answer s.trace (Call.generate_name (mcp.name <> "-")) in
      let machine = new_machine mcp c name i b in
      let t : State = record s { trace = Call.generate_name (mcp.name <> "-") ∷ s.trace } in
      ground (
        arith,
        place_total p serves.draws (get_failure_domain c) machine t,
        tally-place p Class.machine_creation (get_failure_domain c) machine t,
      )

  boot-creates :
      (first : Bool) (s : State)
      → tally Class.machine_creation (boot_control_plane p first s).1.trace
        ≡ tally Class.machine_creation s.trace + 1
  unfolding boot_control_plane
  boot-creates first s =
      let input = clone_input s.mcp s.cluster in
      let u : State = record s { trace = Call.clone_template input ∷ s.trace } in
      let spec = s.mcp.spec.control_plane_config in
      let (infra, cloned) = serves.clones s.trace input in
      let (bootstrap, generated) = generates spec u in
      ground (
        arith,
        cloned,
        generated,
        generate-counts p serves.draws spec u,
        creates s.mcp s.cluster infra bootstrap (generate_micro_k8s_config p spec u).1,
      )

-- What is true of every machine is true in any order.
pub All-Perm : (P : Machine → Type 0) {ms ns : List Machine} → Permᴰ ms ns → All P ns → All P ms
All-Perm P Permᴰ.nil h = h
All-Perm P (Permᴰ.cons e q) h = (rw e h.0, All-Perm P q h.1)
All-Perm P (Permᴰ.swap e e') h = (rw e h.1.0, (rw e' h.0, h.1.1))
All-Perm P (Permᴰ.trans q q') h = All-Perm P q (All-Perm P q' h)

module _ (p : Platform) (sorts : SortsMachines p) where
  -- The oldest machine is read without a panic, and has the wanted version.
  reads :
      (version : String) (ms : List Machine) (s : State)
      → AreUpToDate p version ms
      → (l : List Machine) × (old : String) × (sort_and_read p ms s ≡ (next (l, old), s))
        × (version_differs p old (p.major_minor version) ≡ false)
  unfolding sort_and_read
  reads version [] s current = ([], "", refl, unfold version_differs in refl)
  reads version (m ∷ ms) s current =
      by_sorted (p.sort less (m ∷ ms)) refl (All-Perm _ (sorts (m ∷ ms)) current)
    where
      by_sorted :
          (l : List Machine)
          → p.sort less (m ∷ ms) ≡ l
          → AreUpToDate p version l
          → (l : List Machine) × (old : String) × (sort_and_read p (m ∷ ms) s ≡ (next (l, old), s))
            × (version_differs p old (p.major_minor version) ≡ false)
      by_sorted [] e h = absurd (omega (arith, length-Perm (sorts (m ∷ ms)), ap length e))
      by_sorted (oldest ∷ rest) e ((v, has, same), h) =
          (oldest ∷ rest, p.major_minor v, ground arith, same)

-- The switch on too few machines and on the desired number.
replica_stage-creates :
    (p : Platform) (cluster : Cluster)
    → Serves p cluster
    → (d n : ℕ) (ms : List Machine) (s : State) → n < d
    → tally Class.machine_creation (replica_stage p (pos d) n ms s).1.trace
      ≡ tally Class.machine_creation s.trace + 1
unfolding replica_stage
replica_stage-creates p cluster serves d n ms s few = grind (arith, boot-creates p cluster serves)

replica_stage-settles :
    (p : Platform) (d n : ℕ) (ms : List Machine) (s : State)
    → n ≡ d
    → tally Class.machine_creation (replica_stage p (pos d) n ms s).1.trace
      ≡ tally Class.machine_creation s.trace
unfolding replica_stage
replica_stage-settles p d n ms s e = grind (arith, tally-settle_stage p Class.machine_creation ms s)

module _ (p : Platform) (cluster : Cluster) (serves : Serves p cluster)
    (sorts : SortsMachines p) where
  resize-creates :
      (mcp : MicroK8sControlPlane) (d n : ℕ) (l : List Machine) (old : String) (s : State)
      → version_differs p old (p.major_minor mcp.spec.version) ≡ false
      → n ≤ d
      → tally Class.machine_creation (resize p mcp (pos d) n (l, old) s).1.trace
        ≡ tally Class.machine_creation s.trace + (if ltb n d then 1 else 0)
  unfolding resize
  resize-creates mcp d n l old s same few =
      ground
        (arith, replica_stage-creates p cluster serves d n l s, replica_stage-settles p d n l s)

  -- Up to the desired number it creates one machine if there are fewer, and none if there are as many.
  pub machines-create :
      (d : ℕ) (ms : List Machine) (s : State)
      → s.mcp.spec.replicas ≡ some (pos d)
      → AreUpToDate p (s.mcp.spec.version) ms
      → length ms ≤ d
      → tally Class.machine_creation (reconcile_machines p ms s).1.trace
        ≡ tally Class.machine_creation s.trace + (if ltb (length ms) d then 1 else 0)
  unfolding reconcile_machines
  machines-create d ms s wanted current few =
      let (l, old, read, same) = reads p sorts s.mcp.spec.version ms s current in
      ground (arith, wanted, read, resize-creates s.mcp d (length ms) l old s same few)
