-- ===== src/Controllers/Boot/Report.antt =====
-- How `bootControlPlane` ends: with a machine, or with the reason in the conditions.
use cluster_api_control_plan.Common.{
  ℕ, zero, suc, ◌≡◌, refl, arith, Bool, none, some, ◌+◌, ◌<◌, Option, List, [], ◌∷◌, String, length,
  ◌⊎◌, inl, inr, Option-cases, get_elem?, ◌<>◌,
}
use cluster_api_control_plan.Kube.{
  Error, wrap, Res, ok, err, Condition, status_false, severity_error, Cluster, ObjectReference,
  Machine, MicroK8sConfigSpec, MicroK8sConfig,
}
use cluster_api_control_plan.Api.{
  MicroK8sControlPlane, machines_created_condition, machine_generation_failed_reason,
  infrastructure_template_cloning_failed_reason, bootstrap_template_cloning_failed_reason,
  get_conditions, set_conditions,
}
use cluster_api_control_plan.Calls.{Call}
use cluster_api_control_plan.Platform.{Platform}
use cluster_api_control_plan.Platform.Laws.{MarksConditions}
use cluster_api_control_plan.Run.{State, Outcome, returned, panicked, next, exit}
use cluster_api_control_plan.Run.Tally.{Class, tally}
use cluster_api_control_plan.Controllers.Boot.Quiet.{tally-place}
use cluster_api_control_plan.Controllers.Boot.{
  Reconciled, no_requeue, requeue_now, generate_micro_k8s_config, place, create_machine,
  get_failure_domain, new_machine, clone_input, bootstrap_config, bootstrap_reference,
  boot_control_plane,
}

-- `rand.Intn(n)` is below `n`.
abbrev pub DrawsBelow : Platform → Type 0
DrawsBelow p = (trace : List Call) (n : ℕ) → p.answer trace (Call.rand_intn (suc n)) < suc n

-- The number of calls of a kind has grown by one.
abbrev pub Once : Class → State → State → Type 0
Once k s t = tally k t.trace ≡ tally k s.trace + 1

-- A success has cloned the template and created the configuration and the machine, and asks for
-- the next round at once; an error has `MachinesCreated` false, with the severity of an error.
abbrev pub BootReport : Platform → State → Outcome Reconciled × State → Type 0
BootReport p s (returned (res, none), t) =
    (res ≡ requeue_now)
    × Once Class.template_clone s t
    × Once Class.config_creation s t
    × Once Class.machine_creation s t
BootReport p s (returned (res, some e), t) =
    (res ≡ no_requeue)
    × ((c : Condition) × (p.get_condition machines_created_condition (get_conditions t.mcp)
          ≡ some c)
        × (c.status ≡ status_false)
        × (c.severity ≡ severity_error))
BootReport p s (panicked, t) = ⊥

get_elem?-some :
    (xs : List String) (i : ℕ) → i < length xs → (x : String) × (get_elem? xs i ≡ some x)
get_elem?-some [] i h = elim h [ ]
get_elem?-some (x ∷ xs) zero h = (x, refl)
get_elem?-some (x ∷ xs) (suc i) h = get_elem?-some xs i (omega arith)

module _ (p : Platform) (draws : DrawsBelow p) where
  -- The choice of a failure domain does not panic.
  pub place_total :
      (ds : List String) (m : Machine) (s : State) → (m' : Machine) × ((place p ds m s).0 ≡ next m')
  unfolding place
  place_total [] m s = (m, refl)
  place_total (d ∷ ds) m s =
      let i = p.answer s.trace (Call.rand_intn (suc (length ds))) in
      let (x, e) = get_elem?-some (d ∷ ds) i (draws s.trace (length ds)) in
      (record m { failure_domain = some x }, ground arith)

  -- The condition that a failed step leaves.
  abbrev failure : String → String → Condition
  failure reason format = record {
    type_ = machines_created_condition;
    status = status_false;
    severity = severity_error;
    reason = reason;
    message = p.sprintf format [];
  }

  marked :
      MarksConditions p
      → (reason format : String) (cs : List Condition)
      → p.get_condition machines_created_condition
          (p.mark_false machines_created_condition reason severity_error format [] cs)
        ≡ some (failure reason format)
  marked marks reason format cs =
      marks.get-mark_false machines_created_condition reason severity_error format []
        machines_created_condition cs

  -- The last step keeps the other counts, and creates a machine or leaves with an error.
  create_machine-counts :
      (mcp : MicroK8sControlPlane) (cluster : Cluster) (i b : ObjectReference) (s : State)
      → let t = (create_machine p mcp cluster i b s).1 in
        (tally Class.template_clone t.trace ≡ tally Class.template_clone s.trace)
        × (tally Class.config_creation t.trace ≡ tally Class.config_creation s.trace)
  unfolding create_machine
  create_machine-counts mcp cluster i b s =
      grind (arith, tally-place p Class.template_clone, tally-place p Class.config_creation)

  create_machine-ends :
      MarksConditions p
      → (mcp : MicroK8sControlPlane) (cluster : Cluster) (i b : ObjectReference) (s : State)
      → (((create_machine p mcp cluster i b s).0 ≡ next (requeue_now, none))
          × Once Class.machine_creation s (create_machine p mcp cluster i b s).1)
        ⊎ ((e : Error) × (c : Condition) × ((create_machine p mcp cluster i b s).0
              ≡ exit (no_requeue, some e))
            × (p.get_condition machines_created_condition
                  (get_conditions (create_machine p mcp cluster i b s).1.mcp)
                ≡ some c)
            × (c.status ≡ status_false)
            × (c.severity ≡ severity_error))
  unfolding create_machine
  create_machine-ends marks mcp cluster i b s =
      let name = p.answer s.trace (Call.generate_name (mcp.name <> "-")) in
      let u : State = record s { trace = Call.generate_name (mcp.name <> "-") ∷ s.trace } in
      let ds = get_failure_domain cluster in
      let m = new_machine mcp cluster name i b in
      let (m', e) = place_total ds m u in
      let t : State = (place p ds m u).1 in
      elim (Option-cases (p.answer t.trace (Call.create_machine m'))) [
        | inl fine ↦ inl (
          ground (arith, tally-place p Class.machine_creation ds m u),
          ground (arith, tally-place p Class.machine_creation ds m u),
        )
        | inr (x, failed) ↦ inr (
          wrap x "Failed to create machine",
          failure machine_generation_failed_reason (p.error_text x),
          ground arith,
          ground (
            arith,
            marked marks machine_generation_failed_reason (p.error_text x) (get_conditions t.mcp),
          ),
          refl,
          refl,
        )
      ]

  pub generate-counts :
      (spec : MicroK8sConfigSpec) (s : State)
      → let t = (generate_micro_k8s_config p spec s).1 in
        Once Class.config_creation s t
        × (tally Class.template_clone t.trace ≡ tally Class.template_clone s.trace)
        × (tally Class.machine_creation t.trace ≡ tally Class.machine_creation s.trace)
  unfolding generate_micro_k8s_config
  generate-counts spec s = ground arith

  generate-returns :
      (spec : MicroK8sConfigSpec) (s : State)
      → (r : Res ObjectReference) × ((generate_micro_k8s_config p spec s).0 ≡ returned r)
  unfolding generate_micro_k8s_config
  generate-returns spec s = by_failure (p.answer t (Call.create_config c)).1 refl
    where
      n : String
      n = s.mcp.name <> "-"

      t : List Call
      t = Call.generate_name n ∷ s.trace

      c : MicroK8sConfig
      c = bootstrap_config s.mcp spec (p.answer s.trace (Call.generate_name n))

      by_failure :
          (f : Option Error)
          → (p.answer t (Call.create_config c)).1 ≡ f
          → (r : Res ObjectReference) × ((generate_micro_k8s_config p spec s).0 ≡ returned r)
      by_failure none e =
          (ok (bootstrap_reference (p.answer t (Call.create_config c)).0), ground arith)
      by_failure (some x) e =
          (err (wrap x "Failed to create bootstrap configuration"), ground arith)

  -- If `rand.Intn(n)` is below `n`, and the conditions package reads back what it has marked, then
  -- `bootControlPlane` does not panic. It succeeds with one more clone of the infrastructure
  -- template, one more bootstrap configuration and one more machine requested, and with the request
  -- for a new round at once; or it returns an error, no request for a new round, and the condition
  -- MachinesCreated false with severity Error.
  pub boot_control_plane_reports :
      MarksConditions p → (first : Bool) (s : State) → BootReport p s (boot_control_plane p first s)
  unfolding boot_control_plane
  boot_control_plane_reports marks first s = by_clone (p.answer s.trace cloning) refl
    where
      cloning : Call
      cloning = Call.clone_template (clone_input s.mcp s.cluster)

      u : State
      u = record s { trace = cloning ∷ s.trace }

      failed :
          (reason : String) (cause e : Error) (t : State)
          → boot_control_plane p first s ≡ (
            returned (no_requeue, some e),
            record t {
              mcp =
                  set_conditions
                    (p.mark_false machines_created_condition reason severity_error
                      (p.error_text cause)
                      []
                      (get_conditions t.mcp))
                    (t.mcp);
            },
          )
          → BootReport p s (boot_control_plane p first s)
      failed reason cause e t ends = rw ends (
        refl,
        (
          failure reason (p.error_text cause),
          marked marks reason (p.error_text cause) (get_conditions t.mcp),
          refl,
          refl,
        ),
      )

      by_clone :
          (r : Res ObjectReference)
          → p.answer s.trace cloning ≡ r
          → BootReport p s (boot_control_plane p first s)
      by_clone (err e) h = failed infrastructure_template_cloning_failed_reason e e u (ground arith)
      by_clone (ok i) h = by_config (generate-returns s.mcp.spec.control_plane_config u)
        where
          spec : MicroK8sConfigSpec
          spec = s.mcp.spec.control_plane_config

          v : State
          v = (generate_micro_k8s_config p spec u).1

          by_config :
              ((r : Res ObjectReference) × ((generate_micro_k8s_config p spec u).0 ≡ returned r))
              → BootReport p s (boot_control_plane p first s)
          by_config (err e, g) =
              failed bootstrap_template_cloning_failed_reason e e v (ground arith)
          by_config (ok b, g) = elim (create_machine-ends marks s.mcp s.cluster i b v) [
            | inl (ends, once) ↦
                let w = (create_machine p s.mcp s.cluster i b v).1 in
                let e : boot_control_plane p first s ≡ (returned (requeue_now, none), w) =
                  ground arith in
                rw e (
                  refl,
                  ground
                      (arith, generate-counts spec u, create_machine-counts s.mcp s.cluster i b v),
                  ground
                      (arith, generate-counts spec u, create_machine-counts s.mcp s.cluster i b v),
                  ground (arith, generate-counts spec u),
                )
            | inr (x, c, ends, got, status, severity) ↦
                let w = (create_machine p s.mcp s.cluster i b v).1 in
                let e : boot_control_plane p first s ≡ (returned (no_requeue, some x), w) =
                  ground arith in
                rw e (refl, (c, got, status, severity))
          ]
