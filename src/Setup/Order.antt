-- ===== src/Setup/Order.antt =====
-- The order of the start, and what ends it.
use mathlib.Core.Path.{subst}
use cluster_api_control_plan.Common.{
  ℕ, suc, ◌≡◌, ◌≢◌, ◌⊎◌, Among, Option-cases, inl, inr, refl, sym, arith, String, none, some, List,
  [], ◌∷◌, ◌++◌,
}
use cluster_api_control_plan.Kube.{Error}
use cluster_api_control_plan.Setup.{
  Flags, Step, add_to_scheme, get_config, new_manager, ControllerBuild, complete_controller,
  complete_webhook, add_healthz_check, add_readyz_check, start_manager, Exit, status, panicked,
  Libraries, Going, on, ends, init, setup_with_manager, setup_webhook_with_manager, default_flags,
  manager_options, run_manager, main,
}

abbrev pub exit_of : Going Exit → Exit
exit_of (on e) = e
exit_of (ends e) = e

-- A plan: steps in their order, each with the end of the process if it fails.
pub run_plan : Libraries → List (Step × Exit) → List Step → Exit × List Step
run_plan l [] t = (status 0, t)
run_plan l ((step, bad) ∷ plan) t =
    let rest = run_plan l plan (step ∷ t) in
    elim (l.does t step) [ none ↦ rest | some e ↦ (bad, step ∷ t) ]

abbrev pub scheme_plan : List (Step × Exit)
scheme_plan =
    (add_to_scheme "client-go", panicked)
    ∷ (add_to_scheme "cluster-api", panicked)
    ∷ (add_to_scheme "controlplane", panicked)
    ∷ (add_to_scheme "bootstrap", panicked)
    ∷ []

abbrev pub controller_build : ControllerBuild
controller_build = record {
  reconciled = "MicroK8sControlPlane";
  owned = "Machine";
  watched = "Cluster";
  max_concurrent_reconciles = 10;
}

abbrev pub manager_plan : Flags → List (Step × Exit)
manager_plan flags =
    (get_config, status 1)
    ∷ (new_manager (manager_options flags), status 1)
    ∷ (complete_controller controller_build, status 1)
    ∷ (complete_webhook "MicroK8sControlPlane", status 1)
    ∷ (add_healthz_check "healthz", status 1)
    ∷ (add_readyz_check "readyz", status 1)
    ∷ (start_manager, status 1)
    ∷ []

run_manager-plan :
    (l : Libraries) (flags : Flags) (t : List Step)
    → (exit_of (run_manager l flags t).0, (run_manager l flags t).1)
      ≡ run_plan l (manager_plan flags) t
unfolding run_manager run_plan setup_with_manager setup_webhook_with_manager
run_manager-plan l flags t = ground arith

abbrev pub scheme_trace : List Step → List Step
scheme_trace t =
    add_to_scheme "bootstrap"
    ∷ add_to_scheme "controlplane"
    ∷ add_to_scheme "cluster-api"
    ∷ add_to_scheme "client-go"
    ∷ t

main-plan :
    (l : Libraries) (flags : Flags) (args : List String) (t : List Step)
    → l.parse args default_flags ≡ some flags
    → (exit_of (main l args t).0, (main l args t).1)
      ≡ run_plan l (scheme_plan ++ manager_plan flags) t
unfolding main init run_plan
main-plan l flags args t parsed = ground (arith, parsed, run_manager-plan l flags (scheme_trace t))

-- The steps of a plan on top of a trace.
pub onto : List (Step × Exit) → List Step → List Step
onto [] t = t
onto ((step, bad) ∷ plan) t = onto plan (step ∷ t)

-- The steps of a trace that gave an error.
pub failures : Libraries → List Step → ℕ
failures l [] = 0
failures l (step ∷ t) =
    let rest = failures l t in elim (l.does t step) [ none ↦ rest | some e ↦ suc rest ]

-- How a run of a plan ends: all of it done without an error, or its last step failed.
abbrev pub PlanEnds : Libraries → List (Step × Exit) → List Step → Exit × List Step → Type 0
PlanEnds l plan t (e, u) =
    ((e ≡ status 0) × (u ≡ onto plan t) × (failures l u ≡ failures l t))
    ⊎ ((step : Step) × (earlier : List Step) × (later : List (Step × Exit)) × (u ≡ step ∷ earlier)
        × (l.does earlier step ≢ none)
        × (failures l earlier ≡ failures l t)
        × Among (step, e) plan
        × (onto later u ≡ onto plan t))

PlanEnds-cons :
    (l : Libraries) (step : Step) (bad : Exit) (plan : List (Step × Exit)) (t : List Step)
    (r : Exit × List Step)
    → l.does t step ≡ none
    → PlanEnds l plan (step ∷ t) r
    → PlanEnds l ((step, bad) ∷ plan) t r
unfolding onto failures
PlanEnds-cons l step bad plan t (e, u) fine (inl (ended, all, good)) =
    inl (ended, all, ground (arith, fine, good))
PlanEnds-cons l step bad plan t (e, u) fine
      (inr (last, earlier, later, at, why, good, among, rest)) =
    inr (last, earlier, later, at, why, ground (arith, fine, good), inr among, rest)

passed :
    (l : Libraries) (step : Step) (bad : Exit) (plan : List (Step × Exit)) (t : List Step)
    → l.does t step ≡ none
    → run_plan l ((step, bad) ∷ plan) t ≡ run_plan l plan (step ∷ t)
unfolding run_plan
passed l step bad plan t fine = ground arith

stopped :
    (l : Libraries) (step : Step) (bad : Exit) (plan : List (Step × Exit)) (t : List Step)
    (e : Error)
    → l.does t step ≡ some e
    → run_plan l ((step, bad) ∷ plan) t ≡ (bad, step ∷ t)
unfolding run_plan
stopped l step bad plan t e wrong = ground arith

run_plan-PlanEnds :
    (l : Libraries) (plan : List (Step × Exit)) (t : List Step)
    → PlanEnds l plan t (run_plan l plan t)
unfolding run_plan onto
run_plan-PlanEnds l [] t = inl (refl, refl, refl)
run_plan-PlanEnds l ((step, bad) ∷ plan) t =
    let rest = run_plan-PlanEnds l plan (step ∷ t) in
    let Goal = PlanEnds l ((step, bad) ∷ plan) t in
    elim (Option-cases (l.does t step)) [
      | inl fine ↦
          subst (λ r. Goal r) (sym (passed l step bad plan t fine))
            (PlanEnds-cons l step bad plan t (run_plan l plan (step ∷ t)) fine rest)
      | inr (e, wrong) ↦
          subst (λ r. Goal r) (sym (stopped l step bad plan t e wrong))
            (inr (step, t, plan, refl, (λ h. ground (arith, wrong)), refl, inl refl, refl))
    ]

-- If the flags can be parsed, then the process adds the four schemes, gets its configuration, makes
-- the manager, completes the controller and the webhook, adds the two checks and starts the manager,
-- in this order, and ends with status 0, all without an error; or it stops at the first of these
-- steps that gives an error, and ends as the plan says for this step: a panic for a scheme, status 1
-- for any other.
pub main-PlanEnds :
    (l : Libraries) (flags : Flags) (args : List String)
    → l.parse args default_flags ≡ some flags
    → PlanEnds l
        (scheme_plan ++ manager_plan flags)
        []
        (exit_of (main l args []).0, (main l args []).1)
main-PlanEnds l flags args parsed =
    subst (λ r. PlanEnds l (scheme_plan ++ manager_plan flags) [] r)
      (sym (main-plan l flags args [] parsed))
      (run_plan-PlanEnds l (scheme_plan ++ manager_plan flags) [])
