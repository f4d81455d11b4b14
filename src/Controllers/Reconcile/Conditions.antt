-- ===== src/Controllers/Reconcile/Conditions.antt =====
-- The phase `reconcileConditions`.
use cluster_api_control_plan.Common.{
  ◌≡◌, arith, ◌⊎◌, true, false, none, String, List, [], eq_iff, Bool-cases,
}
use cluster_api_control_plan.Kube.{Machine, severity_info}
use cluster_api_control_plan.Api.{
  available_condition, machines_bootstrapped, get_conditions, waiting_for_micro_k8s_boot_reason,
  waiting_for_machines_reason,
}
use cluster_api_control_plan.Platform.{Platform}
use cluster_api_control_plan.Platform.Laws.{MarksConditions}
use cluster_api_control_plan.Run.{State, returned, next}
use cluster_api_control_plan.Controllers.Boot.{no_requeue}
use cluster_api_control_plan.Controllers.Reconcile.{ensure_condition, reconcile_conditions}

-- One condition: it is there afterwards, and what was there before is as it was.
ensure_condition-keeps :
    (p : Platform)
    → MarksConditions p
    → (type_ reason u : String) (s : State)
    → let (r, t) = ensure_condition p type_ reason s in
      let before = get_conditions s.mcp in
      let after = get_conditions t.mcp in
      (r ≡ next tt)
      × (t.trace ≡ s.trace)
      × (p.has_condition type_ after ≡ true)
      × (p.has_condition u before ≡ true
          → (p.get_condition u after ≡ p.get_condition u before) × (p.has_condition u after ≡ true))
ensure_condition-keeps p marks type_ reason u s =
    let cs = get_conditions s.mcp in
    let cs' = p.mark_false type_ reason severity_info "" [] cs in
    ground (
      arith,
      eq_iff u type_,
      eq_iff type_ type_,
      marks.has-get type_ cs,
      marks.has-get u cs,
      marks.has-get type_ cs',
      marks.has-get u cs',
      marks.get-mark_false type_ reason severity_info "" [] type_ cs,
      marks.get-mark_false type_ reason severity_info "" [] u cs,
    )

-- If the conditions package reads back what it has marked, then `reconcileConditions` makes no call
-- and succeeds; afterwards the conditions Available and MachinesBootstrapped are there, and every
-- condition that was there before is as it was.
pub reconcile_conditions_completes :
    (p : Platform)
    → MarksConditions p
    → (ms : List Machine) (u : String) (s : State)
    → let (r, t) = reconcile_conditions p ms s in
      let before = get_conditions s.mcp in
      let after = get_conditions t.mcp in
      (r ≡ returned (no_requeue, none))
      × (t.trace ≡ s.trace)
      × (p.has_condition available_condition after ≡ true)
      × (p.has_condition machines_bootstrapped after ≡ true)
      × ((p.has_condition u before ≡ false) ⊎ (p.get_condition u after ≡ p.get_condition u before))
unfolding reconcile_conditions
reconcile_conditions_completes p marks ms u s =
    let (_, t) = ensure_condition p available_condition waiting_for_micro_k8s_boot_reason s in
    let keeps = ensure_condition-keeps p marks in
    ground (
      arith,
      Bool-cases (p.has_condition u (get_conditions s.mcp)),
      keeps available_condition waiting_for_micro_k8s_boot_reason u s,
      keeps machines_bootstrapped waiting_for_machines_reason u t,
      keeps machines_bootstrapped waiting_for_machines_reason available_condition t,
    )
