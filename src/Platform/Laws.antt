-- ===== src/Platform/Laws.antt =====
-- What the theorems rely on of the imported packages, as those packages document it.
use cluster_api_control_plan.Common.{String, ◌≡◌, some, List, is_some, str_eq, if◌then◌else◌}
use cluster_api_control_plan.Kube.{
  Arg, Condition, status_true, status_false, Severity, severity_none,
}
use cluster_api_control_plan.Platform.{Platform}

-- cluster-api/util/conditions: a mark sets the condition of its type and leaves the others.
pub record MarksConditions (p : Platform) : Type 0 where
  pub has-get :
      (t : String) (cs : List Condition) → p.has_condition t cs ≡ is_some (p.get_condition t cs)
  pub get-mark_true :
      (t u : String) (cs : List Condition)
      → p.get_condition u (p.mark_true t cs) ≡ (
          if str_eq u t
          then some (record {
            type_ = t;
            status = status_true;
            severity = severity_none;
            reason = "";
            message = "";
          })
          else p.get_condition u cs)
  pub get-mark_false :
      (t reason : String) (severity : Severity) (format : String) (args : List Arg) (u : String)
      (cs : List Condition)
      → p.get_condition u (p.mark_false t reason severity format args cs) ≡ (
          if str_eq u t
          then some (record {
            type_ = t;
            status = status_false;
            severity = severity;
            reason = reason;
            message = p.sprintf format args;
          })
          else p.get_condition u cs)
