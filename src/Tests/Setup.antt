-- ===== src/Tests/Setup.antt =====
-- A start of the process in which the ready check cannot be added.
use cluster_api_control_plan.Common.{refl, ◌++◌, Option, none, some, [], List}
use cluster_api_control_plan.Kube.{Error, api_error}
use cluster_api_control_plan.Setup.{Step, Libraries, main, default_flags}
use cluster_api_control_plan.Setup.Order.{
  PlanEnds, scheme_plan, manager_plan, exit_of, main-PlanEnds,
}

abbrev answer : List Step → Step → Option Error
answer t (Step.add_readyz_check name) = some (api_error "Started" "the manager runs already")
answer t _ = none

abbrev libraries : Libraries
libraries = record { parse = λ args flags. some flags; does = answer }

main-PlanEnds_example :
    PlanEnds libraries
      (scheme_plan ++ manager_plan default_flags)
      []
      (exit_of (main libraries [] []).0, (main libraries [] []).1)
main-PlanEnds_example = main-PlanEnds libraries default_flags [] refl
