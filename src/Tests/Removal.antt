-- ===== src/Tests/Removal.antt =====
-- A server that removes the machines of a control plane that is being deleted.
use cluster_api_control_plan.Common.{◌≡◌, refl, inl, arith, some, List, [], ◌∷◌, ◌++◌, length}
use cluster_api_control_plan.Kube.{ok, ObjectKey}
use cluster_api_control_plan.Calls.{Call, Reply}
use cluster_api_control_plan.Platform.{Platform}
use cluster_api_control_plan.Run.{State}
use cluster_api_control_plan.Controllers.Reconcile.{reconcile_request}
use cluster_api_control_plan.Fleet.Serving.{Serves}
use cluster_api_control_plan.Fleet.Removal.{
  RemovesMachines, IsLeaving, release_of, two_rounds-release,
}
use cluster_api_control_plan.Tests.World as World
use cluster_api_control_plan.Tests.Renewal.{
  renewed, renewed-keeps, without-Perm, renewed-All, All-of,
}

abbrev dying : World.Scenario
dying = record World.four { deletion_timestamp = some 5 }

abbrev leaving_answer : List Call → (c : Call) → Reply c
leaving_answer trace (Call.list_machines namespace labels) = ok (renewed trace)
leaving_answer trace c = World.answer dying trace c

abbrev leaving : Platform
leaving = record (World.world dying) { answer = leaving_answer }

leaving-Serves : Serves leaving World.a_cluster
leaving-Serves = record {
  owns = λ trace refs within. refl;
  ready = refl;
  endpoint = refl;
  helps = λ trace mcp. refl;
  finds = λ trace ref within. (record { owner_references = []; content = "" }, refl);
  helps_external = λ trace o. refl;
  patches_external = λ trace before after. refl;
  clones = λ trace input. (World.reference, refl);
  configures = λ trace config. refl;
  draws = λ trace n. omega arith;
}

leaving-RemovesMachines : RemovesMachines leaving World.a_cluster renewed
leaving-RemovesMachines = record {
  lists = λ trace. refl;
  alive = λ trace. All-of (renewed trace) (λ m h. h.0.0) (renewed-All trace);
  deletes = λ m trace among. without-Perm m (renewed trace) among;
  keeps = renewed-keeps;
}

abbrev req : ObjectKey
req = record { namespace = "ns"; name = "cp" }

abbrev once : State
once = (reconcile_request leaving req (World.start dying)).1

abbrev twice : State
twice = (reconcile_request leaving req once).1

is_leaving : IsLeaving leaving World.a_cluster (World.control_plane dying)
is_leaving = ((5, refl), refl, refl)

two_rounds-release_example :
    (length (renewed once.trace) ≡ 0)
    × ((later : List Call) × (before : List Call) × (twice.trace
          ≡ later ++ release_of leaving (World.control_plane dying) ∷ before))
two_rounds-release_example =
    two_rounds-release leaving World.a_cluster renewed leaving-RemovesMachines (λ trace m. inl refl)
      leaving-Serves req (World.control_plane dying) (World.start dying) once twice refl is_leaving
      refl req (World.control_plane dying) refl is_leaving refl
