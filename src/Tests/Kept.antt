-- ===== src/Tests/Kept.antt =====
-- A round that scales four machines down to three, and what it leaves of the object.
use cluster_api_control_plan.Common.{◌≡◌, ◌⊎◌, refl}
use cluster_api_control_plan.Run.{panicked}
use cluster_api_control_plan.Controllers.Reconcile.{reconcile_deferred}
use cluster_api_control_plan.Kept.Rounds.{EndsInPatch, reconcile_deferred-EndsInPatch}
use cluster_api_control_plan.Tests.World.{four, world, start, control_plane}

reconcile_deferred-EndsInPatch_example :
    let (r, t) = reconcile_deferred (world four) (control_plane four) (start four) in
    (record (t.mcp) {
      spec = record (t.mcp.spec) {
        version = "v1.25";
        control_plane_config = (control_plane four).spec.control_plane_config;
      };
      status = (control_plane four).status;
    }
      ≡ control_plane four)
    × ((r ≡ panicked) ⊎ EndsInPatch (control_plane four) (t.mcp) (t.trace))
reconcile_deferred-EndsInPatch_example =
    reconcile_deferred-EndsInPatch (world four) (start four) refl
