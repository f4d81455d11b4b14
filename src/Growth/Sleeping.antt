-- ===== src/Growth/Sleeping.antt =====
-- How many calls a run of `reconcileMachines` makes, and how long it sleeps, and so keeps its worker.
use cluster_api_control_plan.Common.{◌≡◌, refl, arith, ◌≤◌, ◌+◌, ◌*◌, List, [], ◌∷◌, length}
use cluster_api_control_plan.Kube.{Machine}
use cluster_api_control_plan.Calls.{Call}
use cluster_api_control_plan.Platform.{Platform}
use cluster_api_control_plan.Run.{State}
use cluster_api_control_plan.Controllers.Upgrade.Waiting.{slept}
use cluster_api_control_plan.Controllers.Machines.{reconcile_machines}
use cluster_api_control_plan.Fleet.Deletes.{SortsMachines}
use cluster_api_control_plan.Growth.Cost.{seconds, cost, cost-reconcile_machines}

slept-seconds : (c : Call) (t : List Call) → slept (c ∷ t) ≡ slept t + seconds c
slept-seconds c t = ground arith

-- The seconds slept, and the calls, as costs.
cost-slept : (t : List Call) → cost 0 1 t ≡ slept t
unfolding cost
cost-slept [] = refl
cost-slept (c ∷ t) = omega (arith, cost-slept t, slept-seconds c t)

cost-length : (t : List Call) → cost 1 0 t ≡ length t
unfolding cost
cost-length [] = refl
cost-length (c ∷ t) = omega (arith, cost-length t)

module _ (p : Platform) (sorts : SortsMachines p) (ms : List Machine) (s : State) where
  -- If the sort neither adds nor drops a machine, then a run of `reconcileMachines` sleeps for 630
  -- seconds at most for each machine, whatever the API servers answer and however it ends.
  pub reconcile_machines_sleeps :
      slept (reconcile_machines p ms s).1.trace ≤ slept s.trace + 630 * length ms
  reconcile_machines_sleeps = omega (
    arith,
    cost-reconcile_machines 0 1 p sorts ms s,
    cost-slept (reconcile_machines p ms s).1.trace,
    cost-slept s.trace,
  )

  -- If the sort neither adds nor drops a machine, then a run of `reconcileMachines` ends after 128
  -- calls for each machine and 23 more at most, whatever the API servers answer: each of its loops
  -- comes to an end, the one that waits for the version of a node included.
  pub reconcile_machines_calls :
      length (reconcile_machines p ms s).1.trace ≤ length s.trace + 23 + 128 * length ms
  reconcile_machines_calls = omega (
    arith,
    cost-reconcile_machines 1 0 p sorts ms s,
    cost-length (reconcile_machines p ms s).1.trace,
    cost-length s.trace,
  )
