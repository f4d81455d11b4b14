-- ===== src/Tests/Progress.antt =====
-- A server that creates a machine of the wanted version whenever it is asked to.
use cluster_api_control_plan.Common.{
  ℕ, ◌≡◌, refl, arith, some, none, Option, List, [], ◌∷◌, ◌≤◌, ◌+◌, length,
}
use cluster_api_control_plan.Kube.{ok, Machine, ObjectKey}
use cluster_api_control_plan.Calls.{Call, Reply}
use cluster_api_control_plan.Platform.{Platform}
use cluster_api_control_plan.Run.{State}
use cluster_api_control_plan.Run.Tally.{Class, kind_of, add, tally}
use cluster_api_control_plan.Controllers.Machines.{version_differs}
use cluster_api_control_plan.Controllers.Reconcile.{reconcile_request}
use cluster_api_control_plan.Fleet.Serving.{Serves, AreUpToDate}
use cluster_api_control_plan.Fleet.Sizes.{Rounds, start, round}
use cluster_api_control_plan.Fleet.Progress.{CountsFleet, IsReady, Rounds-reach}
use cluster_api_control_plan.Tests.World as World
use cluster_api_control_plan.Tests.Fleet.{keeping-sorts}

abbrev tail : List Machine → List Machine
tail [] = []
tail (m ∷ ms) = ms

-- What a call of a kind does to the machines.
abbrev stepped : Option Class → List Machine → List Machine
stepped none ms = ms
stepped (some Class.machine_creation) ms = World.machine "b" 2 ∷ ms
stepped (some Class.machine_deletion) ms = tail ms
stepped (some k) ms = ms

-- The machines after a trace: one at first.
abbrev made : List Call → List Machine
made [] = World.machine "a" 1 ∷ []
made (c ∷ trace) = stepped (kind_of c) (made trace)

abbrev fleet : List Call → ℕ
fleet trace = length (made trace)

abbrev making_answer : List Call → (c : Call) → Reply c
making_answer trace (Call.list_machines namespace labels) = ok (made trace)
making_answer trace c = World.answer World.four trace c

abbrev making : Platform
making = record (World.world World.four) { answer = making_answer }

making-Serves : Serves making World.a_cluster
making-Serves = record {
  owns = λ trace refs within. refl;
  ready = refl;
  endpoint = refl;
  helps = λ trace mcp. refl;
  finds = λ trace ref within. (record { owner_references = []; content = "" }, refl);
  helps_external = λ trace o. refl;
  patches_external = λ trace before after. refl;
  clones = λ trace input. (World.reference, refl);
  configures = λ trace config. refl;
  draws = λ trace n. omega arith;
}

stepped-UpToDate :
    (k : Option Class) (ms : List Machine)
    → AreUpToDate making "v1.25" ms
    → AreUpToDate making "v1.25" (stepped k ms)
unfolding version_differs
stepped-UpToDate none ms h = h
stepped-UpToDate (some Class.machine_creation) ms h = (("v1.25", refl, refl), h)
stepped-UpToDate (some Class.machine_deletion) [] h = tt
stepped-UpToDate (some Class.machine_deletion) (m ∷ ms) h = h.1
stepped-UpToDate (some Class.node_deletion) ms h = h
stepped-UpToDate (some Class.machine_update) ms h = h
stepped-UpToDate (some Class.template_clone) ms h = h
stepped-UpToDate (some Class.config_creation) ms h = h
stepped-UpToDate (some Class.mcp_update) ms h = h
stepped-UpToDate (some Class.mcp_patch) ms h = h

made-UpToDate : (trace : List Call) → AreUpToDate making "v1.25" (made trace)
unfolding version_differs
made-UpToDate [] = (("v1.25", refl, refl), tt)
made-UpToDate (c ∷ trace) = stepped-UpToDate (kind_of c) (made trace) (made-UpToDate trace)

length-stepped :
    (k : Option Class) (ms : List Machine)
    → (length (stepped k ms) ≤ add k Class.machine_creation (length ms))
      × (add k Class.machine_creation (length ms)
          ≤ length (stepped k ms) + add k Class.machine_deletion 0)
length-stepped k [] = ground arith
length-stepped k (m ∷ ms) = ground arith

add_eq : (k : Option Class) (j : Class) (n : ℕ) → add k j n ≡ n + add k j 0
add_eq k j n = ground arith

making-adds :
    (c : Call) (trace : List Call)
    → fleet (c ∷ trace) + tally Class.machine_creation trace
      ≤ fleet trace + tally Class.machine_creation (c ∷ trace)
making-adds c trace = omega (
  arith,
  length-stepped (kind_of c) (made trace),
  add_eq (kind_of c) Class.machine_creation (fleet trace),
  add_eq (kind_of c) Class.machine_creation (tally Class.machine_creation trace),
)

making-grants :
    (c : Call) (trace : List Call)
    → fleet trace + tally Class.machine_deletion trace + tally Class.machine_creation (c ∷ trace)
      ≤ fleet (c ∷ trace)
        + tally Class.machine_deletion (c ∷ trace)
        + tally Class.machine_creation trace
making-grants c trace = omega (
  arith,
  length-stepped (kind_of c) (made trace),
  add_eq (kind_of c) Class.machine_creation (fleet trace),
  add_eq (kind_of c) Class.machine_creation (tally Class.machine_creation trace),
  add_eq (kind_of c) Class.machine_deletion (tally Class.machine_deletion trace),
)

making-CountsFleet : CountsFleet making World.a_cluster "v1.25" fleet
making-CountsFleet = record {
  lists = λ trace. (made trace, refl, refl, made-UpToDate trace);
  adds = making-adds;
  grants = making-grants;
}

-- Two rounds: one machine becomes three.
abbrev req : ObjectKey
req = record { namespace = "ns"; name = "cp" }

abbrev once : State
once = (reconcile_request making req (World.start World.four)).1

abbrev twice : State
twice = (reconcile_request making req once).1

two_rounds :
    Rounds making (IsReady making World.a_cluster "v1.25" 3) (World.start World.four) 2 twice
two_rounds =
    round
      (round start req (World.control_plane World.four) refl (refl, refl, refl, refl, refl) refl)
      req (World.control_plane World.four) refl (refl, refl, refl, refl, refl) refl

Rounds-reach_example : fleet twice.trace ≡ 3
Rounds-reach_example =
    Rounds-reach making World.a_cluster making-Serves keeping-sorts "v1.25" fleet making-CountsFleet
      3 (World.start World.four) 2 twice two_rounds (omega arith)
