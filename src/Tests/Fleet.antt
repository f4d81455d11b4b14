-- ===== src/Tests/Fleet.antt =====
-- A server that keeps the machines of a scenario: it creates and deletes what it is asked to.
use mathlib.Core.List.{Permᴰ}
use cluster_api_control_plan.Common.{
  ℕ, ◌≡◌, refl, arith, String, Bool-cases, inl, inr, some, List, [], ◌∷◌, ◌≤◌, ◌+◌, str_eq,
  if◌then◌else◌,
}
use cluster_api_control_plan.Kube.{ok, Machine, Cluster, OwnerReference, ObjectKey}
use cluster_api_control_plan.Calls.{Call, Reply}
use cluster_api_control_plan.Platform.{Platform}
use cluster_api_control_plan.Run.{State}
use cluster_api_control_plan.Run.Tally.{Class, tally}
use cluster_api_control_plan.Controllers.Owned.{less}
use cluster_api_control_plan.Controllers.Reconcile.{reconcile_request}
use cluster_api_control_plan.Fleet.Count.{live, TracksFleet}
use cluster_api_control_plan.Fleet.Deletes.{SortsMachines}
use cluster_api_control_plan.Fleet.Sizes.{
  Rounds, start, round, IsPresent, Wants, Rounds-quorum, Rounds-bounded,
}
use cluster_api_control_plan.Tests.World as World

abbrev pub drop_named : String → List Machine → List Machine
drop_named name [] = []
drop_named name (m ∷ ms) =
    let rest = drop_named name ms in if str_eq name m.name then ms else m ∷ rest

-- The machines after a trace.
abbrev pub kept : List Call → List Machine
kept [] = World.four.machines
kept (Call.create_machine m ∷ trace) = m ∷ kept trace
kept (Call.delete_machine m ∷ trace) = drop_named m.name (kept trace)
kept (c ∷ trace) = kept trace

abbrev fleet : List Call → ℕ
fleet trace = live (kept trace)

abbrev pub keeping_answer : List Call → (c : Call) → Reply c
keeping_answer trace (Call.list_machines namespace labels) = ok (kept trace)
keeping_answer trace c = World.answer World.four trace c

abbrev pub keeping : Platform
keeping = record (World.world World.four) { answer = keeping_answer }

drop-live :
    (name : String) (ms : List Machine)
    → (live (drop_named name ms) ≤ live ms) × (live ms ≤ live (drop_named name ms) + 1)
drop-live name [] = omega arith
drop-live name (m ∷ ms) = ground (arith, drop-live name ms)

keeping-adds :
    (c : Call) (trace : List Call)
    → fleet (c ∷ trace) + tally Class.machine_creation trace
      ≤ fleet trace + tally Class.machine_creation (c ∷ trace)
keeping-adds c trace = grind (arith, λ (n : String). drop-live n (kept trace))

keeping-loses :
    (c : Call) (trace : List Call)
    → fleet trace + tally Class.machine_deletion trace
      ≤ fleet (c ∷ trace) + tally Class.machine_deletion (c ∷ trace)
keeping-loses c trace = grind (arith, λ (n : String). drop-live n (kept trace))

keeping-owner :
    (trace : List Call) (refs : List OwnerReference) (within : String) (c : Cluster)
    → keeping.answer trace (Call.get_owner_cluster refs within) ≡ ok (some c)
    → (c.namespace ≡ "ns") × (c.name ≡ "c")
keeping-owner trace refs within c e = ground arith

keeping-TracksFleet : TracksFleet keeping "ns" "c" fleet
keeping-TracksFleet = record {
  lists = λ trace ms e. ground arith;
  adds = keeping-adds;
  loses = keeping-loses;
  owner = keeping-owner;
}

permuted : (ms : List Machine) → Permᴰ ms ms
permuted [] = Permᴰ.nil
permuted (m ∷ ms) = Permᴰ.cons refl (permuted ms)

insert-Perm : (m : Machine) (ms : List Machine) → Permᴰ (World.insert less m ms) (m ∷ ms)
insert-Perm m [] = permuted (m ∷ [])
insert-Perm m (n ∷ ms) = elim (Bool-cases (less n m)) [
  | inl e ↦ rw e (Permᴰ.trans (Permᴰ.cons refl (insert-Perm m ms)) (Permᴰ.swap refl refl))
  | inr e ↦ rw e (permuted (m ∷ n ∷ ms))
]

pub keeping-sorts : SortsMachines keeping
keeping-sorts [] = Permᴰ.nil
keeping-sorts (m ∷ ms) =
    Permᴰ.trans (insert-Perm m (World.sort less ms)) (Permᴰ.cons refl (keeping-sorts ms))

-- Two rounds: the first deletes a machine of four, the second finds three.
abbrev req : ObjectKey
req = record { namespace = "ns"; name = "cp" }

abbrev once : State
once = (reconcile_request keeping req (World.start World.four)).1

abbrev twice : State
twice = (reconcile_request keeping req once).1

two_rounds : Rounds keeping IsPresent (World.start World.four) 2 twice
two_rounds =
    round (round start req (World.control_plane World.four) refl refl refl) req
      (World.control_plane World.four) refl refl refl

two_rounds_wanted : Rounds keeping (Wants 3) (World.start World.four) 2 twice
two_rounds_wanted =
    round (round start req (World.control_plane World.four) refl (refl, refl) refl) req
      (World.control_plane World.four) refl (refl, refl) refl

Rounds-quorum_example : 3 ≤ fleet twice.trace
Rounds-quorum_example =
    Rounds-quorum keeping "ns" "c" fleet keeping-TracksFleet keeping-sorts (World.start World.four)
      2 twice two_rounds (omega arith)

Rounds-bounded_example : fleet twice.trace ≤ 3 + 1
Rounds-bounded_example =
    Rounds-bounded keeping "ns" "c" fleet keeping-TracksFleet 3 (World.start World.four) 2 twice
      two_rounds_wanted (omega arith)
