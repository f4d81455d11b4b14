-- ===== src/Tests/Renewal.antt =====
-- A server that keeps the machines of a control plane under a rolling upgrade: three of an old
-- version at first.
use mathlib.Core.List.{Permᴰ}
use mathlib.Core.List.Permᴰ
use cluster_api_control_plan.Common.{
  ℕ, zero, suc, ◌≢◌, ◌≡◌, ◌⊎◌, refl, sym, arith, some, none, true, inl, inr, List, [], ◌∷◌, ◌≤◌,
  ◌<◌, All, Among, String,
}
use cluster_api_control_plan.Kube.{ok, Machine, ObjectKey}
use cluster_api_control_plan.Calls.{Call, Reply}
use cluster_api_control_plan.Platform.{Platform}
use cluster_api_control_plan.Run.{State}
use cluster_api_control_plan.Controllers.ScaleDown.Choice.{IsSteady}
use cluster_api_control_plan.Controllers.Reconcile.{reconcile_request}
use cluster_api_control_plan.Growth.Extends.{Machine-discrete}
use cluster_api_control_plan.Fleet.Sizes.{Rounds, start}
use cluster_api_control_plan.Fleet.Renewal.Server.{leaves_machines}
use cluster_api_control_plan.Tests.World as World

abbrev old_machine : String → ℕ → Machine
old_machine name created = record (World.machine name created) { version = some "v1.24" }

abbrev pub without : Machine → List Machine → List Machine
without m [] = []
without m (x ∷ ms) =
    let rest = without m ms in elim (Machine-discrete m x) [ yes e ↦ ms | no e ↦ x ∷ rest ]

-- The machines after a trace.
abbrev pub renewed : List Call → List Machine
renewed [] = old_machine "b" 2 ∷ old_machine "a" 1 ∷ old_machine "c" 3 ∷ []
renewed (Call.create_machine m ∷ trace) = World.machine "n" 9 ∷ renewed trace
renewed (Call.delete_machine m ∷ trace) = without m (renewed trace)
renewed (c ∷ trace) = renewed trace

abbrev renewing_answer : List Call → (c : Call) → Reply c
renewing_answer trace (Call.list_machines namespace labels) = ok (renewed trace)
renewing_answer trace c = World.answer World.four trace c

abbrev renewing : Platform
renewing = record (World.world World.four) { answer = renewing_answer }

pub without-Perm : (m : Machine) (ms : List Machine) → Among m ms → Permᴰ ms (m ∷ without m ms)
without-Perm m [] among = elim among [ ]
without-Perm m (x ∷ ms) among = by_equal (Machine-discrete m x) refl (without-Perm m ms)
  where
    by_equal :
        (b : Dec (m ≡ x))
        → Machine-discrete m x ≡ b
        → (Among m ms → Permᴰ ms (m ∷ without m ms))
        → Permᴰ (x ∷ ms) (m ∷ without m (x ∷ ms))
    by_equal (yes e) h rest = rw (h, without) (Permᴰ.cons (sym e) (Permᴰ.refl ms))
    by_equal (no different) h rest = elim among [
      | inl e ↦ absurd (different e)
      | inr there ↦
          rw (h, without) (Permᴰ.trans (Permᴰ.cons refl (rest there)) (Permᴰ.swap refl refl))
    ]

-- What every machine of the server has: it is steady, and of the old version and created before 9, or
-- of the wanted one and created then.
abbrev pub IsKept : Machine → Type 0
IsKept m =
    IsSteady m
    × (((m.version ≡ some "v1.24") × (m.creation_timestamp < 9))
        ⊎ ((m.version ≡ some "v1.25") × (m.creation_timestamp ≡ 9)))

without-All : (m : Machine) (ms : List Machine) → All IsKept ms → All IsKept (without m ms)
without-All m [] h = tt
without-All m (x ∷ ms) (kept, all) = ground (arith, kept, all, without-All m ms all)

pub renewed-All : (trace : List Call) → All IsKept (renewed trace)
renewed-All [] =
    let steady : (n : String) → some n ≢ none = λ n e. cc in
    (
      ((refl, steady "b"), inl (refl, omega arith)),
      (
        ((refl, steady "a"), inl (refl, omega arith)),
        (((refl, steady "c"), inl (refl, omega arith)), tt),
      ),
    )
renewed-All (Call.create_machine m ∷ trace) =
    (((refl, λ e. cc), inr (refl, refl)), renewed-All trace)
renewed-All (Call.delete_machine m ∷ trace) = without-All m (renewed trace) (renewed-All trace)
renewed-All (c ∷ trace) = renewed-All trace

-- The insertion sort of the tests sorts.
abbrev IsOrdered : List Machine → Type 0
IsOrdered [] = Unit
IsOrdered (m ∷ ms) = All (λ x. m.creation_timestamp ≤ x.creation_timestamp) ms × IsOrdered ms

pub All-of :
    {P Q : Machine → Type 0} (ms : List Machine) → ((m : Machine) → P m → Q m) → All P ms → All Q ms
All-of [] f h = tt
All-of (m ∷ ms) f h = (f m h.0, All-of ms f h.1)

pub renewed-keeps :
    (c : Call) (trace : List Call) → leaves_machines c ≡ true → renewed (c ∷ trace) ≡ renewed trace
renewed-keeps (Call.create_machine m) trace h = absurd (cc)
renewed-keeps (Call.delete_machine m) trace h = absurd (cc)
renewed-keeps c trace h = refl

abbrev req : ObjectKey
req = record { namespace = "ns"; name = "cp" }

-- The state after some rounds.
abbrev after : ℕ → State
after zero = World.start World.four
after (suc n) = (reconcile_request renewing req (after n)).1
