-- ===== src/Fleet/Count.antt =====
-- The number of machines that are not being deleted, and what a server relates it to.
use mathlib.Core.List.{Permᴰ}
use cluster_api_control_plan.Common.{
  ℕ, suc, ◌≡◌, refl, ◌∙◌, arith, none, some, ◌≤◌, ◌+◌, String, List, [], ◌∷◌, length, All,
}
use cluster_api_control_plan.Kube.{ok, Machine, Cluster, OwnerReference}
use cluster_api_control_plan.Calls.{Call}
use cluster_api_control_plan.Platform.{Platform}
use cluster_api_control_plan.Run.Tally.{Class, tally}
use cluster_api_control_plan.Controllers.Owned.{control_plane_selector}
use cluster_api_control_plan.Controllers.ScaleDown.Choice.{IsSteady}

-- The machines that are not being deleted.
abbrev pub live : List Machine → ℕ
live [] = 0
live (m ∷ ms) = let rest = live ms in elim m.deletion_timestamp [ none ↦ suc rest | some t ↦ rest ]

pub live_le : (ms : List Machine) → live ms ≤ length ms
live_le [] = omega arith
live_le (m ∷ ms) = ground (arith, live_le ms)

pub live-AllSteady : (ms : List Machine) → All IsSteady ms → live ms ≡ length ms
live-AllSteady [] h = refl
live-AllSteady (m ∷ ms) h = ground (arith, live-AllSteady ms h.1)

-- Neither depends on the order.
pub live-Perm : {ms ns : List Machine} → Permᴰ ms ns → live ms ≡ live ns
live-Perm Permᴰ.nil = refl
live-Perm (Permᴰ.cons {a} {b} e h) = rw e (ground (arith, live-Perm h))
live-Perm (Permᴰ.swap {a} {b} {a'} {b'} {l} e e') = rw (e, ← e') (ground arith)
live-Perm (Permᴰ.trans h h') = live-Perm h ∙ live-Perm h'

pub length-Perm : {ms ns : List Machine} → Permᴰ ms ns → length ms ≡ length ns
length-Perm Permᴰ.nil = refl
length-Perm (Permᴰ.cons e h) = rw (length-Perm h)
length-Perm (Permᴰ.swap e e') = refl
length-Perm (Permᴰ.trans h h') = length-Perm h ∙ length-Perm h'

-- `fleet` is the number of live machines after a trace of calls. The server lists them; a request to
-- create a machine adds one at most and no other call adds any; a request to delete a machine
-- removes one at most, and no other call removes any. The owner is one cluster.
pub record TracksFleet (p : Platform) (namespace name : String) (fleet : List Call → ℕ)
    : Type 0 where
  pub lists :
      (trace : List Call) (ms : List Machine)
      → p.answer trace (Call.list_machines namespace (control_plane_selector name)) ≡ ok ms
      → live ms ≡ fleet trace
  pub adds :
      (c : Call) (trace : List Call)
      → fleet (c ∷ trace) + tally Class.machine_creation trace
        ≤ fleet trace + tally Class.machine_creation (c ∷ trace)
  pub loses :
      (c : Call) (trace : List Call)
      → fleet trace + tally Class.machine_deletion trace
        ≤ fleet (c ∷ trace) + tally Class.machine_deletion (c ∷ trace)
  pub owner :
      (trace : List Call) (refs : List OwnerReference) (within : String) (c : Cluster)
      → p.answer trace (Call.get_owner_cluster refs within) ≡ ok (some c)
      → (c.namespace ≡ namespace) × (c.name ≡ name)
