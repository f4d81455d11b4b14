-- ===== src/Fleet/Renewal/Server.antt =====
-- An API server that keeps the machines of a control plane, each with its version, and what a
-- workload cluster grants.
use mathlib.Core.List.{Permᴰ}
use cluster_api_control_plan.Common.{
  ℕ, suc, Bool-cases, ◌≡◌, refl, ◌∙◌, arith, Bool, true, false, inl, inr, none, some, ◌≤◌, ◌<◌,
  String, ◌<>◌, List, [], ◌∷◌, ◌++◌, length, All, Among, if◌then◌else◌,
}
use cluster_api_control_plan.Kube.{ok, ObjectKey, Machine, Cluster, Secret}
use cluster_api_control_plan.Calls.{Call}
use cluster_api_control_plan.Platform.{Platform}
use cluster_api_control_plan.Run.Tally.{Class, tally, tally_mono}
use cluster_api_control_plan.Controllers.Owned.{less, control_plane_selector}
use cluster_api_control_plan.Controllers.Kubeconfig.{has_secret_named}
use cluster_api_control_plan.Controllers.ScaleDown.Choice.{IsSteady}
use cluster_api_control_plan.Controllers.Machines.{version_differs}
use cluster_api_control_plan.Fleet.Deletes.{SortsMachines}

-- A machine of another version than the wanted one.
abbrev pub is_behind : Platform → String → Machine → Bool
is_behind p version m = elim m.version [
  | none ↦ false
  | some v ↦ version_differs p (p.major_minor v) (p.major_minor version)
]

abbrev pub behind : Platform → String → List Machine → ℕ
behind p version [] = 0
behind p version (m ∷ ms) =
    let rest = behind p version ms in if is_behind p version m then suc rest else rest

-- A call that neither creates nor deletes a machine.
abbrev pub leaves_machines : Call → Bool
leaves_machines (Call.create_machine m) = false
leaves_machines (Call.delete_machine m) = false
leaves_machines c = true

-- `machines` are those that the server has after a trace of calls. It lists them, in any order. A
-- request to create a machine of the wanted version adds one, one to delete a machine that is there
-- removes it, and no other call changes them. When they are listed they all have a version and a
-- node, and none is being deleted; and the machines of another version are older than the others.
pub record KeepsMachines (p : Platform) (cluster : Cluster) (version : String)
    (machines : List Call → List Machine) : Type 0 where
  pub lists :
      (trace : List Call)
      → p.answer trace (Call.list_machines cluster.namespace (control_plane_selector cluster.name))
        ≡ ok (machines trace)
  pub creates :
      (m : Machine) (trace : List Call)
      → m.version ≡ some version
      → (made : Machine) × (made.version ≡ some version)
        × Permᴰ (machines (Call.create_machine m ∷ trace)) (made ∷ machines trace)
  pub deletes :
      (m : Machine) (trace : List Call)
      → Among m (machines trace)
      → Permᴰ (machines trace) (m ∷ machines (Call.delete_machine m ∷ trace))
  pub keeps :
      (c : Call) (trace : List Call)
      → leaves_machines c ≡ true
      → machines (c ∷ trace) ≡ machines trace
  pub steady : (trace : List Call) → All IsSteady (machines trace)
  pub versioned :
      (trace : List Call) → All (λ m. (v : String) × (m.version ≡ some v)) (machines trace)
  pub older :
      (trace : List Call) (m n : Machine)
      → Among m (machines trace)
      → Among n (machines trace)
      → is_behind p version m ≡ true
      → is_behind p version n ≡ false
      → m.creation_timestamp < n.creation_timestamp

-- The kubeconfig secret of the cluster is there and a client can be made from it, and requests to
-- delete a machine are accepted.
pub record Opens (p : Platform) (cluster : Cluster) : Type 0 where
  pub secrets :
      (trace : List Call)
      → (l : List Secret) × (p.answer trace Call.list_secrets ≡ ok l)
        × (has_secret_named (cluster.name <> "-kubeconfig") l ≡ true)
  pub clusters :
      (trace : List Call) (key : ObjectKey)
      → (c : Cluster) × (p.answer trace (Call.get_cluster key) ≡ ok c)
  pub secret :
      (trace : List Call) (key : ObjectKey)
      → (s : Secret) × (p.answer trace (Call.get_secret key) ≡ ok s)
  pub rest_config : (config : List ℕ) → p.rest_config_from_kubeconfig config ≡ none
  pub client : (config : List ℕ) → p.new_for_config config ≡ none
  pub accepts : (trace : List Call) (m : Machine) → p.answer trace (Call.delete_machine m) ≡ none

-- `sort.Sort` puts the machines in the order of their age.
pub record SortsByAge (p : Platform) : Type 0 where
  pub permutes : SortsMachines p
  pub first :
      (ms : List Machine) (m : Machine) (rest : List Machine)
      → p.sort less ms ≡ m ∷ rest
      → All (λ x. m.creation_timestamp ≤ x.creation_timestamp) (m ∷ rest)

-- The number of machines that are behind does not depend on their order.
module _ (p : Platform) (version : String) where
  pub behind-Perm : {ms ns : List Machine} → Permᴰ ms ns → behind p version ms ≡ behind p version ns
  behind-Perm Permᴰ.nil = refl
  behind-Perm (Permᴰ.cons {a} {b} e h) = rw e (ground (arith, behind-Perm h))
  behind-Perm (Permᴰ.swap {a} {b} {a'} {b'} {l} e e') = rw (e, ← e') (ground arith)
  behind-Perm (Permᴰ.trans h h') = behind-Perm h ∙ behind-Perm h'

  pub behind_le : (ms : List Machine) → behind p version ms ≤ length ms
  behind_le [] = omega arith
  behind_le (m ∷ ms) = ground (arith, behind_le ms)

  -- Where some are behind there is one, and where none is behind every one is of the version.
  pub behind_some :
      (ms : List Machine)
      → 0 < behind p version ms
      → (m : Machine) × Among m ms × (is_behind p version m ≡ true)
  behind_some [] h = absurd (omega arith)
  behind_some (m ∷ ms) h = elim (Bool-cases (is_behind p version m)) [
    | inl e ↦ (m, inl refl, e)
    | inr e ↦ let (x, among, late) = behind_some ms (ground arith) in (x, inr among, late)
  ]

  pub behind_zero :
      (ms : List Machine) → behind p version ms ≡ 0 → All (λ m. is_behind p version m ≡ false) ms
  behind_zero [] h = tt
  behind_zero (m ∷ ms) h = elim (Bool-cases (is_behind p version m)) [
    | inl e ↦ absurd (ground (arith, e))
    | inr e ↦ (e, behind_zero ms (ground (arith, e)))
  ]

  pub behind_none :
      (m : Machine) (ms : List Machine)
      → Among m ms
      → is_behind p version m ≡ true
      → 0 < behind p version ms
  behind_none m [] among late = elim among [ ]
  behind_none m (x ∷ ms) (inl e) late = rw (← e) (ground (arith, late))
  behind_none m (x ∷ ms) (inr among) late = ground (arith, behind_none m ms among late)

pub Among-Perm : (m : Machine) {ms ns : List Machine} → Permᴰ ms ns → Among m ms → Among m ns
Among-Perm m Permᴰ.nil h = h
Among-Perm m (Permᴰ.cons e q) (inl h) = inl (h ∙ e)
Among-Perm m (Permᴰ.cons e q) (inr h) = inr (Among-Perm m q h)
Among-Perm m (Permᴰ.swap e e') (inl h) = inr (inl (h ∙ e))
Among-Perm m (Permᴰ.swap e e') (inr (inl h)) = inl (h ∙ e')
Among-Perm m (Permᴰ.swap e e') (inr (inr h)) = inr (inr h)
Among-Perm m (Permᴰ.trans q q') h = Among-Perm m q' (Among-Perm m q h)

pub All-Among :
    (P : Machine → Type 0) (m : Machine) (ms : List Machine) → All P ms → Among m ms → P m
All-Among P m [] h among = elim among [ ]
All-Among P m (x ∷ ms) h (inl e) = rw e h.0
All-Among P m (x ∷ ms) h (inr among) = All-Among P m ms h.1 among

leaves_of_tally :
    (c : Call) (t : List Call)
    → tally Class.machine_creation (c ∷ t) ≡ tally Class.machine_creation t
    → tally Class.machine_deletion (c ∷ t) ≡ tally Class.machine_deletion t
    → leaves_machines c ≡ true
leaves_of_tally c t h k = ground arith

-- Calls among which there is no request to create or to delete a machine leave them as they are.
pub keeps_quiet :
    (machines : List Call → List Machine)
    → ((c : Call) (t : List Call) → leaves_machines c ≡ true → machines (c ∷ t) ≡ machines t)
    → (cs s : List Call) → tally Class.machine_creation (cs ++ s) ≡ tally Class.machine_creation s
    → tally Class.machine_deletion (cs ++ s) ≡ tally Class.machine_deletion s
    → machines (cs ++ s) ≡ machines s
keeps_quiet machines keeps [] s h k = refl
keeps_quiet machines keeps (c ∷ cs) s h k =
    keeps c (cs ++ s) (
      leaves_of_tally c (cs ++ s) (omega (arith, above Class.machine_creation h))
        (omega (arith, above Class.machine_deletion k)))
    ∙ keeps_quiet machines keeps cs s (omega (arith, above Class.machine_creation h))
        (omega (arith, above Class.machine_deletion k))
  where
    above :
        (j : Class)
        → tally j (c ∷ (cs ++ s)) ≡ tally j s
        → (tally j (c ∷ (cs ++ s)) ≡ tally j (cs ++ s)) × (tally j (cs ++ s) ≡ tally j s)
    above j e = omega (arith, tally_mono j c (cs ++ s), grown cs j)
      where
        grown : (cs : List Call) (j : Class) → tally j s ≤ tally j (cs ++ s)
        grown [] j = omega arith
        grown (d ∷ ds) j = omega (arith, tally_mono j d (ds ++ s), grown ds j)
