-- ===== src/Fleet/Sizes.antt =====
-- The number of live machines over any number of rounds of `Reconcile`.
use native.Mathlib.Decide.{dec_lt}
use cluster_api_control_plan.Common.{
  ℕ, suc, ◌≡◌, refl, arith, ◌≤◌, ◌+◌, ◌-◌, ◌<◌, List, ◌∷◌, String, some, none, Option,
}
use cluster_api_control_plan.Common.Int.{pos}
use cluster_api_control_plan.Kube.{ok, ObjectKey, Cluster}
use cluster_api_control_plan.Api.{MicroK8sControlPlane}
use cluster_api_control_plan.Calls.{Call}
use cluster_api_control_plan.Platform.{Platform}
use cluster_api_control_plan.Run.{State}
use cluster_api_control_plan.Run.Tally.{Class, tally, tally_mono}
use cluster_api_control_plan.Controllers.Reconcile.{
  initialize, reconcile_owned, reconcile_request, patch_micro_k8s_control_plane,
}
use cluster_api_control_plan.Controllers.Reconcile.Rounds.{request_changes_le_one}
use cluster_api_control_plan.Growth.Rounds.{request-grows}
use cluster_api_control_plan.Fleet.Count.{TracksFleet}
use cluster_api_control_plan.Fleet.Deletes.{SortsMachines}
use cluster_api_control_plan.Fleet.Round.{
  above, below, deferred-deletes_of_few, deferred-creates_of_many,
}

-- `n` rounds of `Reconcile` one after the other, each on a request for an object that the API server
-- gives and that satisfies `IsGiven`.
pub data Rounds (p : Platform) (IsGiven : MicroK8sControlPlane → Type 0) (s : State)
    : ℕ → State → Type 0 where
  start : Rounds p IsGiven s 0 s
  round :
      {n : ℕ} {t u : State}
      → Rounds p IsGiven s n t
      → (req : ObjectKey) (mcp : MicroK8sControlPlane)
      → p.answer t.trace (Call.get_mcp req) ≡ ok mcp
      → IsGiven mcp
      → u ≡ (reconcile_request p req t).1
      → Rounds p IsGiven s (suc n) u

-- The object is not being deleted.
abbrev pub IsPresent : MicroK8sControlPlane → Type 0
IsPresent mcp = mcp.deletion_timestamp ≡ none

-- The object is not being deleted and asks for `d` replicas.
abbrev pub Wants : ℕ → MicroK8sControlPlane → Type 0
Wants d mcp = IsPresent mcp × (mcp.spec.replicas ≡ some (pos d))

module _ (p : Platform) (namespace name : String) (fleet : List Call → ℕ)
    (tracks : TracksFleet p namespace name fleet) where
  owned-deletes_of_few :
      SortsMachines p
      → (owner : Option Cluster) (s : State)
      → ((c : Cluster) → owner ≡ some c → (c.namespace ≡ namespace) × (c.name ≡ name))
      → IsPresent (s.mcp)
      → fleet s.trace < 4
      → tally Class.machine_deletion (reconcile_owned p owner s).1.trace
        ≡ tally Class.machine_deletion s.trace
  unfolding reconcile_owned initialize patch_micro_k8s_control_plane
  owned-deletes_of_few sorts none s ours present few = refl
  owned-deletes_of_few sorts (some c) s ours present few =
      let u : State = record s { cluster = c; trace = Call.new_patch_helper s.mcp ∷ s.trace } in
      let (here, named) = ours c refl in
      ground (
        arith,
        tracks.adds (Call.new_patch_helper s.mcp) s.trace,
        deferred-deletes_of_few p namespace name fleet tracks u here named sorts s.mcp present,
      )

  request-deletes_of_few :
      SortsMachines p
      → (req : ObjectKey) (mcp : MicroK8sControlPlane) (s : State)
      → p.answer s.trace (Call.get_mcp req) ≡ ok mcp
      → IsPresent mcp
      → fleet s.trace < 4
      → tally Class.machine_deletion (reconcile_request p req s).1.trace
        ≡ tally Class.machine_deletion s.trace
  unfolding reconcile_request
  request-deletes_of_few sorts req mcp s got present few =
      let get = Call.get_mcp req in
      let ask = Call.get_owner_cluster mcp.owner_references mcp.namespace in
      let t : State = record s { mcp = mcp; trace = ask ∷ get ∷ s.trace } in
      grind (
        arith,
        tracks.adds get s.trace,
        tracks.adds ask (get ∷ s.trace),
        λ (owner : Option Cluster) (e : p.answer (get ∷ s.trace) ask ≡ ok owner)
              (few' : fleet t.trace < 4).
            owned-deletes_of_few sorts owner t
              (λ c f. tracks.owner (get ∷ s.trace) mcp.owner_references mcp.namespace c (cc))
              present few',
      )

  owned-creates_of_many :
      (d : ℕ) (owner : Option Cluster) (s : State)
      → ((c : Cluster) → owner ≡ some c → (c.namespace ≡ namespace) × (c.name ≡ name))
      → Wants d (s.mcp)
      → d < fleet s.trace
      → tally Class.machine_creation (reconcile_owned p owner s).1.trace
        ≡ tally Class.machine_creation s.trace
  unfolding reconcile_owned initialize patch_micro_k8s_control_plane
  owned-creates_of_many d none s ours wants many = refl
  owned-creates_of_many d (some c) s ours (present, wanted) many =
      let u : State = record s { cluster = c; trace = Call.new_patch_helper s.mcp ∷ s.trace } in
      let (here, named) = ours c refl in
      ground (
        arith,
        tracks.loses (Call.new_patch_helper s.mcp) s.trace,
        deferred-creates_of_many p namespace name fleet tracks u here named d s.mcp present wanted,
      )

  request-creates_of_many :
      (d : ℕ) (req : ObjectKey) (mcp : MicroK8sControlPlane) (s : State)
      → p.answer s.trace (Call.get_mcp req) ≡ ok mcp
      → Wants d mcp
      → d < fleet s.trace
      → tally Class.machine_creation (reconcile_request p req s).1.trace
        ≡ tally Class.machine_creation s.trace
  unfolding reconcile_request
  request-creates_of_many d req mcp s got wants many =
      let get = Call.get_mcp req in
      let ask = Call.get_owner_cluster mcp.owner_references mcp.namespace in
      let t : State = record s { mcp = mcp; trace = ask ∷ get ∷ s.trace } in
      grind (
        arith,
        tracks.loses get s.trace,
        tracks.loses ask (get ∷ s.trace),
        λ (owner : Option Cluster) (e : p.answer (get ∷ s.trace) ask ≡ ok owner)
              (many' : d < fleet t.trace).
            owned-creates_of_many d owner t
              (λ c f. tracks.owner (get ∷ s.trace) mcp.owner_references mcp.namespace c (cc)) wants
              many',
      )

  -- One round takes a machine only from four or more.
  round-quorum :
      SortsMachines p
      → (req : ObjectKey) (mcp : MicroK8sControlPlane) (s : State)
      → p.answer s.trace (Call.get_mcp req) ≡ ok mcp
      → IsPresent mcp
      → 3 ≤ fleet s.trace
      → 3 ≤ fleet (reconcile_request p req s).1.trace
  round-quorum sorts req mcp s got present three =
      let kept =
        request-grows (λ t. fleet t + tally Class.machine_deletion t)
          (below p namespace name fleet tracks) p req mcp s got present in
      let created =
        request-grows (tally Class.machine_creation) (tally_mono Class.machine_creation) p req mcp s
          got present in
      let one = request_changes_le_one p req mcp s got present in
      elim (dec_lt (fleet s.trace) 4) [
        | yes h ↦ omega (arith, kept, request-deletes_of_few sorts req mcp s got present h)
        | no h ↦ omega (arith, kept, created, one)
      ]

  -- One round adds a machine only to the desired number or fewer.
  round-bounded :
      (d : ℕ) (req : ObjectKey) (mcp : MicroK8sControlPlane) (s : State)
      → p.answer s.trace (Call.get_mcp req) ≡ ok mcp
      → Wants d mcp
      → fleet s.trace ≤ d + 1
      → fleet (reconcile_request p req s).1.trace ≤ d + 1
  round-bounded d req mcp s got (present, wanted) few =
      let u = (reconcile_request p req s).1 in
      let kept =
        request-grows (λ t. tally Class.machine_creation t + (fleet u.trace - fleet t))
          (above p namespace name fleet tracks (fleet u.trace)) p req mcp s got present in
      let deleted =
        request-grows (tally Class.machine_deletion) (tally_mono Class.machine_deletion) p req mcp s
          got present in
      let one = request_changes_le_one p req mcp s got present in
      elim (dec_lt d (fleet s.trace)) [
        | yes h ↦ omega (arith, kept, request-creates_of_many d req mcp s got (present, wanted) h)
        | no h ↦ omega (arith, kept, deleted, one)
      ]

  -- With a server that tracks the machines of the cluster, and as long as the object is not being
  -- deleted, three or more live machines stay three or more over any number of rounds, whatever the
  -- desired number is in each of them and whatever else the servers answer.
  pub Rounds-quorum :
      SortsMachines p
      → (s : State) (n : ℕ) (u : State) → Rounds p IsPresent s n u
      → 3 ≤ fleet s.trace
      → 3 ≤ fleet u.trace
  Rounds-quorum sorts s n u start three = three
  Rounds-quorum sorts s n u (round {n = n'} {t = t} before req mcp got present e) three =
      rw e (round-quorum sorts req mcp t got present (Rounds-quorum sorts s n' t before three))

  -- With a server that tracks the machines of the cluster, and as long as the object is not being
  -- deleted and asks for `d` replicas, the live machines never come to be more than `d + 1`, the one
  -- being the surge of a rolling upgrade, over any number of rounds, whatever else the servers answer.
  pub Rounds-bounded :
      (d : ℕ) (s : State) (n : ℕ) (u : State)
      → Rounds p (Wants d) s n u
      → fleet s.trace ≤ d + 1
      → fleet u.trace ≤ d + 1
  Rounds-bounded d s n u start few = few
  Rounds-bounded d s n u (round {n = n'} {t = t} before req mcp got wants e) few =
      rw e (round-bounded d req mcp t got wants (Rounds-bounded d s n' t before few))
