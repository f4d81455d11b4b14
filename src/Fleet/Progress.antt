-- ===== src/Fleet/Progress.antt =====
-- With servers that grant what they are asked, the number of machines comes to the desired one.
use cluster_api_control_plan.Common.{
  ℕ, ◌≡◌, inr, refl, arith, ◌≤◌, ◌+◌, ◌-◌, List, [], ◌∷◌, length, String, some, none, ltb,
  if◌then◌else◌, true, false,
}
use cluster_api_control_plan.Common.Int.{pos}
use cluster_api_control_plan.Kube.{ok, ObjectKey, Machine, Cluster}
use cluster_api_control_plan.Api.{MicroK8sControlPlane, micro_k8s_control_plane_finalizer}
use cluster_api_control_plan.Calls.{Call}
use cluster_api_control_plan.Platform.{Platform}
use cluster_api_control_plan.Run.{State, returned}
use cluster_api_control_plan.Run.Tally.{Class, tally, tally_mono}
use cluster_api_control_plan.Controllers.Boot.{Reconciled, no_requeue}
use cluster_api_control_plan.Controllers.Owned.{
  control_plane_selector, get_control_plane_machines_for_cluster,
}
use cluster_api_control_plan.Controllers.Machines.{nodes_healthcheck, reconcile_machines}
use cluster_api_control_plan.Controllers.Machines.Safety.{removals_of_few}
use cluster_api_control_plan.Controllers.Reconcile.{
  reconcile_external_reference, reconcile_node_health, reconcile_conditions, run_phases, reconcile,
  reconcile_body, reconcile_deferred, reconcile_owned, reconcile_request,
}
use cluster_api_control_plan.Controllers.Reconcile.Rounds.{tally-finish}
use cluster_api_control_plan.Growth.Rounds.{external-grows, request-grows}
use cluster_api_control_plan.Fleet.Deletes.{SortsMachines}
use cluster_api_control_plan.Fleet.Round.{external-same, node_health-same, conditions-same}
use cluster_api_control_plan.Fleet.Sizes.{Rounds, start, round}
use cluster_api_control_plan.Fleet.Serving.{Serves, AreUpToDate, machines-create}

-- The server lists `fleet` machines, all of the wanted version. A request to create a machine adds
-- one, a request to delete one removes one at most, and no other call changes their number.
pub record CountsFleet (p : Platform) (cluster : Cluster) (version : String) (fleet : List Call → ℕ)
    : Type 0 where
  pub lists :
      (trace : List Call)
      → (ms : List Machine) × (p.answer trace
            (Call.list_machines cluster.namespace (control_plane_selector cluster.name))
          ≡ ok ms)
        × (length ms ≡ fleet trace)
        × AreUpToDate p version ms
  pub adds :
      (c : Call) (trace : List Call)
      → fleet (c ∷ trace) + tally Class.machine_creation trace
        ≤ fleet trace + tally Class.machine_creation (c ∷ trace)
  pub grants :
      (c : Call) (trace : List Call)
      → fleet trace + tally Class.machine_deletion trace + tally Class.machine_creation (c ∷ trace)
        ≤ fleet (c ∷ trace)
          + tally Class.machine_deletion (c ∷ trace)
          + tally Class.machine_creation trace

-- The object is not being deleted, wants `d` replicas of the version, has its finalizer, and is not
-- paused.
abbrev pub IsReady : Platform → Cluster → String → ℕ → MicroK8sControlPlane → Type 0
IsReady p cluster version d mcp =
    (mcp.deletion_timestamp ≡ none)
    × (mcp.spec.replicas ≡ some (pos d))
    × (mcp.spec.version ≡ version)
    × (p.contains_finalizer mcp.finalizers micro_k8s_control_plane_finalizer ≡ true)
    × (p.is_paused cluster mcp ≡ false)

-- The two phases before `reconcileMachines` do not panic.
pub node_health-returns :
    (p : Platform) (ms : List Machine) (s : State)
    → (reconcile_node_health p ms s).0 ≡ returned (no_requeue, none)
unfolding reconcile_node_health nodes_healthcheck
node_health-returns p ms s = ground arith

pub conditions-returns :
    (p : Platform) (ms : List Machine) (s : State)
    → (reconcile_conditions p ms s).0 ≡ returned (no_requeue, none)
unfolding reconcile_conditions
conditions-returns p ms s = ground arith

module _ (p : Platform) (cluster : Cluster) (serves : Serves p cluster)
    (sorts : SortsMachines p) where
  pub external-serves : (s : State) → (reconcile_external_reference p s).0 ≡ returned none
  unfolding reconcile_external_reference
  external-serves s =
      let (o, found) =
        serves.finds s.trace s.mcp.spec.machine_template.infrastructure_template
          s.cluster.namespace in
      grind (arith, found, serves.helps_external, serves.patches_external)

  phases-make :
      (d : ℕ) (ms : List Machine) (acc : Reconciled) (s : State)
      → s.mcp.spec.replicas ≡ some (pos d)
      → AreUpToDate p (s.mcp.spec.version) ms
      → length ms ≤ d
      → let t =
          (run_phases p
            (reconcile_node_health p ∷ reconcile_conditions p ∷ reconcile_machines p ∷ [])
            ms
            acc
            s).1 in
        (tally Class.machine_creation t.trace
          ≡ tally Class.machine_creation s.trace + (if ltb (length ms) d then 1 else 0))
        × (tally Class.machine_deletion t.trace ≡ tally Class.machine_deletion s.trace)
  unfolding run_phases
  phases-make d ms acc s wanted current few =
      let h = reconcile_node_health p ms s in
      let t = h.1 in
      let u = (reconcile_conditions p ms t).1 in
      let current' : AreUpToDate p (u.mcp.spec.version) ms =
        rw ((conditions-same p ms t).0, (node_health-same p ms s).0) current in
      let wanted' : u.mcp.spec.replicas ≡ some (pos d) =
        rw ((conditions-same p ms t).0, (node_health-same p ms s).0) wanted in
      ground (
        arith,
        node_health-returns p ms s,
        conditions-returns p ms t,
        node_health-same p ms s,
        conditions-same p ms t,
        machines-create p cluster serves sorts d ms u wanted' current' few,
        removals_of_few p ms u Class.machine_deletion (pos d) wanted' refl (inr (λ h. omega arith)),
      )

  module _ (version : String) (fleet : List Call → ℕ)
      (counts : CountsFleet p cluster version fleet) where
    up :
        (m : ℕ) (c : Call) (t : List Call)
        → fleet t + tally Class.machine_deletion t + (m - tally Class.machine_creation t)
          ≤ fleet (c ∷ t)
            + tally Class.machine_deletion (c ∷ t)
            + (m - tally Class.machine_creation (c ∷ t))
    up m c t = omega (arith, counts.grants c t, tally_mono Class.machine_creation c t)

    down :
        (m : ℕ) (c : Call) (t : List Call)
        → tally Class.machine_creation t + (m - fleet t)
          ≤ tally Class.machine_creation (c ∷ t) + (m - fleet (c ∷ t))
    down m c t = omega (arith, counts.adds c t, tally_mono Class.machine_creation c t)

    -- Where a run requests no deletion, its creations are what it does to the number.
    exactly :
        (s : State) (u : List Call)
        → ((f : List Call → ℕ) → ((c : Call) (t : List Call) → f t ≤ f (c ∷ t)) → f s.trace ≤ f u)
        → tally Class.machine_deletion u ≡ tally Class.machine_deletion s.trace
        → fleet u + tally Class.machine_creation s.trace
          ≡ fleet s.trace + tally Class.machine_creation u
    exactly s u grows kept = omega (
      arith,
      grows (tally Class.machine_creation) (tally_mono Class.machine_creation),
      grows
          (λ t.
            fleet t
            + tally Class.machine_deletion t
            + (tally Class.machine_creation u - tally Class.machine_creation t))
          (up (tally Class.machine_creation u)),
      grows (λ t. tally Class.machine_creation t + (fleet u - fleet t)) (down (fleet u)),
    )

    external-fleet : (s : State) → fleet (reconcile_external_reference p s).1.trace ≡ fleet s.trace
    external-fleet s = omega (
      arith,
      external-same p s,
      exactly s (reconcile_external_reference p s).1.trace (λ f mono. external-grows f mono p s)
          (external-same p s).3,
    )

    reconcile-makes :
        (d : ℕ) (s : State)
        → s.cluster ≡ cluster
        → s.mcp.spec.replicas ≡ some (pos d)
        → s.mcp.spec.version ≡ version
        → fleet s.trace ≤ d
        → let t = (reconcile p s).1 in
          (tally Class.machine_creation t.trace
            ≡ tally Class.machine_creation s.trace + (if ltb (fleet s.trace) d then 1 else 0))
          × (tally Class.machine_deletion t.trace ≡ tally Class.machine_deletion s.trace)
    unfolding reconcile get_control_plane_machines_for_cluster
    reconcile-makes d s ours wanted wants_version few =
        let u = (reconcile_external_reference p s).1 in
        let (ms, listed, n, current) = counts.lists u.trace in
        grind (
          arith,
          external-same p s,
          external-serves s,
          external-fleet s,
          serves.endpoint,
          ours,
          listed,
          n,
          λ (acc : Reconciled) (t : State) (w : t.mcp.spec.replicas ≡ some (pos d))
                (v : t.mcp.spec.version ≡ version) (h : length ms ≤ d).
              phases-make d ms acc t w (rw v current) h,
        )

    deferred-makes :
        (d : ℕ) (before : MicroK8sControlPlane) (s : State)
        → s.cluster ≡ cluster
        → IsReady p cluster version d (s.mcp)
        → fleet s.trace ≤ d
        → let t = (reconcile_deferred p before s).1 in
          (tally Class.machine_creation t.trace
            ≡ tally Class.machine_creation s.trace + (if ltb (fleet s.trace) d then 1 else 0))
          × (tally Class.machine_deletion t.trace ≡ tally Class.machine_deletion s.trace)
    unfolding reconcile_deferred reconcile_body
    deferred-makes d before s ours (present, wanted, wants_version, owned, running) few = grind (
      arith,
      reconcile-makes d s ours wanted wants_version few,
      λ (t : State). tally-finish p Class.machine_creation before t refl,
      λ (t : State). tally-finish p Class.machine_deletion before t refl,
    )

    owned-makes :
        (d : ℕ) (s : State)
        → IsReady p cluster version d (s.mcp)
        → fleet s.trace ≤ d
        → let t = (reconcile_owned p (some cluster) s).1 in
          (tally Class.machine_creation t.trace
            ≡ tally Class.machine_creation s.trace + (if ltb (fleet s.trace) d then 1 else 0))
          × (tally Class.machine_deletion t.trace ≡ tally Class.machine_deletion s.trace)
    unfolding reconcile_owned
    owned-makes d s ready few =
        let u : State = record s {
          cluster = cluster;
          trace = Call.new_patch_helper s.mcp ∷ s.trace;
        } in
        ground (
          arith,
          ready,
          serves.ready,
          serves.helps s.trace s.mcp,
          counts.adds (Call.new_patch_helper s.mcp) s.trace,
          counts.grants (Call.new_patch_helper s.mcp) s.trace,
          deferred-makes d s.mcp u refl ready,
        )

    request-makes :
        (d : ℕ) (req : ObjectKey) (mcp : MicroK8sControlPlane) (s : State)
        → p.answer s.trace (Call.get_mcp req) ≡ ok mcp
        → IsReady p cluster version d mcp
        → fleet s.trace ≤ d
        → let t = (reconcile_request p req s).1 in
          (tally Class.machine_creation t.trace
            ≡ tally Class.machine_creation s.trace + (if ltb (fleet s.trace) d then 1 else 0))
          × (tally Class.machine_deletion t.trace ≡ tally Class.machine_deletion s.trace)
    unfolding reconcile_request
    request-makes d req mcp s got ready few =
        let get = Call.get_mcp req in
        let ask = Call.get_owner_cluster mcp.owner_references mcp.namespace in
        let t : State = record s { mcp = mcp; trace = ask ∷ get ∷ s.trace } in
        ground (
          arith,
          got,
          serves.owns (get ∷ s.trace) mcp.owner_references mcp.namespace,
          counts.adds get s.trace,
          counts.adds ask (get ∷ s.trace),
          counts.grants get s.trace,
          counts.grants ask (get ∷ s.trace),
          owned-makes d t ready,
        )

    -- One round adds a machine while there are too few.
    round-makes :
        (d : ℕ) (req : ObjectKey) (mcp : MicroK8sControlPlane) (s : State)
        → p.answer s.trace (Call.get_mcp req) ≡ ok mcp
        → IsReady p cluster version d mcp
        → fleet s.trace ≤ d
        → fleet (reconcile_request p req s).1.trace
          ≡ fleet s.trace + (if ltb (fleet s.trace) d then 1 else 0)
    round-makes d req mcp s got ready few =
        let made = request-makes d req mcp s got ready few in
        omega (
          arith,
          made,
          exactly s (reconcile_request p req s).1.trace
              (λ f mono. request-grows f mono p req mcp s got ready.0) made.1,
        )

    -- With a cluster whose infrastructure is ready and whose endpoint is valid, and servers that grant
    -- what they are asked, and as long as the object is not being deleted,
    -- not paused, has its finalizer, and asks for `d` replicas of the version that the machines have,
    -- a control plane of at most `d` machines has one more after each round until it has `d`, and then
    -- keeps them: after `n` rounds it has the lesser of `d` and the first number and `n`.
    pub Rounds-reach :
        (d : ℕ) (s : State) (n : ℕ) (u : State)
        → Rounds p (IsReady p cluster version d) s n u
        → fleet s.trace ≤ d
        → fleet u.trace ≡ (if ltb (fleet s.trace + n) d then fleet s.trace + n else d)
    Rounds-reach d s n u start few = ground arith
    Rounds-reach d s n u (round {n = m} {t = t} before req mcp got ready e) few =
        rw e (ground (arith, Rounds-reach d s m t before few, round-makes d req mcp t got ready))
