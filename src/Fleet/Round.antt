-- ===== src/Fleet/Round.antt =====
-- One round of `Reconcile` and the number of live machines: the calls before the query for the
-- machines leave it alone, and what is done then is decided by its answer.
use cluster_api_control_plan.Common.{
  ℕ, ◌≡◌, refl, arith, ◌≤◌, ◌+◌, ◌-◌, ◌<◌, List, [], ◌∷◌, length, String, some, none,
}
use cluster_api_control_plan.Common.Int.{pos}
use cluster_api_control_plan.Kube.{Machine}
use cluster_api_control_plan.Api.{MicroK8sControlPlane}
use cluster_api_control_plan.Calls.{Call}
use cluster_api_control_plan.Platform.{Platform}
use cluster_api_control_plan.Run.{State}
use cluster_api_control_plan.Run.Tally.{Class, tally, tally_mono}
use cluster_api_control_plan.Controllers.Boot.{Reconciled}
use cluster_api_control_plan.Controllers.Owned.{get_control_plane_machines_for_cluster}
use cluster_api_control_plan.Controllers.Machines.{reconcile_machines}
use cluster_api_control_plan.Controllers.Machines.Safety.{creations_of_many}
use cluster_api_control_plan.Controllers.Reconcile.{
  reconcile_external_reference, reconcile_node_health, reconcile_conditions, run_phases, reconcile,
  reconcile_body, reconcile_deferred,
}
use cluster_api_control_plan.Controllers.Reconcile.Rounds.{tally-finish}
use cluster_api_control_plan.Growth.Rounds.{external-grows}
use cluster_api_control_plan.Fleet.Count.{live, live_le, TracksFleet}
use cluster_api_control_plan.Fleet.Deletes.{SortsMachines, deletions_of_few}

module _ (p : Platform) where
  -- The first steps change neither object but its conditions.
  pub external-same :
      (s : State)
      → let t = (reconcile_external_reference p s).1 in
        (t.mcp ≡ s.mcp)
        × (t.cluster ≡ s.cluster)
        × (tally Class.machine_creation t.trace ≡ tally Class.machine_creation s.trace)
        × (tally Class.machine_deletion t.trace ≡ tally Class.machine_deletion s.trace)
  unfolding reconcile_external_reference
  external-same s = ground arith

  pub node_health-same :
      (ms : List Machine) (s : State)
      → let t = (reconcile_node_health p ms s).1 in
        (t.mcp.spec ≡ s.mcp.spec) × (t.trace ≡ s.trace) × (t.cluster ≡ s.cluster)
  unfolding reconcile_node_health
  node_health-same ms s = ground arith

  pub conditions-same :
      (ms : List Machine) (s : State)
      → let t = (reconcile_conditions p ms s).1 in
        (t.mcp.spec ≡ s.mcp.spec) × (t.trace ≡ s.trace) × (t.cluster ≡ s.cluster)
  unfolding reconcile_conditions
  conditions-same ms s = ground arith

  phases_delete :
      SortsMachines p
      → (ms : List Machine) (acc : Reconciled) (s : State) → live ms < 4
      → tally Class.machine_deletion
          (run_phases p
            (reconcile_node_health p ∷ reconcile_conditions p ∷ reconcile_machines p ∷ [])
            ms
            acc
            s).1.trace
        ≡ tally Class.machine_deletion s.trace
  unfolding run_phases
  phases_delete sorts ms acc s few =
      grind
        (arith, node_health-same, conditions-same, λ (t : State). deletions_of_few p sorts ms t few)

  phases_create :
      (d : ℕ) (ms : List Machine) (acc : Reconciled) (s : State)
      → s.mcp.spec.replicas ≡ some (pos d)
      → d < length ms
      → tally Class.machine_creation
          (run_phases p
            (reconcile_node_health p ∷ reconcile_conditions p ∷ reconcile_machines p ∷ [])
            ms
            acc
            s).1.trace
        ≡ tally Class.machine_creation s.trace
  unfolding run_phases
  phases_create d ms acc s wanted many = grind (
    arith,
    node_health-same ms s,
    conditions-same,
    λ (t : State) (w : t.mcp.spec.replicas ≡ some (pos d)).
        creations_of_many p ms t Class.machine_creation (pos d) w refl (omega (arith, many)),
  )

module _ (p : Platform) (namespace name : String) (fleet : List Call → ℕ)
    (tracks : TracksFleet p namespace name fleet) where
  -- What any extension of a trace does to the fleet, from what one call does.
  pub above :
      (m : ℕ) (c : Call) (t : List Call)
      → tally Class.machine_creation t + (m - fleet t)
        ≤ tally Class.machine_creation (c ∷ t) + (m - fleet (c ∷ t))
  above m c t = omega (arith, tracks.adds c t, tally_mono Class.machine_creation c t)

  pub below :
      (c : Call) (t : List Call)
      → fleet t + tally Class.machine_deletion t
        ≤ fleet (c ∷ t) + tally Class.machine_deletion (c ∷ t)
  below c t = tracks.loses c t

  -- At the query the fleet is what it was at the start.
  external-fleet : (s : State) → fleet (reconcile_external_reference p s).1.trace ≡ fleet s.trace
  external-fleet s =
      let u = (reconcile_external_reference p s).1 in
      omega (
        arith,
        external-same p s,
        external-grows (λ t. tally Class.machine_creation t + (fleet u.trace - fleet t))
            (above (fleet u.trace)) p s,
        external-grows (λ t. fleet t + tally Class.machine_deletion t) below p s,
      )

  module _ (s : State) (here : s.cluster.namespace ≡ namespace)
      (named : s.cluster.name ≡ name) where
    reconcile-deletes_of_few :
        SortsMachines p
        → fleet s.trace < 4
        → tally Class.machine_deletion (reconcile p s).1.trace
          ≡ tally Class.machine_deletion s.trace
    unfolding reconcile get_control_plane_machines_for_cluster
    reconcile-deletes_of_few sorts few =
        let u = (reconcile_external_reference p s).1 in
        grind (
          arith,
          external-same p s,
          external-fleet s,
          here,
          named,
          tracks.lists u.trace,
          λ (ms : List Machine) (acc : Reconciled) (t : State) (h : live ms < 4).
              phases_delete p sorts ms acc t h,
        )

    reconcile-creates_of_many :
        (d : ℕ)
        → s.mcp.spec.replicas ≡ some (pos d)
        → d < fleet s.trace
        → tally Class.machine_creation (reconcile p s).1.trace
          ≡ tally Class.machine_creation s.trace
    unfolding reconcile get_control_plane_machines_for_cluster
    reconcile-creates_of_many d wanted many =
        let u = (reconcile_external_reference p s).1 in
        grind (
          arith,
          external-same p s,
          external-fleet s,
          here,
          named,
          tracks.lists u.trace,
          λ (ms : List Machine) (acc : Reconciled) (t : State)
                (w : t.mcp.spec.replicas ≡ some (pos d)) (h : d < live ms).
              phases_create p d ms acc t w (omega (arith, live_le ms, h)),
        )

    -- The status and the patch at the end of the round change no machine.
    pub deferred-deletes_of_few :
        SortsMachines p
        → (before : MicroK8sControlPlane) → s.mcp.deletion_timestamp ≡ none
        → fleet s.trace < 4
        → tally Class.machine_deletion (reconcile_deferred p before s).1.trace
          ≡ tally Class.machine_deletion s.trace
    unfolding reconcile_deferred reconcile_body
    deferred-deletes_of_few sorts before present few = grind (
      arith,
      reconcile-deletes_of_few sorts few,
      λ (t : State). tally-finish p Class.machine_deletion before t refl,
    )

    pub deferred-creates_of_many :
        (d : ℕ) (before : MicroK8sControlPlane)
        → s.mcp.deletion_timestamp ≡ none
        → s.mcp.spec.replicas ≡ some (pos d)
        → d < fleet s.trace
        → tally Class.machine_creation (reconcile_deferred p before s).1.trace
          ≡ tally Class.machine_creation s.trace
    unfolding reconcile_deferred reconcile_body
    deferred-creates_of_many d before present wanted many = grind (
      arith,
      reconcile-creates_of_many d wanted many,
      λ (t : State). tally-finish p Class.machine_creation before t refl,
    )
