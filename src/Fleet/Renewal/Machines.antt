-- ===== src/Fleet/Renewal/Machines.antt =====
-- One run of `reconcileMachines` in a rolling upgrade: it does to the machines what is planned.
use mathlib.Core.List.{Permᴰ}
use mathlib.Core.List.Permᴰ
use cluster_api_control_plan.Common.{
  ℕ, ◌≡◌, ◌≢◌, refl, sym, ◌∙◌, ap, arith, Bool, Bool-cases, false, inl, inr, ◌⊎◌, some, none, ◌≤◌,
  ◌<◌, String, List, [], ◌∷◌, length, Among, ltb,
}
use cluster_api_control_plan.Common.Int.{pos}
use cluster_api_control_plan.Kube.{Machine, Cluster}
use cluster_api_control_plan.Api.{
  MicroK8sControlPlane, rolling_upgrade_strategy_type, smart_upgrade_strategy_type,
}
use cluster_api_control_plan.Calls.{Call}
use cluster_api_control_plan.Platform.{Platform}
use cluster_api_control_plan.Run.{State, next}
use cluster_api_control_plan.Run.Loops.{spent}
use cluster_api_control_plan.Controllers.Owned.{less}
use cluster_api_control_plan.Controllers.Machines.{
  rolling, key_of, ensure_nodes_booted, selected_strategy, upgrade_by, version_differs,
  sort_and_read, upgrade_stage, scale_down_stage, settle_stage, replica_stage, resize,
  reconcile_machines,
}
use cluster_api_control_plan.Fleet.Count.{length-Perm}
use cluster_api_control_plan.Fleet.Serving.{Serves, All-Perm}
use cluster_api_control_plan.Fleet.Renewal.Plan.{planned}
use cluster_api_control_plan.Fleet.Renewal.Server.{
  KeepsMachines, Opens, SortsByAge, is_behind, behind, behind_none, Among-Perm, All-Among,
}
use cluster_api_control_plan.Fleet.Renewal.Boot.{boot_control_plane-HasGrown}
use cluster_api_control_plan.Fleet.Renewal.Scale.{
  IsFirst, first_behind, scale_down_control_plane-HasShrunk,
}

-- The strategy is the rolling one, or the one that is rolling from three machines on.
abbrev pub IsRolling : MicroK8sControlPlane → Type 0
IsRolling mcp =
    (selected_strategy mcp.spec.upgrade_strategy ≡ rolling_upgrade_strategy_type)
    ⊎ (selected_strategy mcp.spec.upgrade_strategy ≡ smart_upgrade_strategy_type)

upgrade_by-rolling :
    (mcp : MicroK8sControlPlane) (n : ℕ)
    → IsRolling mcp
    → 3 ≤ n
    → upgrade_by (selected_strategy mcp.spec.upgrade_strategy) n ≡ rolling
unfolding upgrade_by
upgrade_by-rolling mcp n (inl e) h = rw e (ground arith)
upgrade_by-rolling mcp n (inr e) h = rw e (ground arith)

-- The machines after a run are those that are planned from the ones before it.
abbrev pub FollowsPlan :
    Platform → String → (List Call → List Machine) → ℕ → List Call → List Call → Type 0
FollowsPlan p version machines d t u =
    let (n, o) = planned d (length (machines t)) (behind p version (machines t)) in
    (length (machines u) ≡ n) × (behind p version (machines u) ≡ o)

-- The last stage makes no call.
settle_stage-trace :
    (p : Platform) (ms : List Machine) (s : State) → (settle_stage p ms s).1.trace ≡ s.trace
unfolding settle_stage
settle_stage-trace p ms s = ground arith

module _ (p : Platform) (cluster : Cluster) (version : String) (machines : List Call → List Machine)
    (server : KeepsMachines p cluster version machines)
    (fresh : version_differs p (p.major_minor version) (p.major_minor version) ≡ false)
    (serves : Serves p cluster) (opens : Opens p cluster) (sorts : SortsByAge p) where
  -- The oldest machine is behind exactly if any is.
  differs :
      (m : Machine) (v : String) (t : List Call)
      → Among m (machines t)
      → IsFirst m (machines t)
      → m.version ≡ some v
      → version_differs p (p.major_minor v) (p.major_minor version)
        ≡ ltb 0 (behind p version (machines t))
  differs m v t among first e = elim (Bool-cases (is_behind p version m)) [
    | inl late ↦ ground (arith, e, late, behind_none p version m (machines t) among late)
    | inr even ↦
        ground (arith, e, even, first_behind p cluster version machines server m t among first)
  ]

  -- The sorted machines, and the version of the oldest.
  abbrev IsRead : State → List Machine → Type 0
  IsRead s ms =
      (l : List Machine) × (old : String) × (sort_and_read p ms s ≡ (next (l, old), s))
      × Permᴰ l ms
      × (version_differs p old (p.major_minor version) ≡ ltb 0 (behind p version ms))

  reads-sorted :
      (m : Machine) (ms l : List Machine) (s : State)
      → machines s.trace ≡ m ∷ ms
      → p.sort less (m ∷ ms) ≡ l
      → IsRead s (m ∷ ms)
  unfolding sort_and_read
  reads-sorted m ms [] s same e =
      absurd (omega (arith, length-Perm (sorts.permutes (m ∷ ms)), ap length e))
  reads-sorted m ms (oldest ∷ rest) s same e =
      let q : Permᴰ (oldest ∷ rest) (m ∷ ms) = rw (← e) (sorts.permutes (m ∷ ms)) in
      let q' : Permᴰ (oldest ∷ rest) (machines s.trace) = rw same q in
      let first = sorts.first (m ∷ ms) oldest rest e in
      let there = Among-Perm oldest q' (inl refl) in
      let (v, has) = All-Among _ oldest (machines s.trace) (server.versioned s.trace) there in
      (
        oldest ∷ rest,
        p.major_minor v,
        ground (arith, e, has),
        q,
        differs oldest v s.trace there (All-Perm _ (Permᴰ.symm q') first) has
            ∙ ap (λ l. ltb 0 (behind p version l)) same,
      )

  reads : (ms : List Machine) (s : State) → machines s.trace ≡ ms → 0 < length ms → IsRead s ms
  reads [] s same h = absurd (omega (arith, h))
  reads (m ∷ ms) s same h = reads-sorted m ms (p.sort less (m ∷ ms)) s same refl

  module _ (d : ℕ) (quorum : 3 ≤ d) where
    scale_down_stage-FollowsPlan :
        (n : ℕ) (l : List Machine) (s : State)
        → key_of (s.cluster) ≡ key_of cluster
        → Permᴰ l (machines s.trace)
        → n ≡ length (machines s.trace)
        → d < n
        → FollowsPlan p version machines d s.trace (scale_down_stage p (pos d) n l s).1.trace
    unfolding scale_down_stage ensure_nodes_booted
    scale_down_stage-FollowsPlan n l s ours q same many = grind (
      arith,
      ours,
      λ (t : State) (e : t.trace ≡ s.trace).
          scale_down_control_plane-HasShrunk p cluster version machines server opens
            (key_of cluster) refl l t (rw e q) (omega (arith, length-Perm q)),
    )

    replica_stage-FollowsPlan :
        (n : ℕ) (l : List Machine) (s : State)
        → s.mcp.spec.version ≡ version
        → key_of (s.cluster) ≡ key_of cluster
        → Permᴰ l (machines s.trace)
        → n ≡ length (machines s.trace)
        → 3 ≤ n
        → (n ≡ d → behind p version (machines s.trace) ≡ 0)
        → FollowsPlan p version machines d s.trace (replica_stage p (pos d) n l s).1.trace
    unfolding replica_stage
    replica_stage-FollowsPlan n l s wants ours q same enough current = grind (
      arith,
      scale_down_stage-FollowsPlan n l s ours q same,
      settle_stage-trace p l s,
      λ (first : Bool) (t : State).
          boot_control_plane-HasGrown p cluster version machines server fresh serves first t,
    )

    -- A rolling upgrade adds a machine only to as many as are desired, and then leaves the function.
    upgrade_stage-even :
        (n : ℕ) (l : List Machine) (s : State)
        → s.mcp.spec.version ≡ version
        → n ≡ length (machines s.trace)
        → n ≡ d
        → 0 < behind p version (machines s.trace)
        → let (r, t) = upgrade_stage p (pos d) n l rolling s in
          (spent r ≡ 1) × FollowsPlan p version machines d s.trace t.trace
    unfolding upgrade_stage
    upgrade_stage-even n l s wants same even late = grind (
      arith,
      λ (t : State).
          boot_control_plane-HasGrown p cluster version machines server fresh serves false t,
    )

    upgrade_stage-uneven :
        (n : ℕ) (l : List Machine) (s : State)
        → n ≢ d
        → upgrade_stage p (pos d) n l rolling s ≡ (next none, s)
    unfolding upgrade_stage
    upgrade_stage-uneven n l s uneven = ground arith

    module _ (mcp : MicroK8sControlPlane) (wants : mcp.spec.version ≡ version)
        (rolls : IsRolling mcp) where
      resize-FollowsPlan :
          (n : ℕ) (l : List Machine) (old : String) (s : State)
          → s.mcp.spec.version ≡ version
          → key_of (s.cluster) ≡ key_of cluster
          → Permᴰ l (machines s.trace)
          → n ≡ length (machines s.trace)
          → 3 ≤ n
          → version_differs p old (p.major_minor version)
            ≡ ltb 0 (behind p version (machines s.trace))
          → FollowsPlan p version machines d s.trace (resize p mcp (pos d) n (l, old) s).1.trace
      unfolding resize
      resize-FollowsPlan n l old s wants' ours q same enough late = ground (
        arith,
        wants,
        late,
        upgrade_by-rolling mcp n rolls enough,
        upgrade_stage-even n l s wants' same,
        upgrade_stage-uneven n l s,
        replica_stage-FollowsPlan n l s wants' ours q same enough,
      )

    pub reconcile_machines-FollowsPlan :
        (ms : List Machine) (s : State)
        → s.mcp.spec.replicas ≡ some (pos d)
        → s.mcp.spec.version ≡ version
        → IsRolling (s.mcp)
        → key_of (s.cluster) ≡ key_of cluster
        → machines s.trace ≡ ms
        → 3 ≤ length ms
        → FollowsPlan p version machines d s.trace (reconcile_machines p ms s).1.trace
    unfolding reconcile_machines
    reconcile_machines-FollowsPlan ms s wanted wants rolls ours same enough =
        let (l, old, read, q, late) = reads ms s same (omega (arith, enough)) in
        ground (
          arith,
          wanted,
          read,
          resize-FollowsPlan (s.mcp) wants rolls (length ms) l old s wants ours (rw same q)
              (ap length (sym same)) enough
              (late ∙ ap (λ l. ltb 0 (behind p version l)) (sym same)),
        )
