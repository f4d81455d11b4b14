-- ===== src/Controllers/Machines/Refusal.antt =====
-- Where `reconcileMachines` stops short: too few machines to delete one, and a bootstrap that has
-- to wait for addresses.
use mathlib.Core.Path.{subst}
use cluster_api_control_plan.Common.{
  ℕ, ◌≡◌, ◌≢◌, ◌⊎◌, inl, inr, refl, arith, String, Option, false, ◌<◌, none, some, List, [], ◌∷◌,
  length, All, Among, Bool-cases, str_eq, eq_iff, ap, ◌++◌,
}
use cluster_api_control_plan.Common.Int.{ℤ, pos, ◌<ℤ◌}
use cluster_api_control_plan.Kube.{
  Error, errorf, ok, err, Address, Condition, status_false, severity_error, Machine,
}
use cluster_api_control_plan.Api.{resized_condition, scaling_down_reason, get_conditions}
use cluster_api_control_plan.Platform.{Platform}
use cluster_api_control_plan.Platform.Laws.{MarksConditions}
use cluster_api_control_plan.Run.{State, returned, next, exit}
use cluster_api_control_plan.Controllers.Boot.{no_requeue}
use cluster_api_control_plan.Controllers.Machines.{
  internal_ip, machine_addresses, bootstrap_cluster, version_differs, sort_and_read, resize,
  replica_stage, scale_down_stage, reconcile_machines,
}

-- The condition of a refused scale-down.
abbrev pub refused : Platform → Condition
refused p = record {
  type_ = resized_condition;
  status = status_false;
  severity = severity_error;
  reason = scaling_down_reason;
  message = p.sprintf "Cannot scale down control plane nodes to less than 3 nodes" [];
}

module _ (p : Platform) (marks : MarksConditions p) where
  refused_marked :
      (cs : List Condition)
      → p.get_condition resized_condition (
          p.mark_false resized_condition scaling_down_reason severity_error
            "Cannot scale down control plane nodes to less than 3 nodes" [] cs)
        ≡ some (refused p)
  refused_marked cs =
      marks.get-mark_false resized_condition scaling_down_reason severity_error
        "Cannot scale down control plane nodes to less than 3 nodes" [] resized_condition cs

  refuse_stage :
      (d : ℤ) (n : ℕ) (ms : List Machine) (s : State)
      → d <ℤ pos n
      → n < 4
      → let (r, t) = replica_stage p d n ms s in
        (r ≡ exit (no_requeue, none))
        × (t.trace ≡ s.trace)
        × (p.get_condition resized_condition (get_conditions t.mcp) ≡ some (refused p))
  unfolding replica_stage scale_down_stage
  refuse_stage d n ms s above few = grind (arith, refused_marked)

  -- If the conditions package reads back what it has marked, and the machines can be sorted and their
  -- version read, then with more machines than desired replicas but fewer than four, and no version
  -- to change, `reconcileMachines` makes no call at all, returns no error and no request for a new
  -- round, and leaves the condition Resized false with severity Error: the machines stay as many as
  -- they are.
  pub reconcile_machines_refuses :
      (d : ℤ) (ms sorted : List Machine) (version : String) (s : State)
      → s.mcp.spec.replicas ≡ some d
      → d <ℤ pos (length ms)
      → length ms < 4
      → sort_and_read p ms s ≡ (next (sorted, version), s)
      → version_differs p version (p.major_minor s.mcp.spec.version) ≡ false
      → let (r, t) = reconcile_machines p ms s in
        (r ≡ returned (no_requeue, none))
        × (t.trace ≡ s.trace)
        × (p.get_condition resized_condition (get_conditions t.mcp) ≡ some (refused p))
  unfolding reconcile_machines resize
  reconcile_machines_refuses d ms sorted version s wanted above few read same =
      ground (arith, refuse_stage d (length ms) sorted s above few)

-- One of the machine's addresses is an internal IP address.
abbrev pub HasInternalIp : Machine → Type 0
HasInternalIp m = (x : Address) × Among x m.addresses × (x.type_ ≡ "InternalIP")

abbrev pub lacks_ip : Machine → Error
lacks_ip m = errorf "machine %q doesn't have an InternalIP address yet" (m.name ∷ [])

-- What the check of the machines comes to: no error with machines that all have an internal address;
-- without machines an error, and else one that names the first machine without such an address.
abbrev pub Bootstrapped : List Machine → Option Error → Type 0
Bootstrapped ms none = (ms ≢ []) × All HasInternalIp ms
Bootstrapped ms (some e) =
    ((ms ≡ []) × (e ≡ errorf "no machine addresses to use for bootstrap" []))
    ⊎ ((before : List Machine) × (m : Machine) × (after : List Machine) × (ms
          ≡ before ++ (m ∷ after))
        × All HasInternalIp before
        × (¬ HasInternalIp m)
        × (e ≡ lacks_ip m))

internal_ip_cases :
    (as' : List Address)
    → ((a : String) × (internal_ip as' ≡ some a)
        × ((x : Address) × Among x as' × (x.type_ ≡ "InternalIP")))
      ⊎ ((internal_ip as' ≡ none) × (¬ ((x : Address) × Among x as' × (x.type_ ≡ "InternalIP"))))
unfolding internal_ip
internal_ip_cases [] = inr (refl, λ (x, among, same). among)
internal_ip_cases (a ∷ as') = elim (Bool-cases (str_eq a.type_ "InternalIP")) [
  | inl e ↦
      inl (a.address, ground arith, (a, inl refl, ground (arith, eq_iff a.type_ "InternalIP")))
  | inr e ↦ elim (internal_ip_cases as') [
    | inl (ip, found, (x, among, same)) ↦ inl (ip, ground arith, (x, inr among, same))
    | inr (missing, none_has) ↦ inr (
      ground arith,
      λ (x, among, same). elim among [
        | inl k ↦
            absurd (ground (arith, ap (λ (z : Address). z.type_) k, eq_iff a.type_ "InternalIP"))
        | inr later ↦ none_has (x, later, same)
      ],
    )
  ]
]

machine_addresses_cases :
    (ms : List Machine)
    → ((as' : List String) × (machine_addresses ms ≡ ok as')
        × (length as' ≡ length ms)
        × All HasInternalIp ms)
      ⊎ ((before : List Machine) × (m : Machine) × (after : List Machine) × (ms
            ≡ before ++ (m ∷ after))
          × All HasInternalIp before
          × (¬ HasInternalIp m)
          × (machine_addresses ms ≡ err (lacks_ip m)))
unfolding machine_addresses
machine_addresses_cases [] = inl ([], refl, refl, tt)
machine_addresses_cases (m ∷ ms) = elim (internal_ip_cases m.addresses) [
  | inr (missing, lacks) ↦ inr ([], m, ms, refl, tt, lacks, ground arith)
  | inl (a, found, has) ↦ elim (machine_addresses_cases ms) [
    | inl (as', e, same, all) ↦ inl (a ∷ as', ground arith, ground arith, (has, all))
    | inr (before, n, after, split, all, lacks, e) ↦
        inr (m ∷ before, n, after, ap (λ l. m ∷ l) split, (has, all), lacks, ground arith)
  ]
]

-- `bootstrapCluster` reports no error if there is a machine and every machine has an address of the
-- type InternalIP; without machines it reports that there are none, and else it names the first
-- machine that has no such address.
pub bootstrap_cluster_cases : (ms : List Machine) → Bootstrapped ms (bootstrap_cluster ms)
unfolding bootstrap_cluster
bootstrap_cluster_cases [] = unfold machine_addresses in inl (refl, refl)
bootstrap_cluster_cases (m ∷ ms) = elim (machine_addresses_cases (m ∷ ms)) [
  | inl ([], e, same, all) ↦ absurd (omega arith)
  | inl (a ∷ as', e, same, all) ↦
      let none_left : none ≡ bootstrap_cluster (m ∷ ms) = ground (arith, e) in
      subst (Bootstrapped (m ∷ ms)) none_left (ground arith, all)
  | inr (before, n, after, split, all, lacks, e) ↦
      let named : some (lacks_ip n) ≡ bootstrap_cluster (m ∷ ms) = ground (arith, e) in
      subst (Bootstrapped (m ∷ ms)) named (inr (before, n, after, split, all, lacks, refl))
]
