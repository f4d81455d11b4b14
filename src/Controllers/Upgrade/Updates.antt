-- ===== src/Controllers/Upgrade/Updates.antt =====
-- Which machines an upgrade in place updates, and to what.
use cluster_api_control_plan.Common.{
  ℕ, zero, suc, ◌≡◌, ◌⊎◌, inl, refl, arith, ◌≤◌, ◌+◌, String, Bool, false, none, some, List, [],
  ◌∷◌, length, str_eq, eq_iff, if◌then◌else◌,
}
use cluster_api_control_plan.Kube.{Machine}
use cluster_api_control_plan.Calls.{Call, KubernetesClient}
use cluster_api_control_plan.Platform.{Platform}
use cluster_api_control_plan.Run.{State, for_each}
use cluster_api_control_plan.Run.Loops.{spent}
use cluster_api_control_plan.Run.Tally.{Class, tally}
use cluster_api_control_plan.Controllers.Upgrade.{
  create_upgrade_pod, await_version, wait_for_node_upgrade, wait_for_pod_deletion, upgrade_machine,
  upgrade_in_place,
}

abbrev has_version : String → Machine → Bool
has_version version m = elim m.version [ none ↦ false | some v ↦ str_eq v version ]

-- The requests to update a machine to another version, or to none.
abbrev pub strays : String → List Call → ℕ
strays version [] = 0
strays version (Call.update_machine m ∷ trace) =
    let rest = strays version trace in if has_version version m then rest else suc rest
strays version (_ ∷ trace) = strays version trace

-- The requests to update machines.
abbrev pub updates : State → ℕ
updates s = tally Class.machine_update s.trace

module _ (p : Platform) (kubeclient : KubernetesClient) (version : String) where
  -- Nothing is updated, and the object is left as it is.
  abbrev Aside : State → State → Type 0
  Aside s t =
      (t.mcp ≡ s.mcp) × (updates t ≡ updates s) × (strays version t.trace ≡ strays version s.trace)

  create_upgrade_pod-Aside :
      (node v : String) (s : State) → Aside s (create_upgrade_pod p kubeclient node v s).1
  unfolding create_upgrade_pod
  create_upgrade_pod-Aside node v s = ground arith

  await_version-Aside :
      (n : ℕ) (node v : String) (s : State) → Aside s (await_version p kubeclient n node v s).1
  unfolding await_version
  await_version-Aside zero node v s = (refl, refl, refl)
  await_version-Aside (suc n) node v s =
      grind (arith, λ (w : String) (t : State). await_version-Aside n node w t)

  wait_for_node_upgrade-Aside :
      (node v : String) (s : State) → Aside s (wait_for_node_upgrade p kubeclient node v s).1
  unfolding wait_for_node_upgrade
  wait_for_node_upgrade-Aside node v s = ground (arith, await_version-Aside 60 node v s)

  wait_for_pod_deletion-Aside :
      (pod : String) (s : State) → Aside s (wait_for_pod_deletion p kubeclient pod s).1
  unfolding wait_for_pod_deletion
  wait_for_pod_deletion-Aside pod s = ground arith

  upgrade_machine-updates :
      (m : Machine) (s : State)
      → s.mcp.spec.version ≡ version
      → let (r, t) = upgrade_machine p kubeclient m s in
        (t.mcp ≡ s.mcp)
        × (strays version t.trace ≡ strays version s.trace)
        × (updates t ≤ updates s + 1)
        × (updates s + 1 ≤ updates t + spent r)
  unfolding upgrade_machine
  upgrade_machine-updates m s wanted = grind (
    arith,
    eq_iff version version,
    create_upgrade_pod-Aside,
    wait_for_node_upgrade-Aside,
    wait_for_pod_deletion-Aside,
  )

  -- Every request of an upgrade in place to update a machine gives it the wanted version. It makes
  -- one for each machine at most; and if it neither returns early nor panics, one for each.
  pub upgrade_in_place-updates :
      (ms : List Machine) (s : State)
      → s.mcp.spec.version ≡ version
      → let (r, t) = upgrade_in_place p kubeclient ms s in
        (strays version t.trace ≡ strays version s.trace)
        × (updates t ≤ updates s + length ms)
        × ((updates t ≡ updates s + length ms) ⊎ (spent r ≡ 1))
  unfolding upgrade_in_place for_each
  upgrade_in_place-updates [] s wanted = (refl, omega arith, inl (omega arith))
  upgrade_in_place-updates (m ∷ ms) s wanted = ground (
    arith,
    upgrade_machine-updates m s wanted,
    upgrade_in_place-updates ms (upgrade_machine p kubeclient m s).1,
  )
