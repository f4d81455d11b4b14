-- ===== src/Growth/Cost.antt =====
-- What a run of `reconcileMachines` costs at most, where a call costs `q` and a slept second `r`.
use mathlib.Core.Path.{subst}
use mathlib.Core.List.{reverse}
use cluster_api_control_plan.Common.{
  ℕ, zero, suc, arith, Bool, Bool-cases, inl, inr, String, ◌≤◌, ◌+◌, ◌*◌, List, [], ◌∷◌, length,
}
use cluster_api_control_plan.Common.Int.{ℤ}
use cluster_api_control_plan.Kube.{ObjectKey, ObjectReference, MicroK8sConfigSpec, Machine, Cluster}
use cluster_api_control_plan.Api.{MicroK8sControlPlane}
use cluster_api_control_plan.Calls.{Call, KubernetesClient}
use cluster_api_control_plan.Platform.{Platform}
use cluster_api_control_plan.Run.{State, for_each}
use cluster_api_control_plan.Run.Loops.{spent}
use cluster_api_control_plan.Run.Loops.{spent}
use cluster_api_control_plan.Controllers.Kubeconfig.{
  genarate_kubeconfig, create_kubeconfig, kubeconfig_for_cluster,
}
use cluster_api_control_plan.Controllers.Boot.{
  generate_micro_k8s_config, place, create_machine, boot_control_plane,
}
use cluster_api_control_plan.Controllers.ScaleDown.{
  finish_deletion, consider, choose, remove, scale_down_with, scale_down_control_plane,
}
use cluster_api_control_plan.Controllers.Upgrade.{
  create_upgrade_pod, await_version, wait_for_node_upgrade, wait_for_pod_deletion, upgrade_machine,
  upgrade_in_place,
}
use cluster_api_control_plan.Controllers.Machines.{
  Upgrade, keep, rolling, in_place, version_differs, upgrade_stage, scale_down_stage, settle_stage,
  replica_stage, resize, reconcile_machines,
}
use cluster_api_control_plan.Controllers.Machines.Safety.{ends_in_resize}
use cluster_api_control_plan.Fleet.Count.{length-Perm}
use cluster_api_control_plan.Fleet.Deletes.{SortsMachines, sorted-Perm}

-- The seconds that a call sleeps.
abbrev pub seconds : Call → ℕ
seconds (Call.sleep n) = n
seconds c = 0

unfoldable pub cost : ℕ → ℕ → List Call → ℕ
cost q r [] = 0
cost q r (c ∷ trace) = q + r * seconds c + cost q r trace

module _ (q r : ℕ) (p : Platform) where
  cost-genarate_kubeconfig :
      (key : ObjectKey) (host : String) (s : State)
      → cost q r (genarate_kubeconfig p key host s).1.trace ≤ cost q r s.trace + 5 * q
  unfolding cost genarate_kubeconfig
  cost-genarate_kubeconfig key host s = ground arith

  cost-create_kubeconfig :
      (key : ObjectKey) (host : String) (s : State)
      → cost q r (create_kubeconfig p key host s).1.trace ≤ cost q r s.trace + 6 * q
  unfolding cost create_kubeconfig
  cost-create_kubeconfig key host s = grind (arith, cost-genarate_kubeconfig key host s)

  cost-kubeconfig_for_cluster :
      (key : ObjectKey) (s : State)
      → cost q r (kubeconfig_for_cluster p key s).1.trace ≤ cost q r s.trace + 9 * q
  unfolding cost kubeconfig_for_cluster
  cost-kubeconfig_for_cluster key s = grind (arith, cost-create_kubeconfig)

  cost-generate :
      (spec : MicroK8sConfigSpec) (s : State)
      → cost q r (generate_micro_k8s_config p spec s).1.trace ≤ cost q r s.trace + 2 * q
  unfolding cost generate_micro_k8s_config
  cost-generate spec s = ground arith

  cost-place :
      (ds : List String) (m : Machine) (s : State)
      → cost q r (place p ds m s).1.trace ≤ cost q r s.trace + q
  unfolding cost place
  cost-place [] m s = omega arith
  cost-place (d ∷ ds) m s = ground arith

  cost-create_machine :
      (mcp : MicroK8sControlPlane) (c : Cluster) (i b : ObjectReference) (s : State)
      → cost q r (create_machine p mcp c i b s).1.trace ≤ cost q r s.trace + 3 * q
  unfolding cost create_machine
  cost-create_machine mcp c i b s = grind (arith, cost-place)

  cost-boot_control_plane :
      (first : Bool) (s : State)
      → cost q r (boot_control_plane p first s).1.trace ≤ cost q r s.trace + 6 * q
  unfolding cost boot_control_plane
  cost-boot_control_plane first s = grind (arith, cost-generate, cost-create_machine)

  module _ (c : KubernetesClient) where
    cost-finish_deletion :
        (m : Machine) (s : State)
        → let (x, t) = finish_deletion p c m s in
          cost q r t.trace ≤ cost q r s.trace + 2 * q * spent x
    unfolding cost finish_deletion
    cost-finish_deletion m s = ground arith

    cost-consider :
        (m chosen : Machine) (s : State)
        → let (x, t) = consider p c m chosen s in
          cost q r t.trace ≤ cost q r s.trace + 2 * q * spent x
    unfolding consider
    cost-consider m chosen s = ground (arith, cost-finish_deletion m s)

    cost-choose :
        (ms : List Machine) (chosen : Machine) (s : State)
        → let (x, t) = choose p c ms chosen s in
          cost q r t.trace ≤ cost q r s.trace + 2 * q * spent x
    unfolding choose
    cost-choose [] chosen s = omega arith
    cost-choose (m ∷ ms) chosen s =
        grind (arith, cost-consider m chosen s, λ (x : Machine) (t : State). cost-choose ms x t)

    cost-remove :
        (m : Machine) (s : State) → cost q r (remove p c m s).1.trace ≤ cost q r s.trace + 2 * q
    unfolding cost remove
    cost-remove m s = ground arith

    cost-scale_down_with :
        (ms : List Machine) (s : State)
        → cost q r (scale_down_with p c ms s).1.trace ≤ cost q r s.trace + 2 * q
    unfolding scale_down_with
    cost-scale_down_with [] s = omega arith
    cost-scale_down_with (m ∷ ms) s = grind (arith, cost-choose (m ∷ ms) m s, cost-remove)

    -- One attempt is a read of the node and ten seconds of sleep.
    cost-await_version :
        (n : ℕ) (node version : String) (s : State)
        → cost q r (await_version p c n node version s).1.trace
          ≤ cost q r s.trace + n * (2 * q + 10 * r)
    unfolding cost await_version
    cost-await_version zero node version s = omega arith
    cost-await_version (suc n) node version s =
        grind (arith, λ (v : String) (t : State). cost-await_version n node v t)

    cost-wait_for_node_upgrade :
        (node version : String) (s : State)
        → cost q r (wait_for_node_upgrade p c node version s).1.trace
          ≤ cost q r s.trace + (120 * q + 600 * r)
    unfolding wait_for_node_upgrade
    cost-wait_for_node_upgrade node version s = ground (arith, cost-await_version 60 node version s)

    cost-upgrade_machine :
        (m : Machine) (s : State)
        → cost q r (upgrade_machine p c m s).1.trace ≤ cost q r s.trace + (128 * q + 630 * r)
    unfolding cost upgrade_machine create_upgrade_pod wait_for_pod_deletion
    cost-upgrade_machine m s = grind (arith, cost-wait_for_node_upgrade)

    cost-upgrade_in_place :
        (ms : List Machine) (s : State)
        → cost q r (upgrade_in_place p c ms s).1.trace
          ≤ cost q r s.trace + (128 * q + 630 * r) * length ms
    unfolding upgrade_in_place for_each
    cost-upgrade_in_place [] s = omega arith
    cost-upgrade_in_place (m ∷ ms) s =
        grind
          (arith, cost-upgrade_machine m s, cost-upgrade_in_place ms (upgrade_machine p c m s).1)

  cost-scale_down_control_plane :
      (key : ObjectKey) (ms : List Machine) (s : State)
      → cost q r (scale_down_control_plane p key ms s).1.trace ≤ cost q r s.trace + 12 * q
  unfolding cost scale_down_control_plane
  cost-scale_down_control_plane key [] s = omega arith
  cost-scale_down_control_plane key (m ∷ ms) s = grind (
    arith,
    cost-kubeconfig_for_cluster key s,
    λ (c : KubernetesClient) (t : State). cost-scale_down_with c (reverse (m ∷ ms)) t,
  )

  cost-scale_down_stage :
      (d : ℤ) (n : ℕ) (ms : List Machine) (s : State)
      → cost q r (scale_down_stage p d n ms s).1.trace ≤ cost q r s.trace + 12 * q
  unfolding scale_down_stage
  cost-scale_down_stage d n ms s =
      grind (arith, λ (key : ObjectKey) (t : State). cost-scale_down_control_plane key ms t)

  cost-settle_stage :
      (ms : List Machine) (s : State) → cost q r (settle_stage p ms s).1.trace ≤ cost q r s.trace
  unfolding settle_stage
  cost-settle_stage ms s = ground arith

  cost-replica_stage :
      (d : ℤ) (n : ℕ) (ms : List Machine) (s : State)
      → cost q r (replica_stage p d n ms s).1.trace ≤ cost q r s.trace + 12 * q
  unfolding replica_stage
  cost-replica_stage d n ms s =
      grind (arith, cost-boot_control_plane, cost-scale_down_stage d n ms, cost-settle_stage ms)

  cost-upgrade_stage :
      (d : ℤ) (n : ℕ) (ms : List Machine) (u : Upgrade) (s : State)
      → cost q r (upgrade_stage p d n ms u s).1.trace
        ≤ cost q r s.trace + 10 * q + (128 * q + 630 * r) * length ms
  unfolding cost upgrade_stage
  cost-upgrade_stage d n ms keep s = omega arith
  cost-upgrade_stage d n ms rolling s = grind (arith, cost-boot_control_plane)
  cost-upgrade_stage d n ms in_place s = grind (
    arith,
    cost-kubeconfig_for_cluster,
    λ (c : KubernetesClient) (t : State). cost-upgrade_in_place c ms t,
  )

  cost-resize :
      (mcp : MicroK8sControlPlane) (d : ℤ) (n : ℕ) (l : List Machine × String) (s : State)
      → cost q r (resize p mcp d n l s).1.trace
        ≤ cost q r s.trace + 23 * q + (128 * q + 630 * r) * length l.0
  unfolding cost resize
  cost-resize mcp d n l s =
      elim (Bool-cases (version_differs p l.1 (p.major_minor mcp.spec.version))) [
        | inl e ↦ rw e (
            grind (
              arith,
              λ (u : Upgrade) (t : State). cost-upgrade_stage d n l.0 u t,
              cost-replica_stage d n l.0,
            ))
        | inr e ↦ rw e (ground (arith, cost-replica_stage d n l.0 s))
      ]

  pub cost-reconcile_machines :
      SortsMachines p
      → (ms : List Machine) (s : State)
      → cost q r (reconcile_machines p ms s).1.trace
        ≤ cost q r s.trace + 23 * q + (128 * q + 630 * r) * length ms
  cost-reconcile_machines sorts ms s = elim (ends_in_resize p ms s) [
    | inl e ↦ rw e (omega arith)
    | inr (d, sorted, wanted, found, ends) ↦ rw ends (
        subst
          (λ n.
            cost q r (resize p s.mcp d (length ms) sorted s).1.trace
            ≤ cost q r s.trace + 23 * q + (128 * q + 630 * r) * n)
          (length-Perm (sorted-Perm p sorts ms s sorted found))
          (cost-resize s.mcp d (length ms) sorted s))
  ]
