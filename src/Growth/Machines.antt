-- ===== src/Growth/Machines.antt =====
-- The parts that `reconcileMachines` is made of only add calls to the trace: `f` stands for anything
-- that grows with each call.
use mathlib.Core.List.{reverse}
use cluster_api_control_plan.Common.{
  ℕ, zero, suc, arith, Bool, ◌≤◌, List, [], ◌∷◌, String, length, inl, inr,
}
use cluster_api_control_plan.Common.Int.{ℤ}
use cluster_api_control_plan.Kube.{MicroK8sConfigSpec, Machine, Cluster, ObjectReference, ObjectKey}
use cluster_api_control_plan.Api.{MicroK8sControlPlane}
use cluster_api_control_plan.Calls.{Call, KubernetesClient}
use cluster_api_control_plan.Platform.{Platform}
use cluster_api_control_plan.Run.{State, Stmt, for_each}
use cluster_api_control_plan.Controllers.Kubeconfig.{
  genarate_kubeconfig, create_kubeconfig, kubeconfig_for_cluster,
}
use cluster_api_control_plan.Controllers.Boot.{
  generate_micro_k8s_config, place, create_machine, boot_control_plane,
}
use cluster_api_control_plan.Controllers.ScaleDown.{
  finish_deletion, consider, choose, remove, scale_down_with, scale_down_control_plane,
}
use cluster_api_control_plan.Controllers.Upgrade.{
  create_upgrade_pod, await_version, wait_for_node_upgrade, wait_for_pod_deletion, upgrade_machine,
  upgrade_in_place,
}
use cluster_api_control_plan.Controllers.Machines.{
  Upgrade, keep, rolling, in_place, upgrade_stage, scale_down_stage, settle_stage, replica_stage,
  resize, reconcile_machines,
}
use cluster_api_control_plan.Controllers.Machines.Safety.{ends_in_resize}

module _ (f : List Call → ℕ) (mono : (c : Call) (t : List Call) → f t ≤ f (c ∷ t)) where
  pub for_each-grows :
      {R A : Type 0} (body : A → Stmt R (Unit {0}))
      → ((x : A) (s : State) → f s.trace ≤ f (body x s).1.trace)
      → (xs : List A) (s : State) → f s.trace ≤ f (for_each xs body s).1.trace
  unfolding for_each
  for_each-grows body grows [] s = omega arith
  for_each-grows body grows (x ∷ xs) s =
      ground (arith, grows x s, for_each-grows body grows xs (body x s).1)

  module _ (p : Platform) where
    genarate_kubeconfig-grows :
        (key : ObjectKey) (host : String) (s : State)
        → f s.trace ≤ f (genarate_kubeconfig p key host s).1.trace
    unfolding genarate_kubeconfig
    genarate_kubeconfig-grows key host s = grind (arith, mono)

    create_kubeconfig-grows :
        (key : ObjectKey) (host : String) (s : State)
        → f s.trace ≤ f (create_kubeconfig p key host s).1.trace
    unfolding create_kubeconfig
    create_kubeconfig-grows key host s = grind (arith, mono, genarate_kubeconfig-grows)

    pub kubeconfig_for_cluster-grows :
        (key : ObjectKey) (s : State) → f s.trace ≤ f (kubeconfig_for_cluster p key s).1.trace
    unfolding kubeconfig_for_cluster
    kubeconfig_for_cluster-grows key s = grind (arith, mono, create_kubeconfig-grows)

    generate-grows :
        (spec : MicroK8sConfigSpec) (s : State)
        → f s.trace ≤ f (generate_micro_k8s_config p spec s).1.trace
    unfolding generate_micro_k8s_config
    generate-grows spec s = grind (arith, mono)

    place-grows :
        (domains : List String) (m : Machine) (s : State)
        → f s.trace ≤ f (place p domains m s).1.trace
    unfolding place
    place-grows [] m s = omega arith
    place-grows (d ∷ ds) m s = grind (arith, mono)

    create_machine-grows :
        (mcp : MicroK8sControlPlane) (cluster : Cluster) (i b : ObjectReference) (s : State)
        → f s.trace ≤ f (create_machine p mcp cluster i b s).1.trace
    unfolding create_machine
    create_machine-grows mcp cluster i b s = grind (arith, mono, place-grows)

    boot_control_plane-grows :
        (first : Bool) (s : State) → f s.trace ≤ f (boot_control_plane p first s).1.trace
    unfolding boot_control_plane
    boot_control_plane-grows first s = grind (arith, mono, generate-grows, create_machine-grows)

    finish_deletion-grows :
        (c : KubernetesClient) (m : Machine) (s : State)
        → f s.trace ≤ f (finish_deletion p c m s).1.trace
    unfolding finish_deletion
    finish_deletion-grows c m s = grind (arith, mono)

    consider-grows :
        (c : KubernetesClient) (m chosen : Machine) (s : State)
        → f s.trace ≤ f (consider p c m chosen s).1.trace
    unfolding consider
    consider-grows c m chosen s = ground (arith, finish_deletion-grows c m s)

    choose-grows :
        (c : KubernetesClient) (ms : List Machine) (chosen : Machine) (s : State)
        → f s.trace ≤ f (choose p c ms chosen s).1.trace
    unfolding choose
    choose-grows c [] chosen s = omega arith
    choose-grows c (m ∷ ms) chosen s =
        grind
          (arith, consider-grows c m chosen s, λ (x : Machine) (t : State). choose-grows c ms x t)

    remove-grows :
        (c : KubernetesClient) (m : Machine) (s : State) → f s.trace ≤ f (remove p c m s).1.trace
    unfolding remove
    remove-grows c m s = grind (arith, mono)

    scale_down_with-grows :
        (c : KubernetesClient) (ms : List Machine) (s : State)
        → f s.trace ≤ f (scale_down_with p c ms s).1.trace
    unfolding scale_down_with
    scale_down_with-grows c [] s = omega arith
    scale_down_with-grows c (m ∷ ms) s = grind (arith, choose-grows c (m ∷ ms) m s, remove-grows)

    scale_down_control_plane-grows :
        (key : ObjectKey) (ms : List Machine) (s : State)
        → f s.trace ≤ f (scale_down_control_plane p key ms s).1.trace
    unfolding scale_down_control_plane
    scale_down_control_plane-grows key [] s = omega arith
    scale_down_control_plane-grows key (m ∷ ms) s = grind (
      arith,
      mono,
      kubeconfig_for_cluster-grows key s,
      λ (c : KubernetesClient) (t : State). scale_down_with-grows c (reverse (m ∷ ms)) t,
    )

    create_upgrade_pod-grows :
        (c : KubernetesClient) (node version : String) (s : State)
        → f s.trace ≤ f (create_upgrade_pod p c node version s).1.trace
    unfolding create_upgrade_pod
    create_upgrade_pod-grows c node version s = grind (arith, mono)

    await_version-grows :
        (c : KubernetesClient) (n : ℕ) (node version : String) (s : State)
        → f s.trace ≤ f (await_version p c n node version s).1.trace
    unfolding await_version
    await_version-grows c zero node version s = omega arith
    await_version-grows c (suc n) node version s =
        grind (arith, mono, λ (v : String) (t : State). await_version-grows c n node v t)

    wait_for_node_upgrade-grows :
        (c : KubernetesClient) (node version : String) (s : State)
        → f s.trace ≤ f (wait_for_node_upgrade p c node version s).1.trace
    unfolding wait_for_node_upgrade
    wait_for_node_upgrade-grows c node version s =
        ground (arith, await_version-grows c 60 node version s)

    wait_for_pod_deletion-grows :
        (c : KubernetesClient) (pod : String) (s : State)
        → f s.trace ≤ f (wait_for_pod_deletion p c pod s).1.trace
    unfolding wait_for_pod_deletion
    wait_for_pod_deletion-grows c pod s = grind (arith, mono)

    upgrade_machine-grows :
        (c : KubernetesClient) (m : Machine) (s : State)
        → f s.trace ≤ f (upgrade_machine p c m s).1.trace
    unfolding upgrade_machine
    upgrade_machine-grows c m s = grind (
      arith, mono, create_upgrade_pod-grows, wait_for_node_upgrade-grows,
      wait_for_pod_deletion-grows,
    )

    upgrade_in_place-grows :
        (c : KubernetesClient) (ms : List Machine) (s : State)
        → f s.trace ≤ f (upgrade_in_place p c ms s).1.trace
    unfolding upgrade_in_place
    upgrade_in_place-grows c ms s =
        for_each-grows (upgrade_machine p c) (upgrade_machine-grows c) ms s

    upgrade_stage-grows :
        (d : ℤ) (n : ℕ) (ms : List Machine) (u : Upgrade) (s : State)
        → f s.trace ≤ f (upgrade_stage p d n ms u s).1.trace
    unfolding upgrade_stage
    upgrade_stage-grows d n ms keep s = omega arith
    upgrade_stage-grows d n ms rolling s = grind (arith, boot_control_plane-grows)
    upgrade_stage-grows d n ms in_place s =
        grind (arith, mono, kubeconfig_for_cluster-grows, upgrade_in_place-grows)

    scale_down_stage-grows :
        (d : ℤ) (n : ℕ) (ms : List Machine) (s : State)
        → f s.trace ≤ f (scale_down_stage p d n ms s).1.trace
    unfolding scale_down_stage
    scale_down_stage-grows d n ms s = grind (arith, scale_down_control_plane-grows)

    settle_stage-grows :
        (ms : List Machine) (s : State) → f s.trace ≤ f (settle_stage p ms s).1.trace
    unfolding settle_stage
    settle_stage-grows ms s = ground arith

    replica_stage-grows :
        (d : ℤ) (n : ℕ) (ms : List Machine) (s : State)
        → f s.trace ≤ f (replica_stage p d n ms s).1.trace
    unfolding replica_stage
    replica_stage-grows d n ms s =
        grind (arith, boot_control_plane-grows, scale_down_stage-grows, settle_stage-grows)

    resize-grows :
        (mcp : MicroK8sControlPlane) (d : ℤ) (n : ℕ) (l : List Machine × String) (s : State)
        → f s.trace ≤ f (resize p mcp d n l s).1.trace
    unfolding resize
    resize-grows mcp d n l s = grind (arith, mono, upgrade_stage-grows, replica_stage-grows)

    pub reconcile_machines-grows :
        (ms : List Machine) (s : State) → f s.trace ≤ f (reconcile_machines p ms s).1.trace
    reconcile_machines-grows ms s = elim (ends_in_resize p ms s) [
      | inl e ↦ rw e (omega arith)
      | inr (d, sorted, e, found, ends) ↦ rw ends (resize-grows s.mcp d (length ms) sorted s)
    ]
