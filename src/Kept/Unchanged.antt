-- ===== src/Kept/Unchanged.antt =====
-- The parts of a round that leave the control plane object as it is.
use mathlib.Core.List.{reverse}
use cluster_api_control_plan.Common.{ℕ, zero, suc, arith, refl, ◌≡◌, List, [], ◌∷◌, String}
use cluster_api_control_plan.Kube.{
  Res, ok, err, Node, Address, MicroK8sConfigSpec, Machine, Cluster, ObjectKey,
}
use cluster_api_control_plan.Calls.{Call, KubernetesClient}
use cluster_api_control_plan.Platform.{Platform}
use cluster_api_control_plan.Run.{State, Stmt, for_each}
use cluster_api_control_plan.Controllers.Kubeconfig.{
  genarate_kubeconfig, create_kubeconfig, kubeconfig_for_cluster,
}
use cluster_api_control_plan.Controllers.Boot.{generate_micro_k8s_config, place}
use cluster_api_control_plan.Controllers.ScaleDown.{
  finish_deletion, consider, choose, remove, scale_down_with, scale_down_control_plane,
}
use cluster_api_control_plan.Controllers.Upgrade.{
  create_upgrade_pod, await_version, wait_for_node_upgrade, wait_for_pod_deletion, upgrade_machine,
  upgrade_in_place,
}
use cluster_api_control_plan.Controllers.Status.{adopt_machine, provide_id, update_provider_id}
use cluster_api_control_plan.Controllers.Reconcile.{reconcile_external_reference}

module _ {R A : Type 0} (body : A → Stmt R (Unit {0})) where
  pub for_each-unchanged :
      ((x : A) (s : State) → (body x s).1.mcp ≡ s.mcp)
      → (xs : List A) (s : State) → (for_each xs body s).1.mcp ≡ s.mcp
  unfolding for_each
  for_each-unchanged same [] s = refl
  for_each-unchanged same (x ∷ xs) s =
      ground (arith, same x s, for_each-unchanged same xs (body x s).1)

module _ (p : Platform) where
  pub genarate_kubeconfig-unchanged :
      (key : ObjectKey) (host : String) (s : State)
      → (genarate_kubeconfig p key host s).1.mcp ≡ s.mcp
  unfolding genarate_kubeconfig
  genarate_kubeconfig-unchanged key host s = grind (arith)

  pub create_kubeconfig-unchanged :
      (key : ObjectKey) (host : String) (s : State) → (create_kubeconfig p key host s).1.mcp ≡ s.mcp
  unfolding create_kubeconfig
  create_kubeconfig-unchanged key host s = grind (arith, genarate_kubeconfig-unchanged)

  pub kubeconfig_for_cluster-unchanged :
      (key : ObjectKey) (s : State) → (kubeconfig_for_cluster p key s).1.mcp ≡ s.mcp
  unfolding kubeconfig_for_cluster
  kubeconfig_for_cluster-unchanged key s =
      by_cluster (p.answer (Call.list_secrets ∷ s.trace) (Call.get_cluster key)) refl
    where
      by_cluster :
          (c : Res Cluster)
          → p.answer (Call.list_secrets ∷ s.trace) (Call.get_cluster key) ≡ c
          → (kubeconfig_for_cluster p key s).1.mcp ≡ s.mcp
      by_cluster (err e) got = ground (arith, got)
      by_cluster (ok c) got = ground (
        arith,
        got,
        create_kubeconfig-unchanged key c.endpoint_host
            (record s { trace = Call.get_cluster key ∷ Call.list_secrets ∷ s.trace }),
      )

  pub generate-unchanged :
      (spec : MicroK8sConfigSpec) (s : State) → (generate_micro_k8s_config p spec s).1.mcp ≡ s.mcp
  unfolding generate_micro_k8s_config
  generate-unchanged spec s = grind (arith)

  pub place-unchanged :
      (domains : List String) (m : Machine) (s : State) → (place p domains m s).1.mcp ≡ s.mcp
  unfolding place
  place-unchanged [] m s = refl
  place-unchanged (d ∷ ds) m s = grind (arith)

  pub finish_deletion-unchanged :
      (c : KubernetesClient) (m : Machine) (s : State) → (finish_deletion p c m s).1.mcp ≡ s.mcp
  unfolding finish_deletion
  finish_deletion-unchanged c m s = grind (arith)

  pub consider-unchanged :
      (c : KubernetesClient) (m chosen : Machine) (s : State)
      → (consider p c m chosen s).1.mcp ≡ s.mcp
  unfolding consider
  consider-unchanged c m chosen s = ground (arith, finish_deletion-unchanged c m s)

  pub choose-unchanged :
      (c : KubernetesClient) (ms : List Machine) (chosen : Machine) (s : State)
      → (choose p c ms chosen s).1.mcp ≡ s.mcp
  unfolding choose
  choose-unchanged c [] chosen s = refl
  choose-unchanged c (m ∷ ms) chosen s = grind (
    arith,
    consider-unchanged c m chosen s,
    λ (x : Machine) (t : State). choose-unchanged c ms x t,
  )

  pub remove-unchanged :
      (c : KubernetesClient) (m : Machine) (s : State) → (remove p c m s).1.mcp ≡ s.mcp
  unfolding remove
  remove-unchanged c m s = grind (arith)

  pub scale_down_with-unchanged :
      (c : KubernetesClient) (ms : List Machine) (s : State)
      → (scale_down_with p c ms s).1.mcp ≡ s.mcp
  unfolding scale_down_with
  scale_down_with-unchanged c [] s = refl
  scale_down_with-unchanged c (m ∷ ms) s =
      grind (arith, choose-unchanged c (m ∷ ms) m s, remove-unchanged)

  pub scale_down_control_plane-unchanged :
      (key : ObjectKey) (ms : List Machine) (s : State)
      → (scale_down_control_plane p key ms s).1.mcp ≡ s.mcp
  unfolding scale_down_control_plane
  scale_down_control_plane-unchanged key [] s = refl
  scale_down_control_plane-unchanged key (m ∷ ms) s = grind (
    arith,
    kubeconfig_for_cluster-unchanged key s,
    λ (c : KubernetesClient) (t : State). scale_down_with-unchanged c (reverse (m ∷ ms)) t,
  )

  pub create_upgrade_pod-unchanged :
      (c : KubernetesClient) (node version : String) (s : State)
      → (create_upgrade_pod p c node version s).1.mcp ≡ s.mcp
  unfolding create_upgrade_pod
  create_upgrade_pod-unchanged c node version s = grind (arith)

  pub await_version-unchanged :
      (c : KubernetesClient) (n : ℕ) (node version : String) (s : State)
      → (await_version p c n node version s).1.mcp ≡ s.mcp
  unfolding await_version
  await_version-unchanged c zero node version s = refl
  await_version-unchanged c (suc n) node version s =
      grind (arith, λ (v : String) (t : State). await_version-unchanged c n node v t)

  pub wait_for_node_upgrade-unchanged :
      (c : KubernetesClient) (node version : String) (s : State)
      → (wait_for_node_upgrade p c node version s).1.mcp ≡ s.mcp
  unfolding wait_for_node_upgrade
  wait_for_node_upgrade-unchanged c node version s =
      ground (arith, await_version-unchanged c 60 node version s)

  pub wait_for_pod_deletion-unchanged :
      (c : KubernetesClient) (pod : String) (s : State)
      → (wait_for_pod_deletion p c pod s).1.mcp ≡ s.mcp
  unfolding wait_for_pod_deletion
  wait_for_pod_deletion-unchanged c pod s = grind (arith)

  pub upgrade_machine-unchanged :
      (c : KubernetesClient) (m : Machine) (s : State) → (upgrade_machine p c m s).1.mcp ≡ s.mcp
  unfolding upgrade_machine
  upgrade_machine-unchanged c m s = grind (
    arith, create_upgrade_pod-unchanged, wait_for_node_upgrade-unchanged,
    wait_for_pod_deletion-unchanged,
  )

  pub upgrade_in_place-unchanged :
      (c : KubernetesClient) (ms : List Machine) (s : State)
      → (upgrade_in_place p c ms s).1.mcp ≡ s.mcp
  unfolding upgrade_in_place
  upgrade_in_place-unchanged c ms s =
      for_each-unchanged (upgrade_machine p c) (upgrade_machine-unchanged c) ms s

  pub external-unchanged : (s : State) → (reconcile_external_reference p s).1.mcp ≡ s.mcp
  unfolding reconcile_external_reference
  external-unchanged s = ground arith

  adopt_machine-unchanged :
      (c : KubernetesClient) (ms : List Machine) (node : Node) (as' : List Address) (s : State)
      → (adopt_machine p c ms node as' s).1.mcp ≡ s.mcp
  unfolding adopt_machine
  adopt_machine-unchanged c ms node [] s = refl
  adopt_machine-unchanged c ms node (a ∷ as') s =
      ground (arith, adopt_machine-unchanged c ms node as' s)

  provide_id-unchanged :
      (c : KubernetesClient) (ms : List Machine) (node : Node) (s : State)
      → (provide_id p c ms node s).1.mcp ≡ s.mcp
  unfolding provide_id
  provide_id-unchanged c ms node s =
      ground (arith, adopt_machine-unchanged c ms node node.addresses s)

  pub update_provider_id-unchanged :
      (c : KubernetesClient) (s : State) → (update_provider_id p c s).1.mcp ≡ s.mcp
  unfolding update_provider_id
  update_provider_id-unchanged c s = grind (
    arith,
    λ (ms : List Machine). for_each-unchanged (provide_id p c ms) (provide_id-unchanged c ms),
  )
