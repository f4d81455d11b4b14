-- ===== src/Kept/Machines.antt =====
-- What the parts of `reconcileMachines` leave alone of the control plane object: all but its conditions
-- and `bootstrapped`.
use cluster_api_control_plan.Common.{
  ℕ, arith, refl, Option, Bool, ◌≡◌, List, String, length, inl, inr, Bool-cases, false,
}
use cluster_api_control_plan.Common.Int.{ℤ}
use cluster_api_control_plan.Kube.{OwnerReference, Machine, Cluster, ObjectReference}
use cluster_api_control_plan.Api.{MicroK8sControlPlane, MicroK8sControlPlaneSpec}
use cluster_api_control_plan.Calls.{KubernetesClient}
use cluster_api_control_plan.Platform.{Platform}
use cluster_api_control_plan.Run.{State}
use cluster_api_control_plan.Controllers.Boot.{create_machine, boot_control_plane}
use cluster_api_control_plan.Controllers.Machines.{
  Upgrade, keep, rolling, in_place, upgrade_stage, scale_down_stage, settle_stage, replica_stage,
  resize, reconcile_machines, version_differs,
}
use cluster_api_control_plan.Controllers.Machines.Safety.{ends_in_resize}
use cluster_api_control_plan.Kept.Unchanged.{
  kubeconfig_for_cluster-unchanged, generate-unchanged, place-unchanged,
  scale_down_control_plane-unchanged, upgrade_in_place-unchanged,
}

-- What the fields that are left alone are used for: the metadata, the specification and the status.
abbrev pub Fields : Type 0 → Type 0
Fields A =
    String
    → String
    → String
    → List (String × String)
    → Option ℕ
    → List String
    → List OwnerReference
    → MicroK8sControlPlaneSpec
    → String
    → ℤ
    → ℤ
    → ℤ
    → Bool
    → Bool
    → ℤ
    → A

abbrev pub view : {A : Type 0} → Fields A → MicroK8sControlPlane → A
view h m =
    h m.name m.namespace m.uid m.annotations m.deletion_timestamp m.finalizers m.owner_references
      m.spec m.status.selector m.status.replicas m.status.ready_replicas
      m.status.unavailable_replicas m.status.initialized m.status.ready m.status.observed_generation

module _ {A : Type 0} (h : Fields A) (p : Platform) where
  create_machine-keeps :
      (mcp : MicroK8sControlPlane) (cluster : Cluster) (i b : ObjectReference) (s : State)
      → view h (create_machine p mcp cluster i b s).1.mcp ≡ view h s.mcp
  unfolding create_machine
  create_machine-keeps mcp cluster i b s = grind (arith, place-unchanged p)

  boot_control_plane-keeps :
      (first : Bool) (s : State) → view h (boot_control_plane p first s).1.mcp ≡ view h s.mcp
  unfolding boot_control_plane
  boot_control_plane-keeps first s = grind (
    arith,
    λ (t : State). generate-unchanged p s.mcp.spec.control_plane_config t,
    λ (i b : ObjectReference) (t : State). create_machine-keeps s.mcp s.cluster i b t,
  )

  upgrade_stage-keeps :
      (d : ℤ) (n : ℕ) (ms : List Machine) (u : Upgrade) (s : State)
      → view h (upgrade_stage p d n ms u s).1.mcp ≡ view h s.mcp
  unfolding upgrade_stage
  upgrade_stage-keeps d n ms keep s = refl
  upgrade_stage-keeps d n ms rolling s =
      grind (arith, λ (t : State). boot_control_plane-keeps false t)
  upgrade_stage-keeps d n ms in_place s = grind (
    arith,
    kubeconfig_for_cluster-unchanged p,
    λ (c : KubernetesClient) (t : State). upgrade_in_place-unchanged p c ms t,
  )

  scale_down_stage-keeps :
      (d : ℤ) (n : ℕ) (ms : List Machine) (s : State)
      → view h (scale_down_stage p d n ms s).1.mcp ≡ view h s.mcp
  unfolding scale_down_stage
  scale_down_stage-keeps d n ms s = grind (arith, scale_down_control_plane-unchanged p)

  settle_stage-keeps :
      (ms : List Machine) (s : State) → view h (settle_stage p ms s).1.mcp ≡ view h s.mcp
  unfolding settle_stage
  settle_stage-keeps ms s = ground arith

  replica_stage-keeps :
      (d : ℤ) (n : ℕ) (ms : List Machine) (s : State)
      → view h (replica_stage p d n ms s).1.mcp ≡ view h s.mcp
  unfolding replica_stage
  replica_stage-keeps d n ms s =
      grind (arith, boot_control_plane-keeps, scale_down_stage-keeps, settle_stage-keeps)

  resize-keeps :
      (mcp : MicroK8sControlPlane) (d : ℤ) (n : ℕ) (l : List Machine × String) (s : State)
      → view h (resize p mcp d n l s).1.mcp ≡ view h s.mcp
  unfolding resize
  resize-keeps mcp d n l s =
      elim (Bool-cases (version_differs p l.1 (p.major_minor mcp.spec.version))) [
        | inl e ↦ rw e (
            grind (
              arith,
              λ (u : Upgrade) (t : State). upgrade_stage-keeps d n l.0 u t,
              λ (t : State). replica_stage-keeps d n l.0 t,
            ))
        | inr e ↦ rw e (ground (arith, replica_stage-keeps d n l.0 s))
      ]

  pub reconcile_machines-keeps :
      (ms : List Machine) (s : State) → view h (reconcile_machines p ms s).1.mcp ≡ view h s.mcp
  reconcile_machines-keeps ms s = elim (ends_in_resize p ms s) [
    | inl e ↦ rw e refl
    | inr (d, sorted, e, found, ends) ↦ rw ends (resize-keeps s.mcp d (length ms) sorted s)
  ]
