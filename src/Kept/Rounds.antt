-- ===== src/Kept/Rounds.antt =====
-- What a round of `Reconcile` leaves alone of an object that is not being deleted: its body all but the
-- conditions and `bootstrapped`, and the deferred function the metadata and the specification.
use cluster_api_control_plan.Common.{
  ℕ, ◌≡◌, refl, arith, String, Option, none, some, List, [], ◌∷◌, ◌⊎◌, inl, inr, All,
}
use cluster_api_control_plan.Kube.{Error, Result, OwnerReference, Machine, Node}
use cluster_api_control_plan.Api.{MicroK8sControlPlane, MicroK8sControlPlaneSpec}
use cluster_api_control_plan.Calls.{
  Call, KubernetesClient, with_status_observed_generation, with_owned_conditions,
}
use cluster_api_control_plan.Platform.{Platform}
use cluster_api_control_plan.Run.{State, Func, Outcome, returned, panicked}
use cluster_api_control_plan.Controllers.Boot.{Reconciled, no_requeue}
use cluster_api_control_plan.Controllers.Owned.{get_control_plane_machines_for_cluster}
use cluster_api_control_plan.Controllers.Machines.{key_of, reconcile_machines}
use cluster_api_control_plan.Controllers.Status.{node_status, observe_nodes, update_status}
use cluster_api_control_plan.Controllers.Reconcile.{
  owned_conditions, reconcile_node_health, reconcile_conditions, run_phases, reconcile,
  patch_micro_k8s_control_plane, finish, with_result, reconcile_body, reconcile_deferred,
}
use cluster_api_control_plan.Kept.Unchanged.{
  kubeconfig_for_cluster-unchanged, external-unchanged, update_provider_id-unchanged,
}
use cluster_api_control_plan.Kept.Machines.{Fields, view, reconcile_machines-keeps}

module _ {A : Type 0} (h : Fields A) (p : Platform) where
  node_health-keeps :
      (ms : List Machine) (s : State) → view h (reconcile_node_health p ms s).1.mcp ≡ view h s.mcp
  unfolding reconcile_node_health
  node_health-keeps ms s = ground arith

  conditions-keeps :
      (ms : List Machine) (s : State) → view h (reconcile_conditions p ms s).1.mcp ≡ view h s.mcp
  unfolding reconcile_conditions
  conditions-keeps ms s = ground arith

  run_phases-keeps :
      (phases : List (List Machine → Func Reconciled))
      → All
          (λ phase. (ms : List Machine) (s : State) → view h (phase ms s).1.mcp ≡ view h s.mcp)
          phases
      → (ms : List Machine) (acc : Reconciled) (s : State)
      → view h (run_phases p phases ms acc s).1.mcp ≡ view h s.mcp
  unfolding run_phases
  run_phases-keeps [] all ms acc s = refl
  run_phases-keeps (phase ∷ phases) (keeps, all) ms acc s =
      grind (
        arith,
        keeps ms s,
        λ (acc' : Reconciled) (t : State). run_phases-keeps phases all ms acc' t,
      )

  pub reconcile-keeps : (s : State) → view h (reconcile p s).1.mcp ≡ view h s.mcp
  unfolding reconcile get_control_plane_machines_for_cluster
  reconcile-keeps s = grind (
    arith,
    external-unchanged p s,
    λ (ms : List Machine) (t : State).
        run_phases-keeps
          (reconcile_node_health p ∷ reconcile_conditions p ∷ reconcile_machines p ∷ [])
          (node_health-keeps, (conditions-keeps, (reconcile_machines-keeps h p, tt))) ms
          (no_requeue, none) t,
  )

-- What the metadata and the specification are used for.
abbrev pub Desires : Type 0 → Type 0
Desires A =
    String
    → String
    → String
    → List (String × String)
    → Option ℕ
    → List String
    → List OwnerReference
    → MicroK8sControlPlaneSpec
    → A

abbrev pub desired : {A : Type 0} → Desires A → MicroK8sControlPlane → A
desired h m =
    h m.name m.namespace m.uid m.annotations m.deletion_timestamp m.finalizers m.owner_references
      m.spec

module _ {A : Type 0} (h : Desires A) (p : Platform) where
  node_status-keeps :
      (nodes : List Node) (s : State) → desired h (node_status p nodes s).1.mcp ≡ desired h s.mcp
  unfolding node_status
  node_status-keeps [] s = refl
  node_status-keeps (node ∷ nodes) s = refl

  observe_nodes-keeps :
      (c : KubernetesClient) (s : State) → desired h (observe_nodes p c s).1.mcp ≡ desired h s.mcp
  unfolding observe_nodes
  observe_nodes-keeps c s = grind (arith, update_provider_id-unchanged p c, node_status-keeps)

  update_status-keeps : (s : State) → desired h (update_status p s).1.mcp ≡ desired h s.mcp
  unfolding update_status get_control_plane_machines_for_cluster
  update_status-keeps s = grind (
    arith,
    λ (t : State). kubeconfig_for_cluster-unchanged p (key_of s.cluster) t,
    λ (c : KubernetesClient) (t : State). observe_nodes-keeps c t,
  )

  finish-keeps :
      (before : MicroK8sControlPlane) (s : State)
      → desired h (finish p before s).1.mcp ≡ desired h s.mcp
  unfolding finish patch_micro_k8s_control_plane
  finish-keeps before s = grind (arith, update_status-keeps)

  pub deferred-keeps :
      (before : MicroK8sControlPlane) (s : State)
      → s.mcp.deletion_timestamp ≡ none
      → desired h (reconcile_deferred p before s).1.mcp ≡ desired h s.mcp
  unfolding reconcile_deferred reconcile_body
  deferred-keeps before s present = grind (
    arith,
    reconcile-keeps (λ a b c d e f g spec i j k l m n o. h a b c d e f g spec) p s,
    λ (t : State). finish-keeps before t,
  )

-- The last call of a trace.
abbrev pub last_call : List Call → Option Call
last_call [] = none
last_call (c ∷ trace) = some c

-- The last call is the patch from one object to the other.
abbrev pub EndsInPatch : MicroK8sControlPlane → MicroK8sControlPlane → List Call → Type 0
EndsInPatch before after trace =
    last_call trace
    ≡ some (
        Call.patch_mcp before after
          (with_status_observed_generation ∷ with_owned_conditions owned_conditions ∷ []))

module _ (p : Platform) where
  finish-EndsInPatch :
      (before : MicroK8sControlPlane) (s : State)
      → let (r, t) = finish p before s in (r ≡ panicked) ⊎ EndsInPatch before (t.mcp) (t.trace)
  unfolding finish patch_micro_k8s_control_plane
  finish-EndsInPatch before s = by_status (update_status p s).0 refl
    where
      by_status :
          (o : Outcome (Option Error))
          → (update_status p s).0 ≡ o
          → let (r, t) = finish p before s in (r ≡ panicked) ⊎ EndsInPatch before (t.mcp) (t.trace)
      by_status panicked e = inl (ground (arith, e))
      by_status (returned a) e = inr (ground (arith, e))

  with_result-panicked :
      (o : Outcome Reconciled) (r : Outcome Result) → r ≡ panicked → with_result p o r ≡ panicked
  with_result-panicked panicked r e = refl
  with_result-panicked (returned a) r e = rw e refl

  -- On an object that is not being deleted, `Reconcile` with its deferred function panics, or its last
  -- call is the patch from the object as it was read to the object as it is now; and these two differ
  -- at most in the status and in the two fields of the specification that Go shares by pointers with
  -- the objects that are created or updated, the version and the configuration.
  pub reconcile_deferred-EndsInPatch :
      (s : State)
      → s.mcp.deletion_timestamp ≡ none
      → let (r, t) = reconcile_deferred p (s.mcp) s in
        (record (t.mcp) {
          spec = record (t.mcp.spec) {
            version = s.mcp.spec.version;
            control_plane_config = s.mcp.spec.control_plane_config;
          };
          status = s.mcp.status;
        }
          ≡ s.mcp)
        × ((r ≡ panicked) ⊎ EndsInPatch (s.mcp) (t.mcp) (t.trace))
  unfolding reconcile_deferred
  reconcile_deferred-EndsInPatch s present = (
    deferred-keeps
        (λ a b c d e f g spec. record {
          name = a;
          namespace = b;
          uid = c;
          annotations = d;
          deletion_timestamp = e;
          finalizers = f;
          owner_references = g;
          spec = record spec {
            version = s.mcp.spec.version;
            control_plane_config = s.mcp.spec.control_plane_config;
          };
          status = s.mcp.status;
        })
        p (s.mcp) s present,
    elim (finish-EndsInPatch (s.mcp) (reconcile_body p s).1) [
      | inl e ↦ inl (with_result-panicked (reconcile_body p s).0 _ e)
      | inr e ↦ inr e
    ],
  )
