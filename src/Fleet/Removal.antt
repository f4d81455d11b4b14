-- ===== src/Fleet/Removal.antt =====
-- The end of a control plane: the rounds of `Reconcile` on an object that is being deleted.
use mathlib.Core.List.{Permᴰ}
use mathlib.Core.List.Permᴰ
use mathlib.Core.List.Perm
use mathlib.Core.Logic.{∥∥₁_elim}
use mathlib.Core.Path.{subst}
use native.Mathlib.Nat.{ℕ_set}
use cluster_api_control_plan.Common.{
  ℕ, ◌≡◌, refl, ◌∙◌, ap, arith, List, [], ◌∷◌, ◌++◌, length, All, Among, none, some, true, false,
  inl,
}
use cluster_api_control_plan.Kube.{ok, ObjectKey, Machine, Cluster}
use cluster_api_control_plan.Api.{MicroK8sControlPlane, micro_k8s_control_plane_finalizer}
use cluster_api_control_plan.Calls.{Call}
use cluster_api_control_plan.Platform.{Platform}
use cluster_api_control_plan.Run.{State}
use cluster_api_control_plan.Run.Tally.{Class}
use cluster_api_control_plan.Controllers.Owned.{
  control_plane_selector, get_control_plane_machines_for_cluster,
}
use cluster_api_control_plan.Controllers.Delete.{release, reconcile_delete}
use cluster_api_control_plan.Controllers.Delete.Finalizer.{
  AcceptsDeletions, submitted, secret_deletion, reconcile_delete_all,
}
use cluster_api_control_plan.Controllers.Reconcile.{
  finish, reconcile_body, reconcile_deferred, reconcile_owned, reconcile_request,
}
use cluster_api_control_plan.Controllers.Reconcile.Rounds.{tally-finish}
use cluster_api_control_plan.Growth.Extends.{extends_of_grows}
use cluster_api_control_plan.Growth.Rounds.{finish-grows}
use cluster_api_control_plan.Fleet.Count.{length-Perm}
use cluster_api_control_plan.Fleet.Serving.{Serves}
use cluster_api_control_plan.Fleet.Renewal.Server.{leaves_machines, keeps_quiet, Among-Perm}

-- `machines` are those that the server has after a trace of calls. It lists them, in any order, none
-- of them being deleted. A request to delete a machine that is there removes it, and no other call
-- but one to create a machine changes them.
pub record RemovesMachines (p : Platform) (cluster : Cluster) (machines : List Call → List Machine)
    : Type 0 where
  pub lists :
      (trace : List Call)
      → p.answer trace (Call.list_machines cluster.namespace (control_plane_selector cluster.name))
        ≡ ok (machines trace)
  pub alive : (trace : List Call) → All (λ m. m.deletion_timestamp ≡ none) (machines trace)
  pub deletes :
      (m : Machine) (trace : List Call)
      → Among m (machines trace)
      → Permᴰ (machines trace) (m ∷ machines (Call.delete_machine m ∷ trace))
  pub keeps :
      (c : Call) (trace : List Call)
      → leaves_machines c ≡ true
      → machines (c ∷ trace) ≡ machines trace

-- The object is being deleted, still has its finalizer, and is not paused.
abbrev pub IsLeaving : Platform → Cluster → MicroK8sControlPlane → Type 0
IsLeaving p cluster mcp =
    ((t : ℕ) × (mcp.deletion_timestamp ≡ some t))
    × (p.contains_finalizer mcp.finalizers micro_k8s_control_plane_finalizer ≡ true)
    × (p.is_paused cluster mcp ≡ false)

-- The request that lets the object go.
abbrev pub release_of : Platform → MicroK8sControlPlane → Call
release_of p mcp = Call.update_mcp (record mcp {
  finalizers = p.remove_finalizer mcp.finalizers micro_k8s_control_plane_finalizer;
})

module _ (p : Platform) (cluster : Cluster) (machines : List Call → List Machine)
    (server : RemovesMachines p cluster machines) where
  -- After the requests to delete all the machines none is left.
  submitted-none :
      (ms : List Machine) (trace : List Call)
      → All (λ m. m.deletion_timestamp ≡ none) ms
      → Permᴰ (machines trace) ms
      → length (machines (submitted ms trace)) ≡ 0
  submitted-none [] trace alive q = length-Perm q
  submitted-none (m ∷ ms) trace (living, alive) q =
      let t = Call.delete_machine m ∷ trace in
      let there = Among-Perm m (Permᴰ.symm q) (inl refl) in
      let gone : Permᴰ (m ∷ machines t) (m ∷ ms) =
        Permᴰ.trans (Permᴰ.symm (server.deletes m trace there)) q in
      let none_left : length (machines (submitted ms t)) ≡ 0 =
        ∥∥₁_elim (Perm.cons_inv ∣ gone ∣₁) (ℕ_set _ _) (λ rest. submitted-none ms t alive rest) in
      ground (arith, living, none_left)

  abbrev query : Call
  query = Call.list_machines cluster.namespace (control_plane_selector cluster.name)

  finish-machines :
      (before : MicroK8sControlPlane) (s : State)
      → machines (finish p before s).1.trace ≡ machines s.trace
  finish-machines before s =
      let u = (finish p before s).1.trace in
      let (cs, e) = extends_of_grows s.trace u (λ f mono. finish-grows f mono p before s) in
      ap machines e
      ∙ keeps_quiet machines server.keeps cs s.trace
          (rw (← e) (tally-finish p Class.machine_creation before s refl))
          (rw (← e) (tally-finish p Class.machine_deletion before s refl))

  -- Where no machine is left the object is let go.
  reconcile_delete-releases :
      (s : State)
      → s.cluster ≡ cluster
      → machines s.trace ≡ []
      → (reconcile_delete p s).1.trace ≡ release_of p (s.mcp) ∷ query ∷ s.trace
  unfolding reconcile_delete release get_control_plane_machines_for_cluster
  reconcile_delete-releases s ours empty = ground (arith, ours, empty, server.lists s.trace)

  module _ (accepts : AcceptsDeletions p) where
    -- A run of `reconcileDelete` leaves no machine.
    reconcile_delete-none :
        (s : State) → s.cluster ≡ cluster → length (machines (reconcile_delete p s).1.trace) ≡ 0
    reconcile_delete-none s ours = by_machines (machines s.trace) refl
      where
        by_machines :
            (ms : List Machine)
            → machines s.trace ≡ ms
            → length (machines (reconcile_delete p s).1.trace) ≡ 0
        by_machines [] e = rw (reconcile_delete-releases s ours e) (
            ground (
              arith,
              e,
              server.keeps (release_of p s.mcp) (query ∷ s.trace),
              server.keeps query s.trace,
            ))
        by_machines (m ∷ ms) e =
            let listed : p.answer s.trace
                  (Call.list_machines s.cluster.namespace (control_plane_selector s.cluster.name))
                ≡ ok (m ∷ ms) =
              ground (arith, ours, e, server.lists s.trace) in
            let t = submitted (m ∷ ms) (query ∷ s.trace) in
            let kept : machines (query ∷ s.trace) ≡ m ∷ ms = server.keeps query s.trace refl ∙ e in
            let none_left : length (machines t) ≡ 0 =
              submitted-none (m ∷ ms) (query ∷ s.trace)
                (subst (λ l. All (λ m. m.deletion_timestamp ≡ none) l) e (server.alive s.trace))
                (subst (λ l. Permᴰ (machines (query ∷ s.trace)) l) kept (Permᴰ.refl _)) in
            let kubeconfig = secret_deletion cluster "kubeconfig" in
            let ca = secret_deletion cluster "ca" in
            ground (
              arith,
              ours,
              reconcile_delete_all p accepts m ms s listed,
              none_left,
              server.keeps kubeconfig t,
              server.keeps ca (kubeconfig ∷ t),
              server.keeps (secret_deletion cluster "jointoken") (ca ∷ kubeconfig ∷ t),
            )

    module _ (serves : Serves p cluster) where
      -- A round on an object that is being deleted is `reconcileDelete`, then the status and the patch.
      request-deletes :
          (req : ObjectKey) (mcp : MicroK8sControlPlane) (s : State)
          → p.answer s.trace (Call.get_mcp req) ≡ ok mcp
          → IsLeaving p cluster mcp
          → let ask = Call.get_owner_cluster mcp.owner_references mcp.namespace in
            let t : State = record {
              mcp = mcp;
              cluster = cluster;
              trace = Call.new_patch_helper mcp ∷ ask ∷ Call.get_mcp req ∷ s.trace;
            } in
            (machines t.trace ≡ machines s.trace)
            × ((reconcile_request p req s).1 ≡ (finish p mcp (reconcile_delete p t).1).1)
      unfolding reconcile_request reconcile_owned reconcile_deferred reconcile_body
      request-deletes req mcp s got ((x, leaving), finalizer, running) =
          let get = Call.get_mcp req in
          let ask = Call.get_owner_cluster mcp.owner_references mcp.namespace in
          let helper = Call.new_patch_helper mcp in
          (
            server.keeps helper (ask ∷ get ∷ s.trace) refl
                ∙ server.keeps ask (get ∷ s.trace) refl
                ∙ server.keeps get s.trace refl,
            ground (
              arith,
              got,
              leaving,
              finalizer,
              running,
              serves.owns (get ∷ s.trace) mcp.owner_references mcp.namespace,
              serves.ready,
              serves.helps (ask ∷ get ∷ s.trace) mcp,
            ),
          )

      -- One round leaves no machine.
      request-none :
          (req : ObjectKey) (mcp : MicroK8sControlPlane) (s : State)
          → p.answer s.trace (Call.get_mcp req) ≡ ok mcp
          → IsLeaving p cluster mcp
          → length (machines (reconcile_request p req s).1.trace) ≡ 0
      request-none req mcp s got leaving =
          let ask = Call.get_owner_cluster mcp.owner_references mcp.namespace in
          let t : State = record {
            mcp = mcp;
            cluster = cluster;
            trace = Call.new_patch_helper mcp ∷ ask ∷ Call.get_mcp req ∷ s.trace;
          } in
          ap (λ x. length (machines x.trace)) (request-deletes req mcp s got leaving).1
          ∙ ap length (finish-machines mcp (reconcile_delete p t).1)
          ∙ reconcile_delete-none t refl

      -- A round that finds none asks for the update of the object.
      request-releases :
          (req : ObjectKey) (mcp : MicroK8sControlPlane) (s : State)
          → p.answer s.trace (Call.get_mcp req) ≡ ok mcp
          → IsLeaving p cluster mcp
          → machines s.trace ≡ []
          → (later : List Call) × (before : List Call) × ((reconcile_request p req s).1.trace
              ≡ later ++ release_of p mcp ∷ before)
      request-releases req mcp s got leaving empty =
          let ask = Call.get_owner_cluster mcp.owner_references mcp.namespace in
          let t : State = record {
            mcp = mcp;
            cluster = cluster;
            trace = Call.new_patch_helper mcp ∷ ask ∷ Call.get_mcp req ∷ s.trace;
          } in
          let (kept, ends) = request-deletes req mcp s got leaving in
          let d = (reconcile_delete p t).1 in
          let (later, e) =
            extends_of_grows d.trace (finish p mcp d).1.trace
              (λ f mono. finish-grows f mono p mcp d) in
          (
            later,
            query ∷ t.trace,
            ap (λ x. x.trace) ends
                ∙ e
                ∙ ap (λ l. later ++ l) (reconcile_delete-releases t refl (kept ∙ empty)),
          )

      none_of_length : (ms : List Machine) → length ms ≡ 0 → ms ≡ []
      none_of_length [] h = refl
      none_of_length (m ∷ ms) h = absurd (omega (arith, h))

      -- With a cluster whose infrastructure is ready, and servers that grant what they are asked and remove the machines, one round of `Reconcile`
      -- on an object that is being deleted, still has its finalizer and is not paused leaves no
      -- machine; and the next round on it asks for the update that takes its finalizer away.
      pub two_rounds-release :
          (req : ObjectKey) (mcp : MicroK8sControlPlane) (s t u : State)
          → p.answer s.trace (Call.get_mcp req) ≡ ok mcp
          → IsLeaving p cluster mcp
          → t ≡ (reconcile_request p req s).1
          → (req' : ObjectKey) (mcp' : MicroK8sControlPlane)
          → p.answer t.trace (Call.get_mcp req') ≡ ok mcp'
          → IsLeaving p cluster mcp'
          → u ≡ (reconcile_request p req' t).1
          → (length (machines t.trace) ≡ 0)
            × ((later : List Call) × (before : List Call) × (u.trace
                  ≡ later ++ release_of p mcp' ∷ before))
      two_rounds-release req mcp s t u got leaving e req' mcp' got' leaving' e' =
          let none_left : length (machines t.trace) ≡ 0 =
            rw e (request-none req mcp s got leaving) in
          (
            none_left,
            rw e' (
                request-releases req' mcp' t got' leaving'
                  (none_of_length (machines t.trace) none_left)),
          )
