-- ===== src/Fleet/Renewal/Scale.antt =====
-- `scaleDownControlPlane` removes the oldest machine from those that the server keeps, and that is
-- one of another version as long as there is any.
use mathlib.Core.List.{Permᴰ, reverse}
use mathlib.Core.List.Permᴰ
use cluster_api_control_plan.Common.{
  ◌≡◌, refl, arith, Bool-cases, Option-cases, true, inl, inr, ◌⊎◌, none, ◌≤◌, ◌+◌, ◌-◌, ◌<◌, String,
  ◌<>◌, List, [], ◌∷◌, length, All, Among,
}
use cluster_api_control_plan.Kube.{ok, ObjectKey, Machine, Cluster}
use cluster_api_control_plan.Calls.{Call, KubernetesClient}
use cluster_api_control_plan.Platform.{Platform}
use cluster_api_control_plan.Run.{State, next, returned}
use cluster_api_control_plan.Controllers.Kubeconfig.{entry, kubeconfig_for_cluster}
use cluster_api_control_plan.Controllers.ScaleDown.{
  older, consider, choose, remove, scale_down_with, scale_down_control_plane,
}
use cluster_api_control_plan.Controllers.ScaleDown.Choice.{IsSteady}
use cluster_api_control_plan.Fleet.Count.{length-Perm}
use cluster_api_control_plan.Fleet.Serving.{All-Perm}
use cluster_api_control_plan.Fleet.Renewal.Server.{
  KeepsMachines, Opens, is_behind, behind, behind-Perm, behind_some, Among-Perm, All-Among,
}

-- No machine is older than `m`.
abbrev pub IsFirst : Machine → List Machine → Type 0
IsFirst m ms = All (λ x. m.creation_timestamp ≤ x.creation_timestamp) ms

module _ (p : Platform) (kubeclient : KubernetesClient) where
  consider-steady :
      (m c : Machine) (s : State) → IsSteady m → consider p kubeclient m c s ≡ (next (older m c), s)
  unfolding consider
  consider-steady m c s (alive, node) = elim (Option-cases m.node_ref) [
    | inl e ↦ absurd (node e)
    | inr (n, e) ↦ ground (arith, alive, e)
  ]

  -- Steady machines are gone through without a call.
  choose-steady :
      (ms : List Machine) (c : Machine) (s : State)
      → All IsSteady ms
      → (m : Machine) × (choose p kubeclient ms c s ≡ (next m, s))
        × ((m ≡ c) ⊎ Among m ms)
        × (m.creation_timestamp ≤ c.creation_timestamp)
        × IsFirst m ms
  unfolding choose
  choose-steady [] c s h = (c, refl, inl refl, omega arith, tt)
  choose-steady (x ∷ ms) c s (steady, all) =
      let (m, e, among, first, rest) = choose-steady ms (older x c) s all in
      (
        m,
        ground (arith, consider-steady x c s steady, e),
        ground arith,
        ground arith,
        (ground arith, rest),
      )

  -- What follows the choice.
  remove-trace :
      (m : Machine) (s : State)
      → IsSteady m
      → p.answer s.trace (Call.delete_machine m) ≡ none
      → (name : String) × ((remove p kubeclient m s).1.trace
          ≡ Call.delete_node kubeclient name ∷ Call.delete_machine m ∷ s.trace)
  unfolding remove
  remove-trace m s (alive, node) accepted = elim (Option-cases m.node_ref) [
    | inl e ↦ absurd (node e)
    | inr (name, e) ↦ (name, ground (arith, e, accepted))
  ]

module _ (p : Platform) (cluster : Cluster) (version : String) (machines : List Call → List Machine)
    (server : KeepsMachines p cluster version machines) where
  -- One machine less, and one less behind if any was.
  abbrev pub HasShrunk : List Call → List Call → Type 0
  HasShrunk t u =
      (length (machines u) + 1 ≡ length (machines t))
      × (behind p version (machines u) ≡ behind p version (machines t) - 1)

  -- A machine that no other is older than is behind if any is.
  pub first_behind :
      (m : Machine) (t : List Call)
      → Among m (machines t)
      → IsFirst m (machines t)
      → 0 < behind p version (machines t)
      → is_behind p version m ≡ true
  first_behind m t among first some_behind = elim (Bool-cases (is_behind p version m)) [
    | inl e ↦ e
    | inr e ↦
        let (x, there, late) = behind_some p version (machines t) some_behind in
        absurd (
          omega (
            arith,
            server.older t x m there among late e,
            All-Among (λ x. m.creation_timestamp ≤ x.creation_timestamp) x (machines t) first there,
          ))
  ]

  deletion-HasShrunk :
      (m : Machine) (t : List Call)
      → Among m (machines t)
      → IsFirst m (machines t)
      → HasShrunk t (Call.delete_machine m ∷ t)
  deletion-HasShrunk m t among first =
      let q = server.deletes m t among in
      elim (Bool-cases (is_behind p version m)) [
        | inl e ↦ ground (arith, length-Perm q, behind-Perm p version q, e)
        | inr e ↦
            ground (arith, length-Perm q, behind-Perm p version q, e, first_behind m t among first)
      ]

  module _ (opens : Opens p cluster) (key : ObjectKey) (named : key.name ≡ cluster.name) where
    kubeconfig_opens :
        (s : State)
        → (c : KubernetesClient) × ((kubeconfig_for_cluster p key s).0 ≡ returned (ok c))
          × (machines (kubeconfig_for_cluster p key s).1.trace ≡ machines s.trace)
    unfolding kubeconfig_for_cluster
    kubeconfig_opens s =
        let (l, listed, found) = opens.secrets s.trace in
        let t = Call.list_secrets ∷ s.trace in
        let (c, got) = opens.clusters t key in
        let u = Call.get_cluster key ∷ t in
        let k : ObjectKey = record {
          namespace = key.namespace;
          name = key.name <> "-kubeconfig";
        } in
        let (x, read) = opens.secret u k in
        let config = entry "value" x.entries in
        (
          record { kubeconfig = config },
          ground (
            arith,
            listed,
            found,
            named,
            got,
            read,
            opens.rest_config config,
            opens.client config,
          ),
          ground (
            arith,
            listed,
            found,
            named,
            got,
            read,
            opens.rest_config config,
            opens.client config,
            server.keeps Call.list_secrets s.trace,
            server.keeps (Call.get_cluster key) t,
            server.keeps (Call.get_secret k) u,
          ),
        )

    scale_down_with-HasShrunk :
        (c : KubernetesClient) (l : List Machine) (s : State)
        → Permᴰ l (machines s.trace)
        → 0 < length l
        → HasShrunk s.trace (scale_down_with p c l s).1.trace
    unfolding scale_down_with
    scale_down_with-HasShrunk c [] s q some_left = absurd (omega (arith, some_left))
    scale_down_with-HasShrunk c (last ∷ rest) s q some_left =
        let l = last ∷ rest in
        let steady = All-Perm IsSteady q (server.steady s.trace) in
        let (m, chosen, among, _, first) = choose-steady p c l last s steady in
        let among_l : Among m l = elim among [ inl e ↦ inl e | inr h ↦ h ] in
        let there = Among-Perm m q among_l in
        let (name, removed) =
          remove-trace p c m s (All-Among IsSteady m l steady among_l) (opens.accepts s.trace m) in
        let gone = Call.delete_machine m ∷ s.trace in
        ground (
          arith,
          chosen,
          removed,
          server.keeps (Call.delete_node c name) gone,
          deletion-HasShrunk m s.trace there (All-Perm _ (Permᴰ.symm q) first),
        )

    pub scale_down_control_plane-HasShrunk :
        (ms : List Machine) (s : State)
        → Permᴰ ms (machines s.trace)
        → 0 < length ms
        → HasShrunk s.trace (scale_down_control_plane p key ms s).1.trace
    unfolding scale_down_control_plane
    scale_down_control_plane-HasShrunk [] s q h = absurd (omega (arith, h))
    scale_down_control_plane-HasShrunk (m ∷ ms) s q h =
        let (c, opened, kept) = kubeconfig_opens s in
        let t : State = (kubeconfig_for_cluster p key s).1 in
        let l = reverse (m ∷ ms) in
        let down : State = (scale_down_with p c l t).1 in
        let turned : Permᴰ l (m ∷ ms) = Permᴰ.reverse (m ∷ ms) in
        let shrunk : HasShrunk t.trace down.trace =
          scale_down_with-HasShrunk c l t (Permᴰ.trans turned (rw kept q))
            (omega (arith, length-Perm turned)) in
        ground (arith, opened, kept, shrunk, server.keeps (Call.close_client c) down.trace)
