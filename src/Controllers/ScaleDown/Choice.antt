-- ===== src/Controllers/ScaleDown/Choice.antt =====
-- Which machine `scaleDownControlPlane` deletes, and when it deletes none.
use mathlib.Core.List.{reverse}
use cluster_api_control_plan.Common.{
  ℕ, ◌≡◌, ◌≢◌, ◌⊎◌, inl, inr, refl, ◌∙◌, arith, Option, none, some, ◌≤◌, List, [], ◌∷◌, All, Among,
  All-of_reverse, Among-of_reverse,
}
use cluster_api_control_plan.Kube.{ObjectKey, Machine, Res, ok, err}
use cluster_api_control_plan.Calls.{Call, KubernetesClient}
use cluster_api_control_plan.Platform.{Platform}
use cluster_api_control_plan.Run.{State, Flow, next, exit, panic, Outcome, returned, panicked}
use cluster_api_control_plan.Run.Tally.{Class, tally}
use cluster_api_control_plan.Controllers.Boot.{Reconciled}
use cluster_api_control_plan.Controllers.Kubeconfig.{kubeconfig_for_cluster}
use cluster_api_control_plan.Controllers.Kubeconfig.Quiet.{tally-kubeconfig_for_cluster}
use cluster_api_control_plan.Controllers.ScaleDown.{
  older, finish_deletion, consider, choose, remove, scale_down_with, scale_down_control_plane,
}

-- A machine that is not being deleted and has a node.
abbrev pub IsSteady : Machine → Type 0
IsSteady m = (m.deletion_timestamp ≡ none) × (m.node_ref ≢ none)

-- The machine of the newest request to delete one.
abbrev pub last_deleted : List Call → Option Machine
last_deleted [] = none
last_deleted (Call.delete_machine m ∷ trace) = some m
last_deleted (_ ∷ trace) = last_deleted trace

-- All machines are steady, and `m` is one of the oldest of them.
abbrev pub IsOldest : Machine → List Machine → Type 0
IsOldest m ms =
    Among m ms × All (λ x. IsSteady x × (m.creation_timestamp ≤ x.creation_timestamp)) ms

-- The requests to delete machines.
abbrev deletions : State → ℕ
deletions s = tally Class.machine_deletion s.trace

-- A statement that left its function, with no machine deleted.
abbrev HasLeft : {A : Type 0} → State → Flow Reconciled A × State → Type 0
HasLeft s (next a, t) = ⊥
HasLeft s (exit r, t) = deletions t ≡ deletions s
HasLeft s (panic, t) = deletions t ≡ deletions s

module _ (p : Platform) (kubeclient : KubernetesClient) where
  finish_deletion-HasLeft : (m : Machine) (s : State) → HasLeft s (finish_deletion p kubeclient m s)
  unfolding finish_deletion
  finish_deletion-HasLeft m s = ground arith

  consider_cases :
      (m c : Machine) (s : State)
      → ((consider p kubeclient m c s ≡ (next (older m c), s)) × IsSteady m)
        ⊎ HasLeft s (consider p kubeclient m c s)
  unfolding consider
  consider_cases m c s = ground (arith, finish_deletion-HasLeft m s)

  choose_cases :
      (ms : List Machine) (c : Machine) (s : State)
      → ((m : Machine) × (choose p kubeclient ms c s ≡ (next m, s))
          × ((m ≡ c) ⊎ Among m ms)
          × (m.creation_timestamp ≤ c.creation_timestamp)
          × All (λ x. IsSteady x × (m.creation_timestamp ≤ x.creation_timestamp)) ms)
        ⊎ HasLeft s (choose p kubeclient ms c s)
  unfolding choose
  choose_cases [] c s = inl (c, refl, inl refl, omega arith, tt)
  choose_cases (x ∷ ms) c s = elim (consider_cases x c s) [
    | inr left ↦ inr (ground arith)
    | inl (e, steady) ↦ elim (choose_cases ms (older x c) s) [
      | inr left ↦ inr (ground arith)
      | inl (m, found, among, first, all) ↦
          inl (m, ground arith, ground arith, ground arith, ((steady, ground arith), all))
    ]
  ]

  remove_cases :
      (m : Machine) (s : State)
      → (last_deleted (remove p kubeclient m s).1.trace ≡ some m)
        ⊎ (deletions (remove p kubeclient m s).1 ≡ deletions s)
  unfolding remove
  remove_cases m s = ground arith

  scale_down_with_cases :
      (ms : List Machine) (s : State)
      → ((m : Machine) × (last_deleted (scale_down_with p kubeclient ms s).1.trace ≡ some m)
          × IsOldest m ms)
        ⊎ (deletions (scale_down_with p kubeclient ms s).1 ≡ deletions s)
  unfolding scale_down_with
  scale_down_with_cases [] s = inr refl
  scale_down_with_cases (last ∷ rest) s = elim (choose_cases (last ∷ rest) last s) [
    | inr left ↦ inr (ground arith)
    | inl (m, found, among, first, all) ↦ elim (remove_cases m s) [
      | inr kept ↦ inr (ground arith)
      | inl gone ↦ inl (m, ground arith, (ground arith, all))
    ]
  ]

module _ (p : Platform) (key : ObjectKey) (s : State) where
  -- With machines, and a client, the function comes to `scale_down_with` on a state in which
  -- nothing is deleted yet, and closes the client.
  begins :
      (f : Machine) (ms : List Machine) (o : Outcome (Res KubernetesClient)) (t : State)
      → kubeconfig_for_cluster p key s ≡ (o, t)
      → ((c : KubernetesClient) × ((scale_down_control_plane p key (f ∷ ms) s).1.trace
            ≡ Call.close_client c ∷ (scale_down_with p c (reverse (f ∷ ms)) t).1.trace))
        ⊎ ((scale_down_control_plane p key (f ∷ ms) s).1 ≡ t)
  unfolding scale_down_control_plane
  begins f ms (returned (ok c)) t e = inl (c, ground arith)
  begins f ms (returned (err x)) t e = inr (ground arith)
  begins f ms panicked t e = inr (ground arith)

  -- If `scaleDownControlPlane` asks for the deletion of a machine, then that machine is one of the
  -- given ones and none of them is older; and all of them have a node and none is being deleted.
  pub scale_down_control_plane-IsOldest :
      (ms : List Machine)
      → tally Class.machine_deletion (scale_down_control_plane p key ms s).1.trace
        ≢ tally Class.machine_deletion s.trace
      → (m : Machine) × (last_deleted (scale_down_control_plane p key ms s).1.trace ≡ some m)
        × IsOldest m ms
  scale_down_control_plane-IsOldest [] grown =
      absurd (grown (unfold scale_down_control_plane in refl))
  scale_down_control_plane-IsOldest (f ∷ ms) grown =
      let (o, t) = kubeconfig_for_cluster p key s in
      let same_count : deletions t ≡ deletions s =
        tally-kubeconfig_for_cluster p Class.machine_deletion key s in
      elim (begins f ms o t refl) [
        | inr e ↦ absurd (grown (rw e same_count))
        | inl (c, e) ↦ elim (scale_down_with_cases p c (reverse (f ∷ ms)) t) [
          | inr kept ↦ absurd (grown (rw e (kept ∙ same_count)))
          | inl (m, gone, (among, all)) ↦
              (m, rw e gone, (Among-of_reverse m (f ∷ ms) among, All-of_reverse _ (f ∷ ms) all))
        ]
      ]
