-- ===== src/Controllers/Kubeconfig/Shadowed.antt =====
-- The search for the kubeconfig secret goes by the name alone.
use cluster_api_control_plan.Common.{◌≡◌, arith, ◌<>◌, true, List, [], ◌∷◌, Among, inl, inr, eq_iff}
use cluster_api_control_plan.Kube.{Error, ok, err, ObjectKey, Cluster, Secret}
use cluster_api_control_plan.Calls.{Call}
use cluster_api_control_plan.Platform.{Platform}
use cluster_api_control_plan.Run.{State, returned}
use cluster_api_control_plan.Controllers.Kubeconfig.{has_secret_named, kubeconfig_for_cluster}

has_secret_named-Among :
    (secret : Secret) (secrets : List Secret)
    → Among secret secrets
    → has_secret_named secret.name secrets ≡ true
unfolding has_secret_named
has_secret_named-Among secret [] h = absurd h
has_secret_named-Among secret (x ∷ xs) (inl e) = ground (arith, eq_iff x.name secret.name)
has_secret_named-Among secret (x ∷ xs) (inr h) = ground (arith, has_secret_named-Among secret xs h)

-- The call for the secret of the cluster itself.
abbrev pub own_secret : ObjectKey → Call
own_secret key =
    Call.get_secret (record { namespace = key.namespace; name = key.name <> "-kubeconfig" })

-- If any listed secret, of whatever namespace, has the name of the cluster's kubeconfig secret,
-- then `kubeconfigForCluster` creates none: where the cluster's own namespace has no such secret,
-- it fails with the error of the read, after three reads and nothing else.
pub kubeconfig_shadowed :
    (p : Platform) (key : ObjectKey) (s : State) (secret : Secret) (secrets : List Secret)
    (c : Cluster) (e : Error)
    → Among secret secrets
    → secret.name ≡ key.name <> "-kubeconfig"
    → p.answer s.trace Call.list_secrets ≡ ok secrets
    → p.answer (Call.list_secrets ∷ s.trace) (Call.get_cluster key) ≡ ok c
    → p.answer (Call.get_cluster key ∷ Call.list_secrets ∷ s.trace) (own_secret key) ≡ err e
    → kubeconfig_for_cluster p key s ≡ (
      returned (err e),
      record s { trace = own_secret key ∷ Call.get_cluster key ∷ Call.list_secrets ∷ s.trace },
    )
unfolding kubeconfig_for_cluster
kubeconfig_shadowed p key s secret secrets c e among named listed got refused =
    ground (arith, has_secret_named-Among secret secrets among)
