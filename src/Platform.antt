-- ===== src/Platform.antt =====
-- What controllers/ calls and does not implement: the API servers, the clock and the random
-- sources, as calls with replies, and the functions of the imported packages, as parameters.

pub mod Laws
use cluster_api_control_plan.Common.{ℕ, String, Bool, Option, List}
use cluster_api_control_plan.Common.Int.{ℤ}
use cluster_api_control_plan.Kube.{
  Error, Res, Arg, Severity, Condition, OwnerReference, Machine, Cluster, Node, Result,
}
use cluster_api_control_plan.Api.{MicroK8sControlPlane}
use cluster_api_control_plan.Calls.{Call, Reply, PemBlock, MergeOption}

-- The answer to a call is any function of the calls made before it (the newest first), so every
-- behaviour of the servers is one such function, other clients' interference included.
pub record Platform : Type 0 where
  pub answer : List Call → (c : Call) → Reply c
  -- golang.org/x/mod/semver: `MajorMinor` and `Compare`
  pub major_minor : String → String
  pub compare_versions : String → String → ℤ
  -- fmt: `Sprintf`
  pub sprintf : String → List Arg → String
  -- sort: `Sort`, by a test `Less` on the elements
  pub sort : (Machine → Machine → Bool) → List Machine → List Machine
  -- encoding/pem: `Decode`; crypto/x509: the two parsers
  pub pem_decode : List ℕ → Option PemBlock
  pub pem_encode : PemBlock → Res (List ℕ)
  pub parse_certificate : List ℕ → Option Error
  pub parse_pkcs1_private_key : List ℕ → Option Error
  pub marshal_pkcs1_private_key : String → List ℕ
  -- time: `AddDate(years, 0, 0)`
  pub add_years : ℕ → ℕ → ℕ
  -- clientcmd: `RESTConfigFromKubeConfig`; kubernetes: `NewForConfig`
  pub rest_config_from_kubeconfig : List ℕ → Option Error
  pub new_for_config : List ℕ → Option Error
  -- cluster-api/util/conditions
  pub get_condition : String → List Condition → Option Condition
  pub has_condition : String → List Condition → Bool
  pub mark_true : String → List Condition → List Condition
  pub mark_false : String → String → Severity → String → List Arg → List Condition → List Condition
  pub set_aggregate : String → List Machine → List MergeOption → List Condition → List Condition
  pub set_summary : List String → List Condition → List Condition
  -- cluster-api/util, cluster-api/util/annotations, controllerutil
  pub endpoint_is_valid : String → ℤ → Bool
  pub lowest_non_zero_result : Result → Result → Result
  pub ensure_owner_ref : List OwnerReference → OwnerReference → List OwnerReference
  pub is_node_ready : Node → Bool
  pub is_paused : Cluster → MicroK8sControlPlane → Bool
  pub contains_finalizer : List String → String → Bool
  pub add_finalizer : List String → String → List String
  pub remove_finalizer : List String → String → List String
  -- apimachinery: `IsNotFound`, `NewAggregate`, the text of an error, a selector as a text
  pub is_not_found : Error → Bool
  pub new_aggregate : List (Option Error) → Option Error
  pub error_text : Error → String
  pub selector_string : List (String × String) → Res String
  pub exists_requirement : String → Res String
