-- ===== src/Controllers/Kubeconfig.antt =====
-- controllers/configs.go: the client of the workload cluster, and the kubeconfig secret that it is
-- made from.
pub mod Text
pub mod Generated
pub mod Quiet
pub mod Shadowed
use cluster_api_control_plan.Common.{
  ℕ, String, ◌<>◌, Bool, true, false, not, ◌&&◌, ◌||◌, Option, none, some, List, [], ◌∷◌, str_eq,
  if◌then◌else◌,
}
use cluster_api_control_plan.Kube.{Error, errorf, Res, ok, err, ObjectKey, Secret}
use cluster_api_control_plan.Calls.{
  Call, PemBlock, KubernetesClient, CertificateTemplate, client_auth, server_auth,
  digital_signature,
}
use cluster_api_control_plan.Platform.{Platform}
use cluster_api_control_plan.Run.{
  Stmt, Func, ◌>>=◌, ◌>>◌, pass, pure, return, or_return, check, when, func, invoke, call,
}
use Text.{utf8, fill_template}

-- A read of a Go map: the zero value, no bytes, at a missing key.
unfoldable pub entry : String → List (String × List ℕ) → List ℕ
entry k [] = []
entry k ((j, v) ∷ m) = if str_eq j k then v else entry k m

-- The loop over the listed secrets, in which `found` becomes true.
unfoldable pub has_secret_named : String → List Secret → Bool
has_secret_named name [] = false
has_secret_named name (s ∷ secrets) = str_eq s.name name || has_secret_named name secrets

-- The test on a decoded block: nil, or of another type.
unfoldable pub block_of_type : String → Option PemBlock → Option PemBlock
block_of_type t none = none
block_of_type t (some b) = if str_eq b.type_ t then some b else none

-- A nil pointer ends the function with an error.
abbrev pub block_or_return : {R : Type 0} → Option PemBlock → R → Stmt R PemBlock
block_or_return none r = return r
block_or_return (some b) r = pure b

abbrev pub certificate_template : ℕ → ℕ → CertificateTemplate
certificate_template not_before not_after = record {
  serial_number = 2019;
  organization = "admin" ∷ "system:masters" ∷ [];
  country = "GB" ∷ [];
  province = "" ∷ [];
  locality = "Canonical" ∷ [];
  street_address = "Canonical" ∷ [];
  common_name = "admin";
  not_before = not_before;
  not_after = not_after;
  subject_key_id = 1 ∷ 2 ∷ 3 ∷ 4 ∷ 6 ∷ [];
  ext_key_usage = client_auth ∷ server_auth ∷ [];
  key_usage = digital_signature;
}

module _ (p : Platform) where
  unfoldable pub genarate_kubeconfig : ObjectKey → String → Func (Res (List ℕ))
  genarate_kubeconfig cluster host = func do
    let key : ObjectKey = record { namespace = cluster.namespace; name = cluster.name <> "-ca" }
    ca ← or_return (← call p (Call.get_secret key)) err
    let crt = entry "crt" ca.entries
    ca_cert_block ←
        block_or_return (block_of_type "CERTIFICATE" (p.pem_decode crt))
          (err (errorf "failed to decode CA certificate" []))
    check (p.parse_certificate ca_cert_block.bytes) err
    block ←
        block_or_return (block_of_type "RSA PRIVATE KEY" (p.pem_decode (entry "key" ca.entries)))
          (err (errorf "failed to decode CA key" []))
    check (p.parse_pkcs1_private_key block.bytes) err
    not_before ← call p Call.now
    later ← call p Call.now
    let cert = certificate_template not_before (p.add_years later 10)
    private_key ← or_return (← call p (Call.generate_key 2048)) err
    let request = Call.create_certificate cert ca_cert_block.bytes private_key block.bytes
    cert_bytes ← or_return (← call p request) err
    cert_pem ← or_return (p.pem_encode (record { type_ = "CERTIFICATE"; bytes = cert_bytes })) err
    let key_bytes = p.marshal_pkcs1_private_key private_key
    key_pem ← or_return (p.pem_encode (record { type_ = "RSA PRIVATE KEY"; bytes = key_bytes })) err
    pure (ok (fill_template (utf8 host) crt cert_pem key_pem))

  -- The secret that `kubeconfigForCluster` creates.
  abbrev pub config_secret : ObjectKey → List ℕ → Secret
  config_secret cluster kubeconfig = record {
    name = cluster.name <> "-kubeconfig";
    namespace = cluster.namespace;
    labels = ("cluster.x-k8s.io/cluster-name", cluster.name) ∷ [];
    entries = ("value", kubeconfig) ∷ [];
  }

  -- The branch that writes a missing kubeconfig secret.
  unfoldable pub create_kubeconfig : ObjectKey → String → Stmt (Res KubernetesClient) (Unit {0})
  create_kubeconfig cluster host = do
    kubeconfig ← or_return (← invoke (genarate_kubeconfig cluster host)) err
    check (← call p (Call.create_secret (config_secret cluster kubeconfig))) err

  unfoldable pub kubeconfig_for_cluster : ObjectKey → Func (Res KubernetesClient)
  kubeconfig_for_cluster cluster = func do
    secrets ← or_return (← call p Call.list_secrets) err
    let found = has_secret_named (cluster.name <> "-kubeconfig") secrets
    c ← or_return (← call p (Call.get_cluster cluster)) err
    when (not found && p.endpoint_is_valid c.endpoint_host c.endpoint_port)
        (create_kubeconfig cluster c.endpoint_host)
    let key : ObjectKey = record {
      namespace = cluster.namespace;
      name = cluster.name <> "-kubeconfig";
    }
    secret ← or_return (← call p (Call.get_secret key)) err
    let config = entry "value" secret.entries
    check (p.rest_config_from_kubeconfig config) err
    check (p.new_for_config config) err
    pure (ok (record { kubeconfig = config }))
