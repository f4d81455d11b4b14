-- ===== src/Calls.antt =====
-- The calls that leave the program, in the order in which Go makes them, and their replies.
use cluster_api_control_plan.Common.{ℕ, String, Bool, Option, List}
use cluster_api_control_plan.Kube.{
  Error, Res, ObjectKey, ObjectReference, OwnerReference, Machine, Cluster, Node, Secret,
  Unstructured, CloneTemplateInput, MicroK8sConfig, Pod,
}
use cluster_api_control_plan.Api.{MicroK8sControlPlane}

-- `pem.Block`.
pub record PemBlock : Type 0 where
  pub type_ : String
  pub bytes : List ℕ

-- The options of `conditions.SetAggregate` and of `patch.Helper.Patch`.
pub data MergeOption : Type 0 where
  add_source_ref : MergeOption
  with_step_counter_if : Bool → MergeOption

pub data PatchOption : Type 0 where
  with_status_observed_generation : PatchOption
  with_owned_conditions : List String → PatchOption

-- A client of the workload cluster, known by the kubeconfig that it was made from.
pub record KubernetesClient : Type 0 where
  pub kubeconfig : List ℕ

-- The certificate request of `genarateKubeconfig`, with the times in seconds.
-- `x509.ExtKeyUsage` and `x509.KeyUsage`, of which the program uses these.
pub data ExtKeyUsage : Type 0 where
  client_auth server_auth : ExtKeyUsage

pub data KeyUsage : Type 0 where
  digital_signature : KeyUsage

pub record CertificateTemplate : Type 0 where
  pub serial_number : ℕ
  pub organization : List String
  pub country : List String
  pub province : List String
  pub locality : List String
  pub street_address : List String
  pub common_name : String
  pub not_before : ℕ
  pub not_after : ℕ
  pub subject_key_id : List ℕ
  pub ext_key_usage : List ExtKeyUsage
  pub key_usage : KeyUsage

pub data Call : Type 0 where
  -- the management cluster
  get_mcp : ObjectKey → Call
  get_owner_cluster : List OwnerReference → String → Call
  new_patch_helper : MicroK8sControlPlane → Call
  patch_mcp : MicroK8sControlPlane → MicroK8sControlPlane → List PatchOption → Call
  update_mcp : MicroK8sControlPlane → Call
  list_machines : String → List (String × String) → Call
  get_machine : ObjectKey → Call
  create_machine : Machine → Call
  update_machine : Machine → Call
  delete_machine : Machine → Call
  get_external : ObjectReference → String → Call
  new_external_patch_helper : Unstructured → Call
  patch_external : Unstructured → Unstructured → Call
  clone_template : CloneTemplateInput → Call
  create_config : MicroK8sConfig → Call
  get_cluster : ObjectKey → Call
  list_secrets : Call
  get_secret : ObjectKey → Call
  create_secret : Secret → Call
  delete_secret : ObjectKey → Call
  -- the workload cluster
  get_node : KubernetesClient → String → Call
  list_nodes : KubernetesClient → Option String → Call
  update_node : KubernetesClient → Node → Call
  delete_node : KubernetesClient → String → Call
  create_pod : KubernetesClient → String → Pod → Call
  delete_pod : KubernetesClient → String → String → ℕ → Call
  close_client : KubernetesClient → Call
  -- the clock and the random sources; a key and its public half are known by a text
  sleep : ℕ → Call
  now : Call
  generate_name : String → Call
  rand_intn : ℕ → Call
  generate_key : ℕ → Call
  create_certificate : CertificateTemplate → List ℕ → String → List ℕ → Call

-- A nil error is `none`. A call that also fills the object which it is given replies with that
-- object as it is afterwards, whether it fails or not. The machine of `create_machine` and of
-- `update_machine` is not read again, but its version is a pointer into the control plane object, so
-- that Go decodes the stored version into that object: the reply leaves it out, which takes the API
-- server to store a machine's version as it was sent.
abbrev pub Reply : Call → Type 0
Reply (Call.get_mcp _) = Res MicroK8sControlPlane
Reply (Call.get_owner_cluster _ _) = Res (Option Cluster)
Reply (Call.update_mcp _) = MicroK8sControlPlane × Option Error
Reply (Call.list_machines _ _) = Res (List Machine)
Reply (Call.get_machine _) = Machine × Option Error
Reply (Call.get_external _ _) = Res Unstructured
Reply (Call.clone_template _) = Res ObjectReference
Reply (Call.create_config _) = MicroK8sConfig × Option Error
Reply (Call.get_cluster _) = Res Cluster
Reply Call.list_secrets = Res (List Secret)
Reply (Call.get_secret _) = Res Secret
Reply (Call.get_node _ _) = Res Node
Reply (Call.list_nodes _ _) = Res (List Node)
Reply (Call.create_pod _ _ _) = Res Pod
Reply (Call.close_client _) = Unit
Reply (Call.sleep _) = Unit
Reply Call.now = ℕ
Reply (Call.generate_name _) = String
Reply (Call.rand_intn _) = ℕ
Reply (Call.generate_key _) = Res String
Reply (Call.create_certificate _ _ _ _) = Res (List ℕ)
Reply _ = Option Error
