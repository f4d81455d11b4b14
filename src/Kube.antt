-- ===== src/Kube.antt =====
-- The Kubernetes and Cluster API objects that the controllers read and build. They are plain data
-- of packages outside this repository; only the fields that controllers/ touches are kept, and
-- the opaque ones (an infrastructure object's content, a bootstrap spec) are a text that is copied.
use cluster_api_control_plan.Common.{ℕ, String, Bool, Option, List}
use cluster_api_control_plan.Common.Int.{ℤ}

-- A Go `error`: one of the API server or of another package, with its reason and its text;
-- `fmt.Errorf` and `errors.New`, with the format and its arguments; `errors.Wrap`.
pub data Error : Type 0 where
  api_error : String → String → Error
  errorf : String → List String → Error
  wrap : Error → String → Error

-- A Go pair `(value, error)` of which the code uses the value only when the error is nil.
pub data Res (A : Type 0) : Type 0 where
  ok : A → Res A
  err : Error → Res A

-- An argument of a format: `%d` or `%s`.
pub data Arg : Type 0 where
  num : ℤ → Arg
  text : String → Arg

-- `corev1.ConditionStatus` and `clusterv1.ConditionSeverity`.
pub data ConditionStatus : Type 0 where
  status_true status_false status_unknown : ConditionStatus

pub data Severity : Type 0 where
  severity_error severity_warning severity_info severity_none : Severity

-- `clusterv1.Condition`, less its transition time.
pub record Condition : Type 0 where
  pub type_ : String
  pub status : ConditionStatus
  pub severity : Severity
  pub reason : String
  pub message : String

-- `client.ObjectKey`.
pub record ObjectKey : Type 0 where
  pub namespace : String
  pub name : String

-- `metav1.OwnerReference`; the two flags are pointers in Go.
pub record OwnerReference : Type 0 where
  pub api_version : String
  pub kind : String
  pub name : String
  pub uid : String
  pub controller : Option Bool
  pub block_owner_deletion : Option Bool

-- `corev1.ObjectReference`.
pub record ObjectReference : Type 0 where
  pub api_version : String
  pub kind : String
  pub name : String
  pub namespace : String
  pub uid : String

-- `clusterv1.MachineAddress` and `corev1.NodeAddress`.
pub record Address : Type 0 where
  pub type_ : String
  pub address : String

-- `clusterv1.Machine`. Times are seconds; `node_ref` is the name in `Status.NodeRef`.
pub record Machine : Type 0 where
  pub name : String
  pub namespace : String
  pub labels : List (String × String)
  pub owner_references : List OwnerReference
  pub creation_timestamp : ℕ
  pub deletion_timestamp : Option ℕ
  pub cluster_name : String
  pub version : Option String
  pub provider_id : Option String
  pub failure_domain : Option String
  pub infrastructure_ref : ObjectReference
  pub bootstrap_ref : Option ObjectReference
  pub node_ref : Option String
  pub addresses : List Address
  pub conditions : List Condition

-- `clusterv1.Cluster`. The failure domains are a map: its keys, in the order in which the loop
-- over the map meets them; `none` is the nil map.
pub record Cluster : Type 0 where
  pub name : String
  pub namespace : String
  pub uid : String
  pub paused : Bool
  pub endpoint_host : String
  pub endpoint_port : ℤ
  pub control_plane_ref : Option ObjectReference
  pub infrastructure_ready : Bool
  pub failure_domains : Option (List String)
  pub conditions : List Condition

-- `corev1.Node`.
pub record Node : Type 0 where
  pub name : String
  pub annotations : List (String × String)
  pub provider_id : String
  pub addresses : List Address
  pub kubelet_version : String
  pub conditions : List Condition

-- `corev1.Secret`: the bytes under each key.
pub record Secret : Type 0 where
  pub name : String
  pub namespace : String
  pub labels : List (String × String)
  pub entries : List (String × List ℕ)

-- An object of an infrastructure provider, `unstructured.Unstructured`.
pub record Unstructured : Type 0 where
  pub owner_references : List OwnerReference
  pub content : String

-- `external.CloneTemplateInput`, less the client.
pub record CloneTemplateInput : Type 0 where
  pub template_ref : ObjectReference
  pub namespace : String
  pub owner_ref : OwnerReference
  pub cluster_name : String
  pub labels : List (String × String)

-- `bootstrapv1beta1.MicroK8sConfigSpec`, which the controllers only copy.
pub record MicroK8sConfigSpec : Type 0 where
  pub content : String

-- `bootstrapv1beta1.MicroK8sConfig`.
pub record MicroK8sConfig : Type 0 where
  pub name : String
  pub namespace : String
  pub uid : String
  pub owner_references : List OwnerReference
  pub spec : MicroK8sConfigSpec

-- `corev1.Pod`, as far as `createUpgradePod` sets it.
pub record Pod : Type 0 where
  pub name : String
  pub node_name : String
  pub container_name : String
  pub image : String
  pub command : List String
  pub args : List String
  pub privileged : Bool
  pub run_as_user : ℤ
  pub volume_mount : String × String
  pub host_path_volume : String × String

-- `ctrl.Result`, its duration in seconds.
pub record Result : Type 0 where
  pub requeue : Bool
  pub requeue_after : ℕ
