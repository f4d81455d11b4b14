-- ===== src/Api.antt =====
-- The API types of api/v1beta1: the MicroK8sControlPlane object (microk8scontrolplane_types.go),
-- the names of its conditions and reasons (conditions.go) and the group (groupversion_info.go).
use cluster_api_control_plan.Common.{ℕ, String, Bool, Option, List}
use cluster_api_control_plan.Common.Int.{ℤ}
use cluster_api_control_plan.Kube.{ObjectReference, OwnerReference, MicroK8sConfigSpec, Condition}

-- `UpgradeStrategyType` is a string type; these are its constants.
abbrev pub smart_upgrade_strategy_type : String
smart_upgrade_strategy_type = "SmartUpgrade"

abbrev pub in_place_upgrade_strategy_type : String
in_place_upgrade_strategy_type = "InPlaceUpgrade"

abbrev pub rolling_upgrade_strategy_type : String
rolling_upgrade_strategy_type = "RollingUpgrade"

abbrev pub micro_k8s_control_plane_finalizer : String
micro_k8s_control_plane_finalizer = "microk8s.controlplane.cluster.x-k8s.io"

-- `MachineTemplate`, which the specification embeds.
pub record MachineTemplate : Type 0 where
  pub infrastructure_template : ObjectReference

-- `MicroK8sControlPlaneSpec`. `replicas` is a pointer in Go.
pub record MicroK8sControlPlaneSpec : Type 0 where
  pub replicas : Option ℤ
  pub version : String
  pub machine_template : MachineTemplate
  pub upgrade_strategy : String
  pub control_plane_config : MicroK8sConfigSpec

pub record MicroK8sControlPlaneStatus : Type 0 where
  pub selector : String
  pub replicas : ℤ
  pub ready_replicas : ℤ
  pub unavailable_replicas : ℤ
  pub initialized : Bool
  pub ready : Bool
  pub bootstrapped : Bool
  pub observed_generation : ℤ
  pub conditions : List Condition

-- `MicroK8sControlPlane`, with the object metadata that the controllers read.
pub record MicroK8sControlPlane : Type 0 where
  pub name : String
  pub namespace : String
  pub uid : String
  pub annotations : List (String × String)
  pub deletion_timestamp : Option ℕ
  pub finalizers : List String
  pub owner_references : List OwnerReference
  pub spec : MicroK8sControlPlaneSpec
  pub status : MicroK8sControlPlaneStatus

-- `MicroK8sControlPlaneList`, less its metadata.
pub record MicroK8sControlPlaneList : Type 0 where
  pub items : List MicroK8sControlPlane

abbrev pub get_conditions : MicroK8sControlPlane → List Condition
get_conditions mcp = mcp.status.conditions

abbrev pub set_conditions : List Condition → MicroK8sControlPlane → MicroK8sControlPlane
set_conditions conditions mcp = record mcp {
  status = record (mcp.status) { conditions = conditions };
}

-- `GroupVersion.String()` of the API group.
abbrev pub group_version : String
group_version = "controlplane.cluster.x-k8s.io/v1beta1"

-- The condition types.
abbrev pub machines_ready_condition : String
machines_ready_condition = "MachinesReady"

abbrev pub machines_bootstrapped : String
machines_bootstrapped = "MachinesBootstrapped"

abbrev pub available_condition : String
available_condition = "Available"

abbrev pub resized_condition : String
resized_condition = "Resized"

abbrev pub control_plane_components_healthy_condition : String
control_plane_components_healthy_condition = "ControlPlaneComponentsHealthy"

abbrev pub machines_created_condition : String
machines_created_condition = "MachinesCreated"

-- No code marks this one, nor its reason.
abbrev etcd_cluster_healthy_condition : String
etcd_cluster_healthy_condition = "EtcdClusterHealthyCondition"

abbrev etcd_cluster_unhealthy_reason : String
etcd_cluster_unhealthy_reason = "EtcdClusterUnhealthy"

-- The reasons. The first one is not used.
abbrev invalid_control_plane_config_reason : String
invalid_control_plane_config_reason = "InvalidControlPlaneConfig"

abbrev pub waiting_for_machines_reason : String
waiting_for_machines_reason = "WaitingForMachines"

abbrev pub waiting_for_micro_k8s_boot_reason : String
waiting_for_micro_k8s_boot_reason = "WaitingForMicroK8sBoot"

abbrev pub scaling_up_reason : String
scaling_up_reason = "ScalingUp"

abbrev pub scaling_down_reason : String
scaling_down_reason = "ScalingDown"

abbrev pub control_plane_components_unhealthy_reason : String
control_plane_components_unhealthy_reason = "ControlPlaneComponentsUnhealthy"

abbrev pub control_plane_components_inspection_failed_reason : String
control_plane_components_inspection_failed_reason = "ControlPlaneComponentsInspectionFailed"

abbrev pub infrastructure_template_cloning_failed_reason : String
infrastructure_template_cloning_failed_reason = "InfrastructureTemplateCloningFailed"

abbrev pub bootstrap_template_cloning_failed_reason : String
bootstrap_template_cloning_failed_reason = "BootstrapTemplateCloningFailed"

abbrev pub machine_generation_failed_reason : String
machine_generation_failed_reason = "MachineGenerationFailed"
