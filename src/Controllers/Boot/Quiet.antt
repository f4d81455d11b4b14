-- ===== src/Controllers/Boot/Quiet.antt =====
-- Which calls `bootControlPlane` makes, and how often.
use cluster_api_control_plan.Common.{◌≡◌, arith, some, Bool, true, false, ◌≤◌, ◌+◌, String, List}
use cluster_api_control_plan.Kube.{MicroK8sConfigSpec, Machine, Cluster, ObjectReference}
use cluster_api_control_plan.Api.{MicroK8sControlPlane}
use cluster_api_control_plan.Platform.{Platform}
use cluster_api_control_plan.Run.{State}
use cluster_api_control_plan.Run.Tally.{Class, add, tally}
use cluster_api_control_plan.Controllers.Boot.{
  generate_micro_k8s_config, place, create_machine, boot_control_plane,
}

-- The kinds of calls that a boot makes.
abbrev pub boots : Class → Bool
boots Class.machine_creation = true
boots Class.template_clone = true
boots Class.config_creation = true
boots _ = false

module _ (p : Platform) where
  tally-generate :
      (k : Class) (spec : MicroK8sConfigSpec) (s : State)
      → boots k ≡ false
      → tally k (generate_micro_k8s_config p spec s).1.trace ≡ tally k s.trace
  unfolding generate_micro_k8s_config
  tally-generate k spec s h = ground arith

  pub tally-place :
      (k : Class) (domains : List String) (m : Machine) (s : State)
      → tally k (place p domains m s).1.trace ≡ tally k s.trace
  unfolding place
  tally-place k domains m s = ground arith

  tally-create_machine :
      (k : Class) (mcp : MicroK8sControlPlane) (cluster : Cluster) (i b : ObjectReference)
      (s : State)
      → boots k ≡ false
      → tally k (create_machine p mcp cluster i b s).1.trace ≡ tally k s.trace
  unfolding create_machine
  tally-create_machine k mcp cluster i b s h = grind (arith, tally-place)

  tally-create_machine_le :
      (k : Class) (mcp : MicroK8sControlPlane) (cluster : Cluster) (i b : ObjectReference)
      (s : State)
      → tally k (create_machine p mcp cluster i b s).1.trace
        ≤ tally k s.trace + add (some Class.machine_creation) k 0
  unfolding create_machine
  tally-create_machine_le k mcp cluster i b s = grind (arith, tally-place)

  pub tally-boot_control_plane :
      (k : Class) (first : Bool) (s : State)
      → boots k ≡ false
      → tally k (boot_control_plane p first s).1.trace ≡ tally k s.trace
  unfolding boot_control_plane
  tally-boot_control_plane k first s h = grind (
    arith,
    tally-generate,
    λ (mcp : MicroK8sControlPlane) (c : Cluster) (i b : ObjectReference) (t : State).
        tally-create_machine k mcp c i b t h,
  )

  pub tally-boot_control_plane_le :
      (k : Class) (first : Bool) (s : State)
      → tally k (boot_control_plane p first s).1.trace ≤ tally k s.trace + 1
  unfolding boot_control_plane generate_micro_k8s_config
  tally-boot_control_plane_le k first s = grind (arith, tally-create_machine_le)
