-- ===== src/Controllers/Kubeconfig/Quiet.antt =====
-- Making a client of the workload cluster leaves machines, nodes and the control plane alone.
use cluster_api_control_plan.Common.{◌≡◌, arith, String}
use cluster_api_control_plan.Kube.{ObjectKey}
use cluster_api_control_plan.Platform.{Platform}
use cluster_api_control_plan.Run.{State}
use cluster_api_control_plan.Run.Tally.{Class, tally}
use cluster_api_control_plan.Controllers.Kubeconfig.{
  genarate_kubeconfig, create_kubeconfig, kubeconfig_for_cluster,
}

module _ (p : Platform) (k : Class) (key : ObjectKey) where
  pub tally-genarate_kubeconfig :
      (host : String) (s : State)
      → tally k (genarate_kubeconfig p key host s).1.trace ≡ tally k s.trace
  unfolding genarate_kubeconfig
  tally-genarate_kubeconfig host s = ground arith

  tally-create_kubeconfig :
      (host : String) (s : State)
      → tally k (create_kubeconfig p key host s).1.trace ≡ tally k s.trace
  unfolding create_kubeconfig
  tally-create_kubeconfig host s = ground (arith, tally-genarate_kubeconfig host s)

  pub tally-kubeconfig_for_cluster :
      (s : State) → tally k (kubeconfig_for_cluster p key s).1.trace ≡ tally k s.trace
  unfolding kubeconfig_for_cluster
  tally-kubeconfig_for_cluster s = grind (arith, tally-create_kubeconfig)
