-- ===== src/Fleet/Renewal/Rounds.antt =====
-- The rounds of a rolling upgrade do what is planned, and so they bring every machine to the wanted
-- version.
use cluster_api_control_plan.Common.{ℕ, String}
use cluster_api_control_plan.Kube.{Cluster}
use cluster_api_control_plan.Api.{MicroK8sControlPlane}
use cluster_api_control_plan.Platform.{Platform}
use cluster_api_control_plan.Fleet.Sizes.{Rounds}
use cluster_api_control_plan.Fleet.Progress.{IsReady}
use cluster_api_control_plan.Fleet.Renewal.Machines.{IsRolling}

-- The object is ready for a round and asks for a rolling upgrade.
abbrev pub IsUpgrading : Platform → Cluster → String → ℕ → MicroK8sControlPlane → Type 0
IsUpgrading p cluster version d mcp = IsReady p cluster version d mcp × IsRolling mcp
