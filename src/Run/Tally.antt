-- ===== src/Run/Tally.antt =====
-- How often a kind of call stands in a trace.
use cluster_api_control_plan.Common.{
  ℕ, suc, arith, ◌≤◌, Bool, true, false, Option, none, some, List, [], ◌∷◌, if◌then◌else◌,
}
use cluster_api_control_plan.Calls.{Call}

-- The calls that change the set of machines, nodes and objects of a control plane.
pub data Class : Type 0 where
  machine_creation machine_deletion node_deletion machine_update : Class
  template_clone config_creation mcp_update mcp_patch : Class

abbrev pub kind_of : Call → Option Class
kind_of (Call.create_machine _) = some Class.machine_creation
kind_of (Call.delete_machine _) = some Class.machine_deletion
kind_of (Call.delete_node _ _) = some Class.node_deletion
kind_of (Call.update_machine _) = some Class.machine_update
kind_of (Call.clone_template _) = some Class.template_clone
kind_of (Call.create_config _) = some Class.config_creation
kind_of (Call.update_mcp _) = some Class.mcp_update
kind_of (Call.patch_mcp _ _ _) = some Class.mcp_patch
kind_of _ = none

abbrev pub same : Class → Class → Bool
same Class.machine_creation Class.machine_creation = true
same Class.machine_deletion Class.machine_deletion = true
same Class.node_deletion Class.node_deletion = true
same Class.machine_update Class.machine_update = true
same Class.template_clone Class.template_clone = true
same Class.config_creation Class.config_creation = true
same Class.mcp_update Class.mcp_update = true
same Class.mcp_patch Class.mcp_patch = true
same _ _ = false

abbrev pub add : Option Class → Class → ℕ → ℕ
add none k n = n
add (some j) k n = if same j k then suc n else n

-- The number of calls of a kind.
abbrev pub tally : Class → List Call → ℕ
tally k [] = 0
tally k (c ∷ trace) = add (kind_of c) k (tally k trace)

pub tally_mono : (k : Class) (c : Call) (trace : List Call) → tally k trace ≤ tally k (c ∷ trace)
tally_mono k c trace = ground arith
