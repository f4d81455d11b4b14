-- ===== src/Tests/World.antt =====
-- A small world: servers that answer from a scenario, and plain versions of the imported functions.
use cluster_api_control_plan.Common.{
  ℕ, String, ◌<>◌, refl, Bool, true, false, not, Option, none, some, List, [], ◌∷◌, is_some, str_eq,
  if◌then◌else◌,
}
use cluster_api_control_plan.Common.Int.{ℤ, pos}
use cluster_api_control_plan.Kube.{
  api_error, Res, ok, err, status_true, status_false, severity_none, Condition, ObjectReference,
  Machine, Cluster, Node, Secret, Pod,
}
use cluster_api_control_plan.Api.{MicroK8sControlPlane, micro_k8s_control_plane_finalizer}
use cluster_api_control_plan.Calls.{Call, Reply}
use cluster_api_control_plan.Platform.{Platform}
use cluster_api_control_plan.Platform.Laws.{MarksConditions}
use cluster_api_control_plan.Run.{State}

-- What varies between the tests.
pub record Scenario : Type 0 where
  pub finalizers : List String
  pub deletion_timestamp : Option ℕ
  pub replicas : ℤ
  pub machines : List Machine
  pub secrets : List Secret
  pub secret : Res Secret
  pub node : Res Node
  pub pod : Res Pod

abbrev pub get : String → List Condition → Option Condition
get t [] = none
get t (c ∷ cs) = if str_eq t c.type_ then some c else get t cs

abbrev pub reference : ObjectReference
reference = record {
  api_version = "v1";
  kind = "Template";
  name = "t";
  namespace = "ns";
  uid = "7";
}

abbrev pub machine : String → ℕ → Machine
machine name created = record {
  name = name;
  namespace = "ns";
  labels = [];
  owner_references = [];
  creation_timestamp = created;
  deletion_timestamp = none;
  cluster_name = "c";
  version = some "v1.25";
  provider_id = some "id";
  failure_domain = none;
  infrastructure_ref = reference;
  bootstrap_ref = none;
  node_ref = some name;
  addresses = (record { type_ = "InternalIP"; address = "10.0.0.1" }) ∷ [];
  conditions = [];
}

abbrev pub node : String → Node
node version = record {
  name = "a";
  annotations = [];
  provider_id = "";
  addresses = (record { type_ = "InternalIP"; address = "10.0.0.1" }) ∷ [];
  kubelet_version = version;
  conditions = [];
}

abbrev pub secret_in : String → Secret
secret_in namespace = record {
  name = "c-kubeconfig";
  namespace = namespace;
  labels = [];
  entries = ("value", 1 ∷ []) ∷ [];
}

abbrev pub a_cluster : Cluster
a_cluster = record {
  name = "c";
  namespace = "ns";
  uid = "1";
  paused = false;
  endpoint_host = "h";
  endpoint_port = pos 6443;
  control_plane_ref = none;
  infrastructure_ready = true;
  failure_domains = some ("east" ∷ "west" ∷ []);
  conditions = [];
}

abbrev pub control_plane : Scenario → MicroK8sControlPlane
control_plane sc = record {
  name = "cp";
  namespace = "ns";
  uid = "2";
  annotations = [];
  deletion_timestamp = sc.deletion_timestamp;
  finalizers = sc.finalizers;
  owner_references = [];
  spec = record {
    replicas = some sc.replicas;
    version = "v1.25";
    machine_template = record { infrastructure_template = reference };
    upgrade_strategy = "";
    control_plane_config = record { content = "" };
  };
  status = record {
    selector = "";
    replicas = pos 0;
    ready_replicas = pos 0;
    unavailable_replicas = pos 0;
    initialized = false;
    ready = false;
    bootstrapped = true;
    observed_generation = pos 0;
    conditions = [];
  };
}

abbrev pub answer : Scenario → List Call → (c : Call) → Reply c
answer sc trace (Call.get_mcp key) = ok (control_plane sc)
answer sc trace (Call.get_owner_cluster refs namespace) = ok (some a_cluster)
answer sc trace (Call.update_mcp mcp) = (mcp, none)
answer sc trace (Call.list_machines namespace labels) = ok sc.machines
answer sc trace (Call.get_machine key) = (machine "a" 1, none)
answer sc trace (Call.get_external ref namespace) =
    ok (record { owner_references = []; content = "" })
answer sc trace (Call.clone_template input) = ok reference
answer sc trace (Call.create_config config) = (config, none)
answer sc trace (Call.get_cluster key) = ok a_cluster
answer sc trace Call.list_secrets = ok sc.secrets
answer sc trace (Call.get_secret key) = sc.secret
answer sc trace (Call.get_node client name) = sc.node
answer sc trace (Call.list_nodes client selector) = ok []
answer sc trace (Call.create_pod client namespace pod) = sc.pod
answer sc trace (Call.close_client client) = tt
answer sc trace (Call.sleep n) = tt
answer sc trace Call.now = 0
answer sc trace (Call.generate_name base) = base <> "x"
answer sc trace (Call.rand_intn n) = 0
answer sc trace (Call.generate_key bits) = ok "key"
answer sc trace (Call.create_certificate cert ca key block) = ok []
answer sc trace _ = none

abbrev pub insert : (Machine → Machine → Bool) → Machine → List Machine → List Machine
insert less m [] = m ∷ []
insert less m (n ∷ ms) = if less n m then n ∷ insert less m ms else m ∷ n ∷ ms

abbrev pub sort : (Machine → Machine → Bool) → List Machine → List Machine
sort less [] = []
sort less (m ∷ ms) = insert less m (sort less ms)

abbrev pub world : Scenario → Platform
world sc = record {
  answer = answer sc;
  major_minor = λ v. v;
  compare_versions = λ v w. if str_eq v w then pos 0 else pos 1;
  sprintf = λ format args. format;
  sort = sort;
  pem_decode = λ bytes. none;
  pem_encode = λ block. ok block.bytes;
  parse_certificate = λ bytes. none;
  parse_pkcs1_private_key = λ bytes. none;
  marshal_pkcs1_private_key = λ key. [];
  add_years = λ t n. t;
  rest_config_from_kubeconfig = λ config. none;
  new_for_config = λ config. none;
  get_condition = get;
  has_condition = λ t cs. is_some (get t cs);
  mark_true = λ t cs.
      (record {
        type_ = t;
        status = status_true;
        severity = severity_none;
        reason = "";
        message = "";
      })
      ∷ cs;
  mark_false = λ t reason severity format args cs.
      (record {
        type_ = t;
        status = status_false;
        severity = severity;
        reason = reason;
        message = format;
      })
      ∷ cs;
  set_aggregate = λ t machines options cs. cs;
  set_summary = λ types cs. cs;
  endpoint_is_valid = λ host port. not (str_eq host "");
  lowest_non_zero_result = λ a b. if a.requeue then a else b;
  ensure_owner_ref = λ refs ref. ref ∷ refs;
  is_node_ready = λ node. true;
  is_paused = λ cluster mcp. cluster.paused;
  contains_finalizer = λ fs f. elim fs [ [] ↦ false | g ∷ gs ↦ str_eq g f ];
  add_finalizer = λ fs f. f ∷ fs;
  remove_finalizer = λ fs f. [];
  is_not_found = λ e. true;
  new_aggregate = λ errors. none;
  error_text = λ e. "error";
  selector_string = λ labels. ok "";
  exists_requirement = λ label. ok label;
}

pub world-MarksConditions : (sc : Scenario) → MarksConditions (world sc)
world-MarksConditions sc = record {
  has-get = λ t cs. refl;
  get-mark_true = λ t u cs. refl;
  get-mark_false = λ t reason severity format args u cs. refl;
}

abbrev pub start : Scenario → State
start sc = record { mcp = control_plane sc; cluster = a_cluster; trace = [] }

-- Four machines and three wanted replicas, with everything in place.
abbrev pub four : Scenario
four = record {
  finalizers = micro_k8s_control_plane_finalizer ∷ [];
  deletion_timestamp = none;
  replicas = pos 3;
  machines = machine "b" 2 ∷ machine "a" 1 ∷ machine "d" 4 ∷ machine "c" 3 ∷ [];
  secrets = secret_in "ns" ∷ [];
  secret = ok (secret_in "ns");
  node = ok (node "v1.24");
  pod = err (api_error "Forbidden" "no pods");
}
