-- ===== src/Setup.antt =====
-- The start of the process: main.go, `SetupWithManager` of the reconciler
-- (controllers/microk8scontrolplane_controller.go) and `SetupWebhookWithManager`
-- (api/v1beta1/microk8scontrolplane_webhook.go). What the libraries do in a step is a parameter.
pub mod Order
use cluster_api_control_plan.Common.{ℕ, String, Bool, false, Option, none, some, List, [], ◌∷◌}
use cluster_api_control_plan.Kube.{Error}

-- The variables of `main` that flags set.
pub record Flags : Type 0 where
  pub metrics_addr : String
  pub probe_addr : String
  pub enable_leader_election : Bool

-- `ctrl.Options` of the manager.
pub record ManagerOptions : Type 0 where
  pub metrics_bind_address : String
  pub port : ℕ
  pub health_probe_bind_address : String
  pub leader_election : Bool
  pub leader_election_id : String

-- The controller that `SetupWithManager` builds: the kind that it reconciles, the kinds that it owns
-- and watches, and how many rounds may run at once.
pub record ControllerBuild : Type 0 where
  pub reconciled : String
  pub owned : String
  pub watched : String
  pub max_concurrent_reconciles : ℕ

-- The steps that a library does, in their order; each gives an error or none.
pub data Step : Type 0 where
  add_to_scheme : String → Step
  get_config : Step
  new_manager : ManagerOptions → Step
  complete_controller : ControllerBuild → Step
  complete_webhook : String → Step
  add_healthz_check : String → Step
  add_readyz_check : String → Step
  start_manager : Step

-- How the process ends: with a status, or by a panic.
pub data Exit : Type 0 where
  status : ℕ → Exit
  panicked : Exit

pub record Libraries : Type 0 where
  pub parse : List String → Flags → Option Flags
  pub does : List Step → Step → Option Error

-- A part of the start, on the steps so far: it goes on, or the process ends.
pub data Going (A : Type 0) : Type 0 where
  on : A → Going A
  ends : Exit → Going A

abbrev pub Start : Type 0 → Type 0
Start A = List Step → Going A × List Step

infixl 5 ◌>>=◌ ◌>>◌
abbrev pub ◌>>=◌ : {A B : Type 0} → Start A → (A → Start B) → Start B
◌>>=◌ m f t = let (r, u) = m t in elim r [ on a ↦ f a u | ends e ↦ (ends e, u) ]

abbrev pub ◌>>◌ : {B : Type 0} → Start (Unit {0}) → Start B → Start B
m >> k = m >>= λ _. k

-- `utilruntime.Must`.
abbrev pub must : Option Error → Start (Unit {0})
must none t = (on tt, t)
must (some e) t = (ends panicked, t)

-- `os.Exit(1)` on an error.
abbrev pub or_exit : Option Error → Start (Unit {0})
or_exit none t = (on tt, t)
or_exit (some e) t = (ends (status 1), t)

-- The defaults of the flags.
abbrev pub default_flags : Flags
default_flags = record {
  metrics_addr = ":8082";
  probe_addr = ":8083";
  enable_leader_election = false;
}

abbrev pub manager_options : Flags → ManagerOptions
manager_options flags = record {
  metrics_bind_address = flags.metrics_addr;
  port = 9443;
  health_probe_bind_address = flags.probe_addr;
  leader_election = flags.enable_leader_election;
  leader_election_id = "microk8s-control-plane-manager-leader-election-capi";
}

module _ (l : Libraries) where
  abbrev pub try : Step → Start (Option Error)
  try step t = (on (l.does t step), step ∷ t)

  unfoldable pub init : Start (Unit {0})
  init = do
    must (← try (add_to_scheme "client-go"))
    must (← try (add_to_scheme "cluster-api"))
    must (← try (add_to_scheme "controlplane"))
    must (← try (add_to_scheme "bootstrap"))

  unfoldable pub setup_with_manager : ℕ → Start (Option Error)
  setup_with_manager max_concurrent_reconciles = try (
      complete_controller (record {
        reconciled = "MicroK8sControlPlane";
        owned = "Machine";
        watched = "Cluster";
        max_concurrent_reconciles = max_concurrent_reconciles;
      }))

  unfoldable pub setup_webhook_with_manager : Start (Option Error)
  setup_webhook_with_manager = try (complete_webhook "MicroK8sControlPlane")

  -- `main` after the flags are parsed; the last `Start` returns when the process is told to stop.
  unfoldable pub run_manager : Flags → Start Exit
  run_manager flags = do
    or_exit (← try get_config)
    or_exit (← try (new_manager (manager_options flags)))
    or_exit (← setup_with_manager 10)
    or_exit (← setup_webhook_with_manager)
    or_exit (← try (add_healthz_check "healthz"))
    or_exit (← try (add_readyz_check "readyz"))
    or_exit (← try start_manager)
    λ t. (on (status 0), t)

  -- The process on its arguments; a wrong flag ends it with status 2.
  unfoldable pub main : List String → Start Exit
  main args = init >> λ t. elim (l.parse args default_flags) [
    | none ↦ (ends (status 2), t)
    | some flags ↦ run_manager flags t
  ]
