-- ===== src/Store.antt =====
-- The control plane's store: its records, and the state of the memory implementation
-- (apps/api/internal/store/memory.go). The operations are in the modules below. Each method holds
-- the store's lock from its first line to its return, so each is one function on the state.
pub mod Targets
pub mod Scenarios
pub mod Events
pub mod Runs
pub mod Op
pub mod Later
pub mod Shared
pub mod History
pub mod Effect
pub mod Log
pub mod Sound
pub mod Versions
pub mod Ending
pub mod Cancel
use wreckr.Prelude.{ℕ, String, List, [], Option, none, some, Bool, true, false, Dict, lookup}
use wreckr.Event.{Time, Event}
use wreckr.Scenario.{Scenario, Headers}
use wreckr.Report.{Report}

-- `other` is a status that a database row may hold and the program does not know.
pub data RunStatus : Type 0 where
  queued running passed failed errored canceled : RunStatus
  other : String → RunStatus

-- `unset` is the empty string.
pub data TargetEnvironment : Type 0 where
  unset local development staging production : TargetEnvironment
  other : String → TargetEnvironment

pub record TargetRecord : Type 0 where
  pub id : String
  pub name : String
  pub base_url : String
  pub environment : TargetEnvironment
  pub description : String
  pub headers : Headers
  pub created_at : Option Time
  pub updated_at : Option Time

pub record ScenarioRecord : Type 0 where
  pub id : String
  pub scenario : Scenario
  pub current_version_id : String
  pub current_version_number : ℕ
  pub created_at : Time

pub record ScenarioVersionRecord : Type 0 where
  pub id : String
  pub scenario_id : String
  pub version_number : ℕ
  pub scenario : Scenario
  pub created_at : Time

pub record RunRecord : Type 0 where
  pub id : String
  pub target_id : String
  pub scenario_id : String
  pub scenario_version_id : String
  pub scenario_version_number : ℕ
  pub status : RunStatus
  pub scenario : Scenario
  pub report : Option Report
  pub error : String
  pub created_at : Time
  pub started_at : Option Time
  pub finished_at : Option Time

pub record Memory : Type 0 where
  pub targets : Dict TargetRecord
  pub scenarios : Dict ScenarioRecord
  pub scenario_versions : Dict (List ScenarioVersionRecord)
  pub runs : Dict RunRecord
  pub run_events : Dict (List Event)

unfoldable pub new_memory : Memory
new_memory = record {
  targets = [];
  scenarios = [];
  scenario_versions = [];
  runs = [];
  run_events = [];
}

-- A missing key of a map of slices reads as the nil slice.
abbrev pub or_nil {ℓ} : {A : Type ℓ} → Option (List A) → List A
or_nil none = []
or_nil (some xs) = xs

-- m.runEvents[id] and m.scenarioVersions[id]
unfoldable pub events_of : Memory → String → List Event
events_of m id = or_nil (lookup id m.run_events)

unfoldable pub versions_of : Memory → String → List ScenarioVersionRecord
versions_of m id = or_nil (lookup id m.scenario_versions)

unfoldable pub is_cancelable : RunStatus → Bool
is_cancelable queued = true
is_cancelable running = true
is_cancelable _ = false

unfoldable pub is_terminal : RunStatus → Bool
is_terminal passed = true
is_terminal failed = true
is_terminal errored = true
is_terminal canceled = true
is_terminal _ = false

-- string(status)
unfoldable pub status_text : RunStatus → String
status_text queued = "queued"
status_text running = "running"
status_text passed = "passed"
status_text failed = "failed"
status_text errored = "errored"
status_text canceled = "canceled"
status_text (other s) = s
