-- ===== src/Http/Runs.antt =====
-- The handlers that create and read runs (apps/api/internal/httpapi/server.go).
pub mod Checked
pub mod Admission
use wreckr.Prelude.{
  ℕ, ℤ, pos, pos_part, String, ◌+++◌, Bool, true, false, List, [], ◌∷◌, Option, none, some, show,
  show_ℤ, quote, is_nil, is_some, ltb_ℤ, trim_space, trim_prefix, trim_suffix, has_suffix,
  if◌then◌else◌,
}
use wreckr.Platform.{Platform}
use wreckr.Event.{Time}
use wreckr.Scenario.{Scenario}
use wreckr.Report.{Report}
use wreckr.Store.{ScenarioVersionRecord, RunRecord, Memory}
use wreckr.Store.Scenarios
use wreckr.Store.Runs
use wreckr.Blob
use wreckr.Blob.{Blob}
use wreckr.Exec.{report_key}
use wreckr.Http.{
  Config, Server, Answer, answer, error, run, runs, report, raw, Step, go, stop, ◌>>=◌, fail, found,
}
use wreckr.Http.Prepare.{prepare, apply_run_guardrails}
use wreckr.Http.Execute.{Env, execute_run}

pub record CreateRunRequest : Type 0 where
  pub scenario_id : String
  pub target_id : String
  pub scenario_version_number : ℤ
  pub scenario : Option Scenario
  pub sync : Bool

abbrev pub Picked : Type 0
Picked = Scenario × Option ScenarioVersionRecord

-- The scenario of the request: its own, or that of a stored version, or that of a stored scenario.
unfoldable pub pick_stored : String → ℤ → Memory → Step Picked
pick_stored id n m =
    if is_nil id
    then fail 400 "scenario_id or scenario is required"
    else if ltb_ℤ (pos 0) n
    then (found 404 ("scenario " +++ quote id +++ " version " +++ show_ℤ n +++ " not found")
          (Scenarios.get_scenario_version id (pos_part n) m)
        >>= λ v. go (v.scenario, some v))
    else (found 404 ("scenario " +++ quote id +++ " not found") (Scenarios.get_scenario id m)
        >>= λ r. go (r.scenario, none))

unfoldable pub pick_scenario : Option Scenario → String → ℤ → Memory → Step Picked
unfolding pick_stored
pick_scenario (some sc) id n m = go (sc, none)
pick_scenario none id n m = pick_stored id n m

-- What the process has beside the store: the clock, a queue if there is one, by the error that it
-- returns for a run's id, and what surrounds an execution.
pub record Setting : Type 0 where
  pub now : Time
  pub logged : Time
  pub refused_at : Time
  pub refused_logged : Time
  pub queue : Option (String → Option String)
  pub env : Env

-- The run that an answer leaves to a goroutine.
abbrev pub Launch : Type 0
Launch = Option (String × Scenario)

pub record Created : Type 0 where
  pub server : Server
  pub answer : Answer
  pub launch : Launch

module _ (p : Platform) (c : Config) where
  -- The scenario that the run will store, with the id of its target and the version it names.
  unfoldable pub admit :
      CreateRunRequest → Memory → Step (Scenario × String × Option ScenarioVersionRecord)
  unfolding pick_scenario
  admit req m = do
    picked ← pick_scenario req.scenario (trim_space req.scenario_id) req.scenario_version_number m
    ready ← prepare p c.guardrails m picked.0 (trim_space req.target_id)
    go (apply_run_guardrails c.guardrails ready.0, ready.1, picked.1)

  unfoldable pub enqueued : Setting → RunRecord → Option String → Server → Created
  enqueued w r none s = record { server = s; answer = answer 202 (run (some r)); launch = none }
  enqueued w r (some e) s =
      let message = "enqueue run: " +++ e in
      record {
        server = record s {
          store = Runs.error_run w.refused_at w.refused_logged message r.id s.store;
        };
        answer = answer 503 (error message);
        launch = none;
      }

  -- Without a queue: the handler executes the run itself, or leaves it to a goroutine.
  unfoldable pub direct : Setting → Bool → RunRecord → Server → Created
  direct w true r s =
      let t = execute_run c w.env r.id r.scenario s in
      record { server = t; answer = answer 201 (run (Runs.get_run r.id t.store)); launch = none }
  direct w false r s = record {
    server = s;
    answer = answer 202 (run (some r));
    launch = some (r.id, r.scenario);
  }

  -- What follows CreateRun.
  unfoldable pub dispatch :
      Option (String → Option String) → Setting → Bool → RunRecord → Server → Created
  unfolding enqueued direct
  dispatch (some enqueue) w sync r s = enqueued w r (enqueue r.id) s
  dispatch none w sync r s = direct w sync r s

  unfoldable pub create :
      Setting
      → CreateRunRequest
      → Scenario × String × Option ScenarioVersionRecord
      → Server
      → Created
  create w req (sc, target_id, version) s =
      let (m, r) =
        Runs.create_run w.now w.logged (trim_space req.scenario_id) target_id sc version s.store in
      dispatch w.queue w req.sync r (record s { store = m })

  unfoldable pub decided :
      Setting
      → CreateRunRequest
      → Server
      → Step (Scenario × String × Option ScenarioVersionRecord)
      → Created
  decided w req s (stop a) = record { server = s; answer = a; launch = none }
  decided w req s (go ready) = create w req ready s

  -- `bad` is the decoder's error.
  unfoldable pub post_run : Setting → Option String → CreateRunRequest → Server → Created
  unfolding decided
  post_run w (some e) req s = record { server = s; answer = answer 400 (error e); launch = none }
  post_run w none req s = decided w req s (admit req s.store)

unfoldable pub list_runs : Memory → Answer
list_runs m = answer 200 (runs (Runs.list_runs m))

-- The stored report, where the object store has none.
own_report : Option Report → Answer
own_report none = answer 409 (error "report is not ready")
own_report (some r) = answer 200 (report r)

filed_report : Blob.GetResult → RunRecord → Answer
unfolding own_report
filed_report (Blob.ok bytes) r = answer 200 (raw bytes)
filed_report (Blob.not_found e) r = own_report r.report

unfoldable pub run_report : Option Blob → String → RunRecord → Answer
unfolding filed_report own_report
run_report none id r = own_report r.report
run_report (some b) id r = filed_report (Blob.get (report_key id) b) r

found_run : Option Blob → Bool → String → Option RunRecord → Answer
unfolding run_report
found_run blob wants_report id none = answer 404 (error ("run " +++ quote id +++ " not found"))
found_run blob wants_report id (some r) =
    if wants_report then run_report blob id r else answer 200 (run (some r))

-- One handler for a run and for its report, told apart by the end of the path.
unfoldable pub get_run : Option Blob → String → Memory → Answer
unfolding found_run
get_run blob url_path m =
    let path = trim_prefix url_path "/v1/runs/" in
    let id = trim_suffix path "/report" in
    found_run blob (has_suffix path "/report") id (Runs.get_run id m)
