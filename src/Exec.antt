-- ===== src/Exec.antt =====
-- The worker's executor of one run (apps/api/internal/runexec/executor.go). It shares the store with
-- other callers, who may write between any two of its own calls.
pub mod Settles
pub mod Outcome
pub mod Alone
pub mod Interrupted
use wreckr.Prelude.{
  ℕ, ℤ, pos, String, ◌+++◌, ◌==◌, List, [], ◌∷◌, ◌++◌, Option, none, some, Bool, true, false, ◌||◌,
  not, any, leb_ℤ, if◌then◌else◌,
}
use wreckr.Value.{Float64}
use wreckr.Event.{Time}
use wreckr.Scenario.{other, Scenario}
use wreckr.Report
use wreckr.Report.{Report, Summary, LatencyStats}
use wreckr.Store.{RunStatus, queued, running, passed, failed, errored, canceled, RunRecord, Memory}
use wreckr.Store.Events.{is_run_cancel_requested}
use wreckr.Store.Runs.{get_run, mark_run_started, complete_run, cancel_run, error_run}
use wreckr.Store.Op.{Op, apply, apply_all}
use wreckr.Blob.{Blob, put}

-- What happens in one step while the run executes: another caller's or the runner's own write to the
-- store, or a tick of the goroutine that polls for a cancel request.
pub data Tick : Type 0 where
  write : Op → Tick
  poll : Tick

-- The surroundings of one execution: the writes of others between its calls, the readings of the
-- clock, the JSON encoder, and the runner, an interface that the executor is given.
pub record Env : Type 0 where
  pub before_check : List Op
  pub before_start : List Op
  pub after_start : List Op
  pub during : List Tick
  pub before_test : List Op
  pub before_end : List Op
  pub started_at : Time
  pub started_logged : Time
  pub made_at : Time
  pub ended_at : Time
  pub ended_logged : Time
  pub timeout : ℤ
  pub marshal : Report → Option String
  pub run : ℤ → Scenario → Report × Option String

pub record World : Type 0 where
  pub store : Memory
  pub blob : Option Blob

zero_float : Float64
zero_float = record { bits = 0 }

-- The zero value of report.Summary.
unfoldable pub zero_summary : Summary
unfolding zero_float
zero_summary = record {
  total_requests = 0;
  failed_requests = 0;
  error_rate = zero_float;
  status_codes = [];
  latency = record {
    min_ms = zero_float;
    avg_ms = zero_float;
    p50_ms = zero_float;
    p95_ms = zero_float;
    p99_ms = zero_float;
    max_ms = zero_float;
  };
}

unfoldable pub canceled_report : Time → String → String → String → Report
unfolding zero_summary
canceled_report now id scenario_name message = record {
  run_id = id;
  scenario = scenario_name;
  scenario_version_id = "";
  scenario_version_number = 0;
  status = Report.canceled;
  started_at = now;
  finished_at = now;
  duration_ms = zero_float;
  summary = zero_summary;
  thresholds = [];
  invariants = [];
  failures = if message == "" then [] else message ∷ [];
  responses = [];
}

unfoldable pub append_if_missing : List String → String → List String
append_if_missing values value =
    if any (λ existing. existing == value) values then values else values ++ value ∷ []

-- The key of a run's report.
unfoldable pub report_key : String → String
report_key id = "runs/" +++ id +++ "/report.json"

upload_to : Option String → String → Option Blob → Option Blob
upload_to raw id none = none
upload_to none id (some b) = some b
upload_to (some raw) id (some b) = some (put (report_key id) raw b)

-- Nothing without an object store or when encoding fails; the result of Put is ignored.
unfoldable pub upload_report :
    (Report → Option String) → String → Report → Option Blob → Option Blob
unfolding upload_to report_key
upload_report marshal id rep blob = upload_to (marshal rep) id blob

-- The poll stops at its first success, and the flag stays set.
unfoldable pub tick : String → Tick → Memory × Bool → Memory × Bool
tick id (write op) (m, flag) = (apply op m, flag)
tick id poll (m, flag) = (m, flag || is_run_cancel_requested id m)

unfoldable pub run_ticks : String → List Tick → Memory × Bool → Memory × Bool
unfolding tick
run_ticks id [] s = s
run_ticks id (t ∷ ts) s = run_ticks id ts (tick id t s)

-- timeout <= 0 means five minutes.
unfoldable pub run_timeout : ℤ → ℤ
run_timeout t = if leb_ℤ t (pos 0) then pos 300000000000 else t

-- `run %q not found`, `run %q cannot execute from status %q`, or the runner's own error.
pub data ExecError : Type 0 where
  run_not_found : String → ExecError
  bad_status : String → String → ExecError
  run_error : String → ExecError

is_queued : RunStatus → Bool
is_queued queued = true
is_queued _ = false

is_running : RunStatus → Bool
is_running running = true
is_running _ = false

pub still_running : Option RunRecord → Bool
unfolding is_running
still_running none = false
still_running (some r) = is_running r.status

-- The report that is stored for a run that was canceled while it executed.
unfoldable pub stopped_report : Time → String → Scenario → Report → Option String → Report
unfolding append_if_missing
stopped_report now id sc rep none = record rep {
  failures = append_if_missing rep.failures "run canceled by user";
}
stopped_report now id sc rep (some err) =
    let made = canceled_report now id sc.name err in
    record made { failures = append_if_missing made.failures "run canceled by user" }

-- The end of Execute: what the store and the object store get, and the result. `stopped` is the test
-- that the run was canceled while it executed.
unfoldable pub finish :
    Env → String → Scenario → Bool → Report → Option String → World → World × Option ExecError
finish e id sc true rep err w =
    let filed = stopped_report e.made_at id sc rep err in
    (
      record {
        store = cancel_run e.ended_at e.ended_logged filed id (apply_all e.before_end w.store);
        blob = upload_report e.marshal id filed w.blob;
      },
      none,
    )
finish e id sc false rep (some err) w = (
  record w { store = error_run e.ended_at e.ended_logged err id (apply_all e.before_end w.store) },
  some (run_error err),
)
finish e id sc false rep none w = (
  record {
    store = complete_run e.ended_at e.ended_logged rep id (apply_all e.before_end w.store);
    blob = upload_report e.marshal id rep w.blob;
  },
  none,
)

-- The run itself, with the poll beside it, and the test that follows it.
unfoldable pub run_phase : Env → String → Scenario → World → World × Option ExecError
run_phase e id sc w =
    let (m, flag) = run_ticks id e.during (w.store, false) in
    let n = apply_all e.before_test m in
    let (rep, err) = e.run (run_timeout e.timeout) sc in
    finish e id sc (flag || is_run_cancel_requested id n) rep err (record w { store = n })

-- MarkRunStarted for a queued run, and the second look at it.
unfoldable pub start_phase : Env → String → RunRecord → World → World × Option ExecError
unfolding is_queued still_running
start_phase e id r w =
    let m = apply_all e.before_start w.store in
    let n = if is_queued r.status then mark_run_started e.started_at e.started_logged id m else m in
    let started = apply_all e.after_start n in
    if still_running (get_run id started)
    then run_phase e id r.scenario (record w { store = started })
    else (record w { store = started }, none)

-- A run canceled before it began.
unfoldable pub cancel_phase : Env → String → RunRecord → World → World × Option ExecError
cancel_phase e id r w =
    let rep = canceled_report e.made_at id r.scenario.name "run canceled before worker execution" in
    (
      record {
        store = cancel_run e.ended_at e.ended_logged rep id (apply_all e.before_start w.store);
        blob = upload_report e.marshal id rep w.blob;
      },
      none,
    )

unfoldable pub begin : Env → String → RunRecord → World → World × Option ExecError
begin e id r w =
    let v : World = record w { store = apply_all e.before_check w.store } in
    if is_run_cancel_requested id v.store then cancel_phase e id r v else start_phase e id r v

-- The switch on the status that was read.
unfoldable pub dispatch : RunStatus → Env → String → RunRecord → World → World × Option ExecError
dispatch queued e id r w = begin e id r w
dispatch running e id r w = begin e id r w
dispatch passed e id r w = (w, none)
dispatch failed e id r w = (w, none)
dispatch errored e id r w = (w, none)
dispatch canceled e id r w = (w, none)
dispatch (RunStatus.other s) e id r w = (w, some (bad_status id s))

execute_found : Env → String → Option RunRecord → World → World × Option ExecError
execute_found e id none w = (w, some (run_not_found id))
execute_found e id (some r) w = dispatch r.status e id r w

unfoldable pub execute : Env → String → World → World × Option ExecError
unfolding execute_found
execute e id w = execute_found e id (get_run id w.store) w
