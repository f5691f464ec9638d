-- ===== src/Store/Runs.antt =====
-- The life of a run in the memory store (apps/api/internal/store/memory.go). `now` is the reading of
-- the clock in the method, and `logged` the later one inside appendRunEventLocked.
use wreckr.Prelude.{
  ℕ, pos, String, ◌+++◌, ◌==◌, List, [], ◌∷◌, Option, none, some, Bool, true, false, not, lookup,
  insert, values, show, if◌then◌else◌,
}
use wreckr.Value.{Meta, text, int, texts}
use wreckr.Event.{
  Time, Event, info, warn, error, run_queued, run_started, run_completed, run_failed, run_canceled,
  cancel_requested, new_event,
}
use wreckr.Scenario.{Scenario}
use wreckr.Report
use wreckr.Report.{Report}
use wreckr.Store.{
  queued, running, passed, failed, errored, canceled, ScenarioRecord, ScenarioVersionRecord,
  RunRecord, Memory, is_terminal, is_cancelable, status_text,
}
use wreckr.Store.Events.{append_run_event, is_run_cancel_requested}

-- The version that a run records: the caller's, or the scenario's current one, or none.
current_version : Option ScenarioRecord → String × ℕ
current_version none = ("", 0)
current_version (some r) = (r.current_version_id, r.current_version_number)

unfoldable pub run_version : Option ScenarioVersionRecord → String → Memory → String × ℕ
unfolding current_version
run_version (some v) scenario_id m = (v.id, v.version_number)
run_version none scenario_id m =
    if scenario_id == "" then ("", 0) else current_version (lookup scenario_id m.scenarios)

unfoldable pub create_run :
    Time
    → Time
    → String
    → String
    → Scenario
    → Option ScenarioVersionRecord
    → Memory
    → Memory × RunRecord
unfolding run_version
create_run now logged scenario_id target_id sc version_ref m =
    let id = "run_" +++ show now in
    let version = run_version version_ref scenario_id m in
    let r : RunRecord = record {
      id = id;
      target_id = target_id;
      scenario_id = scenario_id;
      scenario_version_id = version.0;
      scenario_version_number = version.1;
      status = queued;
      scenario = sc;
      report = none;
      error = "";
      created_at = now;
      started_at = none;
      finished_at = none;
    } in
    let meta : List (String × Meta) =
      ("scenario_id", text scenario_id)
      ∷ ("scenario_version_id", text version.0)
      ∷ ("scenario_version_number", int (pos version.1))
      ∷ ("scenario", text sc.name)
      ∷ ("target_id", text target_id)
      ∷ [] in
    let stored = record m { runs = insert id r m.runs } in
    ((append_run_event logged id (new_event info run_queued "run queued" meta) stored).0, r)

-- `record, ok := m.runs[id]`, and the returns on a run that is missing or terminal, with which
-- MarkRunStarted, CompleteRun, CancelRun and ErrorRun begin.
unfoldable pub on_found : (RunRecord → Memory → Memory) → Option RunRecord → Memory → Memory
on_found f none m = m
on_found f (some r) m = if is_terminal r.status then m else f r m

unfoldable pub on_active : String → (RunRecord → Memory → Memory) → Memory → Memory
unfolding on_found
on_active id f m = on_found f (lookup id m.runs) m

-- m.runs[id] = record, and the event of the transition
unfoldable pub put_run : Time → String → RunRecord → Event → Memory → Memory
put_run logged id r event m =
    (append_run_event logged id event (record m { runs = insert id r m.runs })).0

unfoldable pub mark_run_started : Time → Time → String → Memory → Memory
mark_run_started now logged id = on_active id λ r.
    put_run logged id (record r { status = running; started_at = some now })
      (new_event info run_started "run started" [])

unfoldable pub report_failed : Report.Status → Bool
report_failed Report.failed = true
report_failed _ = false

completed_event : Bool → Report → Event
completed_event bad rep =
    let meta : List (String × Meta) =
      ("status", text (status_text (if bad then failed else passed)))
      ∷ ("total_requests", int (pos rep.summary.total_requests))
      ∷ ("failed_requests", int (pos rep.summary.failed_requests))
      ∷ ("failures", texts rep.failures)
      ∷ [] in
    if bad
    then new_event error run_failed "run failed" meta
    else new_event info run_completed "run completed" meta

unfoldable pub complete_run : Time → Time → Report → String → Memory → Memory
unfolding report_failed completed_event
complete_run now logged rep id = on_active id λ r.
    let bad = report_failed rep.status in
    let filed : Report = record rep {
      scenario_version_id = r.scenario_version_id;
      scenario_version_number = r.scenario_version_number;
    } in
    put_run logged id
      (record r {
        status = if bad then failed else passed;
        report = some filed;
        finished_at = some now;
      })
      (completed_event bad filed)

unfoldable pub cancel_run : Time → Time → Report → String → Memory → Memory
cancel_run now logged rep id = on_active id λ r.
    let filed : Report = record rep {
      status = Report.canceled;
      scenario_version_id = r.scenario_version_id;
      scenario_version_number = r.scenario_version_number;
    } in
    put_run logged id
      (record r {
        status = canceled;
        report = some filed;
        error = "run canceled";
        finished_at = some now;
      })
      (new_event warn run_canceled "run canceled" (("failures", texts rep.failures) ∷ []))

unfoldable pub error_run : Time → Time → String → String → Memory → Memory
error_run now logged err id = on_active id λ r.
    put_run logged id (record r { status = errored; error = err; finished_at = some now })
      (new_event error run_failed err [])

unfoldable pub get_run : String → Memory → Option RunRecord
get_run id m = lookup id m.runs

unfoldable pub list_runs : Memory → List RunRecord
list_runs m = values m.runs

unfoldable pub request_found : Time → String → Option RunRecord → Memory → Memory × Bool
request_found logged id none m = (m, false)
request_found logged id (some r) m =
    if not (is_cancelable r.status)
    then (m, false)
    else if is_run_cancel_requested id m
    then (m, true)
    else (
      (append_run_event logged id
          (new_event warn cancel_requested "run cancellation requested"
            (("status", text (status_text r.status)) ∷ []))
          m).0,
      true,
    )

unfoldable pub request_run_cancel : Time → String → Memory → Memory × Bool
unfolding request_found
request_run_cancel logged id m = request_found logged id (lookup id m.runs) m
