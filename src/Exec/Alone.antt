-- ===== src/Exec/Alone.antt =====
-- What an execution leaves when no other caller writes to the store meanwhile, and where the two
-- stores disagree (apps/api/internal/runexec/executor.go).
use wreckr.Prelude.{String, ◌≡◌, refl, [], none, some, true, false, lookup, if◌then◌else◌}
use wreckr.Report
use wreckr.Report.{Report}
use wreckr.Store.{
  RunRecord, Memory, is_terminal, is_cancelable, queued, running, passed, failed, errored, canceled,
}
use wreckr.Store.Events.{is_run_cancel_requested}
use wreckr.Store.Runs
use wreckr.Store.Runs.{report_failed, complete_run, cancel_run, error_run}
use wreckr.Store.Op.{apply_all}
use wreckr.Store.Ending.{written}
use wreckr.Store.Cancel.{requested-mark}
use wreckr.Blob.{Blob, put}
use wreckr.Exec.{
  Env, World, run_ticks, run_timeout, run_error, finish, run_phase, start_phase, begin, execute,
  execute_found, still_running, is_running, is_queued, stopped_report, upload_report, upload_to,
  report_key,
}
use wreckr.Exec.Settles.{dispatch-begin}

-- No other caller writes, and the poll does not tick.
abbrev pub alone : Env → Env
alone e = record e {
  before_check = [];
  before_start = [];
  after_start = [];
  during = [];
  before_test = [];
  before_end = [];
}

-- The report as the store files it.
abbrev pub filed_as : RunRecord → Report → Report
filed_as r rep = record rep {
  scenario_version_id = r.scenario_version_id;
  scenario_version_number = r.scenario_version_number;
}

module _ (e : Env) (id : String) (r : RunRecord) (w : World)
    (held : lookup id w.store.runs ≡ some r) (new : r.status ≡ queued)
    (calm : is_run_cancel_requested id w.store ≡ false) where
  abbrev pub started : Memory
  started = Runs.mark_run_started e.started_at e.started_logged id w.store

  abbrev pub started_run : RunRecord
  started_run = record r { status = running; started_at = some e.started_at }

  pub started-held : lookup id started.runs ≡ some started_run
  unfolding Runs.mark_run_started is_terminal
  started-held = written id r w.store held e.started_logged _ _ (rw new)

  pub started-calm : is_run_cancel_requested id started ≡ false
  started-calm = rw requested-mark calm

  pub started_runs : still_running (Runs.get_run id started) ≡ true
  unfolding still_running Runs.get_run is_running
  started_runs = rw started-held

  -- A queued run goes through both phases to `finish`.
  alone-finish :
      execute (alone e) id w
      ≡ finish
          (alone e)
          id
          r.scenario
          false
          (e.run (run_timeout e.timeout) r.scenario).0
          (e.run (run_timeout e.timeout) r.scenario).1
          (record w { store = started })
  unfolding execute Runs.get_run begin start_phase run_phase run_ticks apply_all is_queued
      is_cancelable
  alone-finish =
      let queued_now : is_queued r.status ≡ true = rw new in
      let active : is_cancelable r.status ≡ true = rw new in
      rw (held, execute_found)
        (rw (dispatch-begin (alone e) id r w active)
          (rw calm (rw queued_now (rw started_runs (rw started-calm)))))

  -- An execution with no other caller in between and no cancel request, of a queued run on which the
  -- runner returns a report and no error, returns no error, leaves the run failed if the report says
  -- failed and passed if not, with that report under the run's own version, and uploads the report
  -- that the runner returned.
  pub execute_completes :
      (e.run (run_timeout e.timeout) r.scenario).1 ≡ none
      → let rep = (e.run (run_timeout e.timeout) r.scenario).0 in
        let (v, err) = execute (alone e) id w in
        (err ≡ none)
        × (lookup id v.store.runs
            ≡ some (record started_run {
              status = if report_failed rep.status then failed else passed;
              report = some (filed_as r rep);
              finished_at = some e.ended_at;
            }))
        × (v.blob ≡ upload_report e.marshal id rep w.blob)
  unfolding finish apply_all
  execute_completes ok = rw alone-finish (
      rw ok (
        refl,
        unfold complete_run is_terminal in written id started_run started started-held _ _ _ refl,
        refl,
      ))

  -- The same where the runner returns an error: it is the result, the run is errored with its text,
  -- and nothing is uploaded.
  pub execute_fails :
      (err : String)
      → (e.run (run_timeout e.timeout) r.scenario).1 ≡ some err
      → let (v, out) = execute (alone e) id w in
        (out ≡ some (run_error err))
        × (lookup id v.store.runs
            ≡ some (record started_run {
              status = errored;
              error = err;
              finished_at = some e.ended_at;
            }))
        × (v.blob ≡ w.blob)
  unfolding finish apply_all
  execute_fails err bad = rw alone-finish (
      rw bad (
        refl,
        unfold error_run is_terminal in written id started_run started started-held _ _ _ refl,
        refl,
      ))

-- For a run that was canceled while it executed, where the runner returned a report and the object
-- store is there and the report encodes: the object store keeps a report with the runner's status
-- and version fields, and the store one that says canceled, under the run's own version.
pub canceled_reports_differ :
    (e : Env) (id : String) (r : RunRecord) (rep : Report) (raw : String) (m : Memory) (b : Blob)
    → lookup id m.runs ≡ some r
    → is_terminal r.status ≡ false
    → e.marshal (stopped_report e.made_at id r.scenario rep none) ≡ some raw
    → let shown = stopped_report e.made_at id r.scenario rep none in
      let v =
        (finish (alone e) id r.scenario true rep none (record { store = m; blob = some b })).0 in
      (v.blob ≡ some (put (report_key id) raw b))
      × (shown.status ≡ rep.status)
      × (shown.scenario_version_id ≡ rep.scenario_version_id)
      × (lookup id v.store.runs
          ≡ some (record r {
            status = canceled;
            report = some (record (filed_as r shown) { status = Report.canceled });
            error = "run canceled";
            finished_at = some e.ended_at;
          }))
unfolding finish apply_all stopped_report upload_report
canceled_reports_differ e id r rep raw m b held live enc =
    (rw (enc, upload_to), refl, refl, unfold cancel_run in written id r m held _ _ _ live)
