-- ===== src/Http/Cancel.antt =====
-- The handler that cancels a run (apps/api/internal/httpapi/server.go, cancelRun).
pub mod Answers
use wreckr.Prelude.{
  String, ◌+++◌, Bool, true, false, not, ◌&&◌, Option, none, some, quote, if◌then◌else◌, List,
}
use wreckr.Event.{Time}
use wreckr.Store.{RunStatus, queued, running, RunRecord, is_cancelable, status_text}
use wreckr.Store.Runs
use wreckr.Http.{Server, Answer, answer, error, canceled, request_run_cancel}
use wreckr.Http.Execute.{Act, act_all, canceled_report}

-- What other handlers and executions do between the handler's own calls, and the clock.
pub record Meanwhile : Type 0 where
  pub after_read : List Act
  pub after_log : List Act
  pub after_request : List Act
  pub logged : Time
  pub made_at : Time
  pub ended_at : Time
  pub ended_logged : Time

unfoldable pub is_queued : RunStatus → Bool
is_queued queued = true
is_queued _ = false

-- After the store's log has the request: the execution is told, or a queued run that none executes
-- here is canceled at once.
unfoldable pub tell : Meanwhile → String → RunRecord → Server → Server
tell w id r s =
    let (t, told) = request_run_cancel id s in
    if not told && is_queued r.status
    then (let u = act_all w.after_request t in
        record u {
          store =
              Runs.cancel_run w.ended_at w.ended_logged
                (canceled_report w.made_at id r.scenario.name
                  "run canceled before worker execution")
                id u.store;
        })
    else t

unfoldable pub cancel_logged : Meanwhile → String → RunRecord → Server → Server × Answer
cancel_logged w id r s =
    let (m, done) = Runs.request_run_cancel w.logged id s.store in
    if done
    then (tell w id r (act_all w.after_log (record s { store = m })), answer 202 (canceled id))
    else (
      record s { store = m },
      answer 409 (error ("run " +++ quote id +++ " is not currently cancellable")),
    )

cancel_found : Meanwhile → String → Option RunRecord → Server → Server × Answer
cancel_found w id none s = (s, answer 404 (error ("run " +++ quote id +++ " not found")))
cancel_found w id (some r) s =
    if is_cancelable r.status then cancel_logged w id r (act_all w.after_read s) else (
      s,
      answer 409 (
          error (
            "run "
            +++ quote id
            +++ " cannot be canceled from status "
            +++ quote (status_text r.status))),
    )

unfoldable pub cancel_run : Meanwhile → String → Server → Server × Answer
unfolding cancel_found
cancel_run w id s = cancel_found w id (Runs.get_run id s.store) s
