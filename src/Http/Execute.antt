-- ===== src/Http/Execute.antt =====
-- The execution of a run in the API's own process (apps/api/internal/httpapi/server.go, executeRun).
-- Other handlers may write between any two of its calls. The runner is a function of the scenario: that its
-- WithEnv writes in place into what the stored run shares with it is left out.
pub mod Settles
pub mod Marks
use wreckr.Prelude.{
  ℤ, String, ◌++◌, Bool, true, false, List, [], ◌∷◌, Option, none, some, lookup, is_some,
  if◌then◌else◌,
}
use wreckr.Event.{Time}
use wreckr.Scenario.{Scenario}
use wreckr.Report.{Report}
use wreckr.Store.{RunStatus, running, RunRecord}
use wreckr.Store.Runs
use wreckr.Store.Op.{Op, apply}
use wreckr.Exec
use wreckr.Http.{
  Config, Server, register_run_cancel, request_run_cancel, finish_run_cancel, effective_run_timeout,
}

-- What happens meanwhile: a write to the store, the runner's events among them, or a request to end
-- the execution of a run.
pub data Act : Type 0 where
  write : Op → Act
  request : String → Act

unfoldable pub act : Act → Server → Server
act (write op) s = record s { store = apply op s.store }
act (request id) s = (request_run_cancel id s).0

unfoldable pub act_all : List Act → Server → Server
unfolding act
act_all [] s = s
act_all (a ∷ acts) s = act_all acts (act a s)

-- The surroundings of one execution. The runner sees whether its context was canceled.
pub record Env : Type 0 where
  pub before_start : List Act
  pub after_start : List Act
  pub during : List Act
  pub before_end : List Act
  pub started_at : Time
  pub started_logged : Time
  pub made_at : Time
  pub ended_at : Time
  pub ended_logged : Time
  pub run : ℤ → Bool → Scenario → Report × Option String

is_running : RunStatus → Bool
is_running running = true
is_running _ = false

unfoldable pub has_started : Option RunRecord → Bool
unfolding is_running
has_started none = false
has_started (some r) = is_running r.status

unfoldable pub canceled_report : Time → String → String → String → Report
canceled_report now id scenario_name message =
    record (Exec.canceled_report now id scenario_name message) { failures = message ∷ [] }

-- The report of a run that a client canceled.
unfoldable pub user_report : Time → String → Scenario → Report → Option String → Report
user_report now id sc rep none = record rep {
  failures = rep.failures ++ "run canceled by user" ∷ [];
}
user_report now id sc rep (some err) =
    let made = canceled_report now id sc.name err in
    record made { failures = made.failures ++ "run canceled by user" ∷ [] }

unfoldable pub settle : Env → String → Scenario → Bool → Report → Option String → Server → Server
settle e id sc true rep err s = record s {
  store =
      Runs.cancel_run e.ended_at e.ended_logged (user_report e.made_at id sc rep err) id s.store;
}
settle e id sc false rep (some err) s = record s {
  store = Runs.error_run e.ended_at e.ended_logged err id s.store;
}
settle e id sc false rep none s = record s {
  store = Runs.complete_run e.ended_at e.ended_logged rep id s.store;
}

unfoldable pub run_phase : Config → Env → String → Scenario → Server → Server
run_phase c e id sc s =
    let t = act_all e.during s in
    let (rep, err) = e.run (effective_run_timeout c) (is_some (lookup id t.cancel_requests)) sc in
    let (u, canceled) = finish_run_cancel id t in
    settle e id sc canceled rep err (act_all e.before_end u)

unfoldable pub begun : Env → String → Server → Server
begun e id s =
    let t = act_all e.before_start (register_run_cancel id s) in
    act_all e.after_start
      (record t { store = Runs.mark_run_started e.started_at e.started_logged id t.store })

unfoldable pub execute_run : Config → Env → String → Scenario → Server → Server
execute_run c e id sc s =
    let t = begun e id s in
    if has_started (Runs.get_run id t.store)
    then run_phase c e id sc t
    else (finish_run_cancel id t).0
