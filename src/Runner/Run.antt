-- ===== src/Runner/Run.antt =====
-- A run of the Go runner (apps/api/internal/runner/runner.go, RunWithOptions): setup, traffic, checks and
-- teardown, and the report of them.
pub mod Verdict
pub mod Canceled
use wreckr.Prelude.{
  ℕ, suc, ℤ, pos, negsuc, pos_part, String, Bool, true, false, List, [], ◌∷◌, ◌++◌, Option, none,
  some, map, is_nil, leb_ℤ, if◌then◌else◌,
}
use wreckr.Platform.{Platform, Result, ok, err}
use wreckr.Value.{Float64}
use wreckr.Event.{Time, Event, EventType, threshold_failed, invariant_failed}
use wreckr.Scenario.{Scenario, Request, TrafficType, race, retry_storm}
use wreckr.Scenario.Normalize.{normalized, with_env}
use wreckr.Scenario.Validate.{validate}
use wreckr.Report.{Report, ResponseRecord, CheckResult}
use wreckr.Report.Build.{FloatOps, build}
use wreckr.Runner.{ControlResult, run_control_requests, has_failed_check}
use wreckr.Runner.Send.{Net, Exchange, execute_request}
use wreckr.Runner.Traffic.{Move, Pool, Sent, run_parallel}
use wreckr.Runner.Race.{run_race}
use wreckr.Runner.Checks.{Visit, evaluate_thresholds, evaluate_invariants, emit_failed_checks}

-- What one run meets: the exchanges of its setup and teardown by index, none where the context is done
-- before one, the orders of its goroutines, the visits of its probes, and the readings of the clock.
pub record Circumstances : Type 0 where
  pub made_id : String
  pub started_at : Time
  pub finished_at : Time
  pub duration : Float64
  pub setup : ℕ → Option Exchange
  pub canceled_after_setup : Bool
  pub moves : List Move
  pub race_moves : List (List Move)
  pub visits : ℕ → Visit
  pub teardown : ℕ → Option Exchange

-- What report.Build is called with, and the events that are emitted. Of a request of setup or teardown
-- these are not among them.
pub record Findings : Type 0 where
  pub events : List Event
  pub records : List ResponseRecord
  pub thresholds : List CheckResult
  pub invariants : List CheckResult

abbrev pub records_of : List Sent → List ResponseRecord
records_of sent = map (λ s. s.1) sent

-- The events of the requests, in the order in which their records are collected.
abbrev pub events_of : List Sent → List Event
events_of [] = []
events_of ((t, r, events) ∷ sent) = events ++ events_of sent

-- max(1, attempts)
unfoldable pub at_least_once : ℤ → ℕ
at_least_once n = if leb_ℤ n (pos 1) then 1 else pos_part n

abbrev pub collected_by : Option Pool → Option (List Sent)
collected_by none = none
collected_by (some pool) = some pool.collected

abbrev pub collected_in : Option (List Sent × Bool) → Option (List Sent)
collected_in none = none
collected_in (some (sent, canceled)) = some sent

module _ (p : Platform) (f : FloatOps) (net : Net) where
  -- executeRequest in setup and teardown.
  unfoldable pub send_control :
      String → Scenario → (ℕ → Option Exchange) → ℕ → Request → Option ResponseRecord
  send_control run_id sc meet i req = elim (meet i) [
    | none ↦ none
    | some x ↦ some (execute_request net p run_id sc req (negsuc 0) 1 x).0
  ]

  -- The switch on the type of the traffic.
  unfoldable pub run_traffic : TrafficType → String → Scenario → Circumstances → Option (List Sent)
  unfolding at_least_once
  run_traffic race run_id sc c =
      collected_in (run_race p net run_id sc c.race_moves c.canceled_after_setup)
  run_traffic retry_storm run_id sc c = collected_by (
      run_parallel p net run_id sc (at_least_once sc.traffic.retry.attempts) c.moves
        c.canceled_after_setup)
  run_traffic type run_id sc c =
      collected_by (run_parallel p net run_id sc 1 c.moves c.canceled_after_setup)

  -- After the traffic: the checks, and the teardown, which counts only where it failed.
  unfoldable pub conclude :
      String → Scenario → Circumstances → List Event → List ResponseRecord → Findings
  unfolding send_control emit_failed_checks
  conclude run_id sc c before records =
      let thresholds = evaluate_thresholds f sc.thresholds records in
      let invariants = evaluate_invariants f net p run_id sc records c.visits 0 sc.invariants in
      let down =
        run_control_requests run_id "teardown" (send_control run_id sc c.teardown) sc.teardown in
      let events =
        before
        ++ (emit_failed_checks run_id threshold_failed thresholds
            ++ (emit_failed_checks run_id invariant_failed invariants ++ down.events)) in
      if has_failed_check down.checks
      then record {
        events = events;
        records = records ++ down.records;
        thresholds = thresholds ++ down.checks;
        invariants = invariants;
      }
      else record {
        events = events;
        records = records;
        thresholds = thresholds;
        invariants = invariants;
      }

  abbrev pub concluded :
      String → Scenario → Circumstances → List Event → Option (List Sent) → Option Findings
  concluded run_id sc c before none = none
  concluded run_id sc c before (some sent) =
      some (conclude run_id sc c (before ++ events_of sent) (records_of sent))

  -- Setup, and what follows where it has no failed check.
  unfoldable pub perform : String → Scenario → Circumstances → Option Findings
  unfolding send_control run_traffic conclude
  perform run_id sc c =
      let up = run_control_requests run_id "setup" (send_control run_id sc c.setup) sc.setup in
      if has_failed_check up.checks
      then some (record {
        events = up.events;
        records = up.records;
        thresholds = up.checks;
        invariants = [];
      })
      else concluded run_id sc c up.events (run_traffic sc.traffic.type run_id sc c)

  abbrev pub reported : String → Scenario → Circumstances → Option Findings → Option (Result Report)
  reported run_id sc c none = none
  reported run_id sc c (some found) = some (
      ok (
        build f c.finished_at c.duration run_id sc.name c.started_at found.records found.thresholds
          found.invariants))

  abbrev pub checked_run :
      Option String → String → Scenario → Circumstances → Option (Result Report)
  checked_run (some e) run_id sc c = some (err e)
  checked_run none run_id sc c = reported run_id sc c (perform run_id sc c)

  -- None where the goroutines of the traffic have not all returned.
  unfoldable pub run_with_options : String → Scenario → Circumstances → Option (Result Report)
  unfolding perform
  run_with_options id given c =
      let sc = normalized p (with_env p given) in
      checked_run (validate p sc) (if is_nil id then c.made_id else id) sc c
