-- ===== src/Store/Effect.antt =====
-- The specification of the store's writes (apps/api/internal/store/memory.go): what a method may do
-- to the runs and to their event logs, and that every method does no more.
use wreckr.Prelude.{
  ◌+◌, String, ◌+++◌, show, ◌≡◌, refl, inl, inr, [], ◌∷◌, ◌++◌, Option, none, some, Bool, true,
  false, arith, lookup, insert, length, Bool-cases, Option-cases, not, if◌then◌else◌,
}
use wreckr.Event.{Time, EventType, Event, run_queued, run_completed, run_failed, run_canceled}
use wreckr.Scenario.{Scenario}
use wreckr.Report
use wreckr.Report.{Report}
use wreckr.Store.{
  TargetRecord, ScenarioRecord, is_cancelable, RunStatus, queued, passed, failed, canceled,
  RunRecord, Memory, is_terminal, events_of,
}
use wreckr.Store.Targets
use wreckr.Store.Scenarios
use wreckr.Store.Events
use wreckr.Store.Runs
use wreckr.Store.Runs.{on_active}
use wreckr.Store.Op.{
  Op, create_target, update_target, delete_target, create_scenario, update_scenario, create_run,
  mark_run_started, complete_run, cancel_run, error_run, request_run_cancel, append_run_event,
  apply,
}
use wreckr.Store.Later.{Later}
use wreckr.Store.History.{write, on_active_missing, on_active_settled, on_active_live}

-- The three event types that end a run's log.
unfoldable pub is_terminal_type : EventType → Bool
is_terminal_type run_completed = true
is_terminal_type run_failed = true
is_terminal_type run_canceled = true
is_terminal_type _ = false

-- A run that passed, failed or was canceled holds a report of its own version; a canceled run's
-- says canceled, a failed run's says failed, and a passed run's does not say failed.
abbrev pub Fits : RunStatus → Report.Status → Type 0
Fits passed s = ¬ (s ≡ Report.failed)
Fits failed s = s ≡ Report.failed
Fits canceled s = s ≡ Report.canceled
Fits _ s = Unit

abbrev pub has_report : RunStatus → Bool
has_report passed = true
has_report failed = true
has_report canceled = true
has_report _ = false

pub record IsFiled (r : RunRecord) (rep : Report) : Type 0 where
  pub stored : r.report ≡ some rep
  pub version_id : rep.scenario_version_id ≡ r.scenario_version_id
  pub version_number : rep.scenario_version_number ≡ r.scenario_version_number
  pub fits : Fits r.status rep.status

abbrev pub Filed : RunRecord → Type 0
Filed r = has_report r.status ≡ true → (rep : Report) × IsFiled r rep

-- The log of the run `k` gets the event `e`, numbered by its place.
pub record Appends (m n : Memory) (k : String) (e : Event) : Type 0 where
  pub log : n.run_events ≡ insert k (events_of m k ++ e ∷ []) m.run_events
  pub place : e.sequence ≡ length (events_of m k) + 1

pub data Effect (m n : Memory) : Type 0 where
  quiet : n.runs ≡ m.runs → n.run_events ≡ m.run_events → Effect m n
  logged : (k : String) (e : Event) → n.runs ≡ m.runs → Appends m n k e → Effect m n
  created :
      (k : String) (e : Event) (s : RunRecord)
      → n.runs ≡ insert k s m.runs
      → Appends m n k e
      → s.id ≡ k
      → s.status ≡ queued
      → e.type ≡ run_queued
      → Effect m n
  moved :
      (k : String) (e : Event) (r s : RunRecord)
      → lookup k m.runs ≡ some r
      → n.runs ≡ insert k s m.runs
      → Appends m n k e
      → is_terminal r.status ≡ false
      → Later r s
      → (is_terminal s.status ≡ true → is_terminal_type e.type ≡ true)
      → Filed s
      → Effect m n

module _ (k : String) (at : Time) (g : RunRecord → RunRecord) (ev : RunRecord → Event) where
  -- A method that moves a run is quiet on a missing or terminal run, and otherwise one move.
  on_active-Effect :
      ((s : RunRecord) → is_terminal s.status ≡ false → Later s (g s))
      → ((s : RunRecord) → is_terminal (g s).status ≡ true → is_terminal_type (ev s).type ≡ true)
      → ((s : RunRecord) → Filed (g s))
      → (m : Memory) → Effect m (on_active k (write k at g ev) m)
  unfolding Runs.put_run Events.append_run_event Events.fill_event events_of
  on_active-Effect later ends filed m = elim (Option-cases (lookup k m.runs)) [
    | inl e ↦ rw (on_active_missing k at g ev m e) (quiet refl refl)
    | inr (s, e) ↦ elim (Bool-cases (is_terminal s.status)) [
      | inl t ↦ rw (on_active_settled k at g ev m s e t) (quiet refl refl)
      | inr t ↦ rw (on_active_live k at g ev m s e t) (
          moved k (Events.fill_event at k (length (events_of m k) + 1) (ev s)) s (g s) e refl
            (record { log = refl; place = refl }) t (later s t) (ends s) (filed s))
    ]
  ]

started-Effect :
    (now at : Time) (k : String) (m : Memory) → Effect m (Runs.mark_run_started now at k m)
unfolding Runs.mark_run_started is_terminal
started-Effect now at k m =
    on_active-Effect k at _ _ (λ s t. ground arith) (λ s t. cc) (λ s t. cc) m

completed-Fits : (x : Report.Status) → Fits (if Runs.report_failed x then failed else passed) x
unfolding Runs.report_failed
completed-Fits Report.failed = refl
completed-Fits Report.passed = λ e. cc
completed-Fits Report.canceled = λ e. cc

completed-Effect :
    (now at : Time) (rep : Report) (k : String) (m : Memory)
    → Effect m (Runs.complete_run now at rep k m)
unfolding Runs.complete_run is_terminal is_terminal_type
completed-Effect now at rep k m =
    on_active-Effect k at _ _ (λ s t. ground arith) (λ s t. ground arith)
      (λ s t. (
        _,
        record {
          stored = refl;
          version_id = refl;
          version_number = refl;
          fits = completed-Fits rep.status;
        },
      ))
      m

canceled-Effect :
    (now at : Time) (rep : Report) (k : String) (m : Memory)
    → Effect m (Runs.cancel_run now at rep k m)
unfolding Runs.cancel_run is_terminal is_terminal_type
canceled-Effect now at rep k m =
    on_active-Effect k at _ _ (λ s t. ground arith) (λ s t. refl)
      (λ s t. (_, record { stored = refl; version_id = refl; version_number = refl; fits = refl }))
      m

errored-Effect :
    (now at : Time) (err : String) (k : String) (m : Memory)
    → Effect m (Runs.error_run now at err k m)
unfolding Runs.error_run is_terminal is_terminal_type
errored-Effect now at err k m =
    on_active-Effect k at _ _ (λ s t. ground arith) (λ s t. refl) (λ s t. cc) m

appended-Effect :
    (at : Time) (k : String) (e : Event) (m : Memory)
    → Effect m (Events.append_run_event at k e m).0
unfolding Events.append_run_event Events.fill_event
appended-Effect at k e m =
    logged k (Events.fill_event at k (length (events_of m k) + 1) e) refl
      (record { log = refl; place = refl })

if-Effect :
    {A : Type 0} {m : Memory} (b : Bool) (x y : Memory × A)
    → Effect m x.0
    → Effect m y.0
    → Effect m (if b then x else y).0
if-Effect true x y h k = h
if-Effect false x y h k = k

requested-Effect :
    (at : Time) (k : String) (found : Option RunRecord) (m : Memory)
    → Effect m (Runs.request_found at k found m).0
unfolding Runs.request_found
requested-Effect at k none m = quiet refl refl
requested-Effect at k (some r) m = if-Effect (not (is_cancelable r.status)) _ _ (quiet refl refl) (
    if-Effect (Events.is_run_cancel_requested k m) _ _ (quiet refl refl) (appended-Effect at k _ m))

updated_scenario-Effect :
    (now : Time) (k : String) (sc : Scenario) (found : Option ScenarioRecord) (m : Memory)
    → Effect m (Scenarios.update_found now k sc found m).0
unfolding Scenarios.update_found
updated_scenario-Effect now k sc none m = quiet refl refl
updated_scenario-Effect now k sc (some r) m = quiet refl refl

updated_target-Effect :
    (now : Time) (k : String) (t : TargetRecord) (found : Option TargetRecord) (m : Memory)
    → Effect m (Targets.update_found now k t found m).0
unfolding Targets.update_found
updated_target-Effect now k t none m = quiet refl refl
updated_target-Effect now k t (some r) m = quiet refl refl

deleted_target-Effect :
    (k : String) (found : Option TargetRecord) (m : Memory)
    → Effect m (Targets.delete_found k found m).0
unfolding Targets.delete_found
deleted_target-Effect k none m = quiet refl refl
deleted_target-Effect k (some r) m = quiet refl refl

-- Every method that writes to the store is quiet on the runs and their logs, appends one event
-- numbered by its place, creates a queued run with its first event, or moves a run that is not
-- terminal to a later state with one event: a terminal event if the new status is terminal, and,
-- where the run passed, failed or was canceled, with a report of the run's own version that says
-- failed if the run failed, canceled if it was canceled, and anything but failed if it passed.
pub apply-Effect : (op : Op) (m : Memory) → Effect m (apply op m)
unfolding apply Targets.create_target Targets.update_target Targets.delete_target
    Scenarios.create_scenario Scenarios.update_scenario Runs.create_run Runs.request_run_cancel
    Events.append_run_event Events.fill_event events_of
apply-Effect (create_target now t) m = quiet refl refl
apply-Effect (update_target now k t) m = updated_target-Effect now k t (lookup k m.targets) m
apply-Effect (delete_target k) m = deleted_target-Effect k (lookup k m.targets) m
apply-Effect (create_scenario now sc) m = quiet refl refl
apply-Effect (update_scenario now k sc) m =
    updated_scenario-Effect now k sc (lookup k m.scenarios) m
apply-Effect (create_run now at sid tid sc ref) m =
    created ("run_" +++ show now) _ _ refl (record { log = refl; place = refl }) refl refl refl
apply-Effect (mark_run_started now at k) m = started-Effect now at k m
apply-Effect (complete_run now at rep k) m = completed-Effect now at rep k m
apply-Effect (cancel_run now at rep k) m = canceled-Effect now at rep k m
apply-Effect (error_run now at err k) m = errored-Effect now at err k m
apply-Effect (request_run_cancel at k) m = requested-Effect at k (lookup k m.runs) m
apply-Effect (append_run_event now k e) m = appended-Effect now k e m
