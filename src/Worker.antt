-- ===== src/Worker.antt =====
-- The worker's handler of a queue task (apps/api/internal/worker/worker.go, and the payload of
-- apps/api/internal/runqueue/asynq.go). The decoding of a payload and what asynq tells of a task are
-- parameters, and so is the executor, which the handler has as an interface.
pub mod Attempts
use wreckr.Prelude.{
  ℕ, zero, suc, ◌+◌, ℤ, pos, String, ◌+++◌, ◌==◌, Bool, true, false, not, List, [], ◌∷◌, ◌++◌,
  Option, none, some, leb_ℤ, is_nil, Dict, insert, if◌then◌else◌,
}
use wreckr.Platform.{Result, ok, err}
use wreckr.Value.{Meta}
use wreckr.Event.{
  Time, Event, Level, info, warn, error, EventType, worker_attempt_started, worker_attempt_failed,
  worker_retry_scheduled, worker_dead_lettered, new_event,
}
use wreckr.Store.{Memory}
use wreckr.Store.Events.{append_run_event}

pub record TaskInfo : Type 0 where
  pub task_id : String
  pub queue : String
  pub retry_count : ℤ
  pub max_retry : ℤ
  pub known : Bool

-- A task: its type, what json.Unmarshal makes of its payload, and what is known of it.
pub record Task : Type 0 where
  pub type : String
  pub payload : Result String
  pub info : TaskInfo

-- n + 1
abbrev next : ℤ → ℤ
next (pos n) = pos (suc n)
next (ℤ.negsuc zero) = pos 0
next (ℤ.negsuc (suc n)) = ℤ.negsuc n

set_if : Bool → String → Meta → Dict Meta → Dict Meta
set_if b key value meta = if b then insert key value meta else meta

-- The metadata that recordWorkerEvent adds.
unfoldable pub task_meta : Task → Dict Meta → Dict Meta
unfolding set_if
task_meta t meta =
    let i = t.info in
    let typed = insert "task_type" (Meta.text t.type) meta in
    let named = set_if (not (is_nil i.task_id)) "task_id" (Meta.text i.task_id) typed in
    let queued = set_if (not (is_nil i.queue)) "queue" (Meta.text i.queue) named in
    set_if i.known "max_retries" (Meta.int i.max_retry) (
      set_if i.known "retry_count" (Meta.int i.retry_count)
        (set_if i.known "attempt" (Meta.int (next i.retry_count)) queued))

-- `events` says that the handler has a store for events.
unfoldable pub record_event : Bool → Time → Task → String → Event → Memory → Memory
record_event false now t run_id e m = m
record_event true now t run_id e m =
    (append_run_event now run_id (record e { metadata = task_meta t e.metadata }) m).0

abbrev with_error : String → Dict Meta
with_error e = ("error", Meta.text e) ∷ []

unfoldable pub attempt_started : Event
attempt_started = new_event info worker_attempt_started "worker attempt started" []

-- The result of a task: none is success. `execute` is the executor.
execute_payload :
    Bool
    → Time
    → (String → Memory → Memory × Option String)
    → Task
    → Result String
    → Memory
    → Memory × Option String
execute_payload events now execute t (err e) m = (m, some ("decode run task: " +++ e))
execute_payload events now execute t (ok run_id) m =
    if is_nil run_id
    then (m, some "run task missing run_id")
    else execute run_id (record_event events now t run_id attempt_started m)

unfoldable pub handle_run_execute :
    Bool
    → Time
    → (String → Memory → Memory × Option String)
    → Task
    → Memory
    → Memory × Option String
unfolding execute_payload
handle_run_execute events now execute t m = execute_payload events now execute t t.payload m

-- No retry is left.
unfoldable pub is_exhausted : TaskInfo → Bool
is_exhausted i = leb_ℤ i.max_retry i.retry_count

-- The second event of a failed attempt, if the number of retries is known.
unfoldable pub follow_up : TaskInfo → String → List Event
unfolding is_exhausted
follow_up i e =
    if not i.known
    then []
    else if is_exhausted i
    then new_event error worker_dead_lettered "worker retries exhausted" (with_error e) ∷ []
    else new_event warn worker_retry_scheduled "worker retry scheduled" (with_error e) ∷ []

-- The second event has a reading of the clock of its own.
unfoldable pub record_all : Bool → Time → Task → String → List Event → Memory → Memory
record_all events now t run_id [] m = m
record_all events now t run_id (e ∷ es) m =
    record_all events now t run_id es (record_event events now t run_id e m)

unfoldable pub failed_payload : Bool → Time → Time → Task → String → Result String → Memory → Memory
failed_payload events now later t e (err x) m = m
failed_payload events now later t e (ok run_id) m =
    if is_nil run_id
    then m
    else (let failed =
          new_event error worker_attempt_failed "worker attempt failed" (with_error e) in
        record_all events later t run_id (follow_up t.info e)
          (record_event events now t run_id failed m))

-- asynq calls this with the error of an attempt.
unfoldable pub handle_error : Bool → Time → Time → Task → String → Memory → Memory
handle_error events now later t e m = failed_payload events now later t e t.payload m
