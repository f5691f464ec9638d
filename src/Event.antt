-- ===== src/Event.antt =====
-- Run events (apps/api/internal/runevent/event.go).
use wreckr.Prelude.{ℕ, String, List, Option, none}
use wreckr.Value.{Meta}

-- Nanoseconds since the Unix epoch. A nullable or zero time is `none`.
abbrev pub Time : Type 0
Time = ℕ

pub data EventType : Type 0 where
  run_queued run_started setup_started setup_completed teardown_started teardown_completed :
      EventType
  request_started request_completed assertion_failed invariant_failed threshold_failed : EventType
  cancel_requested worker_attempt_started worker_attempt_failed : EventType
  worker_retry_scheduled worker_dead_lettered run_completed run_failed run_canceled : EventType

-- `unset` is the empty string, which the store replaces.
pub data Level : Type 0 where
  unset info warn error : Level

abbrev pub Metadata : Type 0
Metadata = List (String × Meta)

pub record Event : Type 0 where
  pub id : String
  pub run_id : String
  pub sequence : ℕ
  pub level : Level
  pub type : EventType
  pub message : String
  pub metadata : Metadata
  pub created_at : Option Time

-- The literal `runevent.Event{Level: …, Type: …, Message: …, Metadata: …}`.
abbrev pub new_event : Level → EventType → String → Metadata → Event
new_event l t msg meta = record {
  id = "";
  run_id = "";
  sequence = 0;
  level = l;
  type = t;
  message = msg;
  metadata = meta;
  created_at = none;
}
