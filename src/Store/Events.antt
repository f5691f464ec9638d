-- ===== src/Store/Events.antt =====
-- The event log of each run in the memory store (apps/api/internal/store/memory.go).
use wreckr.Prelude.{
  ℕ, ◌+◌, String, ◌+++◌, ◌==◌, List, [], ◌∷◌, ◌++◌, Option, none, some, Bool, true, false, insert,
  length, any, show, if◌then◌else◌,
}
use wreckr.Event.{Time, Event, EventType, cancel_requested, Level, unset, info}
use wreckr.Store.{Memory, events_of}

-- The three `if` that fill in what the caller left empty.
or_info : Level → Level
or_info unset = info
or_info l = l

or_now : Time → Option Time → Option Time
or_now now none = some now
or_now now (some t) = some t

unfoldable pub fill_event : Time → String → ℕ → Event → Event
unfolding or_info or_now
fill_event now run_id n event = record event {
  id = if event.id == "" then "evt_" +++ show now else event.id;
  run_id = if event.run_id == "" then run_id else event.run_id;
  level = or_info event.level;
  created_at = or_now now event.created_at;
  sequence = n;
}

unfoldable pub append_run_event : Time → String → Event → Memory → Memory × Event
append_run_event now run_id event m =
    let e = fill_event now run_id (length (events_of m run_id) + 1) event in
    (record m { run_events = insert run_id (events_of m run_id ++ e ∷ []) m.run_events }, e)

unfoldable pub list_run_events : String → Memory → List Event
list_run_events run_id m = events_of m run_id

is_cancel_type : EventType → Bool
is_cancel_type cancel_requested = true
is_cancel_type _ = false

-- event.Type == runevent.TypeCancelRequested
unfoldable pub is_cancel_event : Event → Bool
unfolding is_cancel_type
is_cancel_event e = is_cancel_type e.type

unfoldable pub is_run_cancel_requested : String → Memory → Bool
is_run_cancel_requested run_id m = any is_cancel_event (events_of m run_id)
