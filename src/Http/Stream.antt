-- ===== src/Http/Stream.antt =====
-- The stream of a run's events (apps/api/internal/httpapi/server.go, streamRunEvents).
pub mod Sends
use wreckr.Prelude.{
  ℕ, zero, suc, ℤ, pos, pos_part, String, ◌+++◌, Bool, true, false, ◌||◌, List, [], ◌∷◌, ◌++◌,
  Option, none, some, leb, ltb_ℤ, any, quote, is_nil, if◌then◌else◌,
}
use wreckr.Event.{Event, EventType, run_completed, run_failed, run_canceled}
use wreckr.Store.{RunRecord, Memory, is_terminal}
use wreckr.Store.Runs
use wreckr.Store.Events.{list_run_events}
use wreckr.Http.{Answer, answer, error, events}

unfoldable pub get_run_events : String → Memory → Answer
get_run_events id m = elim (Runs.get_run id m) [
  | none ↦ answer 404 (error ("run " +++ quote id +++ " not found"))
  | some r ↦ answer 200 (events (list_run_events id m))
]

-- One pass over the log, for a client that takes `room` more events before a write fails: the events that
-- are sent and, unless a write failed, the last sequence number sent and the room that is left.
unfoldable pub pass : List Event → ℕ → ℕ → List Event × Option (ℕ × ℕ)
pass [] last room = ([], some (last, room))
pass (e ∷ es) last zero =
    let skipped = pass es last zero in if leb e.sequence last then skipped else ([], none)
pass (e ∷ es) last (suc room) =
    let skipped = pass es last (suc room) in
    let sent = pass es e.sequence room in
    if leb e.sequence last then skipped else (e ∷ sent.0, sent.1)

ends_run : EventType → Bool
ends_run run_completed = true
ends_run run_failed = true
ends_run run_canceled = true
ends_run _ = false

unfoldable pub has_terminal_event : List Event → Bool
unfolding ends_run
has_terminal_event es = any (λ e. ends_run e.type) es

settled : Option RunRecord → Bool
settled none = true
settled (some r) = is_terminal r.status

unfoldable pub goes_on : Option RunRecord → List Event → Bool
unfolding settled
goes_on r log = if settled r then false else if has_terminal_event log then false else true

-- The loop. Each round reads the log in one state of the store and the run in a later one; it ends
-- with the run, with a write that fails, or with the states when the client leaves.
unfoldable pub stream : String → List (Memory × Memory) → ℕ → ℕ → List Event
stream id [] last room = []
stream id ((m, n) ∷ looks) last room =
    let log = list_run_events id m in
    let sent = pass log last room in
    let rest = λ (at : ℕ × ℕ). stream id looks at.0 at.1 in
    sent.0 ++ elim (sent.1) [
      | none ↦ []
      | some at ↦ if goes_on (Runs.get_run id n) log then rest at else []
    ]

-- An error with its status, or the events of a stream.
pub data StreamReply : Type 0 where
  refused : ℕ → String → StreamReply
  streamed : List Event → StreamReply

-- The handler, where `flushes` says whether the writer of the answer can flush.
unfoldable pub stream_run_events :
    Bool → String → Memory → List (Memory × Memory) → ℕ → ℕ → StreamReply
stream_run_events flushes id m looks last room = elim (Runs.get_run id m) [
  | none ↦ refused 404 ("run " +++ quote id +++ " not found")
  | some r ↦
      if flushes
      then streamed (stream id looks last room)
      else refused 500 "streaming is not supported"
]

-- Where the stream begins: `header` and `after` are the texts of Last-Event-ID and of the query, and
-- `number` reads a text as strconv.ParseInt does.
unfoldable pub last_event_sequence : (String → Option ℤ) → String → String → ℕ
last_event_sequence number header after = elim (number (if is_nil header then after else header)) [
  | none ↦ 0
  | some n ↦ if ltb_ℤ n (pos 0) then 0 else pos_part n
]
