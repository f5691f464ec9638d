-- ===== src/Store/Cancel.antt =====
-- Requests to cancel a run (apps/api/internal/store/memory.go, RequestRunCancel).
use wreckr.Prelude.{
  not, ◌&&◌, length-append, ◌+◌, if◌then◌else◌, ◌||◌, length, Option-cases, String, ◌≡◌, refl, inl,
  inr, List, [], ◌∷◌, Option, none, some, Bool, true, false, arith, lookup, lookup-insert, eq_refl,
  any-append, Bool-cases,
}
use wreckr.Value.{Meta}
use wreckr.Event.{new_event, warn, cancel_requested, Time, Event}
use wreckr.Store.{is_terminal, status_text, RunRecord, Memory, is_cancelable, events_of}
use wreckr.Store.Events.{append_run_event, is_run_cancel_requested, is_cancel_event, fill_event}
use wreckr.Store.Runs.{
  on_found, put_run, on_active, mark_run_started, request_run_cancel, request_found, get_run,
}
use wreckr.Store.Op.{Op, apply, apply_all}
use wreckr.Store.Effect.{apply-Effect}
use wreckr.Store.Log.{Effect-Extends, any-Extends}

abbrev pub can_cancel : Option RunRecord → Bool
can_cancel none = false
can_cancel (some r) = is_cancelable r.status

-- After an append, the log is asked whether it holds a cancel request.
requested-append :
    (at : Time) (id : String) (e : Event) (m : Memory)
    → is_cancel_event e ≡ true
    → is_run_cancel_requested id (append_run_event at id e m).0 ≡ true
unfolding append_run_event is_run_cancel_requested events_of fill_event is_cancel_event
requested-append at id e m h = rw lookup-insert (rw (eq_refl id) (rw any-append (ground arith)))

length-append_event :
    (at : Time) (id : String) (e : Event) (m : Memory)
    → length (events_of (append_run_event at id e m).0 id) ≡ length (events_of m id) + 1
unfolding append_run_event events_of
length-append_event at id e m =
    rw lookup-insert (rw (eq_refl id) (omega (arith, length-append {0})))

-- The event that the request logs.
abbrev request_event : RunRecord → Event
request_event r =
    new_event warn cancel_requested "run cancellation requested"
      (("status", Meta.text (status_text r.status)) ∷ [])

requested_found :
    (at : Time) (id : String) (found : Option RunRecord) (m : Memory)
    → let (n, done) = request_found at id found m in
      (done ≡ can_cancel found)
      × (n.runs ≡ m.runs)
      × (is_run_cancel_requested id n ≡ done || is_run_cancel_requested id m)
      × (length (events_of n id) ≡ (
          if done && not (is_run_cancel_requested id m)
          then length (events_of m id) + 1
          else length (events_of m id)))
unfolding request_found
requested_found at id none m = (refl, refl, refl, refl)
requested_found at id (some r) m =
    let asked = requested-append at id (request_event r) m (unfold is_cancel_event in refl) in
    let kept : (append_run_event at id (request_event r) m).0.runs ≡ m.runs =
      unfold append_run_event in refl in
    let longer = length-append_event at id (request_event r) m in
    elim (Bool-cases (is_cancelable r.status)) [
      | inl c ↦ elim (Bool-cases (is_run_cancel_requested id m)) [
        | inl q ↦ rw (c, q) (refl, refl, q, refl)
        | inr q ↦ rw (c, q) (refl, kept, asked, longer)
      ]
      | inr c ↦ rw c (refl, refl, refl, refl)
    ]

-- A request to cancel succeeds exactly for a stored run that is queued or running, and changes no
-- run. After it the store says that cancellation was requested if the request succeeded or the store
-- said so before. It logs one event if it succeeds and is the first, and none otherwise.
pub request_run_cancel_lem :
    (at : Time) (id : String) (m : Memory)
    → let (n, done) = request_run_cancel at id m in
      (done ≡ can_cancel (get_run id m))
      × (n.runs ≡ m.runs)
      × (is_run_cancel_requested id n ≡ done || is_run_cancel_requested id m)
      × (length (events_of n id) ≡ (
          if done && not (is_run_cancel_requested id m)
          then length (events_of m id) + 1
          else length (events_of m id)))
unfolding request_run_cancel get_run
request_run_cancel_lem at id m = requested_found at id (lookup id m.runs) m

pub requested-apply :
    (op : Op) (id : String) (m : Memory)
    → is_run_cancel_requested id m ≡ true
    → is_run_cancel_requested id (apply op m) ≡ true
unfolding is_run_cancel_requested
requested-apply op id m h =
    any-Extends is_cancel_event (events_of m id) (events_of (apply op m) id)
      (Effect-Extends m (apply op m) (apply-Effect op m) id) h

-- A cancel request, once logged, is never forgotten.
pub requested-apply_all :
    (ops : List Op) (id : String) (m : Memory)
    → is_run_cancel_requested id m ≡ true
    → is_run_cancel_requested id (apply_all ops m) ≡ true
unfolding apply_all
requested-apply_all [] id m h = h
requested-apply_all (op ∷ ops) id m h =
    requested-apply_all ops id (apply op m) (requested-apply op id m h)

-- The start of a run is no cancel request.
pub requested-mark :
    (now at : Time) (id : String) (m : Memory)
    → is_run_cancel_requested id (mark_run_started now at id m) ≡ is_run_cancel_requested id m
unfolding mark_run_started on_active put_run append_run_event is_run_cancel_requested fill_event
    is_cancel_event events_of
requested-mark now at id m = elim (Option-cases (lookup id m.runs)) [
  | inl e ↦ rw (e, on_found)
  | inr (r, e) ↦ elim (Bool-cases (is_terminal r.status)) [
    | inl t ↦ rw (e, on_found) (rw t)
    | inr t ↦
        rw (e, on_found) (rw t (rw lookup-insert (rw (eq_refl id) (rw any-append (ground arith)))))
  ]
]
