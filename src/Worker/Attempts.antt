-- ===== src/Worker/Attempts.antt =====
-- What a failed attempt leaves in the log of its run (apps/api/internal/worker/worker.go,
-- HandleError).
use wreckr.Prelude.{
  ltb_ℤ, String, ◌==◌, eq_iff, ◌≡◌, refl, sym, ◌∙◌, ap, Bool, true, false, not, ◌&&◌, List, [], ◌∷◌,
  ◌++◌, append-nil, append_assoc, arith, lookup-insert, Bool-cases, inl, inr, is_nil, if◌then◌else◌,
}
use wreckr.Platform.{Result, ok, err}
use wreckr.Event.{
  Time, Event, EventType, worker_attempt_failed, worker_retry_scheduled, worker_dead_lettered,
}
use wreckr.Store.{Memory, events_of}
use wreckr.Store.Events.{append_run_event, fill_event}
use wreckr.Worker.{
  Task, TaskInfo, record_event, record_all, follow_up, is_exhausted, failed_payload, handle_error,
}

-- The types of the events in a run's log.
abbrev pub types_of : List Event → List EventType
types_of [] = []
types_of (e ∷ es) = e.type ∷ types_of es

types_of-append : (es fs : List Event) → types_of (es ++ fs) ≡ types_of es ++ types_of fs
types_of-append [] fs = refl
types_of-append (e ∷ es) fs = ap (λ ts. e.type ∷ ts) (types_of-append es fs)

abbrev pub only_if {ℓ} : {A : Type ℓ} → Bool → List A → List A
only_if b xs = if b then xs else []

record_event-types :
    (now : Time) (t : Task) (k j : String) (e : Event) (m : Memory)
    → types_of (events_of (record_event true now t k e m) j)
      ≡ types_of (events_of m j) ++ only_if (k == j) (e.type ∷ [])
unfolding record_event append_run_event events_of fill_event
record_event-types now t k j e m = elim (Bool-cases (k == j)) [
  | inl q ↦ rw lookup-insert (rw q (rw ((eq_iff k j).0 q) (types_of-append (events_of m j) _)))
  | inr q ↦ rw lookup-insert (rw q (sym (append-nil _)))
]

-- What follows the failed attempt: the task goes to the dead letters when its retries are used up,
-- and is tried again when they are not.
abbrev pub outcome : TaskInfo → List EventType
outcome i =
    if not i.known
    then []
    else if ltb_ℤ i.retry_count i.max_retry
    then worker_retry_scheduled ∷ []
    else worker_dead_lettered ∷ []

outcome_of : (i : TaskInfo) (error : String) → types_of (follow_up i error) ≡ outcome i
unfolding follow_up is_exhausted
outcome_of i error = ground arith

only_if-append {ℓ} :
    {A : Type ℓ} (b : Bool) (xs ys : List A) → only_if b xs ++ only_if b ys ≡ only_if b (xs ++ ys)
only_if-append true xs ys = refl
only_if-append false xs ys = refl

record_all-types :
    (now : Time) (t : Task) (k j : String) (es : List Event) (m : Memory)
    → types_of (events_of (record_all true now t k es m) j)
      ≡ types_of (events_of m j) ++ only_if (k == j) (types_of es)
unfolding record_all
record_all-types now t k j [] m = elim (Bool-cases (k == j)) [
  | inl q ↦ rw q (sym (append-nil _))
  | inr q ↦ rw q (sym (append-nil _))
]
record_all-types now t k j (e ∷ es) m =
    record_all-types now t k j es (record_event true now t k e m)
    ∙ (ap (λ ts. ts ++ only_if (k == j) (types_of es)) (record_event-types now t k j e m)
        ∙ (append_assoc (types_of (events_of m j)) _ _
            ∙ ap (λ ts. types_of (events_of m j) ++ ts)
                (only_if-append (k == j) (e.type ∷ []) (types_of es))))

-- The run that a task names, if it names one.
abbrev pub names : String → Result String → Bool
names j (err e) = false
names j (ok k) = not (is_nil k) && (k == j)

failed_payload-types :
    (now later : Time) (t : Task) (error : String) (payload : Result String) (j : String)
    (m : Memory)
    → types_of (events_of (failed_payload true now later t error payload m) j)
      ≡ types_of (events_of m j)
        ++ only_if (names j payload) (worker_attempt_failed ∷ outcome t.info)
unfolding failed_payload
failed_payload-types now later t error (err e) j m = sym (append-nil _)
failed_payload-types now later t error (ok k) j m = elim (Bool-cases (is_nil k)) [
  | inl q ↦ rw q (sym (append-nil _))
  | inr q ↦
      let failed = record_event-types now t k j _ m in
      let rest = record_all-types later t k j (follow_up t.info error) _ in
      rw q (
        rest
        ∙ (ap (λ ts. ts ++ only_if (k == j) (types_of (follow_up t.info error))) failed
            ∙ (append_assoc (types_of (events_of m j)) _ _
                ∙ ap (λ ts. types_of (events_of m j) ++ ts)
                    (only_if-append (k == j) (worker_attempt_failed ∷ [])
                        (types_of (follow_up t.info error))
                      ∙ ap (λ ts. only_if (k == j) (worker_attempt_failed ∷ ts))
                          (outcome_of t.info error)))))
]

-- With a store, the error of an attempt adds to the log of the run that the task names the failure of
-- the attempt, and after it, where asynq tells the number of retries, the dead letter if none is left
-- and the next retry if one is. It adds nothing to another log, and nothing at all if the payload does
-- not decode or names no run.
pub handle_error-types :
    (now later : Time) (t : Task) (error : String) (j : String) (m : Memory)
    → types_of (events_of (handle_error true now later t error m) j)
      ≡ types_of (events_of m j)
        ++ only_if (names j t.payload) (worker_attempt_failed ∷ outcome t.info)
unfolding handle_error
handle_error-types now later t error j m = failed_payload-types now later t error t.payload j m
