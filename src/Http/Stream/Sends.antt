-- ===== src/Http/Stream/Sends.antt =====
-- What the stream of a run's events sends (apps/api/internal/httpapi/server.go, streamRunEvents).
use wreckr.Prelude.{
  length-append, ◌∙◌, ap, ℕ, zero, suc, Bool, ◌+◌, ◌≤◌, Option, some, none, String, ◌≡◌, refl, true,
  false, List, [], ◌∷◌, ◌++◌, arith, length, leb, if◌then◌else◌, Extends, Extends-refl,
  Extends-trans, append-nil, append_assoc, Bool-cases, inl, inr, sym,
}
use wreckr.Event.{Event}
use wreckr.Store.{Memory, events_of}
use wreckr.Store.Runs
use wreckr.Store.Events.{list_run_events}
use wreckr.Store.Op.{Op, apply, apply_all}
use wreckr.Store.Log.{Numbered, Effect-Extends}
use wreckr.Store.Effect.{apply-Effect}
use wreckr.Store.Sound.{Sound, apply_all-Sound}
use wreckr.Http.Stream.{is_terminal, RunRecord, pass, goes_on, stream, streamed, stream_run_events}

-- A list less its first elements.
abbrev pub drop {ℓ} : {A : Type ℓ} → ℕ → List A → List A
drop zero xs = xs
drop (suc n) [] = []
drop (suc n) (x ∷ xs) = drop n xs

-- The larger of two numbers.
abbrev max : ℕ → ℕ → ℕ
max a b = if leb a b then b else a

max-left : (a b : ℕ) → b ≤ a → max a b ≡ a
max-left a b h = ground arith

max-right : (a b : ℕ) → a ≤ b → max a b ≡ b
max-right a b h = ground arith

abbrev pub take {ℓ} : {A : Type ℓ} → ℕ → List A → List A
take zero xs = []
take (suc n) [] = []
take (suc n) (x ∷ xs) = x ∷ take n xs

-- The pass and the loop for a client to which every write succeeds.
abbrev pass_free : List Event → ℕ → List Event × ℕ
pass_free [] last = ([], last)
pass_free (e ∷ es) last =
    let skipped = pass_free es last in
    let sent = pass_free es e.sequence in
    if leb e.sequence last then skipped else (e ∷ sent.0, sent.1)

abbrev stream_free : String → List (Memory × Memory) → ℕ → List Event
stream_free id [] last = []
stream_free id ((m, n) ∷ looks) last =
    let log = events_of m id in
    let sent = pass_free log last in
    let rest = stream_free id looks sent.1 in
    sent.0 ++ (if goes_on (Runs.get_run id n) log then rest else [])

-- One pass over numbered events sends those after the last number.
pass_sent :
    (k : ℕ) (es : List Event) (d : ℕ)
    → Numbered k es
    → pass_free es (k + d) ≡ (drop d es, max (k + d) (k + length es))
pass_sent k [] zero h = ap (λ n. ([], n)) (sym (max-left (k + 0) (k + 0) (omega arith)))
pass_sent k [] (suc d) h = ap (λ n. ([], n)) (sym (max-left (k + suc d) (k + 0) (omega arith)))
pass_sent k (x ∷ es) zero h =
    let late : leb x.sequence (k + 0) ≡ false = ground (arith, h.0) in
    let top : max (suc k + 0) (suc k + length es) ≡ max (k + 0) (k + suc (length es)) =
      ground arith in
    let at : x.sequence ≡ suc k + 0 = omega (arith, h.0) in
    let ih = ap (pass_free es) at ∙ (pass_sent (suc k) es 0 h.1 ∙ ap (λ n. (es, n)) top) in
    rw late (ap (λ t. (x ∷ t.0, t.1)) ih)
pass_sent k (x ∷ es) (suc d) h =
    let early : leb x.sequence (k + suc d) ≡ true = ground (arith, h.0) in
    let at : k + suc d ≡ suc k + d = omega arith in
    let top : max (suc k + d) (suc k + length es) ≡ max (k + suc d) (k + suc (length es)) =
      ground arith in
    rw early (ap (pass_free es) at ∙ (pass_sent (suc k) es d h.1 ∙ ap (λ n. (drop d es, n)) top))

pass_all :
    (es : List Event) (d : ℕ) → Numbered 0 es → pass_free es d ≡ (drop d es, max d (length es))
pass_all es d h =
    let top : max (0 + d) (0 + length es) ≡ max d (length es) = ground arith in
    let at : d ≡ 0 + d = omega arith in
    ap (pass_free es) at ∙ (pass_sent 0 es d h ∙ ap (λ n. (drop d es, n)) top)

drop-nil {ℓ} : {A : Type ℓ} (n : ℕ) → drop {A = A} n [] ≡ []
drop-nil zero = refl
drop-nil (suc n) = refl

module _ {ℓ} {A : Type ℓ} where
  drop-length : (xs zs : List A) → drop (length xs) (xs ++ zs) ≡ zs
  drop-length [] zs = refl
  drop-length (x ∷ xs) zs = drop-length xs zs

  -- What two passes send together, over a log and a longer one.
  drop-append :
      (n : ℕ) (xs zs : List A)
      → drop n xs ++ drop (max n (length xs)) (xs ++ zs) ≡ drop n (xs ++ zs)
  drop-append zero xs zs =
      rw (max-right 0 (length xs) (omega arith)) (ap (λ t. xs ++ t) (drop-length xs zs))
  drop-append (suc n) [] zs = rw (max-left (suc n) 0 (omega arith)) refl
  drop-append (suc n) (x ∷ xs) zs =
      let top : max (suc n) (suc (length xs)) ≡ suc (max n (length xs)) = ground arith in
      rw top (drop-append n xs zs)

-- The states of a stream's rounds, each after some writes to the one before it: those in which the
-- round reads the log, and those between that and its look at the run.
abbrev pub looks_from : List (List Op × List Op) → Memory → List (Memory × Memory)
looks_from [] m = []
looks_from ((ops, more) ∷ rounds) m =
    (apply_all ops m, apply_all more (apply_all ops m))
    ∷ looks_from rounds (apply_all more (apply_all ops m))

-- The log that the stream's last round reads, `seen` if it makes none.
abbrev pub last_log : String → List Event → List (List Op × List Op) → Memory → List Event
last_log id seen [] m = seen
last_log id seen ((ops, more) ∷ rounds) m =
    let read = apply_all ops m in
    let left = apply_all more read in
    let rest = last_log id (events_of read id) rounds left in
    if goes_on (Runs.get_run id left) (events_of read id) then rest else events_of read id

apply_all-Extends :
    (ops : List Op) (id : String) (m : Memory)
    → Extends (events_of m id) (events_of (apply_all ops m) id)
unfolding apply_all
apply_all-Extends [] id m = Extends-refl (events_of m id)
apply_all-Extends (op ∷ ops) id m =
    Extends-trans _ _ _ (Effect-Extends m (apply op m) (apply-Effect op m) id)
      (apply_all-Extends ops id (apply op m))

-- A round after those that sent what `seen` has after the number n.
stream_round :
    (seen log : List Event) (n : ℕ) (more : List Event)
    → Numbered 0 log
    → Extends seen log
    → let sent = pass_free log (max n (length seen)) in
      (drop n seen ++ (sent.0 ++ more) ≡ drop n log ++ more) × (sent.1 ≡ max n (length log))
stream_round seen log n more h (zs, e) =
    let whole = pass_all log (max n (length seen)) h in
    let long : length log ≡ length seen + length zs = rw e (length-append seen zs) in
    let top : max (max n (length seen)) (length log) ≡ max n (length log) = ground arith in
    let joined : drop n seen ++ drop (max n (length seen)) log ≡ drop n log =
      rw e (drop-append n seen zs) in
    rw whole (sym (append_assoc (drop n seen) _ more) ∙ ap (λ t. t ++ more) joined, top)

stream_after :
    (rounds : List (List Op × List Op)) (id : String) (m : Memory) (seen : List Event) (n : ℕ)
    → Sound m
    → Extends seen (events_of m id)
    → drop n seen ++ stream_free id (looks_from rounds m) (max n (length seen))
      ≡ drop n (last_log id seen rounds m)
stream_after [] id m seen n sound ext = append-nil (drop n seen)
stream_after ((ops, more) ∷ rounds) id m seen n sound ext =
    let read = apply_all ops m in
    let left = apply_all more read in
    let s = apply_all-Sound ops m sound in
    let log = events_of read id in
    let longer = Extends-trans _ _ _ ext (apply_all-Extends ops id m) in
    let turn = λ (t : List Event). stream_round seen log n t (s.numbered id) longer in
    let later =
      stream_after rounds id left log n (apply_all-Sound more read s)
        (apply_all-Extends more id read) in
    elim (Bool-cases (goes_on (Runs.get_run id left) log)) [
      | inl g ↦ rw g (rw ((turn []).1) ((turn _).0 ∙ later))
      | inr g ↦ rw g ((turn []).0 ∙ append-nil (drop n log))
    ]

stream_free_lem :
    (rounds : List (List Op × List Op)) (id : String) (m : Memory) (last : ℕ)
    → Sound m
    → stream_free id (looks_from rounds m) last ≡ drop last (last_log id [] rounds m)
stream_free_lem rounds id m last sound =
    let looks = looks_from rounds m in
    ap (stream_free id looks) (sym (max-left last 0 (omega arith)))
    ∙ (ap (λ t. t ++ stream_free id looks (max last 0)) (sym (drop-nil last))
        ∙ stream_after rounds id m [] last sound (events_of m id, refl))

-- The room that is left after a number of writes, if there was enough.
abbrev spare : ℕ → ℕ → Option ℕ
spare room zero = some room
spare zero (suc n) = none
spare (suc room) (suc n) = spare room n

abbrev with_last : ℕ → Option ℕ → Option (ℕ × ℕ)
with_last last none = none
with_last last (some room) = some (last, room)

take-nil {ℓ} : {A : Type ℓ} (n : ℕ) → take {A = A} n [] ≡ []
take-nil zero = refl
take-nil (suc n) = refl

pass-pass_free :
    (es : List Event) (last room : ℕ)
    → pass es last room ≡ (
      take room (pass_free es last).0,
      with_last (pass_free es last).1 (spare room (length (pass_free es last).0)),
    )
unfolding pass
pass-pass_free [] last room =
    ap (λ (l : List Event). (l, with_last last (some room))) (sym (take-nil room))
pass-pass_free (e ∷ es) last zero = elim (Bool-cases (leb e.sequence last)) [
  | inl q ↦ rw q (pass-pass_free es last zero)
  | inr q ↦ rw q refl
]
pass-pass_free (e ∷ es) last (suc room) = elim (Bool-cases (leb e.sequence last)) [
  | inl q ↦ rw q (pass-pass_free es last (suc room))
  | inr q ↦ rw q (ap (λ t. (e ∷ t.0, t.1)) (pass-pass_free es e.sequence room))
]

abbrev take_spare {ℓ} : {A : Type ℓ} → Option ℕ → List A → List A
take_spare none xs = []
take_spare (some n) xs = take n xs

take-append {ℓ} :
    {A : Type ℓ} (n : ℕ) (xs ys : List A)
    → take n (xs ++ ys) ≡ take n xs ++ take_spare (spare n (length xs)) ys
take-append n [] ys = ap (λ t. t ++ take n ys) (sym (take-nil n))
take-append zero (x ∷ xs) ys = refl
take-append (suc n) (x ∷ xs) ys = ap (λ t. x ∷ t) (take-append n xs ys)

-- What follows a pass, if the rest of the loop is known.
after_pass :
    (on : Bool) (tail : ℕ → ℕ → List Event) (tail_free : ℕ → List Event)
    → ((l k : ℕ) → tail l k ≡ take k (tail_free l))
    → (last : ℕ) (o : Option ℕ)
    → elim (with_last last o) [ none ↦ [] | some at ↦ if on then tail at.0 at.1 else [] ]
      ≡ take_spare o (if on then tail_free last else [])
after_pass on tail tail_free h last none = refl
after_pass true tail tail_free h last (some k) = h last k
after_pass false tail tail_free h last (some k) = sym (take-nil k)

stream-stream_free :
    (looks : List (Memory × Memory)) (id : String) (last room : ℕ)
    → stream id looks last room ≡ take room (stream_free id looks last)
unfolding stream list_run_events
stream-stream_free [] id last room = sym (take-nil room)
stream-stream_free ((m, n) ∷ looks) id last room =
    let log = events_of m id in
    let sent = pass_free log last in
    let on = goes_on (Runs.get_run id n) log in
    let rest = λ (l k : ℕ). stream-stream_free looks id l k in
    rw (pass-pass_free log last room) (
      ap (λ t. take room sent.0 ++ t)
        (after_pass on (λ (l k : ℕ). stream id looks l k) (λ (l : ℕ). stream_free id looks l) rest
          sent.1 (spare room (length sent.0)))
      ∙ sym (take-append room sent.0 (if on then stream_free id looks sent.1 else [])))

-- For a stored run of a sound store that others go on writing to, the handler sends exactly the events after
-- the number that the client names, up to the log that its last round reads, each once, in order and none
-- left out, or the first of them where a write to the client fails.
pub stream_run_events_lem :
    (rounds : List (List Op × List Op)) (id : String) (m : Memory) (r : RunRecord) (last room : ℕ)
    → Sound m
    → Runs.get_run id m ≡ some r
    → stream_run_events true id m (looks_from rounds m) last room
      ≡ streamed (take room (drop last (last_log id [] rounds m)))
unfolding stream_run_events
stream_run_events_lem rounds id m r last room sound held =
    rw (held, stream_run_events)
      (ap streamed (
        stream-stream_free (looks_from rounds m) id last room
        ∙ ap (take room) (stream_free_lem rounds id m last sound)))

stream_free_cut :
    (more : List Op) (looks : List (Memory × Memory)) (id : String) (r : RunRecord) (m : Memory)
    (last : ℕ)
    → Sound m
    → Runs.get_run id (apply_all more m) ≡ some r
    → is_terminal r.status ≡ true
    → stream_free id ((m, apply_all more m) ∷ looks) last ≡ drop last (events_of m id)
unfolding goes_on
stream_free_cut more looks id r m last sound held ended =
    rw (pass_all (events_of m id) last (sound.numbered id)) (rw held (rw ended (append-nil _)))

-- Where a run ends between a round's look at the log and its look at the run, the stream ends at once
-- and sends none of the events that were logged in between, the one that says how the run ended
-- included, whatever rounds could follow and however much the client could take.
pub stream_cut :
    (more : List Op) (looks : List (Memory × Memory)) (id : String) (r : RunRecord) (m : Memory)
    (last room : ℕ)
    → Sound m
    → Runs.get_run id (apply_all more m) ≡ some r
    → is_terminal r.status ≡ true
    → stream id ((m, apply_all more m) ∷ looks) last room ≡ take room (drop last (events_of m id))
stream_cut more looks id r m last room sound held ended =
    stream-stream_free ((m, apply_all more m) ∷ looks) id last room
    ∙ ap (take room) (stream_free_cut more looks id r m last sound held ended)
