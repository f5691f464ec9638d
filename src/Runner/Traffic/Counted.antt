-- ===== src/Runner/Traffic/Counted.antt =====
-- No turn of a pool is taken twice, and none is left out unless the context ends
-- (apps/api/internal/runner/runner.go, runParallel and runRace).
use wreckr.Prelude.{
  ◌∙◌, ap, ℕ, zero, suc, ◌+◌, ◌≤◌, ◌≡◌, refl, Bool, true, false, List, [], ◌∷◌, ◌++◌, ◌⊎◌, Option,
  none, some, arith, count_where, inl, inr, if◌then◌else◌,
}
use wreckr.Runner.Limiter.{wait}
use wreckr.Runner.Traffic.{
  behind, Turn, Worker, waiting, returned, ready, resting, checked, admitted, Act, check, pause,
  finish, limit, send, Sent, Plan, admit, act, Pool, Move, hand, work, close, cancel, act_at,
  hand_to, handed, hand_next, step, steps,
}

pub count_where-append {ℓ} :
    {A : Type ℓ} (p : A → Bool) (xs ys : List A)
    → count_where p (xs ++ ys) ≡ count_where p xs + count_where p ys
count_where-append p [] ys = omega arith
count_where-append p (x ∷ xs) ys = ground (arith, count_where-append p xs ys)

-- The turns that a worker has before it.
abbrev pub left : Worker → List Turn
left waiting = []
left returned = []
left (ready ts) = ts
left (resting ts) = ts
left (checked t ts) = t ∷ ts
left (admitted t ts) = t ∷ ts

-- A count that does not grow, and does not fall either while the context is not done.
abbrev pub Kept : Bool → ℕ → ℕ → Type 0
Kept canceled after before = (after ≤ before) × ((canceled ≡ true) ⊎ (after ≡ before))

pub Kept-eq : (canceled : Bool) {m n : ℕ} → m ≡ n → Kept canceled m n
Kept-eq canceled e = (omega arith, inr e)

Kept-shift :
    (canceled : Bool) {m n m' n' : ℕ} (k : ℕ)
    → Kept canceled m n
    → m' ≡ m + k
    → n' ≡ n + k
    → Kept canceled m' n'
Kept-shift canceled k (below, inl c) e f = (omega arith, inl c)
Kept-shift canceled k (below, inr same) e f = (omega arith, inr (omega arith))

pub Kept-trans :
    (canceled : Bool) {l m n : ℕ} → Kept canceled l m → Kept canceled m n → Kept canceled l n
Kept-trans canceled (a, inl c) (b, y) = (omega arith, inl c)
Kept-trans canceled (a, inr x) (b, inl c) = (omega arith, inl c)
Kept-trans canceled (a, inr x) (b, inr y) = (omega arith, inr (omega arith))

left_after : (b : Bool) (ts : List Turn) → left (if b then resting ts else ready ts) ≡ ts
left_after true ts = refl
left_after false ts = refl

either {ℓ} :
    {A : Type ℓ} (f : Pool → A) (b : Bool) (p q : Pool) → f q ≡ f p → f (if b then p else q) ≡ f p
either f true p q h = refl
either f false p q h = h

handed-canceled :
    (rest : List ℕ) (pool : Pool) (o : Option (List Worker))
    → (handed pool rest o).canceled ≡ pool.canceled
unfolding handed
handed-canceled rest pool none = refl
handed-canceled rest pool (some ws) = refl

hand_next-canceled :
    (turns : ℕ → List Turn) (k : ℕ) (l : List ℕ) (pool : Pool)
    → (hand_next turns k l pool).canceled ≡ pool.canceled
unfolding hand_next
hand_next-canceled turns k [] pool = refl
hand_next-canceled turns k (i ∷ rest) pool =
    either (λ p. p.canceled) pool.closed pool _ (handed-canceled rest pool _)

module _ (test : Turn → Bool) where
  wait-Kept :
      (limiter : Option ℕ) (canceled ticked : Bool) (t : Turn) (ts : List Turn)
      → Kept canceled
          (count_where test (left (admit (wait limiter ticked canceled) t ts)))
          (count_where test (t ∷ ts))
  unfolding admit wait
  wait-Kept none true ticked t ts = (omega arith, inl refl)
  wait-Kept none false ticked t ts = Kept-eq false refl
  wait-Kept (some i) canceled true t ts = Kept-eq canceled refl
  wait-Kept (some i) true false t ts = (omega arith, inl refl)
  wait-Kept (some i) false false t ts = Kept-eq false refl

  -- The turns that pass a test, among those before the workers, those of the iterations that no worker
  -- has, and those in the collector.
  abbrev pub left_count : List Worker → ℕ
  left_count [] = 0
  left_count (w ∷ ws) = count_where test (left w) + left_count ws

  abbrev pub pending_count : (ℕ → List Turn) → List ℕ → ℕ
  pending_count turns [] = 0
  pending_count turns (i ∷ is) = count_where test (turns i) + pending_count turns is

  abbrev pub sent_count : List Sent → ℕ
  sent_count sent = count_where (λ (s : Sent). test s.0) sent

  module _ (plan : Plan) where
    act-Kept :
        (canceled closed : Bool) (a : Act) (w : Worker)
        → let (w', sent) = act plan canceled closed a w in
          Kept canceled (count_where test (left w') + sent_count sent) (count_where test (left w))
    unfolding act
    act-Kept canceled closed check (ready []) = (omega arith, inr (omega arith))
    act-Kept true closed check (ready (t ∷ ts)) = (omega arith, inl refl)
    act-Kept false closed check (ready (t ∷ ts)) = (omega arith, inr (omega arith))
    act-Kept canceled closed (limit ticked) (checked t ts) =
        Kept-shift canceled 0 (wait-Kept plan.limiter canceled ticked t ts) (omega arith)
          (omega arith)
    act-Kept canceled closed (send x) (admitted t ts) =
        Kept-eq canceled (rw (left_after (plan.rests t) ts) (ground arith))
    act-Kept true closed pause (resting ts) = (omega arith, inl refl)
    act-Kept false closed pause (resting ts) = (omega arith, inr (omega arith))
    act-Kept canceled true finish waiting = (omega arith, inr (omega arith))
    act-Kept canceled false finish waiting = (omega arith, inr (omega arith))
    act-Kept canceled closed a w = (omega arith, inr (omega arith))

    act_at-Kept :
        (canceled closed : Bool) (k : ℕ) (a : Act) (ws : List Worker)
        → let (ws', sent) = act_at plan canceled closed k a ws in
          Kept canceled (left_count ws' + sent_count sent) (left_count ws)
    unfolding act_at
    act_at-Kept canceled closed k a [] = Kept-eq canceled (omega arith)
    act_at-Kept canceled closed zero a (w ∷ ws) =
        Kept-shift canceled (left_count ws) (act-Kept canceled closed a w) (omega arith)
          (omega arith)
    act_at-Kept canceled closed (suc k) a (w ∷ ws) =
        Kept-shift canceled (count_where test (left w)) (act_at-Kept canceled closed k a ws)
          (omega arith) (omega arith)

  module _ (turns : ℕ → List Turn) where
    -- The turns of a pool that pass the test.
    abbrev pub pool_count : Pool → ℕ
    pool_count pool =
        sent_count pool.collected + left_count pool.workers + pending_count turns pool.pending

    -- An iteration that is handed over is before its worker.
    abbrev Gives : List Turn → List Worker → Option (List Worker) → Type 0
    Gives given ws none = Unit
    Gives given ws (some ws') = left_count ws' ≡ left_count ws + count_where test given

    Gives-behind :
        (w : Worker) (given : List Turn) (ws : List Worker) (o : Option (List Worker))
        → Gives given ws o
        → Gives given (w ∷ ws) (behind w o)
    Gives-behind w given ws none h = tt
    Gives-behind w given ws (some ws') h = omega arith

    hand_to-Gives :
        (k : ℕ) (given : List Turn) (ws : List Worker) → Gives given ws (hand_to k given ws)
    unfolding hand_to
    hand_to-Gives k given [] = tt
    hand_to-Gives zero given (waiting ∷ ws) = omega arith
    hand_to-Gives zero given (returned ∷ ws) = tt
    hand_to-Gives zero given (ready ts ∷ ws) = tt
    hand_to-Gives zero given (resting ts ∷ ws) = tt
    hand_to-Gives zero given (checked t ts ∷ ws) = tt
    hand_to-Gives zero given (admitted t ts ∷ ws) = tt
    hand_to-Gives (suc k) given (w ∷ ws) =
        Gives-behind w given ws (hand_to k given ws) (hand_to-Gives k given ws)

    handed-Kept :
        (i : ℕ) (rest : List ℕ) (pool : Pool) (o : Option (List Worker))
        → i ∷ rest ≡ pool.pending
        → Gives (turns i) pool.workers o
        → pool_count (handed pool rest o) ≡ pool_count pool
    unfolding handed
    handed-Kept i rest pool none e h = refl
    handed-Kept i rest pool (some ws) e h =
        let all_pending = ap (pending_count turns) e in omega (arith, all_pending, h)

    hand_next-Kept :
        (k : ℕ) (l : List ℕ) (pool : Pool)
        → l ≡ pool.pending
        → pool_count (hand_next turns k l pool) ≡ pool_count pool
    unfolding hand_next
    hand_next-Kept k [] pool e = refl
    hand_next-Kept k (i ∷ rest) pool e =
        either pool_count pool.closed pool _
          (handed-Kept i rest pool _ e (hand_to-Gives k (turns i) pool.workers))

    module _ (plan : Plan) where
      step-Kept :
          (m : Move) (pool : Pool)
          → Kept
              (step plan turns m pool).canceled
              (pool_count (step plan turns m pool))
              (pool_count pool)
      unfolding step
      step-Kept (hand k) pool = Kept-eq _ (hand_next-Kept k pool.pending pool refl)
      step-Kept (work k a) pool =
          let more =
            count_where-append (λ (s : Sent). test s.0) pool.collected
              (act_at plan pool.canceled pool.closed k a pool.workers).1 in
          Kept-shift pool.canceled (sent_count pool.collected + pending_count turns pool.pending)
            (act_at-Kept plan pool.canceled pool.closed k a pool.workers) (omega (arith, more))
            (omega arith)
      step-Kept close pool = Kept-eq _ refl
      step-Kept cancel pool = Kept-eq _ refl

      step-canceled :
          (m : Move) (pool : Pool) → pool.canceled ≡ true → (step plan turns m pool).canceled ≡ true
      unfolding step
      step-canceled (hand k) pool h = hand_next-canceled turns k pool.pending pool ∙ h
      step-canceled (work k a) pool h = h
      step-canceled close pool h = h
      step-canceled cancel pool h = refl

      steps-canceled :
          (ms : List Move) (pool : Pool)
          → pool.canceled ≡ true
          → (steps plan turns ms pool).canceled ≡ true
      unfolding steps
      steps-canceled [] pool h = h
      steps-canceled (m ∷ ms) pool h =
          steps-canceled ms (step plan turns m pool) (step-canceled m pool h)

      -- The flag of a count may be that of a later moment.
      later : (b c : Bool) {m n : ℕ} → ((b ≡ true) → c ≡ true) → Kept b m n → Kept c m n
      later b c h (below, inl e) = (below, inl (h e))
      later b c h (below, inr e) = (below, inr e)

      pub steps-Kept :
          (ms : List Move) (pool : Pool)
          → Kept
              (steps plan turns ms pool).canceled
              (pool_count (steps plan turns ms pool))
              (pool_count pool)
      unfolding steps
      steps-Kept [] pool = Kept-eq pool.canceled refl
      steps-Kept (m ∷ ms) pool =
          let next = step plan turns m pool in
          Kept-trans (steps plan turns ms next).canceled (steps-Kept ms next)
            (later next.canceled _ (steps-canceled ms next) (step-Kept m pool))
