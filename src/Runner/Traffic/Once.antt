-- ===== src/Runner/Traffic/Once.antt =====
-- Every turn of the traffic is taken once (apps/api/internal/runner/runner.go, runParallel).
use wreckr.Prelude.{
  subst, ℕ, zero, suc, ◌*◌, ◌≤◌, pos_part, ◌≡◌, refl, ap, ◌∙◌, Bool, true, false, ◌&&◌, ◌||◌, List,
  [], ◌∷◌, ◌++◌, ◌⊎◌, Option, none, some, all, is_empty, arith, count_where, length, length-append,
  inl, inr, String, if◌then◌else◌,
}
use wreckr.Platform.{Platform}
use wreckr.Scenario.{Scenario, Request}
use wreckr.Runner.Send.{Net}
use wreckr.Runner.Traffic.{
  Turn, Worker, waiting, returned, ready, resting, checked, admitted, Plan, Pool, Move, hand, work,
  close, cancel, hand_to, handed, hand_next, step, steps, has_returned, crew, outcome, turns_of,
  start, run_parallel, attempt_turns, iteration_turns, iterations_from,
}
use wreckr.Runner.Traffic.Counted.{
  count_where-append, left_count, pending_count, sent_count, Kept, pool_count, steps-Kept,
}

count_all {ℓ} : {A : Type ℓ} (xs : List A) → count_where (λ _. true) xs ≡ length xs
count_all [] = refl
count_all (x ∷ xs) = omega (arith, count_all xs)

-- All turns of some iterations.
abbrev pub turns_for : (ℕ → List Turn) → List ℕ → List Turn
turns_for turns [] = []
turns_for turns (i ∷ is) = turns i ++ turns_for turns is

pending_count-eq :
    (test : Turn → Bool) (turns : ℕ → List Turn) (is : List ℕ)
    → pending_count test turns is ≡ count_where test (turns_for turns is)
pending_count-eq test turns [] = refl
pending_count-eq test turns (i ∷ is) =
    let more = count_where-append test (turns i) (turns_for turns is) in
    omega (arith, more, pending_count-eq test turns is)

-- Workers that have all returned have no turn before them.
all_returned :
    (test : Turn → Bool) (ws : List Worker) → all has_returned ws ≡ true → left_count test ws ≡ 0
unfolding has_returned
all_returned test [] h = refl
all_returned test (returned ∷ ws) h = omega (arith, all_returned test ws h)
all_returned test (waiting ∷ ws) h = cc
all_returned test (ready ts ∷ ws) h = cc
all_returned test (resting ts ∷ ws) h = cc
all_returned test (checked t ts ∷ ws) h = cc
all_returned test (admitted t ts ∷ ws) h = cc

crew_waiting : (test : Turn → Bool) (n : ℕ) → left_count test (crew n waiting) ≡ 0
unfolding crew
crew_waiting test zero = refl
crew_waiting test (suc n) = omega (arith, crew_waiting test n)

close-Right :
    (b c : Bool) (l : List ℕ)
    → (b ≡ false) ⊎ (c ≡ true) ⊎ (l ≡ [])
    → (b || is_empty l || c ≡ false) ⊎ (c ≡ true) ⊎ (l ≡ [])
close-Right true c l (inl h) = cc
close-Right true c l (inr h) = inr h
close-Right false c [] h = inr (inr refl)
close-Right false true (i ∷ l) h = inr (inl refl)
close-Right false false (i ∷ l) h = inl refl

-- What wg.Wait has waited for.
pub outcome_lem :
    (pool out : Pool)
    → outcome pool ≡ some out
    → (pool ≡ out) × (pool.closed ≡ true) × (all has_returned pool.workers ≡ true)
unfolding outcome
outcome_lem pool out h = split pool.closed (all has_returned pool.workers) h
  where
    split :
        (b c : Bool)
        → (if b && c then some pool else none) ≡ some out
        → (pool ≡ out) × (b ≡ true) × (c ≡ true)
    split true true e = (cc, refl, refl)
    split true false e = cc
    split false c e = cc

pub Kept-from :
    {canceled : Bool} {l m n : ℕ}
    → (l ≤ m) × ((canceled ≡ true) ⊎ (m ≡ l))
    → Kept canceled m n
    → Kept canceled l n
Kept-from (a, inl c) (b, y) = (omega arith, inl c)
Kept-from (a, inr x) (b, inl c) = (omega arith, inl c)
Kept-from (a, inr x) (b, inr y) = (omega arith, inr (omega arith))

pub Kept-to : {canceled : Bool} {l m n : ℕ} → Kept canceled l m → m ≡ n → Kept canceled l n
Kept-to (a, inl c) e = (omega arith, inl c)
Kept-to (a, inr x) e = (omega arith, inr (omega arith))

module _ (turns : ℕ → List Turn) (plan : Plan) where
  -- The channel is closed only when every iteration is handed out or the context is done.
  abbrev pub ClosedRight : Pool → Type 0
  ClosedRight pool = (pool.closed ≡ false) ⊎ (pool.canceled ≡ true) ⊎ (pool.pending ≡ [])

  handed-ClosedRight :
      (rest : List ℕ) (pool : Pool) (o : Option (List Worker))
      → pool.closed ≡ false
      → ClosedRight (handed pool rest o)
  unfolding handed
  handed-ClosedRight rest pool none h = inl h
  handed-ClosedRight rest pool (some ws) h = inl h

  hand_next-ClosedRight :
      (k : ℕ) (l : List ℕ) (pool : Pool) → ClosedRight pool → ClosedRight (hand_next turns k l pool)
  unfolding hand_next
  hand_next-ClosedRight k [] pool h = h
  hand_next-ClosedRight k (i ∷ rest) pool h = go pool.closed refl
    where
      go :
          (b : Bool)
          → pool.closed ≡ b
          → ClosedRight (if b then pool else handed pool rest (hand_to k (turns i) pool.workers))
      go true e = h
      go false e = handed-ClosedRight rest pool _ e

  step-ClosedRight :
      (m : Move) (pool : Pool) → ClosedRight pool → ClosedRight (step plan turns m pool)
  unfolding step
  step-ClosedRight (hand k) pool h = hand_next-ClosedRight k pool.pending pool h
  step-ClosedRight (work k a) pool h = h
  step-ClosedRight close pool h = close-Right pool.closed pool.canceled pool.pending h
  step-ClosedRight cancel pool h = inr (inl refl)

  steps-ClosedRight :
      (ms : List Move) (pool : Pool) → ClosedRight pool → ClosedRight (steps plan turns ms pool)
  unfolding steps
  steps-ClosedRight [] pool h = h
  steps-ClosedRight (m ∷ ms) pool h = steps-ClosedRight ms _ (step-ClosedRight m pool h)

  -- Nothing is before a pool that is over, but the iterations that an end of the context left out.
  over_count :
      (test : Turn → Bool) (pool : Pool)
      → ClosedRight pool
      → pool.closed ≡ true
      → all has_returned pool.workers ≡ true
      → (sent_count test pool.collected ≤ pool_count test turns pool)
        × ((pool.canceled ≡ true) ⊎ (pool_count test turns pool ≡ sent_count test pool.collected))
  over_count test pool (inl open_still) c r = cc
  over_count test pool (inr (inl ended)) c r = (omega arith, inl ended)
  over_count test pool (inr (inr none_left)) c r =
      let idle = all_returned test pool.workers r in
      let handed_out = ap (pending_count test turns) none_left in
      (omega arith, inr (omega (arith, idle, handed_out)))

  -- The turns taken, for each test of turns, from a pool whose workers all wait.
  pub over-Kept :
      (test : Turn → Bool) (ms : List Move) (pool out : Pool)
      → ClosedRight pool
      → outcome (steps plan turns ms pool) ≡ some out
      → Kept out.canceled (sent_count test out.collected) (pool_count test turns pool)
  over-Kept test ms pool out right h =
      let (same, closed, all_done) = outcome_lem (steps plan turns ms pool) out h in
      let end_count =
        over_count test (steps plan turns ms pool) (steps-ClosedRight ms pool right) closed
          all_done in
      let kept = steps-Kept test turns plan ms pool in
      subst
        (λ (o : Pool). Kept o.canceled (sent_count test o.collected) (pool_count test turns pool))
        same (Kept-from end_count kept)

module _ (p : Platform) (net : Net) (run_id : String) (sc : Scenario) (attempts : ℕ) where
  -- The turns that the scenario asks for.
  abbrev pub asked : List Turn
  asked =
      turns_for (turns_of p net run_id sc attempts)
        (iterations_from (pos_part sc.traffic.iterations) 0)

  start_count :
      (canceled : Bool) (test : Turn → Bool)
      → pool_count test (turns_of p net run_id sc attempts) (start p net run_id sc canceled)
        ≡ count_where test asked
  unfolding start
  start_count canceled test =
      let is = iterations_from (pos_part sc.traffic.iterations) 0 in
      omega (
        arith,
        crew_waiting test (pos_part sc.traffic.concurrency),
        pending_count-eq test (turns_of p net run_id sc attempts) is,
      )

  -- Once the workers of runParallel have returned, whatever the order in which they ran, every turn that
  -- the scenario asks for (an iteration, a request and an attempt) was taken exactly as often as it
  -- asks for, unless the context ended; then no turn was taken more often. Turns are told apart by any
  -- test.
  pub run_parallel-Kept :
      (moves : List Move) (canceled : Bool) (out : Pool) (test : Turn → Bool)
      → run_parallel p net run_id sc attempts moves canceled ≡ some out
      → (sent_count test out.collected ≤ count_where test asked)
        × ((out.canceled ≡ true) ⊎ (sent_count test out.collected ≡ count_where test asked))
  unfolding run_parallel
  run_parallel-Kept moves canceled out test h =
      let kept = over-Kept _ _ test moves (start p net run_id sc canceled) out (inl refl) h in
      Kept-to kept (start_count canceled test)

  length-attempt_turns : (i : ℕ) (req : Request) (n a : ℕ) → length (attempt_turns i req n a) ≡ n
  unfolding attempt_turns
  length-attempt_turns i req zero a = refl
  length-attempt_turns i req (suc n) a = omega (arith, length-attempt_turns i req n (suc a))

  length-iteration_turns :
      (i : ℕ) (reqs : List Request)
      → length (iteration_turns attempts i reqs) ≡ length reqs * attempts
  unfolding iteration_turns
  length-iteration_turns i [] = omega arith
  length-iteration_turns i (req ∷ reqs) =
      let one = length-attempt_turns i req attempts 1 in
      let both = length-append (attempt_turns i req attempts 1) (iteration_turns attempts i reqs) in
      grind (arith, one, both, length-iteration_turns i reqs)

  pub length-turns_for :
      (n i : ℕ)
      → length (turns_for (turns_of p net run_id sc attempts) (iterations_from n i))
        ≡ n * (length sc.requests * attempts)
  unfolding iterations_from turns_of
  length-turns_for zero i = omega arith
  length-turns_for (suc n) i =
      let rest = turns_for (turns_of p net run_id sc attempts) (iterations_from n (suc i)) in
      let both = length-append (iteration_turns attempts i sc.requests) rest in
      let one = length-iteration_turns i sc.requests in
      grind (arith, both, one, length-turns_for n (suc i))

  -- runParallel collects one record for each attempt at each request in each iteration, and where the
  -- context ends no more than these.
  pub run_parallel_bounds :
      (moves : List Move) (canceled : Bool) (out : Pool)
      → run_parallel p net run_id sc attempts moves canceled ≡ some out
      → (length out.collected ≤ pos_part sc.traffic.iterations * (length sc.requests * attempts))
        × ((out.canceled ≡ true)
            ⊎ (length out.collected
                ≡ pos_part sc.traffic.iterations * (length sc.requests * attempts)))
  run_parallel_bounds moves canceled out h =
      let kept = run_parallel-Kept moves canceled out (λ t. true) h in
      let sent = count_all out.collected in
      let total = count_all asked ∙ length-turns_for (pos_part sc.traffic.iterations) 0 in
      Kept-from (omega (arith, sent), inr sent) (Kept-to kept total)
