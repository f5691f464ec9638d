-- ===== src/Runner/Race/Once.antt =====
-- Every racer takes its turn once (apps/api/internal/runner/runner.go, runRace).
use wreckr.Prelude.{
  subst, ℕ, zero, suc, ◌+◌, ◌*◌, ◌≤◌, pos_part, ◌≡◌, refl, Bool, true, false, List, [], ◌∷◌, ◌++◌,
  ◌⊎◌, Option, none, some, arith, count_where, length, length-append, inl, inr, String, map,
}
use wreckr.Platform.{Platform}
use wreckr.Scenario.{Scenario, Request}
use wreckr.Runner.Send.{Net}
use wreckr.Runner.Traffic.{Turn, ready, Plan, Pool, Move, Sent, plan, iterations_from}
use wreckr.Runner.Traffic.Counted.{count_where-append, left_count, sent_count, Kept, Kept-eq}
use wreckr.Runner.Traffic.Once.{over-Kept, Kept-to}
use wreckr.Runner.Race.{
  racers, iteration_rounds, rounds_of, start_round, no_turns, run_round, first_moves, later_moves,
  put_first, after_round, race_loop, race_rounds, run_race,
}

-- All turns of some rounds.
abbrev pub turns_in : List (List Turn) → List Turn
turns_in [] = []
turns_in (turns ∷ rounds) = turns ++ turns_in rounds

-- What the rest of a race keeps, and what its first round does.
Kept-add :
    (b c : Bool) {l m k n : ℕ}
    → ((b ≡ true) → c ≡ true)
    → Kept b l m
    → Kept c k n
    → Kept c (l + k) (m + n)
Kept-add b c f (x, inl e) (y, z) = (omega arith, inl (f e))
Kept-add b c f (x, inr e) (y, inl z) = (omega arith, inl z)
Kept-add b c f (x, inr e) (y, inr z) = (omega arith, inr (omega arith))

Kept-count : {c : Bool} {l m n : ℕ} → Kept c l n → m ≡ l → Kept c m n
Kept-count (x, inl e) f = (omega arith, inl e)
Kept-count (x, inr e) f = (omega arith, inr (omega arith))

module _ (plan : Plan) (test : Turn → Bool) where
  racing_count :
      (turns : List Turn)
      → left_count test (map (λ t. ready (t ∷ [])) turns) ≡ count_where test turns
  racing_count [] = refl
  racing_count (t ∷ turns) = ground (arith, racing_count turns)

  run_round-Kept :
      (turns : List Turn) (ms : List Move) (canceled : Bool) (out : Pool)
      → run_round plan turns ms canceled ≡ some out
      → Kept out.canceled (sent_count test out.collected) (count_where test turns)
  unfolding run_round start_round
  run_round-Kept turns ms canceled out h =
      Kept-to (over-Kept no_turns plan test ms (start_round turns canceled) out (inr (inr refl)) h)
        (omega (arith, racing_count turns))

  -- A race whose context is done stays so.
  stays :
      (rounds : List (List Turn)) (mss : List (List Move)) (sent : List Sent) (c b : Bool)
      → b ≡ true
      → race_loop plan rounds mss b ≡ some (sent, c)
      → c ≡ true
  unfolding race_loop
  stays [] mss sent c b e h = cc
  stays (turns ∷ rounds) mss sent c true e h = cc
  stays (turns ∷ rounds) mss sent c false e h = cc

  -- The first round, and the rest after it.
  after_round-Kept :
      (n : ℕ) (rest : ℕ) (o : Option Pool) (next : Bool → Option (List Sent × Bool))
      (sent : List Sent) (c : Bool)
      → ((out : Pool) → o ≡ some out → Kept out.canceled (sent_count test out.collected) n)
      → ((b d : Bool) (more : List Sent)
          → next b ≡ some (more, d)
          → Kept d (sent_count test more) rest)
      → ((b d : Bool) (more : List Sent) → b ≡ true → next b ≡ some (more, d) → d ≡ true)
      → after_round o next ≡ some (sent, c)
      → Kept c (sent_count test sent) (n + rest)
  unfolding after_round put_first
  after_round-Kept n rest none next sent c first later stay h = cc
  after_round-Kept n rest (some pool) next sent c first later stay h =
      go (next pool.canceled) refl h
    where
      go :
          (r : Option (List Sent × Bool))
          → next pool.canceled ≡ r
          → put_first pool.collected r ≡ some (sent, c)
          → Kept c (sent_count test sent) (n + rest)
      go none e k = cc
      go (some (more, d)) e k =
          let added =
            Kept-add pool.canceled d (λ b. stay pool.canceled d more b e) (first pool refl)
              (later pool.canceled d more e) in
          let both = count_where-append (λ (s : Sent). test s.0) pool.collected more in
          let same : ◌≡◌ {A = List Sent × Bool} (pool.collected ++ more, d) (sent, c) = cc in
          subst (λ (o : List Sent × Bool). Kept o.1 (sent_count test o.0) (n + rest)) same
            (Kept-count added both)

  race_loop-Kept :
      (rounds : List (List Turn)) (mss : List (List Move)) (canceled : Bool) (sent : List Sent)
      (c : Bool)
      → race_loop plan rounds mss canceled ≡ some (sent, c)
      → Kept c (sent_count test sent) (count_where test (turns_in rounds))
  unfolding race_loop
  race_loop-Kept [] mss canceled sent c h =
      let same : ◌≡◌ {A = List Sent × Bool} ([], canceled) (sent, c) = cc in
      subst (λ (o : List Sent × Bool). Kept o.1 (sent_count test o.0) 0) same
        (Kept-eq canceled refl)
  race_loop-Kept (turns ∷ rounds) mss true sent c h =
      let same : ◌≡◌ {A = List Sent × Bool} ([], true) (sent, c) = cc in
      subst
        (λ (o : List Sent × Bool).
          Kept o.1 (sent_count test o.0) (count_where test (turns_in (turns ∷ rounds))))
        same (omega arith, inl refl)
  race_loop-Kept (turns ∷ rounds) mss false sent c h =
      let rest = race_loop plan rounds (later_moves mss) in
      Kept-to
        (after_round-Kept (count_where test turns) (count_where test (turns_in rounds))
          (run_round plan turns (first_moves mss) false) rest sent c
          (run_round-Kept turns (first_moves mss) false)
          (λ b d more e. race_loop-Kept rounds (later_moves mss) b more d e)
          (λ b d more e f. stays rounds (later_moves mss) more d b e f) h)
        (omega (arith, count_where-append test turns (turns_in rounds)))

module _ (p : Platform) (net : Net) (run_id : String) (sc : Scenario) where
  length-racers : (i : ℕ) (req : Request) (n k : ℕ) → length (racers i req n k) ≡ n
  unfolding racers
  length-racers i req zero k = refl
  length-racers i req (suc n) k = omega (arith, length-racers i req n (suc k))

  turns_in-append :
      (xs ys : List (List Turn))
      → length (turns_in (xs ++ ys)) ≡ length (turns_in xs) + length (turns_in ys)
  turns_in-append [] ys = omega arith
  turns_in-append (x ∷ xs) ys = omega (
    arith,
    length-append x (turns_in (xs ++ ys)),
    length-append x (turns_in xs),
    turns_in-append xs ys,
  )

  length-iteration_rounds :
      (n i : ℕ) (reqs : List Request)
      → length (turns_in (iteration_rounds n i reqs)) ≡ length reqs * n
  unfolding iteration_rounds
  length-iteration_rounds n i [] = omega arith
  length-iteration_rounds n i (req ∷ reqs) =
      let both = length-append (racers i req n 0) (turns_in (iteration_rounds n i reqs)) in
      grind (arith, both, length-racers i req n 0, length-iteration_rounds n i reqs)

  pub length-rounds_of :
      (n k i : ℕ) (reqs : List Request)
      → length (turns_in (rounds_of n reqs (iterations_from k i))) ≡ k * (length reqs * n)
  unfolding rounds_of iterations_from
  length-rounds_of n zero i reqs = omega arith
  length-rounds_of n (suc k) i reqs =
      let both =
        turns_in-append (iteration_rounds n i reqs)
          (rounds_of n reqs (iterations_from k (suc i))) in
      grind (arith, both, length-iteration_rounds n i reqs, length-rounds_of n k (suc i) reqs)

  -- Once runRace returns, whatever the order in which the racers ran, each racer of each round was
  -- answered once, one round for each request in each iteration, unless the context ended; then none was
  -- answered more often. Turns are told apart by any test.
  pub run_race-Kept :
      (mss : List (List Move)) (canceled : Bool) (sent : List Sent) (c : Bool) (test : Turn → Bool)
      → run_race p net run_id sc mss canceled ≡ some (sent, c)
      → (sent_count test sent ≤ count_where test (turns_in (race_rounds p net run_id sc)))
        × ((c ≡ true)
            ⊎ (sent_count test sent ≡ count_where test (turns_in (race_rounds p net run_id sc))))
        × (length (turns_in (race_rounds p net run_id sc))
            ≡ pos_part sc.traffic.iterations
              * (length sc.requests * pos_part sc.traffic.concurrency))
  unfolding run_race race_rounds
  run_race-Kept mss canceled sent c test h =
      let kept =
        race_loop-Kept (plan p net run_id sc 0) test (race_rounds p net run_id sc) mss canceled sent
          c h in
      (kept.0, kept.1, length-rounds_of _ (pos_part sc.traffic.iterations) 0 sc.requests)
