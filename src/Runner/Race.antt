-- ===== src/Runner/Race.antt =====
-- The traffic of a race (apps/api/internal/runner/runner.go, runRace): for each iteration and each
-- request one round, in which every racer sends the request once. A round ends before the next begins.
pub mod Once
use wreckr.Prelude.{
  ℕ, zero, suc, ◌+◌, pos_part, String, Bool, true, false, List, [], ◌∷◌, ◌++◌, Option, none, some,
  map, if◌then◌else◌,
}
use wreckr.Platform.{Platform}
use wreckr.Scenario.{Scenario, Request}
use wreckr.Runner.Send.{Net}
use wreckr.Runner.Traffic.{
  Turn, Worker, ready, Plan, Pool, Move, Sent, steps, outcome, plan, iterations_from,
}

-- The turns of the racers from one index on.
unfoldable pub racers : ℕ → Request → ℕ → ℕ → List Turn
racers iteration req zero racer = []
racers iteration req (suc left) racer =
    record { request = req; iteration = iteration; attempt = racer + 1 }
    ∷ racers iteration req left (suc racer)

unfoldable pub iteration_rounds : ℕ → ℕ → List Request → List (List Turn)
unfolding racers
iteration_rounds concurrency iteration [] = []
iteration_rounds concurrency iteration (req ∷ reqs) =
    racers iteration req concurrency 0 ∷ iteration_rounds concurrency iteration reqs

unfoldable pub rounds_of : ℕ → List Request → List ℕ → List (List Turn)
unfolding iteration_rounds
rounds_of concurrency reqs [] = []
rounds_of concurrency reqs (i ∷ is) =
    iteration_rounds concurrency i reqs ++ rounds_of concurrency reqs is

-- A goroutine for each racer, which returns after its turn.
unfoldable pub start_round : List Turn → Bool → Pool
start_round turns canceled = record {
  pending = [];
  closed = true;
  canceled = canceled;
  workers = map (λ t. ready (t ∷ [])) turns;
  collected = [];
}

abbrev pub no_turns : ℕ → List Turn
no_turns i = []

unfoldable pub run_round : Plan → List Turn → List Move → Bool → Option Pool
unfolding start_round steps outcome
run_round plan turns moves canceled =
    outcome (steps plan no_turns moves (start_round turns canceled))

abbrev pub first_moves : List (List Move) → List Move
first_moves [] = []
first_moves (ms ∷ mss) = ms

abbrev pub later_moves : List (List Move) → List (List Move)
later_moves [] = []
later_moves (ms ∷ mss) = mss

unfoldable pub put_first : List Sent → Option (List Sent × Bool) → Option (List Sent × Bool)
put_first sent none = none
put_first sent (some (more, canceled)) = some (sent ++ more, canceled)

-- After wg.Wait, with the rounds that follow.
unfoldable pub after_round :
    Option Pool → (Bool → Option (List Sent × Bool)) → Option (List Sent × Bool)
unfolding put_first
after_round none next = none
after_round (some pool) next = put_first pool.collected (next pool.canceled)

-- The loops over iterations and requests, each with the test of the context: what is collected, and
-- whether the context is done.
unfoldable pub race_loop :
    Plan → List (List Turn) → List (List Move) → Bool → Option (List Sent × Bool)
unfolding run_round after_round
race_loop plan [] moves canceled = some ([], canceled)
race_loop plan (turns ∷ rounds) moves canceled =
    let next = race_loop plan rounds (later_moves moves) in
    if canceled
    then some ([], true)
    else after_round (run_round plan turns (first_moves moves) canceled) next

module _ (p : Platform) (net : Net) (run_id : String) (sc : Scenario) where
  unfoldable pub race_rounds : List (List Turn)
  unfolding rounds_of
  race_rounds =
      rounds_of (pos_part sc.traffic.concurrency) sc.requests
        (iterations_from (pos_part sc.traffic.iterations) 0)

  unfoldable pub run_race : List (List Move) → Bool → Option (List Sent × Bool)
  unfolding race_loop race_rounds plan
  run_race moves canceled = race_loop (plan p net run_id sc 0) race_rounds moves canceled
