-- ===== src/Examples/TrafficCases.antt =====
-- The traffic of a run on concrete schedules, and a whole run.
use wreckr.Prelude.{
  ℕ, ◌+◌, ◌*◌, ◌≤◌, ◌<◌, pos, eqb, ◌≡◌, refl, Bool, true, false, List, [], ◌∷◌, ◌⊎◌, Option, none,
  some, count_where, length, arith,
}
use wreckr.Scenario.{Scenario, burst}
use wreckr.Scenario.Normalize.{is_retry_storm}
use wreckr.Runner.Limiter.{wait, new_request_limiter, new_request_limiter_bounds, second}
use wreckr.Runner.Traffic.{
  step, hand_to, act_at, act, Pool, Move, Sent, hand, work, close, check, limit, send, finish,
  steps, iterations_from, start, plan, turns_of, run_parallel,
}
use wreckr.Runner.Traffic.Counted.{sent_count}
use wreckr.Runner.Traffic.Once.{asked, run_parallel-Kept}
use wreckr.Runner.Traffic.Returns.{run_parallel_returns}
use wreckr.Runner.Race.{run_race, race_rounds}
use wreckr.Runner.Race.Once.{turns_in, run_race-Kept}
use wreckr.Examples.Web.{web}
use wreckr.Examples.Fixtures.{sample}
use wreckr.Examples.SendCases.{wire, answers}

abbrev pub one_burst : Scenario
one_burst = record sample { traffic = record sample.traffic { type = burst } }

new_request_limiter_bounds_example :
    (i : ℕ) × (new_request_limiter (pos 3) ≡ some i)
    × ((i * 3 ≤ second) ⊎ ((i ≡ 1) × (second < 3)))
    × (second < (i + 1) * 3)
new_request_limiter_bounds_example = new_request_limiter_bounds 3 (omega arith)

-- The first worker takes the one iteration; both return.
abbrev served : List Move
served =
    hand 0
    ∷ work 0 check
    ∷ work 0 (limit true)
    ∷ work 0 (send (answers (pos 201)))
    ∷ work 0 check
    ∷ close
    ∷ work 1 finish
    ∷ work 0 finish
    ∷ []

abbrev after_served : Pool
after_served =
    steps (plan web wire "run_5" one_burst 1) (turns_of web wire "run_5" one_burst 1) served
      (start web wire "run_5" one_burst false)

returns : run_parallel web wire "run_5" one_burst 1 served false ≡ some after_served
unfolding run_parallel step hand_to act_at act wait new_request_limiter is_retry_storm
returns = refl

run_parallel-Kept_example :
    (sent_count (λ t. eqb t.attempt 1) after_served.collected
      ≤ count_where (λ t. eqb t.attempt 1) (asked web wire "run_5" one_burst 1))
    × ((after_served.canceled ≡ true)
        ⊎ (sent_count (λ t. eqb t.attempt 1) after_served.collected
            ≡ count_where (λ t. eqb t.attempt 1) (asked web wire "run_5" one_burst 1)))
run_parallel-Kept_example =
    run_parallel-Kept web wire "run_5" one_burst 1 served false after_served (λ t. eqb t.attempt 1)
      returns

run_parallel_returns_example :
    (moves : List Move) × (out : Pool) × (run_parallel web wire "run_5" one_burst 1 moves false
      ≡ some out)
    × (out.canceled ≡ false)
run_parallel_returns_example =
    run_parallel_returns web wire "run_5" one_burst 1 (answers (pos 201)) (omega arith)

-- The second racer is the faster one.
abbrev pub raced : List (List Move)
raced =
    (work 1 check
      ∷ work 0 check
      ∷ work 1 (limit true)
      ∷ work 1 (send (answers (pos 201)))
      ∷ work 0 (limit true)
      ∷ work 0 (send (answers (pos 409)))
      ∷ work 0 check
      ∷ work 1 check
      ∷ work 0 finish
      ∷ work 1 finish
      ∷ [])
    ∷ []

abbrev pub or_nothing : Option (List Sent × Bool) → List Sent × Bool
or_nothing none = ([], true)
or_nothing (some out) = out

abbrev pub race_sent : List Sent × Bool
race_sent = or_nothing (run_race web wire "run_5" sample raced false)

pub race_returns : run_race web wire "run_5" sample raced false ≡ some (race_sent.0, race_sent.1)
unfolding run_race step hand_to act_at act wait new_request_limiter is_retry_storm iterations_from
race_returns = refl

run_race-Kept_example :
    (sent_count (λ t. eqb t.attempt 2) race_sent.0
      ≤ count_where (λ t. eqb t.attempt 2) (turns_in (race_rounds web wire "run_5" sample)))
    × ((race_sent.1 ≡ true)
        ⊎ (sent_count (λ t. eqb t.attempt 2) race_sent.0
            ≡ count_where (λ t. eqb t.attempt 2) (turns_in (race_rounds web wire "run_5" sample))))
    × (length (turns_in (race_rounds web wire "run_5" sample)) ≡ 1 * (1 * 2))
run_race-Kept_example =
    run_race-Kept web wire "run_5" sample raced false race_sent.0 race_sent.1 (λ t. eqb t.attempt 2)
      race_returns
