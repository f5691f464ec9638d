-- ===== src/K6/Compile/Totals.antt =====
-- How many requests a k6 script sends, and how many the Go runner does
-- (apps/api/internal/k6script/compiler.go and apps/api/internal/runner/runner.go).
use wreckr.Prelude.{ℕ, ◌*◌, pos_part, String, length}
use wreckr.Platform.{Platform}
use wreckr.Scenario.{Scenario, Traffic, TrafficType, race, retry_storm}
use wreckr.Runner.Send.{Net}
use wreckr.Runner.Traffic.Once.{asked}
use wreckr.Runner.Race.{race_rounds}
use wreckr.Runner.Race.Once.{turns_in}
use wreckr.Runner.Run.{at_least_once}
use wreckr.K6.Compile.{k6_iterations, storm_attempts}

-- The rounds over the requests in one iteration of the script.
abbrev pub rounds : TrafficType → Traffic → ℕ
rounds retry_storm t = pos_part (storm_attempts t)
rounds type t = 1

-- The requests of all iterations of the script.
abbrev pub k6_requests_sent : Scenario → ℕ
k6_requests_sent sc =
    pos_part (k6_iterations sc.traffic) * (rounds sc.traffic.type sc.traffic * length sc.requests)

module _ (p : Platform) (net : Net) (run_id : String) (sc : Scenario) where
  -- The calls of executeRequest that the Go runner makes for the traffic.
  abbrev pub go_requests_sent : TrafficType → ℕ
  go_requests_sent race = length (turns_in (race_rounds p net run_id sc))
  go_requests_sent retry_storm =
      length (asked p net run_id sc (at_least_once sc.traffic.retry.attempts))
  go_requests_sent type = length (asked p net run_id sc 1)
