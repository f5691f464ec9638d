-- ===== src/Runner/Run/Canceled.antt =====
-- The verdict on a run whose context is done before its traffic
-- (apps/api/internal/runner/runner.go, RunWithOptions).
use wreckr.Prelude.{String, ◌≡◌, refl, ap, ◌∙◌, Bool, true, false, List, [], ◌∷◌, none, some, arith}
use wreckr.Platform.{Platform, ok}
use wreckr.Scenario.{Scenario, Invariant, TrafficType, race}
use wreckr.Scenario.Validate.{validate}
use wreckr.Report.{Report}
use wreckr.Report.Build.{FloatOps, summarize}
use wreckr.Report.Verdict.{passes}
use wreckr.Runner.{has_failed_check}
use wreckr.Runner.Send.{Net}
use wreckr.Runner.Traffic.{Turn, Plan, Move}
use wreckr.Runner.Race.{race_loop, run_race}
use wreckr.Runner.Checks.{evaluate_invariants}
use wreckr.Runner.Checks.Limits.{within}
use wreckr.Runner.Run.{Circumstances, run_traffic, run_with_options, collected_in}
use wreckr.Runner.Run.Verdict.{
  taken, named, setup_checks, teardown_checks, good_traffic, all_pass, run_with_options-responses,
}

idle_race :
    (plan : Plan) (rounds : List (List Turn)) (mss : List (List Move))
    → race_loop plan rounds mss true ≡ some ([], true)
unfolding race_loop
idle_race plan [] mss = refl
idle_race plan (turns ∷ rounds) mss = refl

module _ (p : Platform) (f : FloatOps) (net : Net) (id : String) (given : Scenario)
    (c : Circumstances) where
  idle_traffic :
      (type : TrafficType) (run_id : String) (sc : Scenario)
      → type ≡ race
      → c.canceled_after_setup ≡ true
      → run_traffic p f net type run_id sc c ≡ some []
  unfolding run_traffic run_race
  idle_traffic type run_id sc e h =
      ap (λ (t : TrafficType). run_traffic p f net t run_id sc c) e
      ∙ ap (λ (k : Bool). collected_in (run_race p net run_id sc c.race_moves k)) h
      ∙ ap collected_in (idle_race _ _ c.race_moves)

  nothing_bad :
      (sc : Scenario) (run_id : String)
      → sc.thresholds.max_error_rate ≡ none
      → sc.thresholds.p95_ms ≡ none
      → sc.invariants ≡ []
      → good_traffic p f net run_id sc c [] ≡ true
  unfolding evaluate_invariants
  nothing_bad sc run_id e h i =
      let rate = ap (within f (summarize f []).error_rate) e in
      let slow = ap (within f (summarize f []).latency.p95_ms) h in
      let held =
        ap
          (λ (l : List Invariant). all_pass (evaluate_invariants f net p run_id sc [] c.visits 0 l))
          i in
      ground (arith, rate, slow, held)

  -- A race of a valid scenario without thresholds and invariants whose context is done when its traffic
  -- begins is passed with a report that has no response, and its traffic is an empty list of requests sent,
  -- where setup and teardown have no failed check.
  pub run_with_options_canceled :
      validate p (taken p f net id given c) ≡ none
      → (taken p f net id given c).traffic.type ≡ race
      → c.canceled_after_setup ≡ true
      → (taken p f net id given c).thresholds.max_error_rate ≡ none
      → (taken p f net id given c).thresholds.p95_ms ≡ none
      → (taken p f net id given c).invariants ≡ []
      → has_failed_check
          (setup_checks p f net (named p f net id given c) (taken p f net id given c) c)
        ≡ false
      → has_failed_check
          (teardown_checks p f net (named p f net id given c) (taken p f net id given c) c)
        ≡ false
      → (rep : Report) × (run_with_options p f net id given c ≡ some (ok rep))
        × (passes rep.status ≡ true)
        × (rep.responses ≡ [])
        × (run_traffic p f net
              (taken p f net id given c).traffic.type
              (named p f net id given c)
              (taken p f net id given c)
              c
            ≡ some [])
  run_with_options_canceled valid kind ended rate slow none_held up down =
      let sc = taken p f net id given c in
      let run_id = named p f net id given c in
      let idle = idle_traffic _ run_id sc kind ended in
      let (rep, e, verdict, unanswered) =
        run_with_options-responses p f net id given c [] valid up idle down in
      (rep, e, verdict ∙ nothing_bad sc run_id rate slow none_held, unanswered, idle)
