-- ===== src/Runner/Control.antt =====
-- The requests of setup and teardown (apps/api/internal/runner/runner.go, runControlRequests).
use wreckr.Prelude.{
  ℕ, suc, ◌≤◌, String, ◌≡◌, refl, false, not, List, [], ◌∷◌, Option, none, some, any, length, arith,
  Bool-cases, inl, inr,
}
use wreckr.Scenario.{Request}
use wreckr.Report.{ResponseRecord, CheckResult}
use wreckr.Report.Build.{has_error}
use wreckr.Runner.{
  has_failed_check, control_turn, control_check, control_loop, run_control_requests,
}

-- No request follows one that has an error.
abbrev pub StopsAtError : List ResponseRecord → Type 0
StopsAtError [] = Unit
StopsAtError (r ∷ []) = Unit
StopsAtError (r ∷ s ∷ rs) = (has_error r ≡ false) × StopsAtError (s ∷ rs)

StopsAtError-cons :
    (r : ResponseRecord) (rs : List ResponseRecord)
    → has_error r ≡ false
    → StopsAtError rs
    → StopsAtError (r ∷ rs)
StopsAtError-cons r [] h k = tt
StopsAtError-cons r (s ∷ rs) h k = (h, k)

-- The checks of one phase against its responses and its requests.
abbrev pub Agrees : List Request → List ResponseRecord × List CheckResult → Type 0
Agrees reqs out =
    (any (λ c. not c.passed) out.1 ≡ any has_error out.0)
    × (length out.1 ≡ length out.0)
    × (length out.0 ≤ length reqs)
    × StopsAtError out.0

module _ (phase : String) (send : ℕ → Request → Option ResponseRecord) where
  control_turn-Agrees :
      (req : Request) (reqs : List Request) (o : Option ResponseRecord)
      (rest : List ResponseRecord × List CheckResult)
      → Agrees reqs rest
      → Agrees (req ∷ reqs) (control_turn phase req o rest)
  unfolding control_turn control_check
  control_turn-Agrees req reqs none rest h = (refl, refl, omega arith, tt)
  control_turn-Agrees req reqs (some r) rest (bad, same, short, stops) =
      elim (Bool-cases (has_error r)) [
        | inl q ↦ rw q (ground arith, refl, omega arith, tt)
        | inr q ↦ rw q (
          ground (arith, bad, q),
          omega (arith, same),
          omega (arith, short),
          StopsAtError-cons r rest.0 q stops,
        )
      ]

  control_loop-Agrees : (i : ℕ) (reqs : List Request) → Agrees reqs (control_loop phase send i reqs)
  unfolding control_loop
  control_loop-Agrees i [] = (refl, refl, omega arith, tt)
  control_loop-Agrees i (req ∷ reqs) =
      control_turn-Agrees req reqs (send i req) _ (control_loop-Agrees (suc i) reqs)

  -- The requests of a phase: it has a failed check exactly when a response has an error, one check for
  -- each response and at most one response for each request, and no request is sent after an error.
  pub run_control_requests-Agrees :
      (run_id : String) (reqs : List Request)
      → let out = run_control_requests run_id phase send reqs in
        (has_failed_check out.checks ≡ any has_error out.records)
        × (length out.checks ≡ length out.records)
        × (length out.records ≤ length reqs)
        × StopsAtError out.records
  unfolding run_control_requests has_failed_check
  run_control_requests-Agrees run_id [] = (refl, refl, omega arith, tt)
  run_control_requests-Agrees run_id (req ∷ reqs) = control_loop-Agrees 0 (req ∷ reqs)
