-- ===== src/K6/Runner/Passes.antt =====
-- When a k6 run is reported as passed (apps/api/internal/runner/k6_runner.go).
use wreckr.Prelude.{
  ℕ, zero, suc, ℤ, pos, String, ◌+++◌, ◌≡◌, refl, ap, ◌∙◌, Bool, true, false, not, ◌&&◌, ◌||◌, [],
  ◌∷◌, Option, none, some, all, all-append, lookup, leb_ℤ, eqb, eqb_ℤ, show_ℤ, is_nil,
  is_nil-append, arith, Bool-cases, inl, inr,
}
use wreckr.Platform.{Platform}
use wreckr.Value.{Float64}
use wreckr.Event.{Time}
use wreckr.Scenario.{Scenario}
use wreckr.Report.{Report, ResponseRecord}
use wreckr.Report.Build.{FloatOps, has_error, build}
use wreckr.Report.Verdict.{passes, build_lem}
use wreckr.Runner.Send.{Net}
use wreckr.Runner.Checks.{Visit, evaluate_invariants}
use wreckr.K6.Names.{match_metric, status_number}
use wreckr.K6.Runner.{
  K6Metric, K6Summary, value_of, repeated, mock_error, mock_record, metric_records, all_records,
  reconstruct_records, average_of, parse_thresholds, with_latency, k6_report,
}

-- Whether a status is an error by itself.
abbrev pub bad_status : ℤ → Bool
bad_status s = eqb_ℤ s (pos 0) || leb_ℤ (pos 500) s

-- Whether the responses that one metric counts are no errors.
abbrev pub good_metric : Option (String × String) → ℕ → Bool
good_metric none n = true
good_metric (some (name, status)) n = eqb n 0 || not (bad_status (status_number status))

abbrev good : ResponseRecord → Bool
good r = not (has_error r)

repeated_lem : (n : ℕ) (r : ResponseRecord) → all good (repeated n r) ≡ eqb n 0 || good r
unfolding repeated
repeated_lem zero r = ground arith
repeated_lem (suc n) r = let ih = repeated_lem n r in ground (arith, ih)

mock_error_lem : (s : ℤ) → is_nil (mock_error s) ≡ not (bad_status s)
unfolding mock_error
mock_error_lem s =
    let some_text : is_nil ("status code " +++ show_ℤ s) ≡ false =
      is_nil-append "status code " (show_ℤ s) (unfold is_nil in refl) in
    elim (Bool-cases (bad_status s)) [
      | inl q ↦ rw q some_text
      | inr q ↦ rw q (unfold is_nil in refl)
    ]

thrice : (b : Bool) → not (not (not b)) ≡ not b
thrice true = refl
thrice false = refl

module _ (f : FloatOps) where
  abbrev pub good_entry : String × K6Metric → Bool
  good_entry entry = good_metric (match_metric entry.0) (f.floor (value_of "count" entry.1.values))

  metric_records_lem :
      (started : Time) (average : Float64) (o : Option (String × String)) (m : K6Metric)
      → all good (metric_records f started average o m)
        ≡ good_metric o (f.floor (value_of "count" m.values))
  unfolding metric_records mock_record
  metric_records_lem started average none m = refl
  metric_records_lem started average (some (name, status)) m =
      let n = f.floor (value_of "count" m.values) in
      repeated_lem n (mock_record started average (name, status))
      ∙ ap (λ b. eqb n 0 || not (not b)) (mock_error_lem (status_number status))
      ∙ ap (λ b. eqb n 0 || b) (thrice (bad_status (status_number status)))

  all_records_lem :
      (started : Time) (average : Float64) (summary : K6Summary)
      → all good (all_records f started average summary) ≡ all good_entry summary
  unfolding all_records
  all_records_lem started average [] = refl
  all_records_lem started average ((key, m) ∷ rest) =
      let here = metric_records_lem started average (match_metric key) m in
      let later = all_records_lem started average rest in
      let both =
        all-append good (metric_records f started average (match_metric key) m)
          (all_records f started average rest) in
      both
      ∙ ap (λ b. b && all good (all_records f started average rest)) here
      ∙ ap (λ b. good_entry (key, m) && b) later

  status_with_latency :
      (m : Option K6Metric) (rep : Report) → (with_latency f m rep).status ≡ rep.status
  unfolding with_latency
  status_with_latency none rep = refl
  status_with_latency (some m) rep = refl

  -- The report of a k6 run says passed exactly when the thresholds are as k6 judged them all passed, every
  -- invariant holds, and no metric counts a response whose status is 0, or 500 or more; a status that a
  -- request does not expect is none of these.
  pub k6_report-passes :
      (net : Net) (p : Platform) (run_id : String) (sc : Scenario) (started finished : Time)
      (duration : Float64) (visits : ℕ → Visit) (summary : K6Summary)
      → passes (k6_report f net p run_id sc started finished duration visits summary).status
        ≡ (all (λ c. c.passed) (parse_thresholds f sc.thresholds summary)
            && all
                (λ c. c.passed)
                (evaluate_invariants f net p run_id sc
                  (reconstruct_records f summary started)
                  visits
                  0
                  sc.invariants))
          && all good_entry summary
  unfolding k6_report reconstruct_records
  k6_report-passes net p run_id sc started finished duration visits summary =
      let thresholds = parse_thresholds f sc.thresholds summary in
      let records = reconstruct_records f summary started in
      let invariants = evaluate_invariants f net p run_id sc records visits 0 sc.invariants in
      let average = average_of f (lookup "http_req_duration" summary) in
      ap passes (
        status_with_latency (lookup "http_req_duration" summary)
          (build f finished duration run_id sc.name started records thresholds invariants))
      ∙ (build_lem f finished duration run_id sc.name started records thresholds invariants).0
      ∙ ap (λ b. (all (λ c. c.passed) thresholds && all (λ c. c.passed) invariants) && b)
          (all_records_lem started average summary)
