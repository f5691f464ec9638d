-- ===== src/Examples/K6Cases.antt =====
-- The k6 script of a scenario and what is read back of a run, on concrete inputs.
use wreckr.Prelude.{
  all, length, true, ◌&&◌, ◌||◌, [], ◌∷◌, ℕ, ℤ, pos, String, ◌≡◌, refl, some, none, show, int_limit,
  is_nil, arith,
}
use wreckr.Scenario.{Scenario, retry_storm}
use wreckr.K6.Thresholds.{status_metric}
use wreckr.K6.Compile.Totals.{k6_requests_sent}
use wreckr.K6.Names.{match_metric, status_number}
use wreckr.K6.Names.Read.{Unescaped, match_metric-status_metric}
use wreckr.Report.Build.{FloatOps}
use wreckr.Report.Verdict.{passes}
use wreckr.Runner.Checks.{evaluate_invariants}
use wreckr.K6.Runner.{K6Summary, parse_thresholds, reconstruct_records, k6_report}
use wreckr.K6.Runner.Passes.{good_entry, k6_report-passes}
use wreckr.Examples.ReportCases.{floats, nought}
use wreckr.Examples.RunCases.{seen}
use wreckr.Examples.Web.{web}
use wreckr.Examples.Fixtures.{sample}
use wreckr.Examples.SendCases.{wire}

-- Two iterations of four attempts.
abbrev storm : Scenario
storm = record sample {
  traffic = record {
    type = retry_storm;
    concurrency = pos 2;
    iterations = pos 2;
    rate_per_second = pos 0;
    retry = record { attempts = pos 4; backoff_ms = pos 5 };
  };
}

eight_requests : k6_requests_sent storm ≡ 8
unfolding wreckr.K6.Compile.k6_iterations wreckr.K6.Compile.storm_attempts
eight_requests = refl

checkout-Unescaped : Unescaped "checkout"
checkout-Unescaped = (refl, (refl, (refl, (refl, (refl, (refl, (refl, (refl, tt))))))))

match_metric-status_metric_example :
    (match_metric (status_metric "checkout" (pos 201)) ≡ some ("checkout", show 201))
    × (status_number (show 201) ≡ pos 201)
match_metric-status_metric_example =
    match_metric-status_metric "checkout" 201 checkout-Unescaped (unfold is_nil in refl)
      (omega arith)

-- A name with a quotation mark is not read back as it was.
quoted_name : match_metric (status_metric "a\"b" (pos 200)) ≡ some ("\"a\\\"b\"", "200")
unfolding match_metric wreckr.Prelude.has_prefix status_metric wreckr.Prelude.quote
    wreckr.Prelude.show_ℤ wreckr.Prelude.trim_prefix is_nil wreckr.Prelude.cut
quoted_name = refl

-- Arithmetic in which a count is its own floor.
abbrev counting : FloatOps
counting = record floats { floor = λ x. x.bits }

-- What k6 says of three answers with 404 to a request that expects 201.
abbrev refused : K6Summary
refused =
    (
      status_metric "checkout" (pos 404),
      record { values = ("count", record { bits = 3 }) ∷ []; thresholds = [] },
    )
    ∷ []

k6_report-passes_example :
    passes (k6_report counting wire web "run_5" sample 1 2 nought (λ i. seen) refused).status
    ≡ (all (λ c. c.passed) (parse_thresholds counting sample.thresholds refused)
        && all
            (λ c. c.passed)
            (evaluate_invariants counting wire web "run_5" sample
              (reconstruct_records counting refused 1)
              (λ i. seen)
              0
              sample.invariants))
      && all (good_entry counting) refused
k6_report-passes_example =
    k6_report-passes counting wire web "run_5" sample 1 2 nought (λ i. seen) refused

-- The answers count as good, although none is expected.
refused_all : all (good_entry counting) refused ≡ true
unfolding match_metric wreckr.Prelude.has_prefix status_metric wreckr.Prelude.quote
    wreckr.Prelude.show_ℤ wreckr.Prelude.trim_prefix is_nil wreckr.Prelude.cut
    wreckr.K6.Runner.value_of wreckr.Prelude.lookup status_number wreckr.Prelude.atoi
refused_all = refl

three_records : length (reconstruct_records counting refused 1) ≡ 3
unfolding reconstruct_records wreckr.Prelude.has_prefix status_metric wreckr.Prelude.quote
    wreckr.Prelude.show_ℤ wreckr.Prelude.trim_prefix is_nil wreckr.Prelude.cut wreckr.Prelude.lookup
three_records = refl
