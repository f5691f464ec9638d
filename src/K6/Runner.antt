-- ===== src/K6/Runner.antt =====
-- The report of a k6 run (apps/api/internal/runner/k6_runner.go). The summary is as json.Unmarshal stores
-- it.
pub mod Passes
use Prim.Native.String.{String}
use wreckr.Prelude.{
  ℕ, zero, suc, ℤ, pos, ◌+++◌, Bool, true, false, ◌||◌, List, [], ◌∷◌, ◌++◌, Option, none, some,
  Dict, lookup, contains, show_ℤ, leb_ℤ, eqb_ℤ, if◌then◌else◌,
}
use wreckr.Platform.{Platform, Result, ok, err}
use wreckr.Value.{Float64}
use wreckr.Event.{Time}
use wreckr.Scenario.{Scenario, Thresholds}
use wreckr.Report.{Report, ResponseRecord, CheckResult}
use wreckr.Report.Build.{FloatOps, zero_float, build}
use wreckr.Runner.Send.{Net}
use wreckr.Runner.Checks.{Visit, evaluate_invariants}
use wreckr.K6.Compile.{Script}
use wreckr.K6.Names.{match_metric, status_number}

pub record K6Metric : Type 0 where
  pub values : Dict Float64
  pub thresholds : Dict Bool

abbrev pub K6Summary : Type 0
K6Summary = Dict K6Metric

-- The value of a key, or zero.
unfoldable pub value_of : String → Dict Float64 → Float64
value_of key values = elim (lookup key values) [ none ↦ zero_float | some x ↦ x ]

-- The records of one metric are alike.
unfoldable pub repeated : ℕ → ResponseRecord → List ResponseRecord
repeated zero r = []
repeated (suc n) r = r ∷ repeated n r

mock_error : ℤ → String
mock_error status =
    if eqb_ℤ status (pos 0) || leb_ℤ (pos 500) status then "status code " +++ show_ℤ status else ""

unfoldable pub mock_record : Time → Float64 → String × String → ResponseRecord
unfolding mock_error status_number
mock_record started average (name, status) = record {
  request_name = name;
  iteration = pos 0;
  attempt = 0;
  status_code = status_number status;
  duration_ms = average;
  error = mock_error (status_number status);
  body_preview = "";
  started_at = started;
}

-- The first threshold, in the order of the loop, whose text has the given one in it.
unfoldable pub find_threshold : String → Dict Bool → Option Bool
find_threshold part [] = none
find_threshold part ((text, good) ∷ rest) =
    let later = find_threshold part rest in if contains text part then some good else later

unfoldable pub status_text : Bool → String
status_text true = "passed"
status_text false = "failed"

module _ (f : FloatOps) where
  unfoldable pub average_of : Option K6Metric → Float64
  unfolding value_of
  average_of none = zero_float
  average_of (some m) = value_of "avg" m.values

  -- The records of one metric: `floor` stands for the conversion of the count to an int.
  unfoldable pub metric_records :
      Time → Float64 → Option (String × String) → K6Metric → List ResponseRecord
  unfolding mock_record repeated value_of
  metric_records started average none m = []
  metric_records started average (some matched) m =
      repeated (f.floor (value_of "count" m.values)) (mock_record started average matched)

  unfoldable pub all_records : Time → Float64 → K6Summary → List ResponseRecord
  unfolding metric_records match_metric
  all_records started average [] = []
  all_records started average ((key, m) ∷ rest) =
      metric_records started average (match_metric key) m ++ all_records started average rest

  unfoldable pub reconstruct_records : K6Summary → Time → List ResponseRecord
  unfolding average_of all_records
  reconstruct_records summary started =
      all_records started (average_of (lookup "http_req_duration" summary)) summary

  -- The text of the value that was measured.
  measured : (Float64 → String) → Option Float64 → String
  measured text none = "passed"
  measured text (some x) = text x

  -- Whether the threshold passed, and the text of its number, where k6 has the metric and the threshold.
  unfoldable pub verdict_of : String → String → (Float64 → String) → Option K6Metric → Bool × String
  unfolding measured find_threshold
  verdict_of part key text none = (true, "passed")
  verdict_of part key text (some m) = elim (find_threshold part m.thresholds) [
    | none ↦ (true, "passed")
    | some good ↦ (good, measured text (lookup key m.values))
  ]

  rate_check : Float64 → Bool × String → CheckResult
  unfolding status_text
  rate_check limit (passed, actual) = record {
    name = "max_error_rate";
    passed = passed;
    message =
        status_text passed
        +++ ": error rate "
        +++ actual
        +++ " (limit <= "
        +++ f.fixed 4 limit
        +++ ")";
    expected = "<= " +++ f.fixed 4 limit;
    actual = actual;
  }

  latency_check : Float64 → Bool × String → CheckResult
  unfolding status_text
  latency_check limit (passed, actual) = record {
    name = "p95_ms";
    passed = passed;
    message =
        status_text passed
        +++ ": p95 latency "
        +++ actual
        +++ " (limit <= "
        +++ f.fixed 1 limit
        +++ "ms)";
    expected = "<= " +++ f.fixed 1 limit +++ "ms";
    actual = actual;
  }

  parse_rate : K6Summary → Option Float64 → List CheckResult
  unfolding verdict_of rate_check
  parse_rate summary none = []
  parse_rate summary (some limit) =
      rate_check limit (
        verdict_of ("rate>=" +++ f.fixed 4 (f.sub f.one limit)) "rate"
          (λ rate. f.fixed 4 (f.sub f.one rate)) (lookup "checks" summary))
      ∷ []

  parse_latency : K6Summary → Option Float64 → List CheckResult
  unfolding verdict_of latency_check
  parse_latency summary none = []
  parse_latency summary (some limit) =
      latency_check limit (
        verdict_of ("p(95)<=" +++ f.fixed 1 limit) "p(95)" (λ x. f.fixed 1 x +++ "ms")
          (lookup "http_req_duration" summary))
      ∷ []

  unfoldable pub parse_thresholds : Thresholds → K6Summary → List CheckResult
  unfolding parse_rate parse_latency
  parse_thresholds t summary = parse_rate summary t.max_error_rate ++ parse_latency summary t.p95_ms

  -- k6's own latencies, where it has them.
  unfoldable pub with_latency : Option K6Metric → Report → Report
  unfolding value_of
  with_latency none rep = rep
  with_latency (some m) rep = record rep {
    summary = record rep.summary {
      latency = record {
        min_ms = value_of "min" m.values;
        avg_ms = value_of "avg" m.values;
        p50_ms = value_of "med" m.values;
        p95_ms = value_of "p(95)" m.values;
        p99_ms = value_of "p(99)" m.values;
        max_ms = value_of "max" m.values;
      };
    };
  }

  module _ (net : Net) (p : Platform) where
    -- The report of a summary; `finished` and `duration` are readings of the clock.
    unfoldable pub k6_report :
        String → Scenario → Time → Time → Float64 → (ℕ → Visit) → K6Summary → Report
    unfolding reconstruct_records parse_thresholds with_latency
    k6_report run_id sc started finished duration visits summary =
        let records = reconstruct_records summary started in
        let invariants = evaluate_invariants f net p run_id sc records visits 0 sc.invariants in
        with_latency (lookup "http_req_duration" summary) (
          build f finished duration run_id sc.name started records
            (parse_thresholds sc.thresholds summary) invariants)

    abbrev reported_by : (K6Summary → Report) → Result K6Summary → Result Report
    reported_by make (err e) = err e
    reported_by make (ok summary) = ok (make summary)

    -- `execute` is the run of k6 on the script, with its temporary files and the decoding of its summary.
    unfoldable pub run_k6 :
        String
        → Scenario
        → Time
        → Time
        → Float64
        → (ℕ → Visit)
        → (Script → Result K6Summary)
        → Result Script
        → Result Report
    unfolding k6_report
    run_k6 run_id sc started finished duration visits execute (err e) =
        err ("compile scenario: " +++ e)
    run_k6 run_id sc started finished duration visits execute (ok script) =
        reported_by (k6_report run_id sc started finished duration visits) (execute script)
