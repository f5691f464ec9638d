-- ===== src/Report/Build.antt =====
-- Build and Summarize (apps/api/internal/report/report.go). The arithmetic on float64 is a parameter;
-- sorting is too, since it only compares such numbers.
use wreckr.Prelude.{
  ℕ, suc, ◌-◌, pos, String, ◌+++◌, Bool, not, List, [], ◌∷◌, ◌++◌, Option, none, some, Dict, lookup,
  insert, ltb_ℤ, show_ℤ, length, is_nil, get_elem?, eqb, if◌then◌else◌,
}
use wreckr.Value.{Float64}
use wreckr.Event.{Time}
use wreckr.Report.{
  Status, passed, failed, ResponseRecord, LatencyStats, Summary, CheckResult, Report,
}

-- What the code does with float64: conversion from an int, the four operations, math.Floor and
-- math.Ceil to an int, the literals, the order of sort.Float64s, math.Abs, the comparisons, and the
-- texts of the verbs %.nf and %v.
pub record FloatOps : Type 0 where
  pub of_nat : ℕ → Float64
  pub add : Float64 → Float64 → Float64
  pub sub : Float64 → Float64 → Float64
  pub mul : Float64 → Float64 → Float64
  pub div : Float64 → Float64 → Float64
  pub floor : Float64 → ℕ
  pub ceil : Float64 → ℕ
  pub one : Float64
  pub p50 : Float64
  pub p95 : Float64
  pub p99 : Float64
  pub sort : List Float64 → List Float64
  pub abs : Float64 → Float64
  pub le : Float64 → Float64 → Bool
  pub lt : Float64 → Float64 → Bool
  pub micro : Float64
  pub fixed : ℕ → Float64 → String
  pub general : Float64 → String

unfoldable pub zero_float : Float64
zero_float = record { bits = 0 }

-- The key of a record in the map of status codes.
unfoldable pub status_key : ResponseRecord → String
status_key r = if ltb_ℤ (pos 0) r.status_code then show_ℤ r.status_code else "error"

abbrev pub count_of : Option ℕ → ℕ
count_of none = 0
count_of (some n) = n

-- s.StatusCodes[statusKey]++
unfoldable pub increment : String → Dict ℕ → Dict ℕ
increment key codes = insert key (suc (count_of (lookup key codes))) codes

abbrev pub has_error : ResponseRecord → Bool
has_error r = not (is_nil r.error)

-- What the loop of Summarize carries.
pub record Tally : Type 0 where
  pub total_requests : ℕ
  pub failed_requests : ℕ
  pub status_codes : Dict ℕ
  pub durations : List Float64
  pub total : Float64

-- The loop over the checks: a failed one fails the run and is listed.
unfoldable pub judge : List CheckResult → Status × List String → Status × List String
judge [] v = v
judge (c ∷ cs) (s, fs) =
    judge cs (if c.passed then (s, fs) else (failed, fs ++ (c.name +++ ": " +++ c.message) ∷ []))

-- The loop over the records, which ends at the first error.
unfoldable pub judge_records : List ResponseRecord → Status → Status
judge_records [] s = s
judge_records (r ∷ rs) s = let rest = judge_records rs s in if has_error r then failed else rest

module _ (f : FloatOps) where
  unfoldable pub tally : List ResponseRecord → Tally → Tally
  unfolding status_key increment
  tally [] t = t
  tally (r ∷ rs) t = tally rs (record {
    total_requests = suc t.total_requests;
    failed_requests = if has_error r then suc t.failed_requests else t.failed_requests;
    status_codes = increment (status_key r) t.status_codes;
    durations = t.durations ++ r.duration_ms ∷ [];
    total = f.add t.total r.duration_ms;
  })

  unfoldable pub no_tally : Tally
  unfolding zero_float
  no_tally = record {
    total_requests = 0;
    failed_requests = 0;
    status_codes = [];
    durations = [];
    total = zero_float;
  }

  -- An index that is out of range would be a panic; no caller has one.
  at : List Float64 → ℕ → Float64
  unfolding zero_float
  at xs i = elim (get_elem? xs i) [ none ↦ zero_float | some x ↦ x ]

  interpolate : List Float64 → Float64 → Float64
  unfolding at
  interpolate xs place =
      let lower = f.floor place in
      let upper = f.ceil place in
      let weight = f.sub place (f.of_nat lower) in
      if eqb lower upper
      then at xs lower
      else f.add (f.mul (at xs lower) (f.sub f.one weight)) (f.mul (at xs upper) weight)

  unfoldable pub percentile : List Float64 → Float64 → Float64
  unfolding interpolate zero_float
  percentile [] p = zero_float
  percentile (x ∷ []) p = x
  percentile (x ∷ y ∷ xs) p = interpolate (x ∷ y ∷ xs) (f.mul p (f.of_nat (length (y ∷ xs))))

  unfoldable pub latency : List Float64 → Float64 → LatencyStats
  unfolding at percentile
  latency sorted total = record {
    min_ms = at sorted 0;
    avg_ms = f.div total (f.of_nat (length sorted));
    p50_ms = percentile sorted f.p50;
    p95_ms = percentile sorted f.p95;
    p99_ms = percentile sorted f.p99;
    max_ms = at sorted (length sorted - 1);
  }

  unfoldable pub empty_summary : Summary
  unfolding zero_float
  empty_summary = record {
    total_requests = 0;
    failed_requests = 0;
    error_rate = zero_float;
    status_codes = [];
    latency = record {
      min_ms = zero_float;
      avg_ms = zero_float;
      p50_ms = zero_float;
      p95_ms = zero_float;
      p99_ms = zero_float;
      max_ms = zero_float;
    };
  }

  unfoldable pub summary_of : Tally → Summary
  summary_of t = record {
    total_requests = t.total_requests;
    failed_requests = t.failed_requests;
    error_rate = f.div (f.of_nat t.failed_requests) (f.of_nat t.total_requests);
    status_codes = t.status_codes;
    latency = latency (f.sort t.durations) t.total;
  }

  unfoldable pub summarize : List ResponseRecord → Summary
  unfolding empty_summary summary_of no_tally
  summarize [] = empty_summary
  summarize (r ∷ rs) = summary_of (tally (r ∷ rs) no_tally)

  -- `finished` is the reading of the clock, and `duration` the milliseconds since the start.
  unfoldable pub build :
      Time
      → Float64
      → String
      → String
      → Time
      → List ResponseRecord
      → List CheckResult
      → List CheckResult
      → Report
  build finished duration id name started records thresholds invariants =
      let v = judge (thresholds ++ invariants) (passed, []) in
      record {
        run_id = id;
        scenario = name;
        scenario_version_id = "";
        scenario_version_number = 0;
        status = judge_records records v.0;
        started_at = started;
        finished_at = finished;
        duration_ms = duration;
        summary = summarize records;
        thresholds = thresholds;
        invariants = invariants;
        failures = v.1;
        responses = records;
      }
