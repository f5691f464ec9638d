-- ===== src/Examples/ReportCases.antt =====
-- A report and a failed attempt on concrete inputs.
use wreckr.Prelude.{
  show, ltb, leb, ℤ, pos, String, ◌≡◌, true, false, ◌&&◌, not, List, [], ◌∷◌, ◌++◌, lookup, all,
  length, count_where,
}
use wreckr.Platform.{ok}
use wreckr.Value.{Float64}
use wreckr.Event.{worker_attempt_failed}
use wreckr.Report.{ResponseRecord, CheckResult}
use wreckr.Report.Build.{FloatOps, build, summarize, has_error, count_of}
use wreckr.Report.Verdict.{passes, failed_lines, same_key, build_lem, summarize_lem}
use wreckr.Store.{events_of}
use wreckr.Worker.{Task, handle_error}
use wreckr.Worker.Attempts.{types_of, only_if, names, outcome, handle_error-types}
use wreckr.Examples.Fixtures.{one_run}

abbrev pub nought : Float64
nought = record { bits = 0 }

abbrev pub floats : FloatOps
floats = record {
  of_nat = λ n. record { bits = n };
  add = λ a b. a;
  sub = λ a b. a;
  mul = λ a b. a;
  div = λ a b. a;
  floor = λ a. 0;
  ceil = λ a. 0;
  one = nought;
  p50 = nought;
  p95 = nought;
  p99 = nought;
  sort = λ xs. xs;
  abs = λ a. a;
  le = λ a b. leb a.bits b.bits;
  lt = λ a b. ltb a.bits b.bits;
  micro = record { bits = 1 };
  fixed = λ n a. show a.bits;
  general = λ a. show a.bits;
}

abbrev pub response : ℤ → String → ResponseRecord
response code error = record {
  request_name = "checkout";
  iteration = pos 0;
  attempt = 0;
  status_code = code;
  duration_ms = nought;
  error = error;
  body_preview = "";
  started_at = 0;
}

abbrev pub responses : List ResponseRecord
responses = response (pos 201) "" ∷ response (pos 0) "refused" ∷ response (pos 201) "" ∷ []

abbrev late : CheckResult
late = record { name = "p95"; passed = false; message = "too slow"; expected = ""; actual = "" }

build_lem_example :
    let rep = build floats 9 nought "run_5" "race" 5 responses (late ∷ []) [] in
    (passes rep.status
      ≡ (all (λ c. c.passed) (late ∷ []) && all (λ (c : CheckResult). c.passed) [])
        && all (λ r. not (has_error r)) responses)
    × (rep.failures ≡ failed_lines ((late ∷ []) ++ []))
build_lem_example = build_lem floats 9 nought "run_5" "race" 5 responses (late ∷ []) []

summarize_lem_example :
    let s = summarize floats responses in
    (s.total_requests ≡ length responses)
    × (s.failed_requests ≡ count_where has_error responses)
    × (count_of (lookup "201" s.status_codes) ≡ count_where (same_key "201") responses)
summarize_lem_example = summarize_lem floats responses "201"

abbrev last_try : Task
last_try = record {
  type = "runs.execute";
  payload = ok "run_5";
  info = record {
    task_id = "t";
    queue = "runs";
    retry_count = pos 3;
    max_retry = pos 3;
    known = true;
  };
}

handle_error-types_example :
    types_of (events_of (handle_error true 10 11 last_try "boom" one_run) "run_5")
    ≡ types_of (events_of one_run "run_5")
      ++ only_if (names "run_5" last_try.payload) (worker_attempt_failed ∷ outcome last_try.info)
handle_error-types_example = handle_error-types 10 11 last_try "boom" "run_5" one_run
