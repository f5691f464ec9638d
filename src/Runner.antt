-- ===== src/Runner.antt =====
-- The Go runner (apps/api/internal/runner/runner.go): here the requests of setup and teardown, the count of
-- responses that an invariant makes, and the URL of a request; the rest in the modules below.
pub mod Control
pub mod Counts
pub mod Send
pub mod Limiter
pub mod Traffic
pub mod Race
pub mod Checks
pub mod Run
use wreckr.Prelude.{
  ℕ, suc, ℤ, pos, String, ◌+++◌, ◌==◌, Bool, true, false, not, ◌&&◌, ◌||◌, List, [], ◌∷◌, ◌++◌,
  Option, none, some, any, length, show, show_ℤ, join, ltb_ℤ, leb_ℤ, eqb_ℤ, is_nil, is_empty,
  has_prefix, when, if◌then◌else◌,
}
use wreckr.Platform.{Platform, Result, ok, err}
use wreckr.Value.{Meta}
use wreckr.Event.{
  Event, Level, info, error, EventType, setup_started, setup_completed, teardown_started,
  teardown_completed, new_event, Metadata,
}
use wreckr.Scenario.{Request, Invariant}
use wreckr.Report.{ResponseRecord, CheckResult}
use wreckr.Report.Build.{has_error}

unfoldable pub has_failed_check : List CheckResult → Bool
has_failed_check cs = any (λ c. not c.passed) cs

unfoldable pub control_message : Bool → ResponseRecord → String
control_message true r = "passed with status " +++ show_ℤ r.status_code
control_message false r =
    if has_error r then r.error else "failed with status " +++ show_ℤ r.status_code

unfoldable pub control_actual : ResponseRecord → String
control_actual r = if has_error r then r.error else show_ℤ r.status_code

unfoldable pub control_check : String → Request → ResponseRecord → CheckResult
unfolding control_message control_actual
control_check phase req r =
    let passed = not (has_error r) in
    record {
      name = phase +++ ":" +++ req.name;
      passed = passed;
      message = control_message passed r;
      expected = "request succeeds";
      actual = control_actual r;
    }

-- One turn of the loop of runControlRequests, on what became of its request and on the turns after it.
unfoldable pub control_turn :
    String
    → Request
    → Option ResponseRecord
    → List ResponseRecord × List CheckResult
    → List ResponseRecord × List CheckResult
control_turn phase req none rest = ([], [])
control_turn phase req (some r) rest =
    if has_error r
    then (r ∷ [], control_check phase req r ∷ [])
    else (r ∷ rest.0, control_check phase req r ∷ rest.1)

-- `send` is executeRequest after the wait for the limiter, for the request with an index; it is none
-- where the context is done before the request.
unfoldable pub control_loop :
    String
    → (ℕ → Request → Option ResponseRecord)
    → ℕ
    → List Request
    → List ResponseRecord × List CheckResult
unfolding control_turn
control_loop phase send i [] = ([], [])
control_loop phase send i (req ∷ reqs) =
    control_turn phase req (send i req) (control_loop phase send (suc i) reqs)

-- The event of a run, as emitEvent makes it.
unfoldable pub emit : String → Level → EventType → String → Metadata → Event
emit run_id l t msg meta = record (new_event l t msg meta) { run_id = run_id }

-- The event that closes the phase, from the deferred function.
unfoldable pub completed_event :
    String → String → EventType → List ResponseRecord → List CheckResult → Event
unfolding has_failed_check emit
completed_event run_id phase type records checks =
    let bad = has_failed_check checks in
    emit run_id (if bad then error else info) type (phase +++ " completed")
      (("requests", Meta.int (pos (length records))) ∷ ("passed", Meta.flag (not bad)) ∷ [])

unfoldable pub phase_types : String → EventType × EventType
phase_types phase =
    if phase == "teardown"
    then (teardown_started, teardown_completed)
    else (setup_started, setup_completed)

pub record ControlResult : Type 0 where
  pub records : List ResponseRecord
  pub checks : List CheckResult
  pub events : List Event

-- The events are the two of the phase; those of each request are executeRequest's.
unfoldable pub run_control_requests :
    String → String → (ℕ → Request → Option ResponseRecord) → List Request → ControlResult
unfolding completed_event phase_types emit
run_control_requests run_id phase send [] = record { records = []; checks = []; events = [] }
run_control_requests run_id phase send (req ∷ reqs) =
    let (records, checks) = control_loop phase send 0 (req ∷ reqs) in
    let (started, done) = phase_types phase in
    record {
      records = records;
      checks = checks;
      events =
          emit run_id info started (phase +++ " started")
            (("requests", Meta.int (pos (length (req ∷ reqs)))) ∷ [])
          ∷ completed_event run_id phase done records checks
          ∷ [];
    }

-- The two `continue` of evaluateResponseCount.
unfoldable pub is_skipped : Invariant → ResponseRecord → Bool
is_skipped inv r =
    if not (is_nil inv.request) && not (r.request_name == inv.request)
    then true
    else elim (inv.status) [ none ↦ false | some s ↦ not (eqb_ℤ r.status_code s) ]

unfoldable pub count_loop : Invariant → List ResponseRecord → ℕ → ℕ
count_loop inv [] n = n
count_loop inv (r ∷ rs) n = count_loop inv rs (if is_skipped inv r then n else suc n)

-- One bound: whether the count is within it, and its text.
abbrev pub bound : (ℤ → Bool) → (ℤ → String) → Option ℤ → Bool × List String
bound test text none = (true, [])
bound test text (some n) = (test n, text n ∷ [])

unfoldable pub count_message : Bool → ℕ → List String → String
count_message true n expected = "passed: observed " +++ show n
count_message false n expected =
    "failed: observed " +++ show n +++ ", expected " +++ join ", " expected

unfoldable pub evaluate_response_count : Invariant → List ResponseRecord → CheckResult
unfolding count_message
evaluate_response_count inv rs =
    let n = count_loop inv rs 0 in
    let equals = bound (λ e. eqb_ℤ (pos n) e) (λ e. "equals " +++ show_ℤ e) inv.equals in
    let min = bound (λ e. leb_ℤ e (pos n)) (λ e. ">= " +++ show_ℤ e) inv.min in
    let max = bound (λ e. leb_ℤ (pos n) e) (λ e. "<= " +++ show_ℤ e) inv.max in
    let passed = (equals.0 && min.0) && max.0 in
    let expected = equals.1 ++ (min.1 ++ max.1) in
    record {
      name = inv.name;
      passed = passed;
      message = count_message passed n expected;
      expected = join ", " expected;
      actual = show n;
    }

module _ (p : Platform) where
  unfoldable pub joined : Result p.Url → Result p.Url → Result String
  joined (err e) rel = err e
  joined (ok base) (err e) = err e
  joined (ok base) (ok rel) = ok (p.url_text (p.resolve_reference base rel))

  unfoldable pub is_literal : String → Bool
  is_literal path = has_prefix path "http://" || has_prefix path "https://"

  -- The URL of a request; a path that is itself a URL is sent as it stands.
  unfoldable pub join_url : String → String → Result String
  unfolding joined is_literal
  join_url base path =
      if is_literal path then ok path else joined (p.parse_url base) (p.parse_url path)
