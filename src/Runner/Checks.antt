-- ===== src/Runner/Checks.antt =====
-- The checks of a run (apps/api/internal/runner/runner.go): thresholds, probes, invariants, and the
-- events of those that fail.
pub mod Limits
pub mod Probes
use Prim.Native.Char.{Char, code}
use wreckr.Prelude.{
  sort_entries, ℕ, zero, suc, ℤ, pos, String, ◌+++◌, ◌==◌, Bool, true, false, not, ◌&&◌, List, [],
  ◌∷◌, ◌++◌, Option, none, some, show_ℤ, join, ltb, leb_ℤ, eqb, is_nil, map, if◌then◌else◌,
}
use wreckr.Platform.{Platform, Result, ok, err}
use wreckr.Value.{Float64, Json, Items, nil, cons, Fields, end, field, Meta}
use wreckr.Event.{Event, error, EventType}
use wreckr.Scenario.{Scenario, Invariant, Thresholds}
use wreckr.Scenario.JsonPath.{lookup_json_path}
use wreckr.Report.{ResponseRecord, Summary, CheckResult}
use wreckr.Report.Build.{FloatOps, summarize}
use wreckr.Runner.{join_url, emit, evaluate_response_count}
use wreckr.Runner.Send.{
  HttpRequest, HttpResponse, Net, set_header, set_headers, read_limited, max_body_preview_bytes,
}

unfoldable pub failed_invariant : String → String → CheckResult
failed_invariant name message = record {
  name = name;
  passed = false;
  message = message;
  expected = "";
  actual = "";
}

-- The events of the failed checks.
unfoldable pub emit_failed_checks : String → EventType → List CheckResult → List Event
emit_failed_checks run_id type [] = []
emit_failed_checks run_id type (c ∷ cs) =
    let rest = emit_failed_checks run_id type cs in
    if c.passed
    then rest
    else emit run_id error type c.message (
        ("check", Meta.text c.name)
        ∷ ("expected", Meta.text c.expected)
        ∷ ("actual", Meta.text c.actual)
        ∷ [])
      ∷ rest

-- What a probe meets: the error of the context where the limiter does not let it through, and
-- Client.Do.
pub record Visit : Type 0 where
  pub stopped : Option String
  pub answer : HttpRequest → Result HttpResponse

module _ (f : FloatOps) where
  -- fmt's %v of a decoded value.
  unfoldable mutual
    unfolding sort_entries

    pub show_value : Json → String
    show_value Json.null = "<nil>"
    show_value (Json.bool true) = "true"
    show_value (Json.bool false) = "false"
    show_value (Json.num x) = f.general x
    show_value (Json.text s) = s
    show_value (Json.arr items) = "[" +++ join " " (show_items items) +++ "]"
    show_value (Json.obj fields) =
        "map["
        +++ join " " (map (λ e. e.0 +++ ":" +++ e.1) (sort_entries (show_fields fields)))
        +++ "]"

    show_items : Items → List String
    show_items nil = []
    show_items (cons item items) = show_value item ∷ show_items items

    show_fields : Fields → List (String × String)
    show_fields end = []
    show_fields (field key value more) = (key, show_value value) ∷ show_fields more

  -- Numbers are compared up to a millionth, other values by their texts.
  unfoldable pub values_equal : Json → Json → Bool
  values_equal (Json.num a) (Json.num e) = f.lt (f.abs (f.sub a e)) f.micro
  values_equal a e = show_value a == show_value e

  unfoldable pub value_message : Bool → Json → Json → String
  value_message true actual expected = "passed: observed " +++ show_value actual
  value_message false actual expected =
      "failed: observed " +++ show_value actual +++ ", expected " +++ show_value expected

  unfoldable pub comparison_message : Bool → Float64 → String → Float64 → String
  comparison_message true actual op expected =
      "passed: " +++ f.fixed 4 actual +++ " " +++ op +++ " " +++ f.fixed 4 expected
  comparison_message false actual op expected =
      "failed: " +++ f.fixed 4 actual +++ " is not " +++ op +++ " " +++ f.fixed 4 expected

  -- One threshold: its check, if the scenario sets it, by the text of its numbers.
  unfoldable pub threshold :
      String → (Float64 → String) → Float64 → Option Float64 → List CheckResult
  unfolding comparison_message
  threshold name text actual none = []
  threshold name text actual (some limit) =
      let passed = f.le actual limit in
      record {
        name = name;
        passed = passed;
        message = comparison_message passed actual "<=" limit;
        expected = "<= " +++ text limit;
        actual = text actual;
      }
      ∷ []

  unfoldable pub evaluate_thresholds : Thresholds → List ResponseRecord → List CheckResult
  unfolding threshold
  evaluate_thresholds t records =
      let summary = summarize f records in
      threshold "max_error_rate" (f.fixed 4) summary.error_rate t.max_error_rate
      ++ threshold "p95_ms" (λ x. f.fixed 1 x +++ "ms") summary.latency.p95_ms t.p95_ms

  module _ (net : Net) where
    unfoldable pub probe_request : String → Scenario → Invariant → String → HttpRequest
    unfolding set_header set_headers
    probe_request run_id sc inv url = record {
      method = inv.method;
      url = url;
      headers = set_header net "X-Wreckr-Probe" inv.name (
          set_header net "X-Wreckr-Scenario" sc.name (
            set_header net "X-Wreckr-Run-ID" run_id
              (set_headers net inv.headers (set_headers net sc.target.headers []))));
      body = none;
    }

    -- After LookupJSONPath.
    unfoldable pub judge_value : Invariant → Result (Option Json) → CheckResult
    unfolding failed_invariant values_equal value_message
    judge_value inv (err e) = failed_invariant inv.name e
    judge_value inv (ok none) =
        failed_invariant inv.name ("json path " +++ inv.expect_json_path +++ " was not found")
    judge_value inv (ok (some got)) =
        let passed = values_equal got inv.expect_equals in
        record {
          name = inv.name;
          passed = passed;
          message = value_message passed got inv.expect_equals;
          expected = show_value inv.expect_equals;
          actual = show_value got;
        }

    -- After the body was read.
    unfoldable pub judge_body : Invariant → ℤ → List ℕ × Option String → CheckResult
    unfolding judge_value failed_invariant
    judge_body inv status (raw, some e) = failed_invariant inv.name e
    judge_body inv status (raw, none) =
        if leb_ℤ (pos 400) status
        then failed_invariant inv.name ("probe returned status " +++ show_ℤ status)
        else judge_value inv (lookup_json_path f.of_nat (net.decode raw) inv.expect_json_path)

    unfoldable pub judge_answer : Invariant → Result HttpResponse → CheckResult
    unfolding judge_body failed_invariant
    judge_answer inv (err e) = failed_invariant inv.name e
    judge_answer inv (ok response) =
        judge_body inv response.status_code (read_limited (suc max_body_preview_bytes) response)

    -- After the request was made.
    unfoldable pub visit : Invariant → HttpRequest → Visit → Option String → CheckResult
    unfolding judge_answer failed_invariant
    visit inv made v (some e) = failed_invariant inv.name e
    visit inv made v none = judge_answer inv (v.answer made)

    unfoldable pub probe_made :
        String → Scenario → Invariant → Visit → String → Option String → CheckResult
    unfolding visit probe_request failed_invariant
    probe_made run_id sc inv v url (some e) = failed_invariant inv.name e
    probe_made run_id sc inv v url none = visit inv (probe_request run_id sc inv url) v v.stopped

    unfoldable pub probe_joined :
        String → Scenario → Invariant → Visit → Result String → CheckResult
    unfolding probe_made failed_invariant
    probe_joined run_id sc inv v (err e) = failed_invariant inv.name e
    probe_joined run_id sc inv v (ok url) =
        probe_made run_id sc inv v url (net.refused inv.method url)

    module _ (p : Platform) where
      unfoldable pub evaluate_http_probe : String → Scenario → Invariant → Visit → CheckResult
      unfolding probe_joined
      evaluate_http_probe run_id sc inv v =
          probe_joined run_id sc inv v (join_url p sc.target.base_url inv.path)

      -- One turn of the switch; an invariant of another type has no result.
      unfoldable pub evaluate_invariant :
          String → Scenario → List ResponseRecord → Visit → Invariant → List CheckResult
      unfolding evaluate_http_probe
      evaluate_invariant run_id sc records v inv =
          if inv.type == "response_count"
          then evaluate_response_count inv records ∷ []
          else if inv.type == "http_probe"
          then evaluate_http_probe run_id sc inv v ∷ []
          else []

      -- `visits` is what the probe of the invariant with an index meets.
      unfoldable pub evaluate_invariants :
          String
          → Scenario
          → List ResponseRecord
          → (ℕ → Visit)
          → ℕ
          → List Invariant
          → List CheckResult
      unfolding evaluate_invariant
      evaluate_invariants run_id sc records visits i [] = []
      evaluate_invariants run_id sc records visits i (inv ∷ invs) =
          evaluate_invariant run_id sc records (visits i) inv
          ++ evaluate_invariants run_id sc records visits (suc i) invs
