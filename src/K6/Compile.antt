-- ===== src/K6/Compile.antt =====
-- The k6 script of a scenario (apps/api/internal/k6script/compiler.go). The encoder of JSON is a parameter.
pub mod Totals
use wreckr.Prelude.{
  times, ℕ, zero, suc, ◌-◌, ◌*◌, ◌%◌, ◌^◌, ltb, int_limit, ℤ, pos, negsuc, pos_part, neg_part,
  String, ◌+++◌, ◌==◌, Bool, true, false, not, List, [], ◌∷◌, ◌++◌, Option, none, some, Dict,
  insert, map, any, join, show, show_ℤ, quote, is_nil, is_empty, ltb_ℤ, leb_ℤ, eqb, eqb_ℤ,
  sort_entries, if◌then◌else◌,
}
use wreckr.Platform.{Platform, Result, ok, err}
use wreckr.Value.{Float64, Json}
use wreckr.Scenario.{
  Scenario, Headers, Request, Invariant, Thresholds, Traffic, TrafficType, race, retry_storm,
}
use wreckr.Scenario.Normalize.{normalized, with_env, is_retry_storm}
use wreckr.Scenario.Validate.{validate}
use wreckr.Report.Build.{FloatOps}
use wreckr.K6.Helpers.{write_helpers}
use wreckr.K6.Thresholds.{k6_thresholds}

pub record Script : Type 0 where
  pub name : String
  pub content : String

-- A request as the script has it; `json` is none where the scenario has no body in JSON.
pub record CompiledRequest : Type 0 where
  pub name : String
  pub method : String
  pub path : String
  pub headers : Headers
  pub json : Option Json
  pub body : String
  pub expected_statuses : List ℤ
  pub phase : String

-- jsValue for the types that it is called with, and json.Unmarshal of the body of a request.
pub record Encoder : Type 0 where
  pub js_string : String → String
  pub js_headers : Headers → String
  pub js_strings : List String → String
  pub js_requests : List CompiledRequest → String
  pub decode : String → Result Json

unfoldable pub iterations_for : TrafficType → Traffic → ℤ
unfolding times
iterations_for race t = times t.concurrency t.iterations
iterations_for type t = t.iterations

unfoldable pub k6_iterations : Traffic → ℤ
unfolding iterations_for
k6_iterations t = iterations_for t.type t

unfoldable pub invariant_status : Invariant → String
invariant_status inv = elim (inv.status) [ none ↦ "any" | some s ↦ show_ℤ s ]

invariant_note : Invariant → String
unfolding invariant_status
invariant_note inv =
    if inv.type == "http_probe"
    then "// - "
      +++ inv.name
      +++ ": http_probe "
      +++ inv.method
      +++ " "
      +++ inv.path
      +++ " with json_path "
      +++ quote inv.expect_json_path
      +++ "\n"
    else if inv.type == "response_count"
    then "// - "
      +++ inv.name
      +++ ": response_count for request "
      +++ quote inv.request
      +++ " and status "
      +++ invariant_status inv
      +++ "\n"
    else "// - " +++ inv.name +++ ": " +++ inv.type +++ "\n"

unfoldable pub write_invariant_notes : List Invariant → String
unfolding invariant_note
write_invariant_notes [] = ""
write_invariant_notes (inv ∷ invs) =
    "// Wreckr invariants from the source scenario:\n"
    +++ join "" (map invariant_note (inv ∷ invs))
    +++ "// Exact invariant evaluation remains a Wreckr report responsibility.\n"

-- The number of rounds over the requests in a retry storm.
unfoldable pub storm_attempts : Traffic → ℤ
storm_attempts t = if leb_ℤ t.retry.attempts (pos 0) then pos 3 else t.retry.attempts

module _ (enc : Encoder) where
  compiled_json : String → Option Json
  compiled_json raw =
      if is_nil raw then none else elim (enc.decode raw) [ err e ↦ none | ok body ↦ some body ]

  unfoldable pub k6_request : String → Request → CompiledRequest
  unfolding compiled_json
  k6_request phase r = record {
    name = r.name;
    method = r.method;
    path = r.path;
    headers = r.headers;
    json = compiled_json r.json;
    body = r.body;
    expected_statuses = r.expect_status;
    phase = phase;
  }

  unfoldable pub k6_requests : List Request → String → List CompiledRequest
  unfolding k6_request
  k6_requests requests phase = map (k6_request phase) requests

  unfoldable pub write_lifecycle : String → List Request → String
  unfolding k6_requests
  write_lifecycle name [] = ""
  write_lifecycle name (r ∷ rs) =
      "export function "
      +++ name
      +++ "() {\n"
      +++ "  const requests = "
      +++ enc.js_requests (k6_requests (r ∷ rs) name)
      +++ ";\n"
      +++ "  for (const request of requests) {\n"
      +++ "    runRequest(request);\n"
      +++ "  }\n"
      +++ "}\n\n"

  module _ (f : FloatOps) where
    -- The seconds of a pause, with three decimals.
    pause_text : ℤ → String
    pause_text ms = f.fixed 3 (f.div (f.of_nat (pos_part ms)) (f.of_nat 1000))

    unfoldable pub write_default : Scenario → String
    unfolding k6_requests storm_attempts pause_text
    write_default sc =
        "export default function () {\n"
        +++ "  const requests = "
        +++ enc.js_requests (k6_requests sc.requests "request")
        +++ ";\n"
        +++ (if is_retry_storm sc.traffic.type
            then "  for (let attempt = 0; attempt < "
              +++ show_ℤ (storm_attempts sc.traffic)
              +++ "; attempt += 1) {\n"
              +++ "    for (const request of requests) {\n"
              +++ "      runRequest(request);\n"
              +++ "    }\n"
              +++ (if ltb_ℤ (pos 0) sc.traffic.retry.backoff_ms
                  then "    sleep(" +++ pause_text sc.traffic.retry.backoff_ms +++ ");\n"
                  else "")
              +++ "  }\n"
            else "  for (const request of requests) {\n" +++ "    runRequest(request);\n"
              +++ "  }\n")
        +++ "}\n\n"

    threshold_line : String × List String → String
    threshold_line entry =
        "    " +++ enc.js_string entry.0 +++ ": " +++ enc.js_strings entry.1 +++ ",\n"

    threshold_lines : Dict (List String) → String
    unfolding threshold_line
    threshold_lines [] = ""
    threshold_lines (entry ∷ rest) =
        "  thresholds: {\n"
        +++ join "" (map threshold_line (sort_entries (entry ∷ rest)))
        +++ "  },\n"

    unfoldable pub write_options : Scenario → String
    unfolding k6_iterations threshold_lines
    write_options sc =
        "export const options = {\n"
        +++ "  scenarios: {\n"
        +++ "    wreckr: {\n"
        +++ "      executor: 'shared-iterations',\n"
        +++ "      vus: "
        +++ show_ℤ sc.traffic.concurrency
        +++ ",\n"
        +++ "      iterations: "
        +++ show_ℤ (k6_iterations sc.traffic)
        +++ ",\n"
        +++ "      maxDuration: '10m',\n"
        +++ "    },\n"
        +++ "  },\n"
        +++ (if ltb_ℤ (pos 0) sc.traffic.rate_per_second
            then "  rps: " +++ show_ℤ sc.traffic.rate_per_second +++ ",\n"
            else "")
        +++ threshold_lines (k6_thresholds f sc)
        +++ "};\n\n"

    unfoldable pub content_of : Scenario → String
    unfolding write_options write_lifecycle write_default write_invariant_notes
    content_of sc =
        "// Generated by Wreckr from scenario "
        +++ quote sc.name
        +++ ".\n"
        +++ "// Execute with: k6 run <script.js>\n\n"
        +++ "import http from 'k6/http';\n"
        +++ "import { check, sleep } from 'k6';\n\n"
        +++ write_options sc
        +++ "const BASE_URL = "
        +++ enc.js_string sc.target.base_url
        +++ ";\n"
        +++ "const TARGET_HEADERS = "
        +++ enc.js_headers sc.target.headers
        +++ ";\n\n"
        +++ write_helpers
        +++ write_lifecycle "setup" sc.setup
        +++ write_default sc
        +++ write_lifecycle "teardown" sc.teardown
        +++ write_invariant_notes sc.invariants

    abbrev checked_script : Option String → Scenario → Result Script
    checked_script (some e) sc = err e
    checked_script none sc = ok (record { name = sc.name; content = content_of sc })

    unfoldable pub compile : Platform → Scenario → Result Script
    unfolding content_of
    compile p given = let sc = normalized p (with_env p given) in checked_script (validate p sc) sc
