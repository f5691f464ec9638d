-- ===== src/Examples/CommandCases.antt =====
-- The commands on concrete inputs.
use wreckr.Prelude.{
  ℕ, String, ◌≡◌, refl, Bool, true, false, not, ◌&&◌, List, [], ◌∷◌, Option, none, some, eqb,
  Reordered, as_is, swapped, ◌==◌, ◌≢◌, arith, eq_iff,
}
use wreckr.Platform.{Result, ok, err}
use wreckr.Scenario.{Scenario}
use wreckr.Scenario.Normalize.{normalized, with_env}
use wreckr.Scenario.Validate.{validate}
use wreckr.Report.{Report, failed}
use wreckr.Report.Text.{text, format_status_codes}
use wreckr.Report.Text.Stable.{text-Reordered}
use wreckr.Runner.{has_failed_check}
use wreckr.Runner.Traffic.{Sent}
use wreckr.Runner.Race.{run_race}
use wreckr.Runner.Run.{records_of, run_traffic}
use wreckr.Runner.Run.Verdict.{setup_checks, teardown_checks, good_traffic, taken, named}
use wreckr.K6.Compile.{Encoder}
use wreckr.Commands.{Exit, Loaded, decoded, unreadable, Parsed, parsed, load_file, main, compile_k6}
use wreckr.Commands.Verdict.{main-good_traffic}
use wreckr.Examples.Web.{web}
use wreckr.Examples.Fixtures.{sample, report_of}
use wreckr.Examples.ReportCases.{floats}
use wreckr.Examples.SendCases.{wire}
use wreckr.Examples.TrafficCases.{raced, or_nothing}
use wreckr.Examples.RunCases.{met}

abbrev read : String → Loaded
read path = decoded sample

abbrev no_json : Report → Result String
no_json rep = err "no JSON"

abbrev write : String → String → Option String
write path content = none

abbrev parse_run : List String → Parsed Bool
parse_run args = parsed false args

abbrev parse_compile : List String → Parsed String
parse_compile args = parsed "" args

abbrev encoder : Encoder
encoder = record {
  js_string = λ s. s;
  js_headers = λ h. "{}";
  js_strings = λ l. "[]";
  js_requests = λ l. "[]";
  decode = λ s. err "no JSON";
}

abbrev stored : Scenario
stored = normalized web (with_env web sample)

abbrev its : Scenario
its = taken web floats wire "" stored met

abbrev its_id : String
its_id = named web floats wire "" stored met

abbrev its_sent : List Sent
its_sent = (or_nothing (run_race web wire its_id its raced false)).0

stored-Loaded : load_file web (read "race.json") ≡ ok stored
unfolding load_file validate wreckr.Scenario.Validate.problems normalized with_env
    wreckr.Scenario.Validate.is_blank wreckr.Prelude.is_nil wreckr.Prelude.trim_space
    wreckr.Scenario.Validate.parse_http_url wreckr.Examples.Web.parse_address
    wreckr.Scenario.Validate.traffic_problems wreckr.Scenario.Validate.is_known
    wreckr.Scenario.Normalize.normalize_traffic wreckr.Scenario.Validate.request_problems
    wreckr.Scenario.Normalize.normalize_request wreckr.Scenario.Normalize.expand_request
    wreckr.Scenario.Validate.invariant_problems
stored-Loaded = refl

its-Valid : validate web its ≡ none
unfolding validate wreckr.Scenario.Validate.problems normalized with_env
    wreckr.Scenario.Validate.is_blank wreckr.Prelude.is_nil wreckr.Prelude.trim_space
    wreckr.Scenario.Validate.parse_http_url wreckr.Examples.Web.parse_address
    wreckr.Scenario.Validate.traffic_problems wreckr.Scenario.Validate.is_known
    wreckr.Scenario.Normalize.normalize_traffic wreckr.Scenario.Validate.request_problems
    wreckr.Scenario.Normalize.normalize_request wreckr.Scenario.Normalize.expand_request
    wreckr.Scenario.Validate.invariant_problems
its-Valid = refl

its_setup : has_failed_check (setup_checks web floats wire its_id its met) ≡ false
unfolding has_failed_check wreckr.Runner.run_control_requests normalized with_env
its_setup = refl

its_traffic : run_traffic web floats wire its.traffic.type its_id its met ≡ some its_sent
unfolding run_traffic normalized wreckr.Scenario.Normalize.normalize_traffic with_env run_race
    wreckr.Runner.Traffic.iterations_from wreckr.Runner.Traffic.step wreckr.Runner.Traffic.act_at
    wreckr.Runner.Traffic.act wreckr.Runner.Limiter.wait wreckr.Runner.Limiter.new_request_limiter
its_traffic = refl

main-good_traffic_example :
    (e : Exit) × (main web floats wire encoder read no_json write parse_run parse_compile met
        ("run" ∷ "race.json" ∷ [])
      ≡ some e)
    × (eqb e.code 0
        ≡ good_traffic web floats wire its_id its met (records_of its_sent)
          && not (has_failed_check (teardown_checks web floats wire its_id its met)))
main-good_traffic_example =
    main-good_traffic web floats wire encoder read no_json write parse_run parse_compile met stored
      "race.json" ("race.json" ∷ []) its_sent refl stored-Loaded its-Valid its_setup its_traffic

-- Without a scenario file the command ends with code 2.
abbrev code_of : Option Exit → ℕ
code_of none = 0
code_of (some e) = e.code

no_file :
    code_of
      (main web floats wire encoder read no_json write parse_run parse_compile met ("run" ∷ []))
    ≡ 2
unfolding main
no_file = refl

no_command :
    code_of (main web floats wire encoder read no_json write parse_run parse_compile met []) ≡ 2
unfolding main
no_command = refl

missing_file :
    (compile_k6 web floats encoder
      (λ path. unreadable "no such file")
      write
      (parsed "" ("race.json" ∷ []))).code
    ≡ 2
unfolding compile_k6
missing_file = refl

unlike : (s t : String) → (s == t) ≡ false → s ≢ t
unlike s t h = ground (arith, eq_iff s t)

-- A report with two status codes, and the same with the codes the other way around.
abbrev two_codes : Report
two_codes = record (report_of failed) {
  summary = record (report_of failed).summary { status_codes = ("error", 1) ∷ ("201", 2) ∷ [] };
}

two_codes-Reordered : Reordered two_codes.summary.status_codes (("201", 2) ∷ ("error", 1) ∷ [])
two_codes-Reordered = swapped [] ("error", 1) ("201", 2) [] _ (unlike "error" "201" refl) (as_is _)

text-Reordered_example :
    text floats two_codes
    ≡ text floats (record two_codes {
      summary = record two_codes.summary { status_codes = ("201", 2) ∷ ("error", 1) ∷ [] };
    })
text-Reordered_example =
    text-Reordered floats two_codes (("201", 2) ∷ ("error", 1) ∷ []) two_codes-Reordered

codes_in_order : format_status_codes (("error", 1) ∷ ("201", 2) ∷ []) ≡ "201=2, error=1"
unfolding format_status_codes wreckr.Prelude.join wreckr.Prelude.sort_entries wreckr.Prelude.show
codes_in_order = refl
