-- ===== src/Examples/RunCases.antt =====
-- Checks, JSON paths and whole runs on concrete inputs.
use wreckr.Prelude.{
  ℕ, suc, zero, ◌+◌, ◌*◌, ◌≤◌, ◌<◌, ℤ, pos, pos_part, String, ◌==◌, ◌≡◌, refl, Bool, true, false,
  not, ◌&&◌, List, [], ◌∷◌, ◌++◌, ◌⊎◌, Option, none, some, all, map, length, is_nil, show, arith,
}
use wreckr.Platform.{ok}
use wreckr.Value.{Json, nil, cons, end, field}
use wreckr.Scenario.{race, Scenario, Request, Invariant, Thresholds}
use wreckr.Scenario.Validate.{validate, problems, is_blank}
use wreckr.Scenario.JsonPath.{lookup_json_path}
use wreckr.Scenario.JsonPath.Printed.{
  PathStep, Plain, print_path, navigate, lookup_json_path-print_path,
}
use wreckr.Report.{Report}
use wreckr.Report.Verdict.{passes}
use wreckr.Runner.{join_url, has_failed_check, run_control_requests}
use wreckr.Runner.Send.{Exchange}
use wreckr.Runner.Traffic.{Sent}
use wreckr.Runner.Race.{run_race}
use wreckr.Runner.Checks.{Visit, judge_answer}
use wreckr.Runner.Checks.Probes.{judge_answer_cut}
use wreckr.Runner.Run.{Circumstances, records_of, run_traffic, run_with_options}
use wreckr.Runner.Run.Verdict.{
  taken, named, setup_checks, teardown_checks, good_traffic, run_with_options-passes,
  run_with_options_setup_failed,
}
use wreckr.Runner.Run.Canceled.{run_with_options_canceled}
use wreckr.Examples.Web.{web}
use wreckr.Examples.Fixtures.{sample, checkout}
use wreckr.Examples.ReportCases.{floats, nought}
use wreckr.Examples.SendCases.{wire, answers}
use wreckr.Examples.TrafficCases.{raced, or_nothing}

-- {"orders": [true, null]}
abbrev document : Json
document = Json.obj (field "orders" (Json.arr (cons (Json.bool true) (cons Json.null nil))) end)

abbrev second_order : PathStep
second_order = ("orders", 1 ∷ [])

second_order-Plain : Plain second_order
unfolding show is_nil
second_order-Plain = record {
  dotless = (refl, (refl, (refl, (refl, (refl, (refl, (refl, (refl, (refl, tt)))))))));
  name = (refl, (refl, (refl, (refl, (refl, (refl, tt))))));
  indexes = (omega arith, tt);
  visible = refl;
  other = refl;
}

lookup_json_path-print_path_example :
    lookup_json_path floats.of_nat (ok document) (print_path second_order [])
    ≡ ok (navigate (second_order ∷ []) document)
lookup_json_path-print_path_example =
    lookup_json_path-print_path floats.of_nat second_order [] (ok document) (second_order-Plain, tt)

abbrev paid : Invariant
paid = record {
  name = "paid";
  type = "http_probe";
  request = "";
  method = "GET";
  path = "/orders";
  headers = none;
  status = none;
  equals = none;
  min = none;
  max = none;
  expect_json_path = "$";
  expect_equals = Json.bool true;
}

abbrev pub seen : Visit
seen = record {
  stopped = none;
  answer = λ r. ok (record { status_code = pos 200; body = 48 ∷ []; failure = none });
}

abbrev probed : Scenario
probed = record sample { invariants = paid ∷ [] }

-- A body of zeros.
zeros : ℕ → List ℕ
zeros zero = []
zeros (suc n) = 0 ∷ zeros n

length-zeros : (n : ℕ) → length (zeros n) ≡ n
unfolding zeros
length-zeros zero = refl
length-zeros (suc n) = omega (arith, length-zeros n)

judge_answer_cut_example :
    judge_answer floats wire paid (
      ok (record {
        status_code = pos 200;
        body = zeros 4097 ++ (125 ∷ []);
        failure = some "unexpected EOF";
      }))
    ≡ judge_answer floats wire paid
        (ok (record { status_code = pos 200; body = zeros 4097; failure = none }))
judge_answer_cut_example =
    judge_answer_cut floats wire paid (pos 200) (zeros 4097) (125 ∷ []) (some "unexpected EOF")
      (length-zeros 4097)

probed-Valid : validate web probed ≡ none
unfolding validate problems is_blank is_nil wreckr.Prelude.trim_space
    wreckr.Scenario.Validate.parse_http_url wreckr.Examples.Web.parse_address
    wreckr.Scenario.Validate.traffic_problems wreckr.Scenario.Validate.is_known
    wreckr.Scenario.Validate.request_problems wreckr.Scenario.Validate.invariant_problems
probed-Valid = refl

-- A run of the race of the fixtures in which the server answers 201 and then 409.
abbrev pub met : Circumstances
met = record {
  made_id = "run_9";
  started_at = 1;
  finished_at = 2;
  duration = nought;
  setup = λ i. none;
  canceled_after_setup = false;
  moves = [];
  race_moves = raced;
  visits = λ i. seen;
  teardown = λ i. none;
}

abbrev its : Scenario
its = taken web floats wire "run_5" sample met

abbrev its_id : String
its_id = named web floats wire "run_5" sample met

abbrev its_sent : List Sent
its_sent = (or_nothing (run_race web wire its_id its raced false)).0

taken-Valid : validate web its ≡ none
unfolding validate problems is_blank wreckr.Scenario.Normalize.normalized
    wreckr.Scenario.Normalize.with_env is_nil wreckr.Prelude.trim_space
    wreckr.Scenario.Validate.parse_http_url wreckr.Examples.Web.parse_address
    wreckr.Scenario.Validate.traffic_problems wreckr.Scenario.Validate.is_known
    wreckr.Scenario.Normalize.normalize_traffic wreckr.Scenario.Validate.request_problems
    wreckr.Scenario.Normalize.normalize_request wreckr.Scenario.Normalize.expand_request
    wreckr.Scenario.Validate.invariant_problems
taken-Valid = refl

its_setup : has_failed_check (setup_checks web floats wire its_id its met) ≡ false
unfolding run_control_requests has_failed_check wreckr.Scenario.Normalize.normalized
    wreckr.Scenario.Normalize.with_env
its_setup = refl

its_traffic : run_traffic web floats wire its.traffic.type its_id its met ≡ some its_sent
unfolding run_traffic wreckr.Scenario.Normalize.normalized
    wreckr.Scenario.Normalize.normalize_traffic wreckr.Scenario.Normalize.with_env run_race
    wreckr.Runner.Traffic.iterations_from wreckr.Runner.Traffic.step wreckr.Runner.Traffic.act_at
    wreckr.Runner.Traffic.act wreckr.Runner.Limiter.wait wreckr.Runner.Limiter.new_request_limiter
its_traffic = refl

run_with_options-passes_example :
    (rep : Report) × (run_with_options web floats wire "run_5" sample met ≡ some (ok rep))
    × (passes rep.status
        ≡ good_traffic web floats wire its_id its met (records_of its_sent)
          && not (has_failed_check (teardown_checks web floats wire its_id its met)))
run_with_options-passes_example =
    run_with_options-passes web floats wire "run_5" sample met its_sent taken-Valid its_setup
      its_traffic

-- The setup of the first has a request that is answered by 500; the second is a race that is over before
-- it begins.
abbrev bad_setup : Scenario
bad_setup = record sample { setup = checkout ∷ [] }

abbrev met_badly : Circumstances
met_badly = record met { setup = λ i. some (answers (pos 500)) }

abbrev met_late : Circumstances
met_late = record met { canceled_after_setup = true }

abbrev ill : Scenario
ill = taken web floats wire "run_5" bad_setup met_badly

abbrev ill_id : String
ill_id = named web floats wire "run_5" bad_setup met_badly

ill-Valid : validate web ill ≡ none
unfolding validate problems wreckr.Scenario.Normalize.normalized wreckr.Scenario.Normalize.with_env
    is_blank is_nil wreckr.Prelude.trim_space wreckr.Scenario.Validate.parse_http_url
    wreckr.Examples.Web.parse_address wreckr.Scenario.Validate.traffic_problems
    wreckr.Scenario.Validate.is_known wreckr.Scenario.Normalize.normalize_traffic
    wreckr.Scenario.Validate.request_problems wreckr.Scenario.Normalize.normalize_request
    wreckr.Scenario.Normalize.expand_request wreckr.Scenario.Validate.invariant_problems
ill-Valid = refl

ill_setup : has_failed_check (setup_checks web floats wire ill_id ill met_badly) ≡ true
unfolding has_failed_check run_control_requests wreckr.Scenario.Normalize.normalized
    wreckr.Scenario.Normalize.with_env wreckr.Runner.control_loop wreckr.Runner.Run.send_control
    is_nil wreckr.Runner.Send.execute_request join_url wreckr.Prelude.has_prefix
    wreckr.Scenario.Normalize.normalize_request wreckr.Scenario.Normalize.expand_request
    wreckr.Examples.Web.parse_address wreckr.Prelude.show_ℤ wreckr.Prelude.join
    wreckr.Runner.control_check
ill_setup = refl

run_with_options_setup_failed_example :
    (rep : Report) × (run_with_options web floats wire "run_5" bad_setup met_badly ≡ some (ok rep))
    × (passes rep.status ≡ false)
    × (rep.thresholds ≡ setup_checks web floats wire ill_id ill met_badly)
run_with_options_setup_failed_example =
    run_with_options_setup_failed web floats wire "run_5" bad_setup met_badly ill-Valid ill_setup

its_kind : its.traffic.type ≡ race
unfolding wreckr.Scenario.Normalize.normalized wreckr.Scenario.Normalize.normalize_traffic
    wreckr.Scenario.Normalize.with_env
its_kind = refl

no_rate : its.thresholds.max_error_rate ≡ none
unfolding wreckr.Scenario.Normalize.normalized wreckr.Scenario.Normalize.with_env
no_rate = refl

no_p95 : its.thresholds.p95_ms ≡ none
unfolding wreckr.Scenario.Normalize.normalized wreckr.Scenario.Normalize.with_env
no_p95 = refl

no_invariants : its.invariants ≡ []
unfolding wreckr.Scenario.Normalize.normalized wreckr.Scenario.Normalize.with_env
no_invariants = refl

late_setup : has_failed_check (setup_checks web floats wire its_id its met_late) ≡ false
unfolding has_failed_check run_control_requests wreckr.Scenario.Normalize.normalized
    wreckr.Scenario.Normalize.with_env
late_setup = refl

late_teardown : has_failed_check (teardown_checks web floats wire its_id its met_late) ≡ false
unfolding has_failed_check run_control_requests wreckr.Scenario.Normalize.normalized
    wreckr.Scenario.Normalize.with_env
late_teardown = refl

run_with_options_canceled_example :
    (rep : Report) × (run_with_options web floats wire "run_5" sample met_late ≡ some (ok rep))
    × (passes rep.status ≡ true)
    × (rep.responses ≡ [])
    × (run_traffic web floats wire its.traffic.type its_id its met_late ≡ some [])
run_with_options_canceled_example =
    run_with_options_canceled web floats wire "run_5" sample met_late taken-Valid its_kind refl
      no_rate no_p95 no_invariants late_setup late_teardown
