-- ===== src/Examples/RunnerCases.antt =====
-- Parts of the runner on concrete inputs.
use wreckr.Prelude.{pos, ◌≡◌, ◌↔◌, true, none, some, count_where}
use wreckr.Scenario.{Invariant}
use wreckr.Value.{Json}
use wreckr.Runner.{evaluate_response_count}
use wreckr.Runner.Counts.{counts, MeetsEquals, MeetsMin, MeetsMax, evaluate_response_count_iff}
use wreckr.Examples.Web.{Address}
use wreckr.Examples.ReportCases.{responses}

abbrev one_created : Invariant
one_created = record {
  name = "one order";
  type = "response_count";
  request = "checkout";
  method = "";
  path = "";
  headers = none;
  status = some (pos 201);
  equals = some (pos 1);
  min = none;
  max = none;
  expect_json_path = "";
  expect_equals = Json.null;
}

evaluate_response_count_iff_example :
    let n = count_where (counts one_created) responses in
    ((evaluate_response_count one_created responses).passed ≡ true)
    ↔ (MeetsEquals (some (pos 1)) n × MeetsMin none n × MeetsMax none n)
evaluate_response_count_iff_example = evaluate_response_count_iff one_created responses

abbrev local : Address
local = record { scheme = "http"; host = "localhost:9090" }
