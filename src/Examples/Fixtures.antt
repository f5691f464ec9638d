-- ===== src/Examples/Fixtures.antt =====
-- A scenario with one request, a store that holds a run of it, and a report.
use wreckr.Prelude.{pos, [], ◌∷◌, none}
use wreckr.Scenario.{Scenario, Request, race}
use wreckr.Report
use wreckr.Report.{Report, Summary}
use wreckr.Store.{Memory, RunRecord, new_memory}
use wreckr.Store.Runs.{create_run}
use wreckr.Exec.{canceled_report}

abbrev pub checkout : Request
checkout = record {
  name = "checkout";
  method = "POST";
  path = "/checkout";
  headers = none;
  json = "";
  body = "";
  expect_status = pos 201 ∷ [];
}

abbrev pub sample : Scenario
sample = record {
  version = pos 1;
  name = "race";
  description = "";
  target = record { id = ""; base_url = "http://localhost:9090"; headers = none };
  traffic = record {
    type = race;
    concurrency = pos 2;
    iterations = pos 1;
    rate_per_second = pos 0;
    retry = record { attempts = pos 0; backoff_ms = pos 0 };
  };
  setup = [];
  requests = checkout ∷ [];
  teardown = [];
  thresholds = record { max_error_rate = none; p95_ms = none };
  invariants = [];
}

-- The report of a runner: all of it empty but its status.
abbrev pub report_of : Report.Status → Report
report_of s = record (canceled_report 0 "run_5" "race" "") { status = s }

abbrev pub one_run : Memory
one_run = (create_run 5 6 "" "" sample none new_memory).0

abbrev pub the_run : RunRecord
the_run = (create_run 5 6 "" "" sample none new_memory).1
