-- ===== src/Examples/ExecCases.antt =====
-- The theorems on the executor at concrete executions.
use wreckr.Prelude.{pos, String, refl, ◌≡◌, [], ◌∷◌, Option, none, some, true, lookup, insert, show}
use wreckr.Report
use wreckr.Report.{Report}
use wreckr.Store.{new_memory, is_cancelable}
use wreckr.Store.Runs
use wreckr.Store.Runs.{report_failed}
use wreckr.Store.Events
use wreckr.Store.Events.{is_run_cancel_requested}
use wreckr.Store.Op.{Op, apply}
use wreckr.Store.Ending.{Ended}
use wreckr.Exec.{Env, World, write, poll, execute}
use wreckr.Exec.Settles.{execute-Ended}
use wreckr.Store.Events.{is_run_cancel_requested}
use wreckr.Examples.Fixtures.{report_of, one_run, the_run}

abbrev encode : Report → Option String
encode rep = some "{}"

-- A cancel request arrives while the run executes.
abbrev env : Env
env = record {
  before_check = [];
  before_start = [];
  after_start = [];
  during = poll ∷ write (Op.request_run_cancel 20 "run_5") ∷ poll ∷ [];
  before_test = [];
  before_end = [];
  started_at = 10;
  started_logged = 11;
  made_at = 30;
  ended_at = 31;
  ended_logged = 32;
  timeout = pos 0;
  marshal = encode;
  run = λ t sc. (report_of Report.passed, none);
}

abbrev failing : Env
failing = record env { run = λ t sc. (report_of Report.passed, some "boom") }

abbrev world : World
world = record { store = one_run; blob = some [] }

one_run-held : lookup "run_5" one_run.runs ≡ some the_run
unfolding Runs.create_run Events.append_run_event new_memory lookup insert show
one_run-held = refl

the_run-cancelable : is_cancelable the_run.status ≡ true
unfolding Runs.create_run is_cancelable
the_run-cancelable = refl

execute-Ended_example : Ended "run_5" (execute env "run_5" world).0.store
execute-Ended_example =
    execute-Ended env "run_5" the_run world
      (record {
        check = refl;
        start = refl;
        started = refl;
        during = refl;
        test = refl;
        end = refl;
      })
      one_run-held the_run-cancelable

-- The store after a cancel request for the run.
abbrev asked : World
asked = record { store = apply (Op.request_run_cancel 7 "run_5") one_run; blob = some [] }
