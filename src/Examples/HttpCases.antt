-- ===== src/Examples/HttpCases.antt =====
-- Requests to the API on concrete inputs.
use wreckr.Prelude.{
  insert, pos, ◌+++◌, show, ◌≡◌, refl, ◌⊎◌, true, ◌||◌, ◌&&◌, List, [], ◌∷◌, none, some, lookup,
}
use wreckr.Store.{passed, Memory, RunRecord, new_memory, events_of, is_terminal}
use wreckr.Store.Runs
use wreckr.Store.Events.{append_run_event}
use wreckr.Store.Op.{Op, apply_all, complete_run, mark_run_started}
use wreckr.Store.Sound.{new_memory-Sound, apply_all-Sound}
use wreckr.Store.Cancel.{can_cancel}
use wreckr.Report
use wreckr.Http.{Server, Config}
use wreckr.Http.Scenarios.{post_scenario}
use wreckr.Http.Scenarios.Stored.{Outcome, post_scenario-Outcome}
use wreckr.Store.{TargetRecord, TargetEnvironment}
use wreckr.Http.Execute.{Env, request, execute_run}
use wreckr.Http.Execute.Settles.{NoReplay, execute_run-Ended}
use wreckr.Store.Shared.{Follows}
use wreckr.Http.Execute.Marks.{marked, registered}
use wreckr.Http.Runs.{CreateRunRequest, Setting, post_run}
use wreckr.Http.Runs.Admission.{Refused, Stores, post_run_lem}
use wreckr.Http.Cancel.{Meanwhile, cancel_run}
use wreckr.Http.Cancel.Answers.{code_for, status_of, status_after, cancel_run_lem}
use wreckr.Http.Stream.{stream, streamed, stream_run_events}
use wreckr.Http.Stream.Sends.{take, drop, looks_from, last_log, stream_run_events_lem, stream_cut}
use wreckr.Examples.Fixtures.{sample, report_of, one_run, the_run}
use wreckr.Examples.Web.{web}
use wreckr.Examples.ScenarioCases.{limits}

abbrev config : Config
config = record { run_timeout = pos 300000000000; guardrails = limits }

abbrev idle : Server
idle = record { store = new_memory; run_cancels = []; cancel_requests = [] }

abbrev busy : Server
busy = record { store = one_run; run_cancels = []; cancel_requests = [] }

-- An execution that another handler asks to end while it runs.
abbrev ended_early : Env
ended_early = record {
  before_start = [];
  after_start = [];
  during = request "run_5" ∷ [];
  before_end = [];
  started_at = 10;
  started_logged = 11;
  made_at = 20;
  ended_at = 21;
  ended_logged = 22;
  run = λ timeout canceled sc. (report_of Report.passed, none);
}

ended_early-NoReplay : NoReplay ended_early "run_5"
ended_early-NoReplay = record {
  before_start = refl;
  after_start = refl;
  during = refl;
  before_end = refl;
}

run_held : lookup "run_5" one_run.runs ≡ some the_run
unfolding lookup Runs.create_run insert new_memory append_run_event show
run_held = refl

execute_run-Ended_example :
    (t : RunRecord) × (lookup "run_5"
        (execute_run config ended_early "run_5" sample busy).store.runs
      ≡ some t)
    × (is_terminal t.status ≡ true)
    × Follows the_run t
execute_run-Ended_example =
    execute_run-Ended config ended_early "run_5" sample ended_early-NoReplay the_run busy run_held

abbrev setting : Setting
setting = record {
  now = 5;
  logged = 6;
  refused_at = 7;
  refused_logged = 8;
  queue = none;
  env = ended_early;
}

abbrev run_sample : CreateRunRequest
run_sample = record {
  scenario_id = "";
  target_id = "";
  scenario_version_number = pos 0;
  scenario = some sample;
  sync = true;
}

post_run_lem_example :
    let made = post_run web config setting none run_sample idle in
    Refused web config idle made ⊎ Stores web config ("run_" +++ show 5) made.server.store.runs
unfolding show
post_run_lem_example = post_run_lem web config setting none run_sample idle ended_early-NoReplay

abbrev at_once : Meanwhile
at_once = record {
  after_read = [];
  after_log = [];
  after_request = [];
  logged = 30;
  made_at = 31;
  ended_at = 32;
  ended_logged = 33;
}

cancel_run_lem_example :
    let (t, a) = cancel_run at_once "run_5" busy in
    let o = lookup "run_5" busy.store.runs in
    (a.code ≡ code_for o)
    × (marked "run_5" t ≡ (can_cancel o && registered "run_5" busy) || marked "run_5" busy)
    × (status_of (lookup "run_5" t.store.runs)
        ≡ status_after (registered "run_5" busy) (status_of o))
cancel_run_lem_example =
    cancel_run_lem at_once (record { after_read = refl; after_log = refl; after_request = refl })
      "run_5" busy

abbrev rounds_of_run : List (List Op × List Op)
rounds_of_run =
    ([], [])
    ∷ (
      mark_run_started 10 11 "run_5" ∷ [],
      complete_run 20 21 (report_of Report.passed) "run_5" ∷ [],
    )
    ∷ []

abbrev opened : Memory
opened = apply_all (Op.create_run 5 6 "" "" sample none ∷ []) new_memory

opened-held : Runs.get_run "run_5" opened ≡ some the_run
unfolding Runs.get_run apply_all lookup Runs.create_run append_run_event insert new_memory show
opened-held = refl

-- The client takes two events after the first.
stream_run_events_lem_example :
    stream_run_events true "run_5" opened (looks_from rounds_of_run opened) 1 2
    ≡ streamed (take 2 (drop 1 (last_log "run_5" [] rounds_of_run opened)))
stream_run_events_lem_example =
    stream_run_events_lem rounds_of_run "run_5" opened the_run 1 2
      (apply_all-Sound (Op.create_run 5 6 "" "" sample none ∷ []) new_memory new_memory-Sound)
      opened-held

abbrev ending : List Op
ending = mark_run_started 10 11 "run_5" ∷ complete_run 20 21 (report_of Report.passed) "run_5" ∷ []

abbrev finished : RunRecord
finished = record the_run {
  status = passed;
  report = some (report_of Report.passed);
  started_at = some 10;
  finished_at = some 20;
}

opened_finished : Runs.get_run "run_5" (apply_all ending opened) ≡ some finished
unfolding Runs.get_run apply_all lookup Runs.complete_run Runs.on_active Runs.mark_run_started
    Runs.create_run append_run_event insert new_memory show is_terminal Runs.put_run
    wreckr.Exec.canceled_report
opened_finished = refl

stream_cut_example :
    stream "run_5"
      ((opened, apply_all ending opened) ∷ (apply_all ending opened, apply_all ending opened) ∷ [])
      0
      9
    ≡ take 9 (drop 0 (events_of opened "run_5"))
unfolding is_terminal
stream_cut_example =
    stream_cut ending ((apply_all ending opened, apply_all ending opened) ∷ []) "run_5" finished
      opened 0 9
      (apply_all-Sound (Op.create_run 5 6 "" "" sample none ∷ []) new_memory new_memory-Sound)
      opened_finished refl

post_scenario-Outcome_example :
    Outcome web config
      ("scn_" +++ show 5)
      new_memory
      (post_scenario web config 5 none sample new_memory)
post_scenario-Outcome_example = post_scenario-Outcome web config 5 none sample new_memory

abbrev local_target : TargetRecord
local_target = record {
  id = "";
  name = "local";
  base_url = "http://localhost:9090";
  environment = TargetEnvironment.local;
  description = "";
  headers = none;
  created_at = none;
  updated_at = none;
}
