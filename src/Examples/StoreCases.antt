-- ===== src/Examples/StoreCases.antt =====
-- The theorems on the store at concrete histories.
use wreckr.Prelude.{refl, ◌≡◌, List, [], ◌∷◌, some, lookup, insert, show}
use wreckr.Report
use wreckr.Store.{RunRecord, Memory, ScenarioRecord, ScenarioVersionRecord, new_memory, versions_of}
use wreckr.Store.Runs
use wreckr.Store.Events
use wreckr.Store.Scenarios
use wreckr.Store.Scenarios.{get_scenario_version}
use wreckr.Store.Op.{Op, apply, apply_all}
use wreckr.Store.Shared.{
  Rewrite, Write, method, in_place, write_all, Follows, scenario_after, write_all-Follows,
}
use wreckr.Store.Shared.Versions.{rewritten, write_all-keeps_version}
use wreckr.Store.Effect
use wreckr.Store.Effect.{apply-Effect}
use wreckr.Store.Sound
use wreckr.Store.Sound.{new_memory-apply_all}
use wreckr.Store.Versions.Kept as VersionsKept
use wreckr.Examples.Fixtures.{sample, report_of, one_run, the_run, checkout}

abbrev history : List Op
history =
    Op.mark_run_started 7 8 "run_5"
    ∷ Op.request_run_cancel 9 "run_5"
    ∷ Op.complete_run 10 11 (report_of Report.passed) "run_5"
    ∷ Op.cancel_run 12 13 (report_of Report.failed) "run_5"
    ∷ []

one_run-held : lookup "run_5" one_run.runs ≡ some the_run
unfolding Runs.create_run Events.append_run_event new_memory lookup insert show
one_run-held = refl

-- A caller writes another path into the scenarios that it shares with the store, after the run started.
abbrev expand : Rewrite
expand place sc = record sc { requests = record checkout { path = "/expanded" } ∷ [] }

abbrev shared_history : List Write
shared_history =
    method (Op.mark_run_started 7 8 "run_5")
    ∷ in_place expand
    ∷ method (Op.complete_run 10 11 (report_of Report.passed) "run_5")
    ∷ method (Op.cancel_run 12 13 (report_of Report.failed) "run_5")
    ∷ []

write_all-Follows_example :
    (t : RunRecord) × (lookup "run_5" (write_all shared_history one_run).runs ≡ some t)
    × Follows the_run t
    × (t.scenario ≡ scenario_after shared_history the_run.id the_run.scenario)
write_all-Follows_example =
    write_all-Follows shared_history "run_5" the_run one_run one_run-held refl

new_memory-apply_all_example : Sound.Sound (apply_all history new_memory)
new_memory-apply_all_example = new_memory-apply_all history

apply-Effect_example : Effect.Effect one_run (apply (Op.mark_run_started 7 8 "run_5") one_run)
apply-Effect_example = apply-Effect (Op.mark_run_started 7 8 "run_5") one_run

-- A store with the scenario scn_1 and its first version.
abbrev one_scenario : Memory
one_scenario = (Scenarios.create_scenario 1 sample new_memory).0

abbrev its_record : ScenarioRecord
its_record = (Scenarios.create_scenario 1 sample new_memory).1

abbrev version_1 : ScenarioVersionRecord
version_1 = record {
  id = "scv_1";
  scenario_id = "scn_1";
  version_number = 1;
  scenario = sample;
  created_at = 1;
}

abbrev edits : List Op
edits =
    Op.update_scenario 2 "scn_1" (record sample { name = "second" })
    ∷ Op.update_scenario 3 "scn_1" (record sample { name = "third" })
    ∷ []

abbrev shared_edits : List Write
shared_edits =
    method (Op.update_scenario 2 "scn_1" (record sample { name = "second" }))
    ∷ in_place expand
    ∷ method (Op.update_scenario 3 "scn_1" (record sample { name = "third" }))
    ∷ []

write_all-keeps_version_example :
    get_scenario_version "scn_1" 1 (write_all shared_edits one_scenario)
    ≡ some (rewritten shared_edits version_1)
unfolding Scenarios.create_scenario new_memory lookup insert show get_scenario_version versions_of
write_all-keeps_version_example =
    write_all-keeps_version shared_edits "scn_1" 1 version_1 one_scenario refl refl

one_scenario-Sound : VersionsKept.Sound one_scenario
one_scenario-Sound =
    unfold apply_all apply in
    VersionsKept.apply_all-Versions (Op.create_scenario 1 sample ∷ []) new_memory
      VersionsKept.new_memory-Sound

apply_all-Versions_example : VersionsKept.Sound (apply_all edits one_scenario)
apply_all-Versions_example = VersionsKept.apply_all-Versions edits one_scenario one_scenario-Sound
