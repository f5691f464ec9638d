-- ===== src/Store/Scenarios.antt =====
-- Scenarios and their versions in the memory store (apps/api/internal/store/memory.go).
use wreckr.Prelude.{
  ℕ, ◌+◌, String, ◌+++◌, List, [], ◌∷◌, ◌++◌, Option, none, some, lookup, insert, values, length,
  eqb, find_where, show,
}
use wreckr.Event.{Time}
use wreckr.Scenario.{Scenario}
use wreckr.Store.{ScenarioRecord, ScenarioVersionRecord, Memory, versions_of}

unfoldable pub create_scenario : Time → Scenario → Memory → Memory × ScenarioRecord
create_scenario now sc m =
    let id = "scn_" +++ show now in
    let version_id = "scv_" +++ show now in
    let version : ScenarioVersionRecord = record {
      id = version_id;
      scenario_id = id;
      version_number = 1;
      scenario = sc;
      created_at = now;
    } in
    let r : ScenarioRecord = record {
      id = id;
      scenario = sc;
      current_version_id = version_id;
      current_version_number = 1;
      created_at = now;
    } in
    (
      record m {
        scenarios = insert id r m.scenarios;
        scenario_versions = insert id (version ∷ []) m.scenario_versions;
      },
      r,
    )

-- The branch of UpdateScenario on what the map holds.
unfoldable pub update_found :
    Time → String → Scenario → Option ScenarioRecord → Memory → Memory × Option ScenarioRecord
update_found now id sc none m = (m, none)
update_found now id sc (some found) m =
    let n = length (versions_of m id) + 1 in
    let version_id = "scv_" +++ show now in
    let version : ScenarioVersionRecord = record {
      id = version_id;
      scenario_id = id;
      version_number = n;
      scenario = sc;
      created_at = now;
    } in
    let r : ScenarioRecord = record found {
      scenario = sc;
      current_version_id = version_id;
      current_version_number = n;
    } in
    (
      record m {
        scenario_versions = insert id (versions_of m id ++ version ∷ []) m.scenario_versions;
        scenarios = insert id r m.scenarios;
      },
      some r,
    )

unfoldable pub update_scenario : Time → String → Scenario → Memory → Memory × Option ScenarioRecord
unfolding update_found
update_scenario now id sc m = update_found now id sc (lookup id m.scenarios) m

unfoldable pub get_scenario : String → Memory → Option ScenarioRecord
get_scenario id m = lookup id m.scenarios

unfoldable pub list_scenarios : Memory → List ScenarioRecord
list_scenarios m = values m.scenarios

unfoldable pub list_scenario_versions : String → Memory → List ScenarioVersionRecord
list_scenario_versions id m = versions_of m id

-- The loop over the versions returns the first of that number.
unfoldable pub get_scenario_version : String → ℕ → Memory → Option ScenarioVersionRecord
get_scenario_version id n m = find_where (λ v. eqb v.version_number n) (versions_of m id)
