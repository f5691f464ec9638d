-- ===== src/Http/Scenarios.antt =====
-- The handlers of scenarios and their versions (apps/api/internal/httpapi/server.go).
pub mod Stored
use wreckr.Prelude.{
  ℕ, ℤ, pos, String, ◌+++◌, Option, none, some, show, quote, is_empty, is_nil, ltb_ℤ, pos_part,
  if◌then◌else◌,
}
use wreckr.Platform.{Platform}
use wreckr.Event.{Time}
use wreckr.Scenario.{Scenario}
use wreckr.Store.{ScenarioRecord, ScenarioVersionRecord, Memory}
use wreckr.Store.Scenarios
use wreckr.Http.{
  Step, Config, Answer, answer, error, scenario, scenarios, version, versions, go, stop,
}
use wreckr.Http.Prepare.{prepare}

missing : String → Answer
missing id = answer 404 (error ("scenario " +++ quote id +++ " not found"))

module _ (p : Platform) where
  -- What follows the checks of createScenario.
  unfoldable pub store_new : Time → Memory → Step (Scenario × String) → Memory × Answer
  store_new now m (stop a) = (m, a)
  store_new now m (go ready) =
      let (n, r) = Scenarios.create_scenario now ready.0 m in (n, answer 201 (scenario r))

  -- `bad` is the decoder's error.
  unfoldable pub post_scenario : Config → Time → Option String → Scenario → Memory → Memory × Answer
  unfolding store_new
  post_scenario c now (some e) sc m = (m, answer 400 (error e))
  post_scenario c now none sc m = store_new now m (prepare p c.guardrails m sc "")

  unfoldable pub updated : String → Memory × Option ScenarioRecord → Memory × Answer
  unfolding missing
  updated id (n, none) = (n, missing id)
  updated id (n, some r) = (n, answer 200 (scenario r))

  -- What follows the checks of updateScenario.
  unfoldable pub store_change : Time → String → Memory → Step (Scenario × String) → Memory × Answer
  unfolding updated
  store_change now id m (stop a) = (m, a)
  store_change now id m (go ready) = updated id (Scenarios.update_scenario now id ready.0 m)

  unfoldable pub put_decoded :
      Config → Time → Option String → String → Scenario → Memory → Memory × Answer
  unfolding store_change
  put_decoded c now (some e) id sc m = (m, answer 400 (error e))
  put_decoded c now none id sc m = store_change now id m (prepare p c.guardrails m sc "")

  unfoldable pub put_scenario :
      Config → Time → Option String → String → Scenario → Memory → Memory × Answer
  unfolding put_decoded missing
  put_scenario c now bad id sc m =
      if is_nil id then (m, missing id) else put_decoded c now bad id sc m

found_scenario : String → Option ScenarioRecord → Answer
unfolding missing
found_scenario id none = missing id
found_scenario id (some r) = answer 200 (scenario r)

unfoldable pub get_scenario : String → Memory → Answer
unfolding found_scenario
get_scenario id m = found_scenario id (Scenarios.get_scenario id m)

unfoldable pub list_scenarios : Memory → Answer
list_scenarios m = answer 200 (scenarios (Scenarios.list_scenarios m))

unfoldable pub list_scenario_versions : String → Memory → Answer
unfolding missing
list_scenario_versions id m =
    let held = Scenarios.list_scenario_versions id m in
    if is_empty held then missing id else answer 200 (versions held)

found_version : String → ℕ → Option ScenarioVersionRecord → Answer
found_version id n none =
    answer 404 (error ("scenario " +++ quote id +++ " version " +++ show n +++ " not found"))
found_version id n (some v) = answer 200 (version v)

-- `number` is what strconv.Atoi makes of the path's last part.
unfoldable pub get_scenario_version : String → Option ℤ → Memory → Answer
unfolding found_version
get_scenario_version id none m = answer 400 (error "scenario version must be a positive integer")
get_scenario_version id (some n) m =
    if ltb_ℤ n (pos 1)
    then answer 400 (error "scenario version must be a positive integer")
    else found_version id (pos_part n) (Scenarios.get_scenario_version id (pos_part n) m)
