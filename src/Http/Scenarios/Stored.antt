-- ===== src/Http/Scenarios/Stored.antt =====
-- What a request with a scenario does to the store (apps/api/internal/httpapi/server.go,
-- createScenario and updateScenario).
use wreckr.Prelude.{
  Dict, insert, String, ◌+++◌, show, ◌≡◌, refl, ◌⊎◌, inl, inr, Option, none, some, lookup,
  lookup-insert, eq_refl, Bool-cases, is_nil,
}
use wreckr.Platform.{Platform}
use wreckr.Event.{Time}
use wreckr.Scenario.{Scenario}
use wreckr.Store.{Memory, ScenarioRecord}
use wreckr.Store.Scenarios.{create_scenario, update_scenario, update_found}
use wreckr.Http.{Config, Answer, Step, go, stop}
use wreckr.Http.Prepare.{prepare}
use wreckr.Http.Runs.Checked.{Checked, prepare-Checked}
use wreckr.Http.Runs.Admission.{Refusal, Refuses, prepare-Refuses}
use wreckr.Http.Scenarios.{
  store_new, post_scenario, updated, store_change, put_decoded, put_scenario,
}

lookup-here :
    (k : String) (r : ScenarioRecord) (d : Dict ScenarioRecord) → lookup k (insert k r d) ≡ some r
lookup-here k r d = rw lookup-insert (rw (eq_refl k) refl)

module _ (p : Platform) (c : Config) where
  -- Refused with code 400 or 404 and nothing changed, or stored under the id and accepted by both
  -- checks.
  abbrev pub Outcome : String → Memory → Memory × Answer → Type 0
  Outcome id m (n, a) =
      ((n ≡ m) × Refusal a)
      ⊎ ((r : ScenarioRecord) × (lookup id n.scenarios ≡ some r)
          × Checked p c.guardrails r.scenario)

  abbrev Fine : Step (Scenario × String) → Type 0
  Fine (stop a) = Unit
  Fine (go ready) = Checked p c.guardrails ready.0

  prepare-Fine :
      (m : Memory) (sc : Scenario) (o : Step (Scenario × String))
      → prepare p c.guardrails m sc "" ≡ o
      → Fine o
  prepare-Fine m sc (stop a) e = tt
  prepare-Fine m sc (go ready) e = prepare-Checked p c.guardrails m sc "" ready e

  store_new-Outcome :
      (now : Time) (m : Memory) (o : Step (Scenario × String))
      → Refuses o
      → Fine o
      → Outcome ("scn_" +++ show now) m (store_new p now m o)
  unfolding store_new create_scenario
  store_new-Outcome now m (stop a) h k = inl (refl, h)
  store_new-Outcome now m (go ready) h k = inr (_, lookup-here _ _ m.scenarios, k)

  -- A request to create a scenario is refused with code 400 or 404 and changes nothing, or the store
  -- holds a new scenario that Validate and the guardrails accept.
  pub post_scenario-Outcome :
      (now : Time) (bad : Option String) (sc : Scenario) (m : Memory)
      → Outcome ("scn_" +++ show now) m (post_scenario p c now bad sc m)
  unfolding post_scenario
  post_scenario-Outcome now (some e) sc m = inl (refl, inl refl)
  post_scenario-Outcome now none sc m =
      store_new-Outcome now m _ (prepare-Refuses p c m sc "") (prepare-Fine m sc _ refl)

  updated-Outcome :
      (now : Time) (id : String) (sc : Scenario) (m : Memory)
      → Checked p c.guardrails sc
      → (found : Option ScenarioRecord)
      → Outcome id m (updated p id (update_found now id sc found m))
  unfolding updated update_found
  updated-Outcome now id sc m k none = inl (refl, inr refl)
  updated-Outcome now id sc m k (some s) = inr (_, lookup-here id _ m.scenarios, k)

  store_change-Outcome :
      (now : Time) (id : String) (m : Memory) (o : Step (Scenario × String))
      → Refuses o
      → Fine o
      → Outcome id m (store_change p now id m o)
  unfolding store_change update_scenario
  store_change-Outcome now id m (stop a) h k = inl (refl, h)
  store_change-Outcome now id m (go ready) h k =
      updated-Outcome now id ready.0 m k (lookup id m.scenarios)

  put_decoded-Outcome :
      (now : Time) (bad : Option String) (id : String) (sc : Scenario) (m : Memory)
      → Outcome id m (put_decoded p c now bad id sc m)
  unfolding put_decoded
  put_decoded-Outcome now (some e) id sc m = inl (refl, inl refl)
  put_decoded-Outcome now none id sc m =
      store_change-Outcome now id m _ (prepare-Refuses p c m sc "") (prepare-Fine m sc _ refl)

  -- A request to change a scenario is refused with code 400 or 404 and changes nothing, or the store
  -- holds under its id a scenario that Validate and the guardrails accept.
  pub put_scenario-Outcome :
      (now : Time) (bad : Option String) (id : String) (sc : Scenario) (m : Memory)
      → Outcome id m (put_scenario p c now bad id sc m)
  unfolding put_scenario
  put_scenario-Outcome now bad id sc m = elim (Bool-cases (is_nil id)) [
    | inl q ↦ rw q (inl (refl, inr refl))
    | inr q ↦ rw q (put_decoded-Outcome now bad id sc m)
  ]
