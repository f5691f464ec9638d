-- ===== src/Store/Versions.antt =====
-- Scenario versions in the memory store (apps/api/internal/store/memory.go; docs/ADR/adr-006).
pub mod Kept
use wreckr.Prelude.{
  true, Bool, eq_refl, ℕ, suc, ◌+◌, String, ◌+++◌, show, ◌≡◌, refl, List, [], ◌∷◌, ◌++◌, Option,
  none, some, arith, lookup, insert, length,
}
use wreckr.Event.{Time, Event}
use wreckr.Scenario.{Scenario}
use wreckr.Store.{
  ScenarioRecord, ScenarioVersionRecord, TargetRecord, RunRecord, Memory, versions_of,
}
use wreckr.Store.Targets
use wreckr.Store.Scenarios
use wreckr.Store.Events
use wreckr.Store.Runs
use wreckr.Store.Op.{
  creates_scenario, Op, create_target, update_target, delete_target, create_scenario,
  update_scenario, create_run, mark_run_started, complete_run, cancel_run, error_run,
  request_run_cancel, append_run_event, apply,
}

abbrev pub Versions : Type 0
Versions = List ScenarioVersionRecord

abbrev pub Numbered : ℕ → Versions → Type 0
Numbered n [] = Unit
Numbered n (v ∷ vs) = (v.version_number ≡ suc n) × Numbered (suc n) vs

-- The record of a scenario and the version that it points at.
pub record Current (k : String) (r : ScenarioRecord) (v : ScenarioVersionRecord) : Type 0 where
  pub version_id : r.current_version_id ≡ v.id
  pub version_number : r.current_version_number ≡ v.version_number
  pub scenario : r.scenario ≡ v.scenario
  pub owner : v.scenario_id ≡ k

-- What a method may do to the scenarios: nothing, write one with a first version, or move one to a
-- version that is appended to those it has.
pub data Effect (made : String → Bool) (m n : Memory) : Type 0 where
  same : n.scenarios ≡ m.scenarios → n.scenario_versions ≡ m.scenario_versions → Effect made m n
  created :
      (k : String) (r : ScenarioRecord) (v : ScenarioVersionRecord)
      → n.scenarios ≡ insert k r m.scenarios
      → n.scenario_versions ≡ insert k (v ∷ []) m.scenario_versions
      → r.id ≡ k
      → v.version_number ≡ 1
      → Current k r v
      → made k ≡ true
      → Effect made m n
  updated :
      (k : String) (s r : ScenarioRecord) (v : ScenarioVersionRecord)
      → lookup k m.scenarios ≡ some s
      → n.scenarios ≡ insert k r m.scenarios
      → n.scenario_versions ≡ insert k (versions_of m k ++ v ∷ []) m.scenario_versions
      → r.id ≡ s.id
      → v.version_number ≡ length (versions_of m k) + 1
      → Current k r v
      → Effect made m n

updated-Effect :
    (made : String → Bool) (now : Time) (k : String) (sc : Scenario) (found : Option ScenarioRecord)
    (m : Memory)
    → lookup k m.scenarios ≡ found
    → Effect made m (Scenarios.update_found now k sc found m).0
unfolding Scenarios.update_found
updated-Effect made now k sc none m e = same refl refl
updated-Effect made now k sc (some s) m e =
    updated k s _ _ e refl refl refl refl
      (record { version_id = refl; version_number = refl; scenario = refl; owner = refl })

module _ (m : Memory) where
  -- The runs' methods do not touch the scenarios.
  abbrev Apart : Memory → Type 0
  Apart n = (n.scenarios ≡ m.scenarios) × (n.scenario_versions ≡ m.scenario_versions)

  active-Apart :
      (k : String) (at : Time) (g : RunRecord → RunRecord) (ev : RunRecord → Event)
      → Apart (Runs.on_active k (λ s. Runs.put_run at k (g s) (ev s)) m)
  unfolding Runs.on_active Runs.put_run Events.append_run_event
  active-Apart k at g ev = ground arith

  request-Apart : (at : Time) (k : String) → Apart (Runs.request_run_cancel at k m).0
  unfolding Runs.request_run_cancel Events.append_run_event
  request-Apart at k = ground arith

  target-Apart :
      (now : Time) (k : String) (t : TargetRecord) → Apart (Targets.update_target now k t m).0
  unfolding Targets.update_target
  target-Apart now k t = ground arith

  delete-Apart : (k : String) → Apart (Targets.delete_target k m).0
  unfolding Targets.delete_target
  delete-Apart k = ground arith

Apart-Effect : (made : String → Bool) (m n : Memory) → Apart m n → Effect made m n
Apart-Effect made m n h = same h.0 h.1

pub apply-Effect : (op : Op) (m : Memory) → Effect (λ k. creates_scenario k op) m (apply op m)
unfolding apply Targets.create_target Scenarios.create_scenario Scenarios.update_scenario
    Runs.create_run Runs.mark_run_started Runs.complete_run Runs.cancel_run Runs.error_run
    Events.append_run_event
apply-Effect (create_target now t) m = same refl refl
apply-Effect (update_target now k t) m = Apart-Effect _ m _ (target-Apart m now k t)
apply-Effect (delete_target k) m = Apart-Effect _ m _ (delete-Apart m k)
apply-Effect (create_scenario now sc) m =
    created ("scn_" +++ show now) _ _ refl refl refl refl
      (record { version_id = refl; version_number = refl; scenario = refl; owner = refl })
      (eq_refl ("scn_" +++ show now))
apply-Effect (update_scenario now k sc) m = updated-Effect _ now k sc (lookup k m.scenarios) m refl
apply-Effect (create_run now at sid tid sc ref) m = same refl refl
apply-Effect (mark_run_started now at k) m = Apart-Effect _ m _ (active-Apart m k at _ _)
apply-Effect (complete_run now at rep k) m = Apart-Effect _ m _ (active-Apart m k at _ _)
apply-Effect (cancel_run now at rep k) m = Apart-Effect _ m _ (active-Apart m k at _ _)
apply-Effect (error_run now at err k) m = Apart-Effect _ m _ (active-Apart m k at _ _)
apply-Effect (request_run_cancel at k) m = Apart-Effect _ m _ (request-Apart m at k)
apply-Effect (append_run_event now k e) m = same refl refl
