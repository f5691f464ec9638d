-- ===== src/Store/Shared.antt =====
-- Scenarios that the store shares with its callers (apps/api/internal/scenario/schema.go, WithEnv and
-- Normalized; apps/api/internal/store/memory.go): the records hold slices and maps that a caller may write
-- through without the store's lock, so between two methods any scenario in the store may become another.
pub mod Versions
use wreckr.Prelude.{
  ℕ, String, ◌==◌, ◌≡◌, refl, ap, ◌∙◌, sym, subst, inl, inr, List, [], ◌∷◌, Option, none, some,
  Bool, true, false, arith, Dict, lookup, Bool-cases, any, map, find_where, eqb,
}
use wreckr.Scenario.{Scenario}
use wreckr.Store.{
  ScenarioRecord, ScenarioVersionRecord, RunRecord, Memory, is_terminal, versions_of,
}
use wreckr.Store.Scenarios.{get_scenario_version}
use wreckr.Store.Op.{Op, apply, creates_run, creates_scenario}
use wreckr.Store.Later.{Later, Moves}
use wreckr.Store.History.{apply-Kept}

-- Where the store holds a scenario.
pub data Place : Type 0 where
  of_run : String → Place
  of_scenario : String → Place
  of_version : String → Place

abbrev pub Rewrite : Type 0
Rewrite = Place → Scenario → Scenario

abbrev pub map_values {ℓ} : {A : Type ℓ} → (A → A) → Dict A → Dict A
map_values f [] = []
map_values f (entry ∷ rest) = (entry.0, f entry.1) ∷ map_values f rest

abbrev rewrite_run : Rewrite → RunRecord → RunRecord
rewrite_run h r = record r { scenario = h (of_run r.id) r.scenario }

abbrev rewrite_record : Rewrite → ScenarioRecord → ScenarioRecord
rewrite_record h r = record r { scenario = h (of_scenario r.id) r.scenario }

abbrev pub rewrite_version : Rewrite → ScenarioVersionRecord → ScenarioVersionRecord
rewrite_version h v = record v { scenario = h (of_version v.id) v.scenario }

abbrev pub rewrite_shared : Rewrite → Memory → Memory
rewrite_shared h m = record m {
  scenarios = map_values (rewrite_record h) m.scenarios;
  scenario_versions = map_values (map (rewrite_version h)) m.scenario_versions;
  runs = map_values (rewrite_run h) m.runs;
}

-- What happens to a store: a method, or writes through what it shares.
pub data Write : Type 0 where
  method : Op → Write
  in_place : Rewrite → Write

abbrev pub write_all : List Write → Memory → Memory
write_all [] m = m
write_all (method op ∷ ws) m = write_all ws (apply op m)
write_all (in_place h ∷ ws) m = write_all ws (rewrite_shared h m)

abbrev pub is_method : (Op → Bool) → Write → Bool
is_method p (method op) = p op
is_method p (in_place h) = false

-- What a terminal run keeps.
abbrev pub Frozen : RunRecord → RunRecord → Type 0
Frozen r t =
    (t.status ≡ r.status)
    × (t.report ≡ r.report)
    × (t.error ≡ r.error)
    × (t.started_at ≡ r.started_at)
    × (t.finished_at ≡ r.finished_at)

-- `t` is a later state of the run `r`, whatever its scenario has become.
pub record Follows (r t : RunRecord) : Type 0 where
  pub same_id : t.id ≡ r.id
  pub same_target : t.target_id ≡ r.target_id
  pub same_scenario_id : t.scenario_id ≡ r.scenario_id
  pub same_version_id : t.scenario_version_id ≡ r.scenario_version_id
  pub same_version_number : t.scenario_version_number ≡ r.scenario_version_number
  pub same_created_at : t.created_at ≡ r.created_at
  pub moves : Moves r.status t.status
  pub settled : is_terminal r.status ≡ true → Frozen r t

frozen : (r t : RunRecord) → t ≡ r → Frozen r t
frozen r t e = (
  ap (λ x. x.status) e,
  ap (λ x. x.report) e,
  ap (λ x. x.error) e,
  ap (λ x. x.started_at) e,
  ap (λ x. x.finished_at) e,
)

pub Later-Follows : (r t : RunRecord) → Later r t → Follows r t
Later-Follows r t h = record {
  same_id = h.same_id;
  same_target = h.same_target;
  same_scenario_id = h.same_scenario_id;
  same_version_id = h.same_version_id;
  same_version_number = h.same_version_number;
  same_created_at = h.same_created_at;
  moves = h.moves;
  settled = λ e. frozen r t (h.settled e);
}

Follows-trans : (r s t : RunRecord) → Follows r s → Follows s t → Follows r t
unfolding is_terminal
Follows-trans r s t h k = ground arith

rewrite-Follows : (h : Rewrite) (r : RunRecord) → Follows r (rewrite_run h r)
rewrite-Follows h r = record {
  same_id = refl;
  same_target = refl;
  same_scenario_id = refl;
  same_version_id = refl;
  same_version_number = refl;
  same_created_at = refl;
  moves = inl refl;
  settled = λ e. (refl, refl, refl, refl, refl);
}

abbrev pub mapped {ℓ} : {A : Type ℓ} → (A → A) → Option A → Option A
mapped f none = none
mapped f (some x) = some (f x)

pub lookup-map_values {ℓ} :
    {A : Type ℓ} (f : A → A) (k : String) (d : Dict A)
    → lookup k (map_values f d) ≡ mapped f (lookup k d)
unfolding lookup
lookup-map_values f k [] = refl
lookup-map_values f k (entry ∷ rest) = elim (Bool-cases (entry.0 == k)) [
  | inl q ↦ rw (q, lookup) refl
  | inr q ↦ rw (q, lookup) (lookup-map_values f k rest)
]

-- The scenario of a run after the writes in place of a history.
abbrev pub scenario_after : List Write → String → Scenario → Scenario
scenario_after [] id sc = sc
scenario_after (method op ∷ ws) id sc = scenario_after ws id sc
scenario_after (in_place h ∷ ws) id sc = scenario_after ws id (h (of_run id) sc)

-- Through any history of methods and of writes in place that does not create a run at the same reading of
-- the clock, the store goes on holding the run: its ids, target, version and time of creation never change,
-- its status never returns to queued, once the status is terminal neither it nor the report, the error and
-- the times of the run change again, and its scenario is what the writes in place made of it.
pub write_all-Follows :
    (ws : List Write) (id : String) (r : RunRecord) (m : Memory)
    → lookup id m.runs ≡ some r
    → any (is_method (creates_run id)) ws ≡ false
    → (t : RunRecord) × (lookup id (write_all ws m).runs ≡ some t)
      × Follows r t
      × (t.scenario ≡ scenario_after ws r.id r.scenario)
write_all-Follows [] id r m held h = (r, held, rewrite-Follows (λ place sc. sc) r, refl)
write_all-Follows (method op ∷ ws) id r m held h =
    let (s, at, later) = apply-Kept id r m held op (ground arith) in
    let (t, end, rest, content) = write_all-Follows ws id s (apply op m) at (ground arith) in
    let same =
      ap (λ (k : String). scenario_after ws k s.scenario) later.same_id
      ∙ ap (scenario_after ws r.id) later.same_scenario in
    (t, end, Follows-trans r s t (Later-Follows r s later) rest, content ∙ same)
write_all-Follows (in_place g ∷ ws) id r m held h =
    let at = lookup-map_values (rewrite_run g) id m.runs ∙ ap (mapped (rewrite_run g)) held in
    let (t, end, rest, content) =
      write_all-Follows ws id (rewrite_run g r) (rewrite_shared g m) at (ground arith) in
    (t, end, Follows-trans r (rewrite_run g r) t (rewrite-Follows g r) rest, content)
