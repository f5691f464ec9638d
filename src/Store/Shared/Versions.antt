-- ===== src/Store/Shared/Versions.antt =====
-- Scenario versions in a store whose scenarios are written in place
-- (apps/api/internal/store/memory.go; apps/api/internal/scenario/schema.go).
use wreckr.Prelude.{
  ℕ, String, ◌≡◌, refl, ap, ◌∙◌, List, [], ◌∷◌, Option, none, some, false, arith, lookup, any, map,
  find_where, eqb, Bool-cases, inl, inr,
}
use wreckr.Store.{ScenarioVersionRecord, Memory, versions_of, or_nil}
use wreckr.Store.Scenarios.{get_scenario_version}
use wreckr.Store.Op.{apply, creates_scenario}
use wreckr.Store.Versions.{apply-Effect}
use wreckr.Store.Versions.Kept.{Effect-Extends, Extends-keeps_version}
use wreckr.Store.Shared.{
  Rewrite, Write, method, in_place, write_all, is_method, rewrite_shared, rewrite_version, mapped,
  lookup-map_values,
}

-- A version after the writes in place of a history.
abbrev pub rewritten : List Write → ScenarioVersionRecord → ScenarioVersionRecord
rewritten [] v = v
rewritten (method op ∷ ws) v = rewritten ws v
rewritten (in_place h ∷ ws) v = rewritten ws (rewrite_version h v)

find_where-map :
    (h : Rewrite) (i : ℕ) (vs : List ScenarioVersionRecord)
    → find_where (λ v. eqb v.version_number i) (map (rewrite_version h) vs)
      ≡ mapped (rewrite_version h) (find_where (λ v. eqb v.version_number i) vs)
find_where-map h i [] = refl
find_where-map h i (v ∷ vs) = elim (Bool-cases (eqb v.version_number i)) [
  | inl q ↦ rw q refl
  | inr q ↦ rw q (find_where-map h i vs)
]

or_nil-mapped :
    (h : Rewrite) (o : Option (List ScenarioVersionRecord))
    → or_nil (mapped (map (rewrite_version h)) o) ≡ map (rewrite_version h) (or_nil o)
or_nil-mapped h none = refl
or_nil-mapped h (some vs) = refl

rewrite-version :
    (h : Rewrite) (id : String) (i : ℕ) (m : Memory)
    → get_scenario_version id i (rewrite_shared h m)
      ≡ mapped (rewrite_version h) (get_scenario_version id i m)
unfolding get_scenario_version versions_of
rewrite-version h id i m =
    let moved =
      ap or_nil (lookup-map_values (map (rewrite_version h)) id m.scenario_versions)
      ∙ or_nil-mapped h (lookup id m.scenario_versions) in
    ap (find_where (λ (v : ScenarioVersionRecord). eqb v.version_number i)) moved
    ∙ find_where-map h i (versions_of m id)

-- Through any history of methods and of writes in place that does not create a scenario at the same reading
-- of the clock, a version that the store returned once is returned by its number ever after, and nothing of
-- it has changed but what the writes in place made of its scenario.
pub write_all-keeps_version :
    (ws : List Write) (id : String) (i : ℕ) (v : ScenarioVersionRecord) (m : Memory)
    → any (is_method (creates_scenario id)) ws ≡ false
    → get_scenario_version id i m ≡ some v
    → get_scenario_version id i (write_all ws m) ≡ some (rewritten ws v)
write_all-keeps_version [] id i v m c h = h
write_all-keeps_version (method op ∷ ws) id i v m c h =
    write_all-keeps_version ws id i v (apply op m) (ground arith) (
      Extends-keeps_version m (apply op m) id i v
        (Effect-Extends _ m (apply op m) id (apply-Effect op m) (ground arith)) h)
write_all-keeps_version (in_place g ∷ ws) id i v m c h =
    let at = rewrite-version g id i m ∙ ap (mapped (rewrite_version g)) h in
    write_all-keeps_version ws id i (rewrite_version g v) (rewrite_shared g m) (ground arith) at
