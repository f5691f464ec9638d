-- ===== src/Store/Versions/Kept.antt =====
-- What the methods keep of versions, and that a scenario's record points at its last one
-- (apps/api/internal/store/memory.go; docs/ADR/adr-006-immutable-scenario-versions.md).
use mathlib.Core.Path.{subst₂}
use wreckr.Prelude.{
  ℕ, zero, suc, ◌+◌, String, ◌==◌, eq_iff, eq_refl, ◌≡◌, refl, ◌∙◌, ◌⊎◌, inl, inr, List, [], ◌∷◌,
  ◌++◌, some, Bool, false, arith, lookup, insert, lookup-insert, length, Bool-cases, any,
  find_where, get_elem?, eqb, Dict, Extends, Extends-refl,
}
use wreckr.Store.{ScenarioRecord, ScenarioVersionRecord, Memory, versions_of, new_memory}
use wreckr.Store.Scenarios.{get_scenario_version}
use wreckr.Store.Op.{Op, apply, apply_all, creates_scenario}
use wreckr.Store.Versions.{
  Versions, Numbered, Current, Effect, same, created, updated, apply-Effect,
}

-- The record `r` of the scenario `k` points at the last of its versions, which are numbered from 1.
pub record ScenarioSound (k : String) (r : ScenarioRecord) (vs : Versions) : Type 0 where
  pub keyed : r.id ≡ k
  pub before : Versions
  pub last : ScenarioVersionRecord
  pub split : vs ≡ before ++ last ∷ []
  pub current : Current k r last
  pub numbered : Numbered 0 vs

pub record Sound (m : Memory) : Type 0 where
  pub scenarios :
      (k : String) (r : ScenarioRecord)
      → lookup k m.scenarios ≡ some r
      → ScenarioSound k r (versions_of m k)

Numbered-append :
    (n : ℕ) (vs : Versions) (v : ScenarioVersionRecord)
    → Numbered n vs
    → v.version_number ≡ n + length vs + 1
    → Numbered n (vs ++ v ∷ [])
Numbered-append n [] v h s = omega arith
Numbered-append n (x ∷ vs) v h s = (h.0, Numbered-append (suc n) vs v h.1 (omega arith))

found {ℓ} :
    {A : Type ℓ} (k j : String) (s t : A) (m : Dict A)
    → lookup j (insert k s m) ≡ some t
    → ((k ≡ j) × (s ≡ t)) ⊎ (((k == j) ≡ false) × (lookup j m ≡ some t))
found k j s t m h = ground (arith, lookup-insert k j s m, eq_iff k j)

module _ (m n : Memory) (k : String) (vs : Versions)
    (w : n.scenario_versions ≡ insert k vs m.scenario_versions) where
  versions-same : versions_of n k ≡ vs
  unfolding versions_of
  versions-same = rw w (rw lookup-insert (rw (eq_refl k)))

  versions-other : (j : String) → (k == j) ≡ false → versions_of n j ≡ versions_of m j
  unfolding versions_of
  versions-other j h = rw w (rw lookup-insert (rw h))

  put-Sound :
      (r : ScenarioRecord)
      → n.scenarios ≡ insert k r m.scenarios
      → ScenarioSound k r vs
      → Sound m
      → Sound n
  put-Sound r e ok h = record {
    scenarios = λ j t q. elim (found k j r t m.scenarios (rw e at q)) [
      | inl (p, f) ↦ subst₂ (λ x y. ScenarioSound x y (versions_of n x)) p f (rw versions-same ok)
      | inr (other, q') ↦ rw (versions-other j other) (h.scenarios j t q')
    ];
  }

versions-unchanged :
    (m n : Memory) (j : String)
    → n.scenario_versions ≡ m.scenario_versions
    → versions_of n j ≡ versions_of m j
unfolding versions_of
versions-unchanged m n j e = rw e

Effect-Sound : (made : String → Bool) (m n : Memory) → Effect made m n → Sound m → Sound n
Effect-Sound made m n (same e f) h = record {
  scenarios = λ j t q. rw (versions-unchanged m n j f) (h.scenarios j t (rw e at q));
}
Effect-Sound made m n (created k r v e w own one cur _) h =
    put-Sound m n k (v ∷ []) w r e
      (record {
        keyed = own;
        before = [];
        last = v;
        split = refl;
        current = cur;
        numbered = omega arith;
      })
      h
Effect-Sound made m n (updated k s r v f e w own num cur) h =
    let old = h.scenarios k s f in
    put-Sound m n k (versions_of m k ++ v ∷ []) w r e
      (record {
        keyed = own ∙ old.keyed;
        before = versions_of m k;
        last = v;
        split = refl;
        current = cur;
        numbered = Numbered-append 0 (versions_of m k) v old.numbered (omega arith);
      })
      h

pub new_memory-Sound : Sound new_memory
unfolding new_memory versions_of lookup
new_memory-Sound = record { scenarios = λ k r q. cc }

-- Every method keeps the scenarios sound: a scenario stands under its own id, its versions are
-- numbered 1, 2, 3 and so on, and its record carries the id, the number and the content of the last.
pub apply_all-Versions : (ops : List Op) (m : Memory) → Sound m → Sound (apply_all ops m)
unfolding apply_all
apply_all-Versions [] m h = h
apply_all-Versions (op ∷ ops) m h =
    apply_all-Versions ops (apply op m) (Effect-Sound _ m (apply op m) (apply-Effect op m) h)

find_where-append {ℓ} :
    {A : Type ℓ} (p : A → Bool) (xs ys : List A) (a : A)
    → find_where p xs ≡ some a
    → find_where p (xs ++ ys) ≡ some a
find_where-append p [] ys a h = cc
find_where-append p (x ∷ xs) ys a h = ground (arith, find_where-append p xs ys a)

-- The versions of a scenario that is not created anew only grow.
pub Effect-Extends :
    (made : String → Bool) (m n : Memory) (j : String)
    → Effect made m n
    → made j ≡ false
    → Extends (versions_of m j) (versions_of n j)
Effect-Extends made m n j (same e f) h =
    rw (versions-unchanged m n j f) (Extends-refl (versions_of m j))
Effect-Extends made m n j (created k r v e w own one cur c) h = elim (Bool-cases (k == j)) [
  | inl p ↦ absurd (let q = (eq_iff k j).0 p in cc)
  | inr p ↦ rw (versions-other m n k (v ∷ []) w j p) (Extends-refl (versions_of m j))
]
Effect-Extends made m n j (updated k s r v f e w own num cur) h = elim (Bool-cases (k == j)) [
  | inl p ↦ rw (← (eq_iff k j).0 p) (v ∷ [], versions-same m n k (versions_of m k ++ v ∷ []) w)
  | inr p ↦
      rw (versions-other m n k (versions_of m k ++ v ∷ []) w j p) (Extends-refl (versions_of m j))
]

pub Extends-keeps_version :
    (m n : Memory) (id : String) (i : ℕ) (v : ScenarioVersionRecord)
    → Extends (versions_of m id) (versions_of n id)
    → get_scenario_version id i m ≡ some v
    → get_scenario_version id i n ≡ some v
unfolding get_scenario_version
Extends-keeps_version m n id i v (more, e) h =
    rw e (find_where-append (λ w. eqb w.version_number i) (versions_of m id) more v h)

-- A scenario version that the store returned once is returned ever after, through any history of methods,
-- without writes in place, that does not create a scenario at the same reading of the clock.
pub apply_all-keeps_version :
    (ops : List Op) (id : String) (i : ℕ) (v : ScenarioVersionRecord) (m : Memory)
    → any (creates_scenario id) ops ≡ false
    → get_scenario_version id i m ≡ some v
    → get_scenario_version id i (apply_all ops m) ≡ some v
unfolding apply_all
apply_all-keeps_version [] id i v m c h = h
apply_all-keeps_version (op ∷ ops) id i v m c h =
    apply_all-keeps_version ops id i v (apply op m) (ground arith) (
      Extends-keeps_version m (apply op m) id i v
        (Effect-Extends _ m (apply op m) id (apply-Effect op m) (ground arith)) h)

-- The loop over the versions finds the one at the place that its number names.
find-Numbered :
    (n i j : ℕ) (vs : Versions)
    → j ≡ suc (n + i)
    → Numbered n vs
    → find_where (λ v. eqb v.version_number j) vs ≡ get_elem? vs i
find-Numbered n i j [] e h = refl
find-Numbered n zero j (v ∷ vs) e h = ground arith
find-Numbered n (suc i) j (v ∷ vs) e h = ground (arith, find-Numbered (suc n) i j vs)

-- In a sound store the version number i + 1 of a scenario is the element at index i of its versions.
pub get_scenario_version-eq-get_elem? :
    (m : Memory) (id : String) (r : ScenarioRecord) (i : ℕ)
    → Sound m
    → lookup id m.scenarios ≡ some r
    → get_scenario_version id (suc i) m ≡ get_elem? (versions_of m id) i
unfolding get_scenario_version
get_scenario_version-eq-get_elem? m id r i h q =
    find-Numbered 0 i (suc i) (versions_of m id) (omega arith) (h.scenarios id r q).numbered
