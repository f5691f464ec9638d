-- ===== src/Http/Prepare/Merged.antt =====
-- The headers of a scenario on a target (apps/api/internal/httpapi/server.go, mergeHeaders).
use wreckr.Prelude.{
  or_else-none, or_else, String, eq_iff, ◌≡◌, refl, ap, ◌∙◌, [], ◌∷◌, none, arith, Dict, lookup,
  insert, lookup-insert,
}
use wreckr.Scenario.{Headers}
use wreckr.Http.Prepare.{entries, copy_into, merge_headers}

-- A map has one entry for a key.
abbrev pub Distinct : Dict String → Type 0
Distinct [] = Unit
Distinct (entry ∷ rest) = (lookup entry.0 rest ≡ none) × Distinct rest

lookup-copy_into :
    (k : String) (h merged : Dict String)
    → Distinct h
    → lookup k (copy_into h merged) ≡ or_else (lookup k h) (lookup k merged)
unfolding copy_into lookup
lookup-copy_into k [] merged d = refl
lookup-copy_into k ((j, v) ∷ h) merged d =
    let ih = lookup-copy_into k h (insert j v merged) d.1 in
    let put = lookup-insert j k v merged in
    let one = d.0 in ground (arith, ih, put, one, eq_iff j k)

-- After the merge a header is the scenario's, or the target's where the scenario has none.
pub lookup-merge_headers :
    (k : String) (target_headers scenario_headers : Headers)
    → Distinct (entries target_headers)
    → Distinct (entries scenario_headers)
    → lookup k (entries (merge_headers target_headers scenario_headers))
      ≡ or_else (lookup k (entries scenario_headers)) (lookup k (entries target_headers))
unfolding merge_headers lookup
lookup-merge_headers k t s dt ds =
    lookup-copy_into k (entries s) (copy_into (entries t) []) ds
    ∙ ap (or_else (lookup k (entries s)))
        (lookup-copy_into k (entries t) [] dt ∙ or_else-none (lookup k (entries t)))
