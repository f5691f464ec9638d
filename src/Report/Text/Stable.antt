-- ===== src/Report/Text/Stable.antt =====
-- The text of a report whatever the order of the loop over its map
-- (apps/api/internal/report/report.go, Text and formatStatusCodes).
use wreckr.Prelude.{
  ℕ, String, ◌≡◌, refl, ap, ◌∙◌, [], ◌∷◌, Dict, join, map, Reordered, sort_entries-Reordered,
  sort_entries, insert_entry, text_before, Bool-cases, inl, inr, sym,
}
use wreckr.Report.{Report}
use wreckr.Report.Build.{FloatOps}
use wreckr.Report.Text.{format_status_codes, code_count, text}

-- The text of a list of entries that is sorted, and not empty if the map is not.
listed : Dict ℕ → String
listed [] = "none"
listed (entry ∷ rest) = join ", " (map code_count (entry ∷ rest))

insert_listed :
    (x : String × ℕ) (l : Dict ℕ)
    → listed (insert_entry x l) ≡ join ", " (map code_count (insert_entry x l))
unfolding listed insert_entry
insert_listed x [] = refl
insert_listed x (z ∷ rest) = elim (Bool-cases (text_before x.0 z.0)) [
  | inl q ↦ rw q refl
  | inr q ↦ rw q refl
]

format_listed : (codes : Dict ℕ) → format_status_codes codes ≡ listed (sort_entries codes)
unfolding format_status_codes listed sort_entries
format_listed [] = refl
format_listed (x ∷ xs) = sym (insert_listed x (sort_entries xs))

-- The text of a report does not depend on the order in which the loop over its status codes meets them.
pub text-Reordered :
    (f : FloatOps) (r : Report) (codes : Dict ℕ)
    → Reordered r.summary.status_codes codes
    → text f r ≡ text f (record r { summary = record r.summary { status_codes = codes } })
unfolding text
text-Reordered f r codes h =
    let sorted = sort_entries-Reordered r.summary.status_codes codes h in
    let formatted =
      format_listed r.summary.status_codes ∙ ap listed sorted ∙ sym (format_listed codes) in
    rw formatted refl
