-- ===== src/Prelude/Order.antt =====
-- The order of texts, and Go's sort.Strings on the keys of a map.
pub mod Swaps
use Prim.Native.Char.{code}
use Prim.Native.String.{String}
use mathlib.Core.Bool.{Bool, true, false}
use mathlib.Core.List.{List, [], ◌∷◌}
use wreckr.Prelude.Tests.{eqb, ltb, if◌then◌else◌}

-- Whether a text stands before another by its characters, which is the order of their bytes in UTF-8.
unfoldable pub text_before : String → String → Bool
text_before String.[] String.[] = false
text_before String.[] (String.◌∷◌ d t) = true
text_before (String.◌∷◌ c s) String.[] = false
text_before (String.◌∷◌ c s) (String.◌∷◌ d t) =
    let rest = text_before s t in if eqb (code c) (code d) then rest else ltb (code c) (code d)

module _ {ℓ} {V : Type ℓ} where
  unfoldable pub insert_entry : String × V → List (String × V) → List (String × V)
  unfolding text_before
  insert_entry entry [] = entry ∷ []
  insert_entry entry (other ∷ rest) =
      let later = other ∷ insert_entry entry rest in
      if text_before entry.0 other.0 then entry ∷ other ∷ rest else later

  unfoldable pub sort_entries : List (String × V) → List (String × V)
  unfolding insert_entry
  sort_entries [] = []
  sort_entries (entry ∷ rest) = insert_entry entry (sort_entries rest)
