-- ===== src/Prelude/Maps.antt =====
-- Go's maps with string keys, as association lists with one entry for each key. The order of the
-- entries stands for the order in which a `range` loop meets them, which Go leaves open.
use Prim.Native.String.{String}
use mathlib.Core.Path.{◌≡◌}
use mathlib.Core.Bool.{true, false}
use mathlib.Core.List.{List, [], ◌∷◌}
use mathlib.Core.Option.{Option, none, some}
use native.Mathlib.Omega.{arith}
use text.Mathlib.Text.{◌==◌}
use text.Mathlib.TextEquality.{eq_iff}
use wreckr.Prelude.Tests.{if◌then◌else◌}

abbrev pub Dict {ℓ} : Type ℓ → Type ℓ
Dict V = List (String × V)

module _ {ℓ} {V : Type ℓ} where
  -- v, ok := m[key]
  unfoldable pub lookup : String → Dict V → Option V
  lookup key [] = none
  lookup key (entry ∷ rest) = elim (entry.0 == key) [
    | true ↦ some entry.1
    | false ↦ lookup key rest
  ]

  -- m[key] = value
  unfoldable pub insert : String → V → Dict V → Dict V
  insert key value [] = (key, value) ∷ []
  insert key value (entry ∷ rest) = elim (entry.0 == key) [
    | true ↦ (key, value) ∷ rest
    | false ↦ entry ∷ insert key value rest
  ]

  -- delete(m, key)
  unfoldable pub erase : String → Dict V → Dict V
  erase key [] = []
  erase key (entry ∷ rest) = elim (entry.0 == key) [
    | true ↦ erase key rest
    | false ↦ entry ∷ erase key rest
  ]

  -- The values in the order of a `range` loop.
  unfoldable pub values : Dict V → List V
  values [] = []
  values (entry ∷ rest) = entry.1 ∷ values rest

  pub lookup-erase :
      (gone asked : String) (d : Dict V)
      → lookup asked (erase gone d) ≡ (if gone == asked then none else lookup asked d)
  unfolding lookup erase
  lookup-erase gone asked [] = ground arith
  lookup-erase gone asked (entry ∷ rest) =
      let ih = lookup-erase gone asked rest in
      ground (arith, ih, eq_iff entry.0 asked, eq_iff gone asked, eq_iff entry.0 gone)

  pub lookup-insert :
      (set asked : String) (new : V) (d : Dict V)
      → lookup asked (insert set new d) ≡ (if set == asked then some new else lookup asked d)
  unfolding lookup insert
  lookup-insert set asked new [] = ground arith
  lookup-insert set asked new (entry ∷ rest) =
      let ih = lookup-insert set asked new rest in
      ground (arith, ih, eq_iff entry.0 set, eq_iff entry.0 asked, eq_iff set asked)
