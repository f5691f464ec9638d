-- ===== src/Prelude/Split.antt =====
-- strings.Split and strings.Index with a separator of one character, and strconv.Atoi.
use Prim.Native.Char.{Char, code}
use Prim.Native.Nat.{ℕ, zero, suc, ◌+◌, ◌-◌, ◌*◌, ◌^◌}
use Prim.Native.String.{String}
use mathlib.Core.Path.{◌≡◌, refl}
use mathlib.Core.Bool.{◌&&◌}
use mathlib.Core.List.{List, [], ◌∷◌}
use mathlib.Core.Option.{Option, none, some}
use wreckr.Prelude.Tests.{eqb, leb, ltb, if◌then◌else◌}
use wreckr.Prelude.Int.{ℤ, pos, negsuc}

-- The character before the first piece.
abbrev before_first : Char → List String → List String
before_first c [] = String.◌∷◌ c "" ∷ []
before_first c (piece ∷ pieces) = String.◌∷◌ c piece ∷ pieces

unfoldable pub split : ℕ → String → List String
split sep String.[] = "" ∷ []
split sep (String.◌∷◌ c s) =
    let rest = split sep s in if eqb (code c) sep then "" ∷ rest else before_first c rest

-- The text before the first occurrence of a character, and the text from it on.
unfoldable pub cut : ℕ → String → String × String
cut sep String.[] = ("", "")
cut sep (String.◌∷◌ c s) =
    let (before, after) = cut sep s in
    if eqb (code c) sep then ("", String.◌∷◌ c s) else (String.◌∷◌ c before, after)

-- The digits of a number after those read.
unfoldable pub scan : String → ℕ → Option ℕ
scan String.[] n = some n
scan (String.◌∷◌ c s) n =
    let rest = scan s (n * 10 + (code c - 48)) in
    if leb 48 (code c) && leb (code c) 57 then rest else none

unfoldable pub scan_digits : String → Option ℕ
unfolding scan
scan_digits String.[] = none
scan_digits (String.◌∷◌ c s) = scan (String.◌∷◌ c s) 0

-- An int has 64 bits.
abbrev pub int_limit : ℕ
int_limit = 2 ^ 63

abbrev negate : ℕ → ℤ
negate zero = pos 0
negate (suc n) = negsuc n

unfoldable pub in_range_pos : Option ℕ → Option ℤ
in_range_pos none = none
in_range_pos (some n) = if ltb n int_limit then some (pos n) else none

unfoldable pub in_range_neg : Option ℕ → Option ℤ
in_range_neg none = none
in_range_neg (some n) = if leb n int_limit then some (negate n) else none

unfoldable pub atoi : String → Option ℤ
unfolding in_range_pos in_range_neg scan_digits
atoi String.[] = none
atoi (String.◌∷◌ c s) =
    if eqb (code c) 45
    then in_range_neg (scan_digits s)
    else if eqb (code c) 43
    then in_range_pos (scan_digits s)
    else in_range_pos (scan_digits (String.◌∷◌ c s))

splits : split 46 "a.b." ≡ "a" ∷ "b" ∷ "" ∷ []
unfolding split
splits = refl

cuts : cut 91 "a[0][1]" ≡ ("a", "[0][1]")
unfolding cut
cuts = refl

reads : (atoi "-12" ≡ some (negsuc 11)) × (atoi "+007" ≡ some (pos 7)) × (atoi "1_0" ≡ none)
unfolding atoi
reads = (refl, refl, refl)

overflows : atoi "9223372036854775808" ≡ none
unfolding atoi
overflows = refl
