-- ===== src/Prelude/Text.antt =====
-- Go's package strings on texts, one character at a time. A Go string that is no UTF-8 text has no
-- counterpart here.
use Prim.Native.Char.{Char, code}
use Prim.Native.Nat.{ℕ, ◌+◌}
use Prim.Native.String.{String, ◌++◌}
use mathlib.Core.Path.{◌≡◌, refl}
use mathlib.Core.Bool.{Bool, true, false, ◌||◌, ◌&&◌}
use mathlib.Core.List.{List, [], ◌∷◌}
use text.Mathlib.TextLemmas.{cons-append}
use wreckr.Prelude.Tests.{eqb, leb, ltb, if◌then◌else◌}

-- unicode.IsSpace
unfoldable pub is_space : ℕ → Bool
is_space c =
    leb 9 c && leb c 13
    || eqb c 32
    || eqb c 0x85
    || eqb c 0xa0
    || eqb c 0x1680
    || leb 0x2000 c && leb c 0x200a
    || eqb c 0x2028
    || eqb c 0x2029
    || eqb c 0x202f
    || eqb c 0x205f
    || eqb c 0x3000

unfoldable pub is_nil : String → Bool
is_nil String.[] = true
is_nil (String.◌∷◌ c s) = false

pub is_nil-append : (s t : String) → is_nil s ≡ false → is_nil (s ++ t) ≡ false
unfolding is_nil
is_nil-append String.[] t h = cc
is_nil-append (String.◌∷◌ c s) t h = rw (cons-append c s t) refl

-- The bytes of a character in UTF-8, and of a text, which Go's len counts.
size_char : ℕ → ℕ
size_char c = if ltb c 0x80 then 1 else if ltb c 0x800 then 2 else if ltb c 0x10000 then 3 else 4

unfoldable pub size_text : String → ℕ
unfolding size_char
size_text String.[] = 0
size_text (String.◌∷◌ c s) = size_char (code c) + size_text s

trim_left : String → String
unfolding is_space
trim_left String.[] = ""
trim_left (String.◌∷◌ c s) =
    let rest = trim_left s in if is_space (code c) then rest else String.◌∷◌ c s

trim_right : String → String
unfolding is_space is_nil
trim_right String.[] = ""
trim_right (String.◌∷◌ c s) =
    let rest = trim_right s in if is_nil rest && is_space (code c) then "" else String.◌∷◌ c rest

unfoldable pub trim_space : String → String
unfolding trim_left trim_right
trim_space s = trim_right (trim_left s)

-- strings.Join
unfoldable pub join : String → List String → String
join sep [] = ""
join sep (x ∷ []) = x
join sep (x ∷ y ∷ xs) = x ++ sep ++ join sep (y ∷ xs)

-- strings.HasPrefix and strings.TrimPrefix
unfoldable pub has_prefix : String → String → Bool
has_prefix s String.[] = true
has_prefix String.[] (String.◌∷◌ d t) = false
has_prefix (String.◌∷◌ c s) (String.◌∷◌ d t) =
    let rest = has_prefix s t in eqb (code c) (code d) && rest

unfoldable pub drop_prefix : String → String → String
drop_prefix s String.[] = s
drop_prefix String.[] (String.◌∷◌ d t) = ""
drop_prefix (String.◌∷◌ c s) (String.◌∷◌ d t) = drop_prefix s t

unfoldable pub trim_prefix : String → String → String
unfolding has_prefix drop_prefix
trim_prefix s t = if has_prefix s t then drop_prefix s t else s

-- strings.Contains
unfoldable pub contains : String → String → Bool
unfolding has_prefix
contains String.[] t = has_prefix "" t
contains (String.◌∷◌ c s) t =
    let rest = contains s t in if has_prefix (String.◌∷◌ c s) t then true else rest

reverse_onto : String → String → String
reverse_onto String.[] out = out
reverse_onto (String.◌∷◌ c s) out = reverse_onto s (String.◌∷◌ c out)

-- strings.HasSuffix and strings.TrimSuffix
unfoldable pub has_suffix : String → String → Bool
unfolding has_prefix reverse_onto
has_suffix s t = has_prefix (reverse_onto s "") (reverse_onto t "")

unfoldable pub trim_suffix : String → String → String
unfolding has_suffix trim_prefix
trim_suffix s t =
    if has_suffix s t
    then reverse_onto (drop_prefix (reverse_onto s "") (reverse_onto t "")) ""
    else s

-- Whether a text holds one of a list of characters, strings.ContainsAny.
any_code : ℕ → String → Bool
any_code c String.[] = false
any_code c (String.◌∷◌ d t) = let rest = any_code c t in eqb c (code d) || rest

unfoldable pub contains_any : String → String → Bool
unfolding any_code
contains_any String.[] chars = false
contains_any (String.◌∷◌ c s) chars =
    let rest = contains_any s chars in any_code (code c) chars || rest

-- The character at the same place in the second text.
unfoldable pub translate : String → String → Char → Char
translate (String.◌∷◌ f fs) (String.◌∷◌ t ts) c =
    let rest = translate fs ts c in if eqb (code c) (code f) then t else rest
translate _ _ c = c

abbrev pub lower_letters : String
lower_letters = "abcdefghijklmnopqrstuvwxyz"

abbrev pub upper_letters : String
upper_letters = "ABCDEFGHIJKLMNOPQRSTUVWXYZ"

trims : trim_space " \ta b\n" ≡ "a b"
unfolding trim_space
trims = refl

suffixes : trim_suffix "host/" "/" ≡ "host"
unfolding trim_suffix
suffixes = refl
