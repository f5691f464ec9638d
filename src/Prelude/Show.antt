-- ===== src/Prelude/Show.antt =====
-- Decimal printing: `strconv.Itoa` and the verb `%d`.
use Prim.Native.Char.{Char, code}
use Prim.Native.Nat.{ℕ, zero, suc, ◌/◌, ◌%◌}
use Prim.Native.String.{String, ◌++◌}
use mathlib.Core.Path.{◌≡◌, refl}
use mathlib.Core.Bool.{◌||◌}
use wreckr.Prelude.Tests.{eqb, ltb, if◌then◌else◌}
use wreckr.Prelude.Int.{ℤ, pos, negsuc}

-- The digit of a number below ten.
abbrev pub digit : ℕ → String
digit zero = "0"
digit (suc zero) = "1"
digit (suc (suc zero)) = "2"
digit (suc (suc (suc zero))) = "3"
digit (suc (suc (suc (suc zero)))) = "4"
digit (suc (suc (suc (suc (suc zero))))) = "5"
digit (suc (suc (suc (suc (suc (suc zero)))))) = "6"
digit (suc (suc (suc (suc (suc (suc (suc zero))))))) = "7"
digit (suc (suc (suc (suc (suc (suc (suc (suc zero)))))))) = "8"
digit _ = "9"

-- One round for each digit; the number itself is more fuel than it has digits.
unfoldable pub digits : ℕ → ℕ → String → String
digits zero n out = out
digits (suc f) n out =
    let rest = digits f (n / 10) (digit (n % 10) ++ out) in
    if eqb (n / 10) 0 then digit (n % 10) ++ out else rest

unfoldable pub show : ℕ → String
unfolding digits
show n = digits (suc n) n ""

unfoldable pub show_ℤ : ℤ → String
unfolding show
show_ℤ (pos n) = show n
show_ℤ (negsuc n) = "-" ++ show (suc n)

-- A digit below sixteen.
hex_digit : ℕ → String
hex_digit n =
    if ltb n 10
    then digit n
    else if eqb n 10
    then "a"
    else if eqb n 11
    then "b"
    else if eqb n 12
    then "c"
    else if eqb n 13
    then "d"
    else if eqb n 14
    then "e"
    else "f"

-- A control character.
unfoldable pub quote_control : ℕ → String
unfolding hex_digit
quote_control n =
    if eqb n 7
    then "\\a"
    else if eqb n 8
    then "\\b"
    else if eqb n 9
    then "\\t"
    else if eqb n 10
    then "\\n"
    else if eqb n 11
    then "\\v"
    else if eqb n 12
    then "\\f"
    else if eqb n 13
    then "\\r"
    else "\\x" ++ hex_digit (n / 16) ++ hex_digit (n % 16)

-- One character of the verb `%q`; those beyond ASCII are taken to print.
unfoldable pub quote_char : Char → String
unfolding quote_control
quote_char c =
    if eqb (code c) 34
    then "\\\""
    else if eqb (code c) 92
    then "\\\\"
    else if ltb (code c) 32 || eqb (code c) 127
    then quote_control (code c)
    else String.◌∷◌ c ""

unfoldable pub quote_all : String → String
unfolding quote_char
quote_all String.[] = ""
quote_all (String.◌∷◌ c s) = quote_char c ++ quote_all s

unfoldable pub quote : String → String
unfolding quote_all
quote s = "\"" ++ quote_all s ++ "\""

show_1090 : show 1090 ≡ "1090"
unfolding show
show_1090 = refl

show_minus : show_ℤ (negsuc 6) ≡ "-7"
unfolding show_ℤ
show_minus = refl

quotes : quote "a\"b" ≡ "\"a\\\"b\""
unfolding quote
quotes = refl

quotes_control : quote "\n\u{1f}" ≡ "\"\\n\\x1f\""
unfolding quote
quotes_control = refl
