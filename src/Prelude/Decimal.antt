-- ===== src/Prelude/Decimal.antt =====
-- strconv.Atoi reads what strconv.Itoa writes.
use Prim.Native.Char.{Char}
use Prim.Native.Nat.{ℕ, zero, suc, ◌+◌, ◌*◌, ◌/◌, ◌%◌, ◌<◌}
use Prim.Native.String.{String, ◌++◌}
use mathlib.Core.Path.{◌≡◌, refl, ap, ◌∙◌}
use mathlib.Core.Bool.{false}
use mathlib.Core.Logic.{inl, inr}
use mathlib.Core.Option.{some}
use native.Mathlib.Omega.{arith}
use text.Mathlib.TextLemmas.{cons-append, nil-append}
use wreckr.Prelude.Tests.{eqb, eqb_iff, Bool-cases}
use wreckr.Prelude.Int.{pos}
use wreckr.Prelude.Show.{digit, digits, show}
use wreckr.Prelude.Text.{is_nil}
use wreckr.Prelude.Split.{scan, int_limit, atoi}

one_char : (c : Char) (out : String) → String.◌∷◌ c "" ++ out ≡ String.◌∷◌ c out
one_char c out = cons-append c "" out ∙ ap (String.◌∷◌ c) (nil-append out)

scan-digit :
    (m : ℕ) (out : String) (k : ℕ) → m < 10 → scan (digit m ++ out) k ≡ scan out (k * 10 + m)
unfolding scan
scan-digit zero out k h = rw (one_char "0" out) refl
scan-digit (suc zero) out k h = rw (one_char "1" out) refl
scan-digit (suc (suc zero)) out k h = rw (one_char "2" out) refl
scan-digit (suc (suc (suc zero))) out k h = rw (one_char "3" out) refl
scan-digit (suc (suc (suc (suc zero)))) out k h = rw (one_char "4" out) refl
scan-digit (suc (suc (suc (suc (suc zero))))) out k h = rw (one_char "5" out) refl
scan-digit (suc (suc (suc (suc (suc (suc zero)))))) out k h = rw (one_char "6" out) refl
scan-digit (suc (suc (suc (suc (suc (suc (suc zero))))))) out k h = rw (one_char "7" out) refl
scan-digit (suc (suc (suc (suc (suc (suc (suc (suc zero)))))))) out k h = rw (one_char "8" out) refl
scan-digit (suc (suc (suc (suc (suc (suc (suc (suc (suc zero))))))))) out k h =
    rw (one_char "9" out) refl
scan-digit (suc (suc (suc (suc (suc (suc (suc (suc (suc (suc n)))))))))) out k h =
    absurd (omega arith)

-- Reading the digits of a number goes on behind it.
scan-digits : (f n : ℕ) (out : String) → n < f → scan (digits f n out) 0 ≡ scan out n
unfolding digits
scan-digits zero n out h = absurd (omega arith)
scan-digits (suc f) n out h = elim (Bool-cases (eqb (n / 10) 0)) [
  | inl q ↦
      let last : n / 10 ≡ 0 = (eqb_iff _ _).0 q in
      let whole : 0 * 10 + n % 10 ≡ n = omega (arith, last) in
      rw q (scan-digit (n % 10) out 0 (omega arith) ∙ ap (scan out) whole)
  | inr q ↦
      let smaller : n / 10 < f = ground (arith, q) in
      let whole : n / 10 * 10 + n % 10 ≡ n = omega arith in
      rw q (
        scan-digits f (n / 10) (digit (n % 10) ++ out) smaller
        ∙ scan-digit (n % 10) out (n / 10) (omega arith)
        ∙ ap (scan out) whole)
]

pub scan-show : (n : ℕ) → scan (show n) 0 ≡ some n
unfolding show scan
scan-show n = scan-digits (suc n) n "" (omega arith)

-- A text that is not empty and reads as a number.
atoi_of_scan :
    (s : String) (n : ℕ)
    → is_nil s ≡ false
    → scan s 0 ≡ some n
    → n < int_limit
    → atoi s ≡ some (pos n)
unfolding atoi scan is_nil
atoi_of_scan String.[] n h e k = cc
atoi_of_scan (String.◌∷◌ c s) n h e k = ground arith

read_nonempty : (s : String) (n : ℕ) → scan s 0 ≡ some (suc n) → is_nil s ≡ false
unfolding scan is_nil
read_nonempty String.[] n e = ground arith
read_nonempty (String.◌∷◌ c s) n e = refl

pub show_nonempty : (n : ℕ) → is_nil (show n) ≡ false
show_nonempty zero = unfold show is_nil in refl
show_nonempty (suc n) = read_nonempty (show (suc n)) n (scan-show (suc n))

pub atoi-show : (n : ℕ) → n < int_limit → atoi (show n) ≡ some (pos n)
atoi-show n h = atoi_of_scan (show n) n (show_nonempty n) (scan-show n) h
