-- ===== src/Prelude/Word.antt =====
-- The arithmetic of Go's `int` and `int64`, of 64 bits, where it may wrap around.
use Prim.Native.Nat.{ℕ, suc, ◌-◌, ◌*◌, ◌%◌, ◌^◌, ◌<◌}
use mathlib.Core.Path.{◌≡◌, refl, ap}
use mathlib.Core.Bool.{true, false}
use native.Mathlib.Omega.{arith}
use wreckr.Prelude.Tests.{ltb, eqb, if◌then◌else◌}
use wreckr.Prelude.Int.{ℤ, pos, negsuc, pos_part, ltb_ℤ}
use wreckr.Prelude.Split.{int_limit}

-- The 64 bits of a number, read as an int.
unfoldable pub signed : ℕ → ℤ
signed m = if ltb m int_limit then pos m else negsuc (2 ^ 64 - 1 - m)

unfoldable pub wrap : ℤ → ℤ
unfolding signed
wrap (pos n) = signed (n % 2 ^ 64)
wrap (negsuc n) = signed (2 ^ 64 - 1 - n % 2 ^ 64)

-- The product of two numbers of type int.
unfoldable pub times : ℤ → ℤ → ℤ
unfolding wrap
times (pos m) (pos n) = wrap (pos (m * n))
times (pos m) (negsuc n) = wrap (if eqb m 0 then pos 0 else negsuc (m * suc n - 1))
times (negsuc m) (pos n) = wrap (if eqb n 0 then pos 0 else negsuc (suc m * n - 1))
times (negsuc m) (negsuc n) = wrap (pos (suc m * suc n))

signed_small : (n : ℕ) → n < int_limit → signed (n % 2 ^ 64) ≡ pos n
unfolding signed
signed_small n h =
    let same : n % 2 ^ 64 ≡ n = omega (arith, h) in
    let small : ltb n int_limit ≡ true = ground (arith, h) in rw same (rw small refl)

pub times_small : (m n : ℕ) → m * n < int_limit → times (pos m) (pos n) ≡ pos (m * n)
unfolding times wrap
times_small m n h = signed_small (m * n) h

pub times_pos :
    (a b : ℤ)
    → ltb_ℤ a (pos 1) ≡ false
    → ltb_ℤ b (pos 1) ≡ false
    → pos_part a * pos_part b < int_limit
    → pos_part (times a b) ≡ pos_part a * pos_part b
unfolding times
times_pos (pos m) (pos n) h k small = ap pos_part (times_small m n small)
times_pos (pos m) (negsuc n) h k small = absurd (ground arith)
times_pos (negsuc m) b h k small = absurd (ground arith)
