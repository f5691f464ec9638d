-- ===== src/Runner/Limiter.antt =====
-- The request limiter (apps/api/internal/runner/runner.go, newRequestLimiter and requestLimiter.wait).
use native.Mathlib.Nat.{lt-div-mul-add, div-mul-le_self}
use wreckr.Prelude.{
  subst, inr, eqb_iff, inl, Bool-cases, ◌⊎◌, ℕ, ◌+◌, ◌*◌, ◌/◌, ◌≤◌, ◌<◌, ℤ, pos, negsuc, ◌≡◌, refl,
  Bool, true, false, not, Option, none, some, arith, eqb, if◌then◌else◌,
}

abbrev pub second : ℕ
second = 1000000000

-- What the interval is for a unit of time, here in nanoseconds, and a rate for it.
unfoldable pub interval_of : ℕ → ℕ → ℕ
interval_of unit n = let interval = unit / n in if eqb interval 0 then 1 else interval

-- The nanoseconds between two ticks, or no ticker.
unfoldable pub new_request_limiter : ℤ → Option ℕ
new_request_limiter (negsuc n) = none
new_request_limiter (pos n) = if eqb n 0 then none else some (interval_of second n)

-- Whether wait returns, and what, where `ticked` says that a tick is there; with a tick and a context
-- that is done either case of the select may be taken, so `ticked` also says which.
unfoldable pub wait : Option ℕ → Bool → Bool → Option Bool
wait none ticked canceled = some (not canceled)
wait (some interval) true canceled = some true
wait (some interval) false true = some false
wait (some interval) false false = none

interval_bounds :
    (unit n : ℕ)
    → 0 < n
    → ((interval_of unit n * n ≤ unit) ⊎ ((interval_of unit n ≡ 1) × (unit < n)))
      × (unit < (interval_of unit n + 1) * n)
unfolding interval_of
interval_bounds unit n h = elim (Bool-cases (eqb (unit / n) 0)) [
  | inl q ↦
      let none_whole : unit / n ≡ 0 = (eqb_iff _ _).0 q in
      let small : unit < unit / n * n + n = lt-div-mul-add h in
      let below = subst (λ (d : ℕ). unit < d * n + n) none_whole small in
      rw q (inr (refl, omega arith), omega arith)
  | inr q ↦
      let small : unit < unit / n * n + n = lt-div-mul-add h in
      let whole : unit / n * n ≤ unit = div-mul-le_self unit n in rw q (inl whole, grind arith)
]

-- A positive rate has a limiter. It ticks no less often than the rate asks for, or once in a nanosecond
-- where the rate is higher than that, and a nanosecond more between two ticks would be too much.
pub new_request_limiter_bounds :
    (n : ℕ)
    → 0 < n
    → (i : ℕ) × (new_request_limiter (pos n) ≡ some i)
      × ((i * n ≤ second) ⊎ ((i ≡ 1) × (second < n)))
      × (second < (i + 1) * n)
unfolding new_request_limiter
new_request_limiter_bounds n h =
    let positive : eqb n 0 ≡ false = ground arith in
    let bounds = interval_bounds second n h in
    (interval_of second n, rw positive refl, bounds.0, bounds.1)
