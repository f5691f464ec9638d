-- ===== src/K6/Thresholds/Tracked.antt =====
-- The statuses that a k6 script counts (apps/api/internal/k6script/compiler.go, statusCodesToTrack).
use wreckr.Prelude.{
  ℕ, ℤ, ◌≡◌, refl, ap, subst, ◌∙◌, Bool, true, false, ◌||◌, List, [], ◌∷◌, ◌++◌, any, any-append,
  count_where, eqb_ℤ, eqb_ℤ_iff, arith, Bool-cases, inl, inr, if◌then◌else◌,
}
use wreckr.Runner.Traffic.Counted.{count_where-append}
use wreckr.K6.Thresholds.{common_codes, add_codes, status_codes_to_track}

-- Whether a code is one of a list, and how often.
abbrev pub lists : List ℤ → ℤ → Bool
lists codes x = any (λ existing. eqb_ℤ existing x) codes

abbrev pub times_listed : List ℤ → ℤ → ℕ
times_listed codes x = count_where (λ existing. eqb_ℤ existing x) codes

abbrev pub once_if : Bool → ℕ
once_if b = if b then 1 else 0

-- The list after one code.
abbrev added : Bool → ℤ → List ℤ → List ℤ
added known c codes = if known then codes else codes ++ c ∷ []

lists-added :
    (c x : ℤ) (codes : List ℤ) (b : Bool)
    → lists codes c ≡ b
    → lists (added b c codes) x ≡ lists codes x || eqb_ℤ c x
lists-added c x codes true h = elim (Bool-cases (eqb_ℤ c x)) [
  | inl q ↦
      let here : lists codes x ≡ true =
        subst (λ (y : ℤ). lists codes y ≡ true) ((eqb_ℤ_iff c x).0 q) h in
      ground (arith, here)
  | inr q ↦ ground (arith, q)
]
lists-added c x codes false h =
    let both = any-append (λ (e : ℤ). eqb_ℤ e x) codes (c ∷ []) in ground (arith, both)

times_listed-added :
    (c x : ℤ) (codes : List ℤ) (b : Bool)
    → lists codes c ≡ b
    → times_listed codes x ≡ once_if (lists codes x)
    → times_listed (added b c codes) x ≡ once_if (lists (added b c codes) x)
times_listed-added c x codes true h e = e
times_listed-added c x codes false h e =
    let both = any-append (λ (e : ℤ). eqb_ℤ e x) codes (c ∷ []) in
    let count = count_where-append (λ (e : ℤ). eqb_ℤ e x) codes (c ∷ []) in
    elim (Bool-cases (eqb_ℤ c x)) [
      | inl q ↦
          let absent : lists codes x ≡ false =
            subst (λ (y : ℤ). lists codes y ≡ false) ((eqb_ℤ_iff c x).0 q) h in
          ground (arith, both, count, absent)
      | inr q ↦ ground (arith, both, count, q)
    ]

add_codes_lem :
    (cs codes : List ℤ) (x : ℤ)
    → times_listed codes x ≡ once_if (lists codes x)
    → (lists (add_codes cs codes) x ≡ lists codes x || lists cs x)
      × (times_listed (add_codes cs codes) x ≡ once_if (lists (add_codes cs codes) x))
unfolding add_codes
add_codes_lem [] codes x h = (ground arith, h)
add_codes_lem (c ∷ cs) codes x h =
    let next = added (lists codes c) c codes in
    let more = lists-added c x codes (lists codes c) refl in
    let (there, once) =
      add_codes_lem cs next x (times_listed-added c x codes (lists codes c) refl h) in
    (ground (arith, there, more), once)

-- The codes that every script counts are told apart.
common_lem : (x : ℤ) → times_listed common_codes x ≡ once_if (lists common_codes x)
unfolding add_codes
common_lem x = (add_codes_lem common_codes [] x refl).1

-- A script counts a status of a request once if it is one of the thirteen common ones or one that the
-- request expects, however often it is listed, and does not count it otherwise.
pub status_codes_to_track_lem :
    (expected : List ℤ) (x : ℤ)
    → times_listed (status_codes_to_track expected) x
      ≡ once_if (lists common_codes x || lists expected x)
unfolding status_codes_to_track
status_codes_to_track_lem expected x =
    let (there, once) = add_codes_lem expected common_codes x (common_lem x) in
    once ∙ ap once_if there
