-- ===== src/Runner/Counts.antt =====
-- What an invariant on the number of responses says (apps/api/internal/runner/runner.go,
-- evaluateResponseCount).
use wreckr.Prelude.{
  ℕ, suc, ◌+◌, ◌≤◌, ℤ, pos, pos_part, neg_part, ◌≡◌, refl, ◌↔◌, Bool, true, false, not, ◌&&◌, List,
  [], ◌∷◌, Option, none, some, count_where, arith, Bool-cases, inl, inr, eqb_ℤ, eqb_ℤ_iff, leb_ℤ,
  iff_trans, both_iff, sym, ap, ◌∙◌, is_nil, ◌==◌, ◌||◌, if◌then◌else◌, String,
}
use wreckr.Scenario.{Invariant}
use wreckr.Report.{ResponseRecord}
use wreckr.Runner.{bound, is_skipped, count_loop, evaluate_response_count}

-- The invariant's request and status, where it names them, are the response's.
abbrev pub has_status : Option ℤ → ℤ → Bool
has_status none status = true
has_status (some s) status = eqb_ℤ status s

abbrev pub counts : Invariant → ResponseRecord → Bool
counts inv r =
    (is_nil inv.request || r.request_name == inv.request) && has_status inv.status r.status_code

skipped_cases :
    (blank equal : Bool) (status : ℤ) (o : Option ℤ)
    → not (
        if not blank && not equal
        then true
        else elim o [ none ↦ false | some s ↦ not (eqb_ℤ status s) ])
      ≡ (blank || equal) && has_status o status
skipped_cases true equal status none = refl
skipped_cases false true status none = refl
skipped_cases false false status none = refl
skipped_cases true equal status (some s) = ground arith
skipped_cases false true status (some s) = ground arith
skipped_cases false false status (some s) = refl

is_skipped_lem : (inv : Invariant) (r : ResponseRecord) → not (is_skipped inv r) ≡ counts inv r
unfolding is_skipped
is_skipped_lem inv r =
    skipped_cases (is_nil inv.request) (r.request_name == inv.request) r.status_code inv.status

count_loop-eq-count_where :
    (inv : Invariant) (rs : List ResponseRecord) (n : ℕ)
    → count_loop inv rs n ≡ n + count_where (counts inv) rs
unfolding count_loop
count_loop-eq-count_where inv [] n = omega arith
count_loop-eq-count_where inv (r ∷ rs) n = elim (Bool-cases (is_skipped inv r)) [
  | inl q ↦
      let out : counts inv r ≡ false = sym (is_skipped_lem inv r) ∙ ap not q in
      let ih = count_loop-eq-count_where inv rs n in rw q (rw out ih)
  | inr q ↦
      let counted : counts inv r ≡ true = sym (is_skipped_lem inv r) ∙ ap not q in
      let ih = count_loop-eq-count_where inv rs (suc n) in rw q (rw counted (omega (arith, ih)))
]

abbrev pub MeetsEquals : Option ℤ → ℕ → Type 0
MeetsEquals none n = Unit
MeetsEquals (some e) n = pos n ≡ e

abbrev pub MeetsMin : Option ℤ → ℕ → Type 0
MeetsMin none n = Unit
MeetsMin (some e) n = pos_part e ≤ n + neg_part e

abbrev pub MeetsMax : Option ℤ → ℕ → Type 0
MeetsMax none n = Unit
MeetsMax (some e) n = n + neg_part e ≤ pos_part e

and_iff : (a b : Bool) → (a && b ≡ true) ↔ ((a ≡ true) × (b ≡ true))
and_iff true b = (λ h. (refl, h), λ h. h.1)
and_iff false b = (λ h. cc, λ h. cc)

module _ (n : ℕ) (text : ℤ → String) where
  equals_iff : (o : Option ℤ) → ((bound (λ e. eqb_ℤ (pos n) e) text o).0 ≡ true) ↔ MeetsEquals o n
  equals_iff none = (λ h. tt, λ h. refl)
  equals_iff (some e) = eqb_ℤ_iff (pos n) e

  min_iff : (o : Option ℤ) → ((bound (λ e. leb_ℤ e (pos n)) text o).0 ≡ true) ↔ MeetsMin o n
  min_iff none = (λ h. tt, λ h. refl)
  min_iff (some e) = (λ h. ground arith, λ h. ground arith)

  max_iff : (o : Option ℤ) → ((bound (λ e. leb_ℤ (pos n) e) text o).0 ≡ true) ↔ MeetsMax o n
  max_iff none = (λ h. tt, λ h. refl)
  max_iff (some e) = (λ h. ground arith, λ h. ground arith)

-- The invariant passes exactly when the number of responses that have its request and its status, where
-- it names them, is the one it asks for and within the bounds that it sets.
pub evaluate_response_count_iff :
    (inv : Invariant) (rs : List ResponseRecord)
    → let n = count_where (counts inv) rs in
      ((evaluate_response_count inv rs).passed ≡ true)
      ↔ (MeetsEquals inv.equals n × MeetsMin inv.min n × MeetsMax inv.max n)
unfolding evaluate_response_count
evaluate_response_count_iff inv rs =
    let total : count_loop inv rs 0 ≡ count_where (counts inv) rs =
      omega (arith, count_loop-eq-count_where inv rs 0) in
    rw total (
      iff_trans (and_iff _ _) (
        iff_trans (both_iff (and_iff _ _) (max_iff _ _ inv.max)) (
          iff_trans
            (both_iff (both_iff (equals_iff _ _ inv.equals) (min_iff _ _ inv.min)) (λ h. h, λ h. h))
            (λ h. (h.0.0, h.0.1, h.1), λ h. ((h.0, h.1), h.2)))))
