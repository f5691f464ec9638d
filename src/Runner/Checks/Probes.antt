-- ===== src/Runner/Checks/Probes.antt =====
-- What a probe says (apps/api/internal/runner/runner.go, evaluateHTTPProbe).
use wreckr.Prelude.{
  ℕ, zero, suc, ◌≤◌, ℤ, pos, String, ◌≡◌, refl, sym, ap, ◌∙◌, Bool, false, not, ◌&&◌, List, [], ◌∷◌,
  ◌++◌, Option, none, some, length, length-append, is_some, ltb, ltb_ℤ, arith,
}
use wreckr.Platform.{Platform, Result, ok, err}
use wreckr.Value.{Json}
use wreckr.Scenario.{Scenario, Invariant}
use wreckr.Scenario.JsonPath.{lookup_json_path}
use wreckr.Report.Build.{FloatOps}
use wreckr.Runner.Send.{HttpResponse, Net, take, read_limited}
use wreckr.Runner.Checks.{values_equal, Visit, probe_request, judge_body, judge_answer}

take-append {ℓ} :
    {A : Type ℓ} (n : ℕ) (xs ys : List A) → length xs ≡ n → take n (xs ++ ys) ≡ take n xs
unfolding take
take-append zero xs ys h = refl
take-append (suc n) [] ys h = absurd (omega arith)
take-append (suc n) (x ∷ xs) ys h = ap (λ l. x ∷ l) (take-append n xs ys (omega arith))

-- A body with as many bytes as are read has no error in them.
read_long :
    (n : ℕ) (r : HttpResponse) → n ≤ length r.body → read_limited n r ≡ (take n r.body, none)
unfolding read_limited
read_long n r h = let q : ltb (length r.body) n ≡ false = ground arith in rw q refl

module _ (f : FloatOps) (net : Net) where
  -- The value at the path is there and equals the one that is expected.
  abbrev pub good_value : Invariant → Result (Option Json) → Bool
  good_value inv (err e) = false
  good_value inv (ok none) = false
  good_value inv (ok (some got)) = values_equal f got inv.expect_equals

  abbrev pub good_body : Invariant → List ℕ → Bool
  good_body inv raw =
      good_value inv (lookup_json_path f.of_nat (net.decode raw) inv.expect_json_path)

  -- The body was read, the status is below 400, and the first 4097 bytes of the body are a document with
  -- the value.
  abbrev pub good_visit : Invariant → Result HttpResponse → Bool
  good_visit inv (err e) = false
  good_visit inv (ok r) =
      let (raw, failure) = read_limited 4097 r in
      not (is_some failure) && ltb_ℤ r.status_code (pos 400) && good_body inv raw

  abbrev pub unless : Option String → Bool → Bool
  unless none b = b
  unless (some e) b = false

  abbrev pub good_url : (String → Bool) → Result String → Bool
  good_url made (err e) = false
  good_url made (ok url) = made url

  module _ (p : Platform) (run_id : String) (sc : Scenario) (inv : Invariant) (v : Visit) where
    abbrev pub good_made : String → Bool
    good_made url =
        unless (net.refused inv.method url)
          (unless v.stopped (good_visit inv (v.answer (probe_request f net run_id sc inv url))))

  -- Of a body that is longer than 4097 bytes a probe takes the first of these for the document: what
  -- follows, or an error in reading it, changes nothing in its result.
  pub judge_answer_cut :
      (inv : Invariant) (status : ℤ) (first more : List ℕ) (failure : Option String)
      → length first ≡ 4097
      → judge_answer f net inv
          (ok (record { status_code = status; body = first ++ more; failure = failure }))
        ≡ judge_answer f net inv
            (ok (record { status_code = status; body = first; failure = none }))
  unfolding judge_answer
  judge_answer_cut inv status first more failure h =
      let size = length-append first more in
      let long : 4097 ≤ length (first ++ more) = omega (arith, size) in
      ap (judge_body f net inv status) (
        read_long 4097 _ long
        ∙ ap (λ (l : List ℕ). (l, none)) (take-append 4097 first more h)
        ∙ sym (
            read_long 4097 (record { status_code = status; body = first; failure = none })
              (omega arith)))
