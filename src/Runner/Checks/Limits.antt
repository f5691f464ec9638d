-- ===== src/Runner/Checks/Limits.antt =====
-- What the thresholds and the list of invariant results say
-- (apps/api/internal/runner/runner.go, evaluateThresholds and evaluateInvariants).
use wreckr.Prelude.{
  ℕ, suc, ℤ, pos, leb_ℤ, String, ◌==◌, eq_iff, ◌≡◌, refl, ap, ◌∙◌, Bool, true, ◌&&◌, List, [], ◌∷◌,
  ◌++◌, Option, none, some, all, map, Each, Bool-cases, inl, inr, arith,
}
use mathlib.Core.List.{map-append}
use wreckr.Platform.{Platform, Result, ok, err}
use wreckr.Value.{Float64, Json}
use wreckr.Scenario.JsonPath.{lookup_json_path}
use wreckr.Scenario.{Scenario, Invariant, Thresholds}
use wreckr.Scenario.Validate.{validate}
use wreckr.Scenario.Valid.{ValidType, ValidInvariant, validate_iff}
use wreckr.Report.{ResponseRecord, CheckResult}
use wreckr.Report.Build.{FloatOps, summarize}
use wreckr.Runner.{join_url, evaluate_response_count}
use wreckr.Runner.Send.{Net, HttpRequest, HttpResponse, read_limited}
use wreckr.Runner.Checks.{
  failed_invariant, threshold, probe_request, evaluate_thresholds, Visit, judge_value, judge_body,
  judge_answer, visit, probe_made, probe_joined, evaluate_http_probe, evaluate_invariant,
  evaluate_invariants,
}

module _ (f : FloatOps) where
  -- A number is within a limit, where there is one.
  abbrev pub within : Float64 → Option Float64 → Bool
  within actual none = true
  within actual (some limit) = f.le actual limit

  threshold_lem :
      (name : String) (text : Float64 → String) (actual : Float64) (o : Option Float64) (b : Bool)
      (rest : List CheckResult)
      → all (λ c. c.passed) rest ≡ b
      → all (λ c. c.passed) (threshold f name text actual o ++ rest) ≡ within actual o && b
  unfolding threshold
  threshold_lem name text actual none b rest h = h
  threshold_lem name text actual (some limit) b rest h = ap (λ (x : Bool). f.le actual limit && x) h

  last_lem :
      (name : String) (text : Float64 → String) (actual : Float64) (o : Option Float64)
      → all (λ c. c.passed) (threshold f name text actual o) ≡ within actual o
  unfolding threshold
  last_lem name text actual none = refl
  last_lem name text actual (some limit) = ground arith

  -- The thresholds pass exactly when the error rate and the 95th percentile of the latency in the summary
  -- of the responses are within the limits that the scenario sets.
  pub evaluate_thresholds_lem :
      (t : Thresholds) (records : List ResponseRecord)
      → all (λ c. c.passed) (evaluate_thresholds f t records)
        ≡ within (summarize f records).error_rate t.max_error_rate
          && within (summarize f records).latency.p95_ms t.p95_ms
  unfolding evaluate_thresholds
  evaluate_thresholds_lem t records =
      threshold_lem _ _ _ t.max_error_rate _ _ (last_lem _ _ _ t.p95_ms)

  module _ (net : Net) (inv : Invariant) where
    value_name : (o : Result (Option Json)) → (judge_value f net inv o).name ≡ inv.name
    unfolding judge_value failed_invariant
    value_name (err e) = refl
    value_name (ok none) = refl
    value_name (ok (some got)) = refl

    body_name :
        (status : ℤ) (raw : List ℕ) (o : Option String)
        → (judge_body f net inv status (raw, o)).name ≡ inv.name
    unfolding judge_body failed_invariant
    body_name status raw (some e) = refl
    body_name status raw none =
        let name = value_name (lookup_json_path f.of_nat (net.decode raw) inv.expect_json_path) in
        elim (Bool-cases (leb_ℤ (pos 400) status)) [ inl q ↦ rw q refl | inr q ↦ rw q name ]

    answer_name : (o : Result HttpResponse) → (judge_answer f net inv o).name ≡ inv.name
    unfolding judge_answer failed_invariant
    answer_name (err e) = refl
    answer_name (ok r) =
        let (raw, failure) = read_limited 4097 r in body_name r.status_code raw failure

    visit_name :
        (made : HttpRequest) (v : Visit) (o : Option String)
        → (visit f net inv made v o).name ≡ inv.name
    unfolding visit failed_invariant
    visit_name made v none = answer_name (v.answer made)
    visit_name made v (some e) = refl

    module _ (p : Platform) (run_id : String) (sc : Scenario) (v : Visit) where
      made_name :
          (url : String) (o : Option String)
          → (probe_made f net run_id sc inv v url o).name ≡ inv.name
      unfolding probe_made failed_invariant
      made_name url none = visit_name (probe_request f net run_id sc inv url) v v.stopped
      made_name url (some e) = refl

      joined_name : (o : Result String) → (probe_joined f net run_id sc inv v o).name ≡ inv.name
      unfolding probe_joined failed_invariant
      joined_name (err e) = refl
      joined_name (ok url) = made_name url (net.refused inv.method url)

      count_name :
          (records : List ResponseRecord) → (evaluate_response_count inv records).name ≡ inv.name
      unfolding evaluate_response_count
      count_name records = refl

      -- An invariant of a known type has one result, under its name.
      one_result :
          (records : List ResponseRecord)
          → ValidType inv
          → map (λ c. c.name) (evaluate_invariant f net p run_id sc records v inv) ≡ inv.name ∷ []
      unfolding evaluate_invariant evaluate_http_probe
      one_result records h =
          let probe = joined_name (join_url p sc.target.base_url inv.path) in
          let counted = count_name records in
          elim (Bool-cases (inv.type == "response_count")) [
            | inl q ↦ rw q (ap (λ (n : String). n ∷ []) counted)
            | inr q ↦ elim (Bool-cases (inv.type == "http_probe")) [
              | inl r ↦ rw (q, r) (ap (λ (n : String). n ∷ []) probe)
              | inr r ↦ absurd (elim h [
                | inl x ↦ let t = (eq_iff inv.type "response_count").1 x.0 in cc
                | inr y ↦ let t = (eq_iff inv.type "http_probe").1 y.0 in cc
              ])
            ]
          ]

  module _ (net : Net) (p : Platform) (run_id : String) (sc : Scenario)
      (records : List ResponseRecord) (visits : ℕ → Visit) where
    all_results :
        (i : ℕ) (invs : List Invariant)
        → Each ValidInvariant invs
        → map (λ c. c.name) (evaluate_invariants f net p run_id sc records visits i invs)
          ≡ map (λ inv. inv.name) invs
    unfolding evaluate_invariants
    all_results i [] h = refl
    all_results i (inv ∷ invs) h =
        let first = one_result net inv p run_id sc (visits i) records h.0.type in
        let rest = all_results (suc i) invs h.1 in
        let later = evaluate_invariants f net p run_id sc records visits (suc i) invs in
        map-append _ (evaluate_invariant f net p run_id sc records (visits i) inv) later
        ∙ ap (λ (l : List String). l ++ map (λ c. c.name) later) first
        ∙ ap (λ (l : List String). inv.name ∷ l) rest

    -- For a scenario that Validate accepts there is one result for each of its invariants, in their order
    -- and under their names.
    pub evaluate_invariants-name :
        validate p sc ≡ none
        → map (λ c. c.name) (evaluate_invariants f net p run_id sc records visits 0 sc.invariants)
          ≡ map (λ inv. inv.name) sc.invariants
    evaluate_invariants-name h = all_results 0 sc.invariants ((validate_iff p sc).0 h).invariants
