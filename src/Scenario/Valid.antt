-- ===== src/Scenario/Valid.antt =====
-- What the scenarios that Validate accepts have in common
-- (apps/api/internal/scenario/schema.go).
use wreckr.Prelude.{
  when, Each, when_iff, iff_trans, parts_iff, none_iff, ◌∙◌, sym, ℕ, suc, ℤ, pos, String, ◌==◌,
  eq_iff, ◌≡◌, refl, ◌≢◌, ◌↔◌, ◌⊎◌, inl, inr, true, false, not, ◌&&◌, ◌||◌, List, [], ◌∷◌, Option,
  none, some, arith, is_nil, is_some, is_empty, Bool-cases, eqb_ℤ, eqb_ℤ_iff, ltb_ℤ,
}
use wreckr.Platform.{Platform, Result, ok, err}
use wreckr.Scenario.{Scenario, Request, Invariant, Traffic}
use wreckr.Scenario.Validate.{
  is_blank, is_known, parse_http_url, url_problem, prefixed, request_problems, type_problems,
  invariant_problems, traffic_problems, problems, validate,
}

pub record ValidTraffic (t : Traffic) : Type 0 where
  pub known : is_known t.type ≡ true
  pub concurrency : ltb_ℤ t.concurrency (pos 1) ≡ false
  pub iterations : ltb_ℤ t.iterations (pos 1) ≡ false
  pub rate : ltb_ℤ t.rate_per_second (pos 0) ≡ false
  pub attempts : ltb_ℤ t.retry.attempts (pos 0) ≡ false
  pub backoff : ltb_ℤ t.retry.backoff_ms (pos 0) ≡ false

-- A response count has a bound, a probe has a path and a JSON path, and there is no other type.
abbrev pub ValidType : Invariant → Type 0
ValidType i =
    ((i.type ≡ "response_count") × ((is_some i.equals || is_some i.min || is_some i.max) ≡ true))
    ⊎ ((i.type ≡ "http_probe") × (is_nil i.path ≡ false) × (is_nil i.expect_json_path ≡ false))

pub record ValidInvariant (i : Invariant) : Type 0 where
  pub named : is_blank i.name ≡ false
  pub type : ValidType i

traffic_iff : (t : Traffic) → (traffic_problems t ≡ []) ↔ ValidTraffic t
unfolding traffic_problems
traffic_iff t = ground arith

count_iff :
    (i : Invariant) (m : String)
    → (when (not (is_some i.equals) && not (is_some i.min) && not (is_some i.max)) m ≡ [])
      ↔ ((is_some i.equals || is_some i.min || is_some i.max) ≡ true)
count_iff i m = ground arith

response_count-ne-http_probe : ◌≢◌ {A = String} "response_count" "http_probe"
response_count-ne-http_probe = ground (arith, eq_iff "response_count" "http_probe")

type_iff : (n : ℕ) (i : Invariant) → (type_problems n i ≡ []) ↔ ValidType i
unfolding type_problems
type_iff n i =
    let is_count : (i.type == "response_count") ≡ true → i.type ≡ "response_count" =
      (eq_iff _ _).0 in
    let is_probe : (i.type == "http_probe") ≡ true → i.type ≡ "http_probe" = (eq_iff _ _).0 in
    elim (Bool-cases (i.type == "response_count")) [
      | inl c ↦ rw c (
          iff_trans (count_iff i _) (
            λ h. inl (is_count c, h),
            λ v. elim v [
              | inl x ↦ x.1
              | inr y ↦ absurd (response_count-ne-http_probe (sym (is_count c) ∙ y.0))
            ],
          ))
      | inr c ↦ elim (Bool-cases (i.type == "http_probe")) [
        | inl q ↦
            rw (c, q)
              (iff_trans (parts_iff _ _ (when_iff _ _) (when_iff _ _)) (
                λ h. inr (is_probe q, h.0, h.1),
                λ v. elim v [
                  | inl x ↦ absurd (response_count-ne-http_probe (sym x.0 ∙ is_probe q))
                  | inr y ↦ (y.1, y.2)
                ],
              ))
        | inr q ↦
            rw (c, q)
              (
                λ h. cc,
                λ v. elim v [
                  | inl x ↦ let t = (eq_iff i.type "response_count").1 x.0 in cc
                  | inr y ↦ let t = (eq_iff i.type "http_probe").1 y.0 in cc
                ],
              )
      ]
    ]

invariants_iff :
    (n : ℕ) (is : List Invariant) → (invariant_problems n is ≡ []) ↔ Each ValidInvariant is
unfolding invariant_problems
invariants_iff n [] = (λ h. tt, λ h. refl)
invariants_iff n (i ∷ is) =
    iff_trans
      (parts_iff _ _ (when_iff _ _) (parts_iff _ _ (type_iff n i) (invariants_iff (suc n) is)))
      (λ h. (record { named = h.0; type = h.1.0 }, h.1.1), λ h. (h.0.named, (h.0.type, h.1)))

module _ (p : Platform) where
  -- A URL that parsed, is http or https, and names a host.
  abbrev pub GoodUrl : Result p.Url → Type 0
  GoodUrl (err e) = ⊥
  GoodUrl (ok u) = ((p.scheme u ≡ "http") ⊎ (p.scheme u ≡ "https")) × (is_nil (p.host u) ≡ false)

  abbrev pub ValidTarget : String → Type 0
  ValidTarget raw = (is_blank raw ≡ false) × GoodUrl (p.parse_url raw)

  -- A named request with a path, and a body that is no JSON only if it is empty.
  pub record ValidRequest (r : Request) : Type 0 where
    pub named : is_blank r.name ≡ false
    pub path : is_nil r.path ≡ false
    pub json : (not (is_nil r.json) && not (p.json_valid r.json)) ≡ false

  pub record Valid (s : Scenario) : Type 0 where
    pub version : s.version ≡ pos 1
    pub named : is_blank s.name ≡ false
    pub target : ValidTarget s.target.base_url
    pub some_request : s.requests ≢ []
    pub traffic : ValidTraffic s.traffic
    pub setup : Each ValidRequest s.setup
    pub requests : Each ValidRequest s.requests
    pub teardown : Each ValidRequest s.teardown
    pub invariants : Each ValidInvariant s.invariants

  requests_iff :
      (prefix : String) (n : ℕ) (rs : List Request)
      → (request_problems p prefix n rs ≡ []) ↔ Each ValidRequest rs
  unfolding request_problems
  requests_iff prefix n [] = (λ h. tt, λ h. refl)
  requests_iff prefix n (r ∷ rs) =
      iff_trans
        (parts_iff _ _ (when_iff _ _) (
          parts_iff _ _ (when_iff _ _)
            (parts_iff _ _ (when_iff _ _) (requests_iff prefix (suc n) rs))))
        (
          λ h. (record { named = h.0; path = h.1.0; json = h.1.1.0 }, h.1.1.1),
          λ h. (h.0.named, (h.0.path, (h.0.json, h.1))),
        )

  prefixed_iff : (f : String) (o : Option String) → (prefixed p f o ≡ []) ↔ (o ≡ none)
  unfolding prefixed
  prefixed_iff f none = (λ h. refl, λ h. refl)
  prefixed_iff f (some e) = (λ h. cc, λ h. cc)

  url_iff : (o : Result p.Url) → (url_problem p o ≡ none) ↔ GoodUrl o
  unfolding url_problem
  url_iff (err e) = (λ h. cc, λ h. absurd h)
  url_iff (ok u) = ground (arith, eq_iff (p.scheme u) "http", eq_iff (p.scheme u) "https")

  target_iff : (raw : String) → (parse_http_url p raw ≡ none) ↔ ValidTarget raw
  unfolding parse_http_url
  target_iff raw = elim (Bool-cases (is_blank raw)) [
    | inl b ↦ rw b (λ h. cc, λ h. cc)
    | inr b ↦ rw b (iff_trans (url_iff (p.parse_url raw)) (λ h. (refl, h), λ h. h.1))
  ]

  empty_iff {ℓ} : {A : Type ℓ} (xs : List A) → (is_empty xs ≡ false) ↔ (xs ≢ [])
  empty_iff [] = (λ h. cc, λ h. absurd (h refl))
  empty_iff (x ∷ xs) = (λ h e. cc, λ h. refl)

  version_iff : (v : ℤ) → (not (eqb_ℤ v (pos 1)) ≡ false) ↔ (v ≡ pos 1)
  version_iff v = ground (arith, eqb_ℤ_iff v (pos 1))

  problems_iff : (s : Scenario) → (problems p s ≡ []) ↔ Valid s
  unfolding problems
  problems_iff s =
      iff_trans
        (parts_iff _ _ (iff_trans (when_iff _ _) (version_iff s.version)) (
          parts_iff _ _ (when_iff _ _) (
            parts_iff _ _ (iff_trans (prefixed_iff _ _) (target_iff s.target.base_url)) (
              parts_iff _ _ (iff_trans (when_iff _ _) (empty_iff s.requests)) (
                parts_iff _ _ (traffic_iff s.traffic) (
                  parts_iff _ _ (requests_iff _ 0 s.setup) (
                    parts_iff _ _ (requests_iff _ 0 s.requests) (
                      parts_iff _ _ (requests_iff _ 0 s.teardown)
                        (invariants_iff 0 s.invariants)))))))))
        (
          λ h. record {
            version = h.0;
            named = h.1.0;
            target = h.1.1.0;
            some_request = h.1.1.1.0;
            traffic = h.1.1.1.1.0;
            setup = h.1.1.1.1.1.0;
            requests = h.1.1.1.1.1.1.0;
            teardown = h.1.1.1.1.1.1.1.0;
            invariants = h.1.1.1.1.1.1.1.1;
          },
          λ v. (
            v.version,
            (
              v.named,
              (
                v.target,
                (v.some_request, (v.traffic, (v.setup, (v.requests, (v.teardown, v.invariants))))),
              ),
            ),
          ),
        )

  -- Validate accepts exactly the scenarios of version 1 with a name, an http or https base URL that
  -- names a host, a known traffic type with counts in range, at least one request, and requests and
  -- invariants that are each complete.
  pub validate_iff : (s : Scenario) → (validate p s ≡ none) ↔ Valid s
  unfolding validate
  validate_iff s = iff_trans (none_iff (problems p s) _) (problems_iff s)
