-- ===== src/Guardrails/Accepts.antt =====
-- What the scenarios that the guardrails accept keep
-- (apps/api/internal/guardrails/guardrails.go, Validate).
use wreckr.Prelude.{
  inl, inr, ℕ, suc, ℤ, pos, String, ◌==◌, eq_iff, ◌≡◌, refl, ◌↔◌, ◌⊎◌, Bool, true, false, not, ◌&&◌,
  List, [], ◌∷◌, arith, Each, when_iff, iff_trans, parts_iff, is_nil, is_empty, contains_any,
  size_text, none, if◌then◌else◌,
}
use wreckr.Platform.{Platform, Result, ok, err}
use wreckr.Scenario.{Scenario, Request, Invariant}
use wreckr.Scenario.Validate.{at_index}
use wreckr.Guardrails.{
  Guardrails, over, body_problems, limit_problems, matches_allowlist, is_metadata_host,
  url_problems, parse_target_url, same_origin, is_absolute, reference_problems, path_problems,
  request_target_problems, invariant_target_problems, target_problems, violations, violation_error,
  check_scenario,
}

-- The size limit on the two bodies of a request.
abbrev pub SmallBody : ℤ → Request → Type 0
SmallBody max r =
    (over max (pos (size_text r.json)) ≡ false) × (over max (pos (size_text r.body)) ≡ false)

bodies_iff :
    (prefix : String) (i : ℕ) (max : ℤ) (rs : List Request)
    → (body_problems prefix i rs max ≡ []) ↔ Each (SmallBody max) rs
unfolding body_problems
bodies_iff prefix i max [] = (λ h. tt, λ h. refl)
bodies_iff prefix i max (r ∷ rs) =
    iff_trans
      (parts_iff _ _ (when_iff _ _)
        (parts_iff _ _ (when_iff _ _) (bodies_iff prefix (suc i) max rs)))
      (λ h. ((h.0, h.1.0), h.1.1), λ h. (h.0.0, (h.0.1, h.1)))

violation_iff : (p : Platform) (vs : List String) → (violation_error p vs ≡ none) ↔ (vs ≡ [])
unfolding violation_error
violation_iff p [] = (λ h. refl, λ h. refl)
violation_iff p (v ∷ vs) = (λ h. cc, λ h. cc)

not_one_of :
    (a b : String) (s : String) → (not (s == a) && not (s == b) ≡ false) ↔ ((s ≡ a) ⊎ (s ≡ b))
not_one_of a b s = ground (arith, eq_iff s a, eq_iff s b)

module _ (p : Platform) where
  -- http or https, a host without whitespace, no credentials, and a host that the allowlist, if there
  -- is one, admits; an address of instance metadata only if the allowlist or the flag lets it through.
  pub record Allowed (allowlist : List String) (allow_metadata : Bool) (u : p.Url) : Type 0 where
    pub web : (p.scheme u ≡ "http") ⊎ (p.scheme u ≡ "https")
    pub named : is_nil (p.host u) ≡ false
    pub anonymous : p.has_user u ≡ false
    pub solid : contains_any (p.host u) " \t\r\n" ≡ false
    pub no_metadata :
        is_metadata_host p (p.hostname u)
          && not allow_metadata
          && not (matches_allowlist p u allowlist)
        ≡ false
    pub listed : not (is_empty allowlist) && not (matches_allowlist p u allowlist) ≡ false

  url_iff :
      (field : String) (u : p.Url) (allowlist : List String) (flag : Bool)
      → (url_problems p field u allowlist flag ≡ []) ↔ Allowed allowlist flag u
  unfolding url_problems
  url_iff field u allowlist flag =
      iff_trans
        (parts_iff _ _ (iff_trans (when_iff _ _) (not_one_of "http" "https" (p.scheme u))) (
          parts_iff _ _ (when_iff _ _) (
            parts_iff _ _ (when_iff _ _)
              (parts_iff _ _ (when_iff _ _) (parts_iff _ _ (when_iff _ _) (when_iff _ _))))))
        (
          λ h. record {
            web = h.0;
            named = h.1.0;
            anonymous = h.1.1.0;
            solid = h.1.1.1.0;
            no_metadata = h.1.1.1.1.0;
            listed = h.1.1.1.1.1;
          },
          λ a. (a.web, (a.named, (a.anonymous, (a.solid, (a.no_metadata, a.listed))))),
        )

  -- A path that parses, and leads from the base to an allowed URL, on the base's own origin unless
  -- there is an allowlist. The metadata flag does not count here.
  abbrev pub GoodReference : p.Url → List String → Result p.Url → Type 0
  GoodReference base allowlist (err e) = ⊥
  GoodReference base allowlist (ok reference) =
      Allowed allowlist false (p.resolve_reference base reference)
      × (is_absolute p reference
            && is_empty allowlist
            && not (same_origin p base (p.resolve_reference base reference))
          ≡ false)

  abbrev pub GoodPath : p.Url → List String → String → Type 0
  GoodPath base allowlist path = GoodReference base allowlist (p.parse_url path)

  reference_iff :
      (field : String) (base : p.Url) (o : Result p.Url) (allowlist : List String)
      → (reference_problems p field base o allowlist ≡ []) ↔ GoodReference base allowlist o
  unfolding reference_problems
  reference_iff field base (err e) allowlist = (λ h. cc, λ h. absurd h)
  reference_iff field base (ok reference) allowlist =
      parts_iff _ _ (url_iff field _ allowlist false) (when_iff _ _)

  path_iff :
      (field : String) (base : p.Url) (path : String) (allowlist : List String)
      → (path_problems p field base path allowlist ≡ []) ↔ GoodPath base allowlist path
  unfolding path_problems
  path_iff field base path allowlist = reference_iff field base (p.parse_url path) allowlist

  paths_iff :
      (prefix : String) (i : ℕ) (base : p.Url) (rs : List Request) (allowlist : List String)
      → (request_target_problems p prefix i base rs allowlist ≡ [])
        ↔ Each (λ r. GoodPath base allowlist r.path) rs
  unfolding request_target_problems
  paths_iff prefix i base [] allowlist = (λ h. tt, λ h. refl)
  paths_iff prefix i base (r ∷ rs) allowlist =
      parts_iff _ _ (path_iff _ base r.path allowlist) (paths_iff prefix (suc i) base rs allowlist)

  -- A probe addresses a host; no other invariant does.
  abbrev pub GoodProbe : p.Url → List String → Invariant → Type 0
  GoodProbe base allowlist inv =
      ((inv.type == "http_probe") ≡ false) ⊎ GoodPath base allowlist inv.path

  probe_iff :
      (i : ℕ) (base : p.Url) (inv : Invariant) (allowlist : List String) (b : Bool)
      → ((if b
            then path_problems p (at_index "invariants" i ".path") base inv.path allowlist
            else [])
          ≡ [])
        ↔ ((b ≡ false) ⊎ GoodPath base allowlist inv.path)
  probe_iff i base inv allowlist true =
      iff_trans (path_iff _ base inv.path allowlist)
        (λ h. inr h, λ h. elim h [ inl e ↦ cc | inr good ↦ good ])
  probe_iff i base inv allowlist false = (λ h. inl refl, λ h. refl)

  probes_iff :
      (i : ℕ) (base : p.Url) (invs : List Invariant) (allowlist : List String)
      → (invariant_target_problems p i base invs allowlist ≡ [])
        ↔ Each (GoodProbe base allowlist) invs
  unfolding invariant_target_problems
  probes_iff i base [] allowlist = (λ h. tt, λ h. refl)
  probes_iff i base (inv ∷ invs) allowlist =
      parts_iff _ _ (probe_iff i base inv allowlist _) (probes_iff (suc i) base invs allowlist)

  module _ (s : Scenario) (g : Guardrails) where
    pub record GoodTargets (base : p.Url) : Type 0 where
      pub base_url : Allowed g.target_allowlist g.allow_metadata_target base
      pub setup : Each (λ r. GoodPath base g.target_allowlist r.path) s.setup
      pub requests : Each (λ r. GoodPath base g.target_allowlist r.path) s.requests
      pub teardown : Each (λ r. GoodPath base g.target_allowlist r.path) s.teardown
      pub probes : Each (GoodProbe base g.target_allowlist) s.invariants

    abbrev pub GoodBase : Result p.Url → Type 0
    GoodBase (err e) = ⊥
    GoodBase (ok base) = GoodTargets base

    pub record Within : Type 0 where
      pub concurrency : over g.max_concurrency s.traffic.concurrency ≡ false
      pub rate : over g.max_request_rate s.traffic.rate_per_second ≡ false
      pub setup : Each (SmallBody g.max_request_body_bytes) s.setup
      pub requests : Each (SmallBody g.max_request_body_bytes) s.requests
      pub teardown : Each (SmallBody g.max_request_body_bytes) s.teardown
      pub targets : GoodBase (parse_target_url p s.target.base_url)

    targets_iff : (o : Result p.Url) → (target_problems p s g o ≡ []) ↔ GoodBase o
    unfolding target_problems
    targets_iff (err e) = (λ h. cc, λ h. absurd h)
    targets_iff (ok base) =
        iff_trans
          (parts_iff _ _ (url_iff _ base g.target_allowlist g.allow_metadata_target) (
            parts_iff _ _ (paths_iff _ 0 base s.setup g.target_allowlist) (
              parts_iff _ _ (paths_iff _ 0 base s.requests g.target_allowlist) (
                parts_iff _ _ (paths_iff _ 0 base s.teardown g.target_allowlist)
                  (probes_iff 0 base s.invariants g.target_allowlist)))))
          (
            λ h. record {
              base_url = h.0;
              setup = h.1.0;
              requests = h.1.1.0;
              teardown = h.1.1.1.0;
              probes = h.1.1.1.1;
            },
            λ t. (t.base_url, (t.setup, (t.requests, (t.teardown, t.probes)))),
          )

    -- The guardrails accept exactly the scenarios within their limits: concurrency, rate and body sizes
    -- no more than a limit that is set, a base URL that parses and is allowed, and each path of a
    -- request and of a probe leading to an allowed URL.
    pub check_scenario_iff : (check_scenario p s g ≡ none) ↔ Within
    unfolding check_scenario violations limit_problems
    check_scenario_iff = iff_trans (violation_iff p (violations p s g)) (
        iff_trans
          (parts_iff _ _ (parts_iff _ _ (when_iff _ _) (when_iff _ _)) (
            parts_iff _ _ (bodies_iff _ 0 _ s.setup) (
              parts_iff _ _ (bodies_iff _ 0 _ s.requests) (
                parts_iff _ _ (bodies_iff _ 0 _ s.teardown)
                  (targets_iff (parse_target_url p s.target.base_url))))))
          (
            λ h. record {
              concurrency = h.0.0;
              rate = h.0.1;
              setup = h.1.0;
              requests = h.1.1.0;
              teardown = h.1.1.1.0;
              targets = h.1.1.1.1;
            },
            λ w. ((w.concurrency, w.rate), (w.setup, (w.requests, (w.teardown, w.targets)))),
          ))
