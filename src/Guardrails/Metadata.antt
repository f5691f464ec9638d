-- ===== src/Guardrails/Metadata.antt =====
-- The addresses that the guardrails keep out
-- (apps/api/internal/guardrails/guardrails.go, Validate and matchesAllowlist).
use wreckr.Prelude.{
  ◌==◌, Option, some, none, trim_space, eq_iff, Bool-cases, String, ◌≡◌, ◌↔◌, ◌⊎◌, inl, inr, true,
  false, List, [], ◌∷◌, arith, Each, subst, ◌≢◌,
}
use wreckr.Platform.{Platform, Result, ok, err, to_lower}
use wreckr.Scenario.{Scenario, Request, Invariant}
use wreckr.Guardrails.{
  Guardrails, matches_allowlist, admits, normalize_entry, is_metadata_host, parse_target_url,
  same_ip, same_origin, is_absolute, check_scenario,
}
use wreckr.Guardrails.Accepts.{GoodPath, GoodReference, GoodBase, GoodProbe, check_scenario_iff}

module _ (p : Platform) where
  -- One entry of the allowlist admits the URL.
  abbrev pub Admitted : p.Url → List String → Type 0
  Admitted u [] = ⊥
  Admitted u (e ∷ es) =
      (admits p (normalize_entry p e) (to_lower p (p.hostname u)) (to_lower p (p.host u)) ≡ true)
      ⊎ Admitted u es

  -- The allowlist matches a URL exactly when one of its entries does.
  pub matches_allowlist_iff :
      (u : p.Url) (es : List String) → (matches_allowlist p u es ≡ true) ↔ Admitted u es
  unfolding matches_allowlist
  matches_allowlist_iff u [] = (λ h. cc, λ h. absurd h)
  matches_allowlist_iff u (e ∷ es) = ground (arith, matches_allowlist_iff u es)

  -- Where a reference leads: it parses, and from the base to a URL with the property.
  abbrev pub Leads : (p.Url → Type 0) → p.Url → Result p.Url → Type 0
  Leads Q base (err e) = ⊥
  Leads Q base (ok reference) = Q (p.resolve_reference base reference)

  abbrev pub SameAddress : Option p.Ip → Option p.Ip → Type 0
  SameAddress (some a) (some b) = p.ip_equal a b ≡ true
  SameAddress _ _ = ⊥

  -- A host is instance metadata: it has the name, or is an address that equals the address.
  abbrev pub MetadataHost : String → Type 0
  MetadataHost raw =
      (to_lower p (trim_space raw) ≡ "metadata.google.internal")
      ⊎ SameAddress (p.parse_ip (to_lower p (trim_space raw))) (p.parse_ip "169.254.169.254")

  same_ip_refuses : (a b : Option p.Ip) → same_ip p a b ≡ false → SameAddress a b → ⊥
  unfolding same_ip
  same_ip_refuses (some a) (some b) h k = cc
  same_ip_refuses (some a) none h k = k
  same_ip_refuses none b h k = k

  not_metadata : (raw : String) → is_metadata_host p raw ≡ false → ¬ MetadataHost raw
  unfolding is_metadata_host
  not_metadata raw h (inl named) =
      let met = (eq_iff (to_lower p (trim_space raw)) "metadata.google.internal").1 named in
      let yes : true ≡ false = rw met at h in cc
  not_metadata raw h (inr same) =
      elim (Bool-cases (to_lower p (trim_space raw) == "metadata.google.internal")) [
        | inl q ↦ let yes : true ≡ false = rw q at h in cc
        | inr q ↦ same_ip_refuses _ _ (rw q at h) same
      ]

  abbrev pub SameOrigin : p.Url → p.Url → Type 0
  SameOrigin a b =
      (to_lower p (p.scheme a) ≡ to_lower p (p.scheme b))
      × (to_lower p (p.host a) ≡ to_lower p (p.host b))

  same_origin-SameOrigin : (a b : p.Url) → same_origin p a b ≡ true → SameOrigin a b
  unfolding same_origin
  same_origin-SameOrigin a b h = ground (
    arith,
    eq_iff (to_lower p (p.scheme a)) (to_lower p (p.scheme b)),
    eq_iff (to_lower p (p.host a)) (to_lower p (p.host b)),
  )

  -- A URL that is no instance metadata, and on the origin of the base if the reference is absolute.
  abbrev pub Safe : p.Url → Result p.Url → Type 0
  Safe base (err e) = ⊥
  Safe base (ok reference) =
      (¬ MetadataHost (p.hostname (p.resolve_reference base reference)))
      × ((is_absolute p reference ≡ false) ⊎ SameOrigin base (p.resolve_reference base reference))

  abbrev pub SafePaths : Scenario → Result p.Url → Type 0
  SafePaths s (err e) = ⊥
  SafePaths s (ok base) =
      Each (λ r. Safe base (p.parse_url r.path)) s.setup
      × Each (λ r. Safe base (p.parse_url r.path)) s.requests
      × Each (λ r. Safe base (p.parse_url r.path)) s.teardown
      × Each (λ i. ((i.type == "http_probe") ≡ false) ⊎ Safe base (p.parse_url i.path)) s.invariants

  reference-Safe : (base : p.Url) (o : Result p.Url) → GoodReference p base [] o → Safe base o
  unfolding matches_allowlist
  reference-Safe base (err e) h = h
  reference-Safe base (ok reference) h =
      let u = p.resolve_reference base reference in
      let a = h.0.no_metadata in
      let b = h.1 in
      let outside : is_metadata_host p (p.hostname u) ≡ false = ground arith in
      (
        not_metadata (p.hostname u) outside,
        elim (Bool-cases (same_origin p base u)) [
          | inl q ↦ inr (same_origin-SameOrigin base u q)
          | inr q ↦ inl (ground arith)
        ],
      )

  paths-Safe :
      (base : p.Url) (rs : List Request)
      → Each (λ r. GoodPath p base [] r.path) rs
      → Each (λ r. Safe base (p.parse_url r.path)) rs
  paths-Safe base [] h = tt
  paths-Safe base (r ∷ rs) h =
      (reference-Safe base (p.parse_url r.path) h.0, paths-Safe base rs h.1)

  probes-Safe :
      (base : p.Url) (invs : List Invariant)
      → Each (GoodProbe p base []) invs
      → Each (λ i. ((i.type == "http_probe") ≡ false) ⊎ Safe base (p.parse_url i.path)) invs
  probes-Safe base [] h = tt
  probes-Safe base (i ∷ invs) (inl other, h) = (inl other, probes-Safe base invs h)
  probes-Safe base (i ∷ invs) (inr good, h) =
      (inr (reference-Safe base (p.parse_url i.path) good), probes-Safe base invs h)

  module _ (s : Scenario) (g : Guardrails) (unlisted : g.target_allowlist ≡ []) where
    targets-Safe : (o : Result p.Url) → GoodBase p s g o → SafePaths s o
    targets-Safe (err e) h = h
    targets-Safe (ok base) h =
        let safe =
          λ (rs : List Request) (good : Each (λ r. GoodPath p base g.target_allowlist r.path) rs).
            paths-Safe base rs
              (subst (λ l. Each (λ r. GoodPath p base l r.path) rs) unlisted good) in
        (
          safe s.setup h.setup,
          safe s.requests h.requests,
          safe s.teardown h.teardown,
          probes-Safe base s.invariants
              (subst (λ l. Each (GoodProbe p base l) s.invariants) unlisted h.probes),
        )

    -- With no allowlist, a scenario that the guardrails accept has no request, in its setup, its traffic or
    -- its teardown, and no probe whose path leads from its base URL to the name or the address of instance
    -- metadata, whatever the flag says, and none whose path is an absolute URL of another origin.
    pub check_scenario-SafePaths :
        check_scenario p s g ≡ none → SafePaths s (parse_target_url p s.target.base_url)
    check_scenario-SafePaths h = targets-Safe _ ((check_scenario_iff p s g).0 h).targets

    -- Some request leads to instance metadata.
    abbrev pub Aimed : p.Url → List Request → Type 0
    Aimed base [] = ⊥
    Aimed base (r ∷ rs) =
        Leads (λ u. MetadataHost (p.hostname u)) base (p.parse_url r.path) ⊎ Aimed base rs

    aim_refused :
        (base : p.Url) (o : Result p.Url)
        → Leads (λ u. MetadataHost (p.hostname u)) base o
        → Safe base o
        → ⊥
    aim_refused base (err e) h k = h
    aim_refused base (ok reference) h k = k.0 h

    one_refused :
        (base : p.Url) (rs : List Request)
        → Aimed base rs
        → Each (λ r. Safe base (p.parse_url r.path)) rs
        → ⊥
    one_refused base [] h k = h
    one_refused base (r ∷ rs) (inl h) k = aim_refused base (p.parse_url r.path) h k.0
    one_refused base (r ∷ rs) (inr h) k = one_refused base rs h k.1

    -- With no allowlist, a scenario with a request that leads to instance metadata is refused even where
    -- the configuration allows metadata targets.
    pub metadata_request_refused :
        (base : p.Url)
        → parse_target_url p s.target.base_url ≡ ok base
        → Aimed base s.requests
        → check_scenario p s g ≢ none
    metadata_request_refused base e h accepted =
        one_refused base s.requests h (subst (SafePaths s) e (check_scenario-SafePaths accepted)).1
