-- ===== src/Runner/Send/Identity.antt =====
-- The headers of the requests that the runner sends (apps/api/internal/runner/runner.go,
-- executeRequest).
use wreckr.Prelude.{
  or_else-none, ℕ, ℤ, String, ◌==◌, ◌≡◌, refl, ap, ◌∙◌, Bool, true, not, ◌&&◌, [], ◌∷◌, Option,
  none, some, arith, show, show_ℤ, is_nil, Dict, lookup, insert, lookup-insert, or_else,
  if◌then◌else◌,
}
use wreckr.Scenario.{Scenario, Headers, Request}
use wreckr.Runner.Send.{
  Net, set_header, get_header, set_all, set_headers, set_content_type, set_identity, http_request,
  request_body, or_blank,
}

module _ (net : Net) where
  -- The value that counts for a canonical key in a header map: the last in the order of the loop.
  abbrev pub last_value : String → Dict String → Option String
  last_value key [] = none
  last_value key ((k, v) ∷ h) =
      or_else (last_value key h) (if net.canonical_key k == key then some v else none)

  abbrev pub given : String → Headers → Option String
  given key none = none
  given key (some h) = last_value key h

  lookup-set_all :
      (key : String) (h base : Dict String)
      → lookup key (set_all net h base) ≡ or_else (last_value key h) (lookup key base)
  unfolding set_all set_header
  lookup-set_all key [] base = refl
  lookup-set_all key ((k, v) ∷ h) base =
      let ih = lookup-set_all key h (insert (net.canonical_key k) v base) in
      let put = lookup-insert (net.canonical_key k) key v base in ground (arith, ih, put)

  lookup-set_headers :
      (key : String) (h : Headers) (base : Dict String)
      → lookup key (set_headers net h base) ≡ or_else (given key h) (lookup key base)
  unfolding set_headers
  lookup-set_headers key none base = refl
  lookup-set_headers key (some h) base = lookup-set_all key h base

  -- The canonical forms of the names that the runner sets itself.
  pub record CanonicalNames : Type 0 where
    pub content_type : net.canonical_key "Content-Type" ≡ "Content-Type"
    pub run_id : net.canonical_key "X-Wreckr-Run-ID" ≡ "X-Wreckr-Run-Id"
    pub scenario : net.canonical_key "X-Wreckr-Scenario" ≡ "X-Wreckr-Scenario"
    pub request : net.canonical_key "X-Wreckr-Request" ≡ "X-Wreckr-Request"
    pub iteration : net.canonical_key "X-Wreckr-Iteration" ≡ "X-Wreckr-Iteration"
    pub attempt : net.canonical_key "X-Wreckr-Attempt" ≡ "X-Wreckr-Attempt"

  -- The header that the runner sets for a canonical key.
  abbrev pub identity : String → String → String → ℤ → ℕ → String → Option String
  identity run_id scenario request iteration attempt key =
      if "X-Wreckr-Attempt" == key
      then some (show attempt)
      else if "X-Wreckr-Iteration" == key
      then some (show_ℤ iteration)
      else if "X-Wreckr-Request" == key
      then some request
      else if "X-Wreckr-Scenario" == key
      then some scenario
      else if "X-Wreckr-Run-Id" == key
      then some run_id
      else none

  -- The scenario's header for a key: the request's, or the target's where the request has none.
  abbrev pub own : Scenario → Request → String → Option String
  own sc req key = or_else (given key req.headers) (given key sc.target.headers)

  abbrev pub missing : Option String → Bool
  missing none = true
  missing (some v) = is_nil v

  module _ (names : CanonicalNames) where
    lookup-set_header :
        (key name name' value : String) (h : Dict String)
        → net.canonical_key name ≡ name'
        → lookup key (set_header net name value h)
          ≡ (if name' == key then some value else lookup key h)
    unfolding set_header
    lookup-set_header key name name' value h e =
        lookup-insert (net.canonical_key name) key value h
        ∙ ap (λ (n : String). if n == key then some value else lookup key h) e

    lookup-set_identity :
        (key run_id scenario request : String) (iteration : ℤ) (attempt : ℕ) (h : Dict String)
        → lookup key (set_identity net run_id scenario request iteration attempt h)
          ≡ or_else (identity run_id scenario request iteration attempt key) (lookup key h)
    unfolding set_identity
    lookup-set_identity key run_id scenario request iteration attempt h =
        simp
          (
            names.attempt, names.iteration, names.request, names.scenario, names.run_id,
            lookup-insert,
          )
          (ground arith)

    lookup-set_content_type :
        (key type : String) (h : Dict String)
        → lookup key (set_content_type net type h) ≡ (
            if ("Content-Type" == key)
              && not (is_nil type)
              && is_nil (get_header net h "Content-Type")
            then some type
            else lookup key h)
    unfolding set_content_type
    lookup-set_content_type key type h =
        let put = lookup-set_header key "Content-Type" "Content-Type" type h names.content_type in
        ground (arith, put)

    own_lem :
        (sc : Scenario) (req : Request) (key : String)
        → lookup key (set_headers net req.headers (set_headers net sc.target.headers []))
          ≡ own sc req key
    unfolding lookup
    own_lem sc req key =
        lookup-set_headers key req.headers (set_headers net sc.target.headers [])
        ∙ ap (or_else (given key req.headers)) (
            lookup-set_headers key sc.target.headers []
            ∙ or_else-none (given key sc.target.headers))

    missing_lem : (o : Option String) → is_nil (or_blank o) ≡ missing o
    unfolding is_nil
    missing_lem none = refl
    missing_lem (some v) = refl

    content_type_lem :
        (h : Dict String) (o : Option String)
        → lookup "Content-Type" h ≡ o
        → is_nil (get_header net h "Content-Type") ≡ missing o
    unfolding get_header
    content_type_lem h o e =
        ap (λ (k : String). is_nil (or_blank (lookup k h))) names.content_type
        ∙ ap (λ (x : Option String). is_nil (or_blank x)) e
        ∙ missing_lem o

    -- The headers of a request that is sent: the runner's own five are those of its run whatever the
    -- scenario says, the content type is the one of the body unless the scenario sets one, and every
    -- other header is the request's, or else the target's; for a net/http that leaves the names which
    -- the runner sets as they are in canonical form.
    pub lookup-http_request :
        (key run_id url : String) (sc : Scenario) (req : Request) (iteration : ℤ) (attempt : ℕ)
        → lookup key (http_request net run_id sc req iteration attempt url).headers
          ≡ or_else (identity run_id sc.name req.name iteration attempt key) (
              if ("Content-Type" == key)
                && not (is_nil (request_body req).1)
                && missing (own sc req "Content-Type")
              then some (request_body req).1
              else own sc req key)
    unfolding http_request
    lookup-http_request key run_id url sc req iteration attempt =
        let h = set_headers net req.headers (set_headers net sc.target.headers []) in
        let typed = set_content_type net (request_body req).1 h in
        lookup-set_identity key run_id sc.name req.name iteration attempt typed
        ∙ ap (or_else (identity run_id sc.name req.name iteration attempt key)) (
            lookup-set_content_type key (request_body req).1 h
            ∙ rw (content_type_lem h (own sc req "Content-Type") (own_lem sc req "Content-Type"))
                (rw (own_lem sc req key) refl))
