-- ===== src/Guardrails.antt =====
-- The guardrails (apps/api/internal/guardrails/guardrails.go, and the type Guardrails of
-- apps/api/internal/config/config.go): the limits that a scenario must keep before it is stored or
-- run, and the hosts that it may address. The problems are listed in the order in which the code
-- appends them.
pub mod Accepts
pub mod Metadata
use wreckr.Prelude.{
  when, quote, ℕ, suc, ℤ, pos, String, ◌+++◌, ◌==◌, Bool, true, false, not, ◌&&◌, ◌||◌, List, [],
  ◌∷◌, ◌++◌, Option, none, some, show, show_ℤ, ltb_ℤ, is_nil, is_some, is_empty, trim_space,
  has_prefix, has_suffix, trim_prefix, trim_suffix, contains, contains_any, join, if◌then◌else◌,
  size_text,
}
use wreckr.Platform.{Platform, Result, ok, err, to_lower}
use wreckr.Scenario.{Scenario, Request, Invariant, Traffic}
use wreckr.Scenario.Validate.{is_blank, at_index}

-- A limit of 0 or less is no limit. The duration is in nanoseconds.
pub record Guardrails : Type 0 where
  pub max_concurrency : ℤ
  pub max_request_rate : ℤ
  pub max_run_duration : ℤ
  pub max_request_body_bytes : ℤ
  pub target_allowlist : List String
  pub allow_metadata_target : Bool

-- Whether a limit is set and passed.
abbrev pub over : ℤ → ℤ → Bool
over limit n = ltb_ℤ (pos 0) limit && ltb_ℤ limit n

unfoldable pub body_problems : String → ℕ → List Request → ℤ → List String
body_problems prefix i [] max = []
body_problems prefix i (r ∷ rs) max =
    let size = pos (size_text r.json) in
    let body = pos (size_text r.body) in
    when (over max size) (
      at_index prefix i
        (".json size " +++ show_ℤ size +++ " exceeds max_request_body_bytes " +++ show_ℤ max))
    ++ (when (over max body) (
          at_index prefix i
            (".body size " +++ show_ℤ body +++ " exceeds max_request_body_bytes " +++ show_ℤ max))
        ++ body_problems prefix (suc i) rs max)

unfoldable pub limit_problems : Scenario → Guardrails → List String
limit_problems s g =
    when (over g.max_concurrency s.traffic.concurrency) (
      "traffic.concurrency "
      +++ show_ℤ s.traffic.concurrency
      +++ " exceeds max_concurrency "
      +++ show_ℤ g.max_concurrency)
    ++ when (over g.max_request_rate s.traffic.rate_per_second) (
        "traffic.rate_per_second "
        +++ show_ℤ s.traffic.rate_per_second
        +++ " exceeds max_request_rate_per_second "
        +++ show_ℤ g.max_request_rate)

module _ (p : Platform) where
  -- The host of an entry that is a URL.
  unfoldable pub entry_host : String → Result p.Url → String
  entry_host entry (ok u) =
      if is_nil (p.host u) then trim_suffix entry "/" else to_lower p (p.host u)
  entry_host entry (err _) = trim_suffix entry "/"

  unfoldable pub normalize_entry : String → String
  unfolding entry_host
  normalize_entry raw =
      let entry = to_lower p (trim_space raw) in
      if is_nil entry
      then ""
      else if contains entry "://"
      then entry_host entry (p.parse_url entry)
      else trim_suffix entry "/"

  -- Whether one normalised entry admits a host and a host with its port.
  unfoldable pub admits : String → String → String → Bool
  admits pattern host hostport =
      if is_nil pattern
      then false
      else if pattern == "*"
      then true
      else if has_prefix pattern "*."
      then (let suffix = trim_prefix pattern "*." in
          host == suffix || has_suffix host ("." +++ suffix))
      else if contains pattern ":"
      then pattern == hostport
      else pattern == host

  unfoldable pub matches_allowlist : p.Url → List String → Bool
  matches_allowlist u [] = false
  matches_allowlist u (entry ∷ entries) =
      let rest = matches_allowlist u entries in
      if admits (normalize_entry entry) (to_lower p (p.hostname u)) (to_lower p (p.host u))
      then true
      else rest

  unfoldable pub same_ip : Option p.Ip → Option p.Ip → Bool
  same_ip (some a) (some b) = p.ip_equal a b
  same_ip _ _ = false

  unfoldable pub is_metadata_host : String → Bool
  unfolding same_ip
  is_metadata_host raw =
      let host = to_lower p (trim_space raw) in
      if host == "metadata.google.internal"
      then true
      else same_ip (p.parse_ip host) (p.parse_ip "169.254.169.254")

  unfoldable pub url_problems : String → p.Url → List String → Bool → List String
  url_problems field u allowlist allow_metadata =
      when (not (p.scheme u == "http") && not (p.scheme u == "https"))
        (field +++ " must use http or https")
      ++ (when (is_nil (p.host u)) (field +++ " must include a host")
          ++ (when (p.has_user u) (field +++ " must not include credentials")
              ++ (when (contains_any (p.host u) " \t\r\n")
                    (field +++ " host must not contain whitespace")
                  ++ (when
                        (is_metadata_host (p.hostname u)
                          && not allow_metadata
                          && not (matches_allowlist u allowlist))
                        (field
                          +++ " host "
                          +++ quote (p.hostname u)
                          +++ " is blocked because it targets instance metadata")
                      ++ when (not (is_empty allowlist) && not (matches_allowlist u allowlist)) (
                          field
                          +++ " host "
                          +++ quote (p.host u)
                          +++ " is not in target allowlist")))))

  unfoldable pub parse_target_url : String → Result p.Url
  parse_target_url raw = if is_blank raw then err "is required" else p.parse_url raw

  -- strings.EqualFold, by the lower case of both texts.
  unfoldable pub same_origin : p.Url → p.Url → Bool
  same_origin a b =
      to_lower p (p.scheme a) == to_lower p (p.scheme b)
      && to_lower p (p.host a) == to_lower p (p.host b)

  unfoldable pub is_absolute : p.Url → Bool
  is_absolute u = not (is_nil (p.scheme u)) || not (is_nil (p.host u))

  unfoldable pub reference_problems : String → p.Url → Result p.Url → List String → List String
  reference_problems field base (err e) allowlist = (field +++ " " +++ e) ∷ []
  reference_problems field base (ok reference) allowlist =
      let u = p.resolve_reference base reference in
      url_problems field u allowlist false
      ++ when (is_absolute reference && is_empty allowlist && not (same_origin base u)) (
          field
          +++ " absolute URL host "
          +++ quote (p.host u)
          +++ " does not match target.base_url host "
          +++ quote (p.host base)
          +++ "; configure target allowlist to permit external targets")

  unfoldable pub path_problems : String → p.Url → String → List String → List String
  path_problems field base path allowlist =
      reference_problems field base (p.parse_url path) allowlist

  unfoldable pub request_target_problems :
      String → ℕ → p.Url → List Request → List String → List String
  request_target_problems prefix i base [] allowlist = []
  request_target_problems prefix i base (r ∷ rs) allowlist =
      path_problems (at_index prefix i ".path") base r.path allowlist
      ++ request_target_problems prefix (suc i) base rs allowlist

  -- Only a probe addresses a host.
  unfoldable pub invariant_target_problems : ℕ → p.Url → List Invariant → List String → List String
  invariant_target_problems i base [] allowlist = []
  invariant_target_problems i base (inv ∷ invs) allowlist =
      (if inv.type == "http_probe"
        then path_problems (at_index "invariants" i ".path") base inv.path allowlist
        else [])
      ++ invariant_target_problems (suc i) base invs allowlist

  unfoldable pub target_problems : Scenario → Guardrails → Result p.Url → List String
  target_problems s g (err e) = ("target.base_url " +++ e) ∷ []
  target_problems s g (ok base) =
      url_problems "target.base_url" base g.target_allowlist g.allow_metadata_target
      ++ (request_target_problems "setup" 0 base s.setup g.target_allowlist
          ++ (request_target_problems "requests" 0 base s.requests g.target_allowlist
              ++ (request_target_problems "teardown" 0 base s.teardown g.target_allowlist
                  ++ invariant_target_problems 0 base s.invariants g.target_allowlist)))

  unfoldable pub violations : Scenario → Guardrails → List String
  violations s g =
      limit_problems s g
      ++ (body_problems "setup" 0 s.setup g.max_request_body_bytes
          ++ (body_problems "requests" 0 s.requests g.max_request_body_bytes
              ++ (body_problems "teardown" 0 s.teardown g.max_request_body_bytes
                  ++ target_problems s g (parse_target_url s.target.base_url))))

  -- ViolationError.Error, for a list that is not empty.
  unfoldable pub violation_error : List String → Option String
  violation_error [] = none
  violation_error (v ∷ vs) = some ("guardrail violation: " +++ join "; " (v ∷ vs))

  unfoldable pub check_scenario : Scenario → Guardrails → Option String
  check_scenario s g = violation_error (violations s g)

  unfoldable pub base_url_violations : Guardrails → Result p.Url → List String
  base_url_violations g (err e) = ("target.base_url " +++ e) ∷ []
  base_url_violations g (ok u) =
      url_problems "target.base_url" u g.target_allowlist g.allow_metadata_target

  unfoldable pub check_base_url : String → Guardrails → Option String
  check_base_url raw g = violation_error (base_url_violations g (parse_target_url raw))
