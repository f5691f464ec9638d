-- ===== src/Scenario/Validate.antt =====
-- Scenario.Validate (apps/api/internal/scenario/schema.go). The problems are listed in the order in
-- which the code appends them.
use wreckr.Prelude.{
  when, ℕ, suc, pos, String, ◌+++◌, ◌==◌, Bool, true, false, not, ◌&&◌, List, [], ◌∷◌, ◌++◌, Option,
  none, some, show, ltb_ℤ, eqb_ℤ, is_nil, is_some, is_empty, trim_space, join, if◌then◌else◌,
}
use wreckr.Platform.{Platform, Result, ok, err}
use wreckr.Scenario.{Scenario, Request, Invariant, Traffic, TrafficType, unset}

-- strings.TrimSpace(s) == ""
unfoldable pub is_blank : String → Bool
is_blank s = is_nil (trim_space s)

unfoldable pub is_known : TrafficType → Bool
is_known unset = false
is_known (TrafficType.other _) = false
is_known _ = true

-- prefix[i].field
unfoldable pub at_index : String → ℕ → String → String
at_index prefix i rest = prefix +++ "[" +++ show i +++ "]" +++ rest

-- The switch on an invariant's type.
unfoldable pub type_problems : ℕ → Invariant → List String
type_problems i inv =
    if inv.type == "response_count"
    then when (not (is_some inv.equals) && not (is_some inv.min) && not (is_some inv.max))
        (at_index "invariants" i " response_count needs equals, min, or max")
    else if inv.type == "http_probe"
    then when (is_nil inv.path) (at_index "invariants" i " http_probe needs path")
      ++ when (is_nil inv.expect_json_path)
          (at_index "invariants" i " http_probe needs expect.json_path")
    else at_index "invariants" i ".type must be response_count or http_probe" ∷ []

unfoldable pub invariant_problems : ℕ → List Invariant → List String
unfolding type_problems
invariant_problems i [] = []
invariant_problems i (inv ∷ invs) =
    when (is_blank inv.name) (at_index "invariants" i ".name is required")
    ++ (type_problems i inv ++ invariant_problems (suc i) invs)

unfoldable pub traffic_problems : Traffic → List String
traffic_problems t =
    when (not (is_known t.type)) "traffic.type must be one of load, burst, spike, race, retry_storm"
    ++ (when (ltb_ℤ t.concurrency (pos 1)) "traffic.concurrency must be >= 1"
        ++ (when (ltb_ℤ t.iterations (pos 1)) "traffic.iterations must be >= 1"
            ++ (when (ltb_ℤ t.rate_per_second (pos 0)) "traffic.rate_per_second must be >= 0"
                ++ (when (ltb_ℤ t.retry.attempts (pos 0)) "traffic.retry.attempts must be >= 0"
                    ++ when (ltb_ℤ t.retry.backoff_ms (pos 0))
                        "traffic.retry.backoff_ms must be >= 0"))))

module _ (p : Platform) where
  -- parseHTTPURL, by its error.
  unfoldable pub url_problem : Result p.Url → Option String
  url_problem (err e) = some e
  url_problem (ok u) =
      if not (p.scheme u == "http") && not (p.scheme u == "https")
      then some "must use http or https"
      else if is_nil (p.host u)
      then some "must include a host"
      else none

  unfoldable pub parse_http_url : String → Option String
  unfolding url_problem
  parse_http_url raw = if is_blank raw then some "is required" else url_problem (p.parse_url raw)

  unfoldable pub prefixed : String → Option String → List String
  prefixed field none = []
  prefixed field (some e) = (field +++ e) ∷ []

  unfoldable pub request_problems : String → ℕ → List Request → List String
  request_problems prefix i [] = []
  request_problems prefix i (r ∷ rs) =
      when (is_blank r.name) (at_index prefix i ".name is required")
      ++ (when (is_nil r.path) (at_index prefix i ".path is required")
          ++ (when (not (is_nil r.json) && not (p.json_valid r.json))
                (at_index prefix i ".json must be valid JSON")
              ++ request_problems prefix (suc i) rs))

  unfoldable pub problems : Scenario → List String
  unfolding prefixed
  problems s =
      when (not (eqb_ℤ s.version (pos 1))) "version must be 1"
      ++ (when (is_blank s.name) "name is required"
          ++ (prefixed "target.base_url " (parse_http_url s.target.base_url)
              ++ (when (is_empty s.requests) "at least one request is required"
                  ++ (traffic_problems s.traffic
                      ++ (request_problems "setup" 0 s.setup
                          ++ (request_problems "requests" 0 s.requests
                              ++ (request_problems "teardown" 0 s.teardown
                                  ++ invariant_problems 0 s.invariants)))))))

  -- The error that Validate returns.
  unfoldable pub validate : Scenario → Option String
  validate s = if is_empty (problems s) then none else some (join "; " (problems s))
