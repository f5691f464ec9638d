-- ===== src/Scenario/Normalize.antt =====
-- Scenario.WithEnv and Scenario.Normalized (apps/api/internal/scenario/schema.go), as functions from a
-- scenario to a scenario. The methods write through the slices and the maps that they are given, so
-- a scenario that shares those changes with it; that is a write in place of Store/Shared.
use wreckr.Prelude.{
  ℤ, pos, String, Bool, true, false, [], ◌∷◌, map, none, some, Dict, eqb_ℤ, leb_ℤ, is_nil,
  if◌then◌else◌,
}
use wreckr.Platform.{Platform, to_upper}
use wreckr.Scenario.{
  Scenario, Headers, Request, Invariant, Traffic, TrafficType, unset, load, retry_storm,
}

-- A nil map becomes an empty one.
unfoldable pub or_empty : Headers → Headers
or_empty none = some []
or_empty (some h) = some h

map_values : (String → String) → Dict String → Dict String
map_values f [] = []
map_values f ((k, v) ∷ h) = (k, f v) ∷ map_values f h

unfoldable pub map_headers : (String → String) → Headers → Headers
unfolding map_values
map_headers f none = none
map_headers f (some h) = some (map_values f h)

unfoldable pub or_load : TrafficType → TrafficType
or_load unset = load
or_load t = t

unfoldable pub is_retry_storm : TrafficType → Bool
is_retry_storm retry_storm = true
is_retry_storm _ = false

-- n <= 0 is replaced by the default.
abbrev at_least_one : ℤ → ℤ → ℤ
at_least_one default n = if leb_ℤ n (pos 0) then default else n

unfoldable pub normalize_traffic : Traffic → Traffic
unfolding or_load is_retry_storm
normalize_traffic t =
    let type = or_load t.type in
    record {
      type = type;
      concurrency = at_least_one (pos 1) t.concurrency;
      iterations = at_least_one (pos 1) t.iterations;
      rate_per_second = t.rate_per_second;
      retry =
          if is_retry_storm type
          then record t.retry { attempts = at_least_one (pos 3) t.retry.attempts }
          else t.retry;
    }

module _ (p : Platform) where
  -- An empty method is GET, and every method is in upper case.
  unfoldable pub normalize_method : String → String
  normalize_method m = to_upper p (if is_nil m then "GET" else m)

  unfoldable pub normalize_request : Request → Request
  normalize_request r = record r {
    method = normalize_method r.method;
    headers = or_empty r.headers;
  }

  unfoldable pub normalize_invariant : Invariant → Invariant
  normalize_invariant i = record i {
    method = normalize_method i.method;
    headers = or_empty i.headers;
  }

  unfoldable pub normalized : Scenario → Scenario
  normalized s = record s {
    version = if eqb_ℤ s.version (pos 0) then pos 1 else s.version;
    traffic = normalize_traffic s.traffic;
    target = record s.target { headers = or_empty s.target.headers };
    setup = map normalize_request s.setup;
    requests = map normalize_request s.requests;
    teardown = map normalize_request s.teardown;
    invariants = map normalize_invariant s.invariants;
  }

  unfoldable pub expand_request : Request → Request
  expand_request r = record r {
    name = p.expand_env r.name;
    path = p.expand_env r.path;
    body = p.expand_env r.body;
    json = if is_nil r.json then r.json else p.expand_env r.json;
    headers = map_headers p.expand_env r.headers;
  }

  unfoldable pub expand_invariant : Invariant → Invariant
  expand_invariant i = record i {
    name = p.expand_env i.name;
    request = p.expand_env i.request;
    path = p.expand_env i.path;
    headers = map_headers p.expand_env i.headers;
  }

  unfoldable pub with_env : Scenario → Scenario
  with_env s = record s {
    name = p.expand_env s.name;
    description = p.expand_env s.description;
    target = record s.target {
      base_url = p.expand_env s.target.base_url;
      headers = map_headers p.expand_env s.target.headers;
    };
    setup = map expand_request s.setup;
    requests = map expand_request s.requests;
    teardown = map expand_request s.teardown;
    invariants = map expand_invariant s.invariants;
  }
