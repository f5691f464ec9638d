-- ===== src/Scenario/Normal.antt =====
-- What Normalized fixes, and that it is done after one pass
-- (apps/api/internal/scenario/schema.go).
use Prim.Native.Char.{Char}
use mathlib.Core.Path.{ap₂}
use wreckr.Prelude.{
  ℤ, pos, String, ◌≡◌, refl, Bool, true, false, ◌&&◌, List, [], ◌∷◌, map, none, some, arith, ltb_ℤ,
  eqb_ℤ, is_nil, is_some, if◌then◌else◌, all,
}
use wreckr.Platform.{Platform, to_upper, upper_char}
use wreckr.Scenario.{Scenario, Headers, Request, Invariant, Traffic, TrafficType, unset}
use wreckr.Scenario.Normalize.{
  or_empty, or_load, is_retry_storm, normalize_traffic, normalize_method, normalize_request,
  normalize_invariant, normalized,
}

normalize_traffic_idem :
    (t : Traffic) → normalize_traffic (normalize_traffic t) ≡ normalize_traffic t
unfolding normalize_traffic
normalize_traffic_idem t = ground arith

abbrev or_first : ℤ → ℤ
or_first n = if eqb_ℤ n (pos 0) then pos 1 else n

version_idem : (n : ℤ) → or_first (or_first n) ≡ or_first n
version_idem n = ground arith

abbrev pub is_unset : TrafficType → Bool
is_unset unset = true
is_unset _ = false

or_empty-is_some : (h : Headers) → is_some (or_empty h) ≡ true
unfolding or_empty
or_empty-is_some none = refl
or_empty-is_some (some h) = refl

headers_of_requests :
    (p : Platform) (rs : List Request)
    → all (λ r. is_some r.headers) (map (normalize_request p) rs) ≡ true
unfolding normalize_request
headers_of_requests p [] = refl
headers_of_requests p (r ∷ rs) = rw (or_empty-is_some r.headers) (headers_of_requests p rs)

-- After normalisation the traffic has a type, at least one worker and one iteration, and a retry
-- storm at least one attempt; the version is not 0, and no header map of the target or of a request
-- is nil.
pub normalized_lem :
    (p : Platform) (s : Scenario)
    → let n = normalized p s in
      (is_unset n.traffic.type ≡ false)
      × (ltb_ℤ n.traffic.concurrency (pos 1) ≡ false)
      × (ltb_ℤ n.traffic.iterations (pos 1) ≡ false)
      × (is_retry_storm n.traffic.type && ltb_ℤ n.traffic.retry.attempts (pos 1) ≡ false)
      × (eqb_ℤ n.version (pos 0) ≡ false)
      × (is_some n.target.headers ≡ true)
      × (all (λ r. is_some r.headers) n.requests ≡ true)
unfolding normalized normalize_traffic or_empty is_retry_storm or_load
normalized_lem p s = (
  ground arith,
  ground arith,
  ground arith,
  ground arith,
  ground arith,
  ground arith,
  headers_of_requests p s.requests,
)

module _ (p : Platform) (idem : (c : Char) → upper_char p (upper_char p c) ≡ upper_char p c) where
  to_upper_idem : (s : String) → to_upper p (to_upper p s) ≡ to_upper p s
  unfolding to_upper
  to_upper_idem String.[] = refl
  to_upper_idem (String.◌∷◌ c s) = ap₂ String.◌∷◌ (idem c) (to_upper_idem s)

  normalize_method_idem :
      (m : String) → normalize_method p (normalize_method p m) ≡ normalize_method p m
  unfolding normalize_method to_upper is_nil
  normalize_method_idem String.[] = refl
  normalize_method_idem (String.◌∷◌ c s) = to_upper_idem (String.◌∷◌ c s)

  or_empty_idem : (h : Headers) → or_empty (or_empty h) ≡ or_empty h
  unfolding or_empty
  or_empty_idem none = refl
  or_empty_idem (some h) = refl

  normalize_request_idem :
      (r : Request) → normalize_request p (normalize_request p r) ≡ normalize_request p r
  unfolding normalize_request
  normalize_request_idem r = cc (normalize_method_idem r.method, or_empty_idem r.headers)

  normalize_invariant_idem :
      (i : Invariant) → normalize_invariant p (normalize_invariant p i) ≡ normalize_invariant p i
  unfolding normalize_invariant
  normalize_invariant_idem i = cc (normalize_method_idem i.method, or_empty_idem i.headers)

  map_idem {ℓ} :
      {A : Type ℓ} (f : A → A)
      → ((a : A) → f (f a) ≡ f a)
      → (xs : List A) → map f (map f xs) ≡ map f xs
  map_idem f h [] = refl
  map_idem f h (x ∷ xs) = ap₂ ◌∷◌ (h x) (map_idem f h xs)

  -- A second pass changes nothing, where the upper case of a character is its own upper case.
  pub normalized_idem : (s : Scenario) → normalized p (normalized p s) ≡ normalized p s
  unfolding normalized
  normalized_idem s = cc (
    normalize_traffic_idem s.traffic,
    or_empty_idem s.target.headers,
    version_idem s.version,
    map_idem (normalize_request p) normalize_request_idem s.setup,
    map_idem (normalize_request p) normalize_request_idem s.requests,
    map_idem (normalize_request p) normalize_request_idem s.teardown,
    map_idem (normalize_invariant p) normalize_invariant_idem s.invariants,
  )
