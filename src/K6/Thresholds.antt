-- ===== src/K6/Thresholds.antt =====
-- The thresholds of a k6 script (apps/api/internal/k6script/compiler.go, k6Thresholds and
-- statusCodesToTrack).
pub mod Tracked
use wreckr.Prelude.{
  ℕ, zero, suc, ◌-◌, ◌*◌, ◌%◌, ◌^◌, ltb, int_limit, ℤ, pos, negsuc, pos_part, neg_part, String,
  ◌+++◌, ◌==◌, Bool, true, false, not, List, [], ◌∷◌, ◌++◌, Option, none, some, Dict, insert, map,
  any, join, show, show_ℤ, quote, is_nil, is_empty, ltb_ℤ, leb_ℤ, eqb, eqb_ℤ, sort_entries,
  if◌then◌else◌,
}
use wreckr.Platform.{Platform, Result, ok, err}
use wreckr.Value.{Float64, Json}
use wreckr.Scenario.{
  Scenario, Headers, Request, Invariant, Thresholds, Traffic, TrafficType, race, retry_storm,
}
use wreckr.Scenario.Normalize.{normalized, with_env, is_retry_storm}
use wreckr.Scenario.Validate.{validate}
use wreckr.Report.Build.{FloatOps}

abbrev pub common_codes : List ℤ
common_codes =
    pos 0
    ∷ pos 200
    ∷ pos 201
    ∷ pos 204
    ∷ pos 400
    ∷ pos 401
    ∷ pos 403
    ∷ pos 404
    ∷ pos 409
    ∷ pos 500
    ∷ pos 502
    ∷ pos 503
    ∷ pos 504
    ∷ []

-- The loop over the expected codes.
unfoldable pub add_codes : List ℤ → List ℤ → List ℤ
add_codes [] codes = codes
add_codes (c ∷ cs) codes =
    add_codes cs (if any (λ existing. eqb_ℤ existing c) codes then codes else codes ++ c ∷ [])

unfoldable pub status_codes_to_track : List ℤ → List ℤ
unfolding add_codes
status_codes_to_track expected = add_codes expected common_codes

-- The key of the threshold that makes k6 count a status of a request.
unfoldable pub status_metric : String → ℤ → String
status_metric name code = "http_reqs{name:" +++ quote name +++ ",status:" +++ show_ℤ code +++ "}"

track_codes : String → List ℤ → Dict (List String) → Dict (List String)
unfolding status_metric
track_codes name [] out = out
track_codes name (c ∷ cs) out =
    track_codes name cs (insert (status_metric name c) ("count>=0" ∷ []) out)

unfoldable pub track_requests : List Request → Dict (List String) → Dict (List String)
unfolding track_codes status_codes_to_track
track_requests [] out = out
track_requests (r ∷ rs) out =
    track_requests rs (track_codes r.name (status_codes_to_track r.expect_status) out)

module _ (f : FloatOps) where
  latency_metric : Option Float64 → Dict (List String) → Dict (List String)
  latency_metric none out = out
  latency_metric (some x) out = insert "http_req_duration" (("p(95)<=" +++ f.fixed 1 x) ∷ []) out

  success_metric : Option Float64 → Dict (List String) → Dict (List String)
  success_metric none out = out
  success_metric (some x) out = insert "checks" (("rate>=" +++ f.fixed 4 (f.sub f.one x)) ∷ []) out

  -- The two thresholds of the scenario.
  limit_metrics : Thresholds → Dict (List String)
  unfolding latency_metric success_metric
  limit_metrics t = success_metric t.max_error_rate (latency_metric t.p95_ms [])

  unfoldable pub k6_thresholds : Scenario → Dict (List String)
  unfolding limit_metrics track_requests
  k6_thresholds sc =
      track_requests sc.teardown
        (track_requests sc.requests (track_requests sc.setup (limit_metrics sc.thresholds)))
