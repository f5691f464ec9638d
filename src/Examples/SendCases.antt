-- ===== src/Examples/SendCases.antt =====
-- Requests of the runner on concrete inputs.
use wreckr.Prelude.{
  arith, ℤ, pos, String, ◌==◌, ◌≡◌, refl, Bool, true, false, not, ◌&&◌, [], ◌∷◌, none, some, lookup,
  or_else, is_nil, has_prefix, if◌then◌else◌,
}
use wreckr.Platform.{ok, err}
use wreckr.Value.{Json}
use wreckr.Report.Build.{has_error}
use wreckr.Runner.Send.{Net, Exchange, execute_request, http_request, request_body}
use wreckr.Runner.Send.Outcome.{Speaks, succeeds, execute_request_lem}
use wreckr.Runner.Send.Identity.{CanonicalNames, identity, own, missing, lookup-http_request}
use wreckr.Examples.Web.{web, parse_address, Address}
use wreckr.Examples.Fixtures.{sample, checkout}
use wreckr.Examples.ReportCases.{nought}

abbrev pub wire : Net
wire = record {
  canonical_key = λ s. if s == "X-Wreckr-Run-ID" then "X-Wreckr-Run-Id" else s;
  refused = λ method url. none;
  text_of = λ bytes. "";
  decode = λ bytes. ok (Json.bool true);
}

-- A server that answers every request with one status and one byte.
abbrev pub answers : ℤ → Exchange
answers status = record {
  started_at = 7;
  duration = nought;
  answer = λ r. ok (record { status_code = status; body = 48 ∷ []; failure = none });
}

chosen-err :
    (b c : Bool) (x y : Address) (e : String)
    → (if b then ok x else if c then err "parse error" else ok y) ≡ err e
    → is_nil e ≡ false
unfolding is_nil
chosen-err true c x y e h = cc
chosen-err false true x y e h = let same : "parse error" ≡ e = cc in rw (← same) refl
chosen-err false false x y e h = cc

parse-err : (s e : String) → parse_address s ≡ err e → is_nil e ≡ false
unfolding parse_address
parse-err s e h = chosen-err (has_prefix s "http://") (has_prefix s "bad:") _ _ e h

answers-Speaks : Speaks web wire (answers (pos 500))
answers-Speaks = record {
  parse = parse-err;
  refusal = λ method url e h. cc;
  transport = λ r e h. cc;
  reading = λ r a e h k. ground arith;
}

execute_request_lem_example :
    has_error (execute_request wire web "run_5" sample checkout (pos 0) 1 (answers (pos 500))).0
    ≡ not (succeeds web wire "run_5" sample checkout (pos 0) 1 (answers (pos 500)))
execute_request_lem_example =
    execute_request_lem web wire "run_5" sample checkout (pos 0) 1 (answers (pos 500))
      answers-Speaks

wire-Canonical : CanonicalNames wire
wire-Canonical = record {
  content_type = refl;
  run_id = refl;
  scenario = refl;
  request = refl;
  iteration = refl;
  attempt = refl;
}

lookup-http_request_example :
    lookup "Content-Type"
      (http_request wire "run_5" sample checkout (pos 0) 1 "http://localhost:9090").headers
    ≡ or_else (identity wire "run_5" "race" "checkout" (pos 0) 1 "Content-Type") (
        if ("Content-Type" == "Content-Type")
          && not (is_nil (request_body checkout).1)
          && missing wire (own wire sample checkout "Content-Type")
        then some (request_body checkout).1
        else own wire sample checkout "Content-Type")
lookup-http_request_example =
    lookup-http_request wire wire-Canonical "Content-Type" "run_5" "http://localhost:9090" sample
      checkout (pos 0) 1
