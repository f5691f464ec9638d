-- ===== src/Runner/Send/Outcome.antt =====
-- When a request counts as failed, and the events of one request
-- (apps/api/internal/runner/runner.go, executeRequest).
use wreckr.Prelude.{
  if-eq-some, is_nil-append, show_ℤ, is_some, ◌+++◌, ℕ, suc, ℤ, pos, String, ◌≡◌, refl, Bool, true,
  false, not, ◌&&◌, List, [], ◌∷◌, Option, none, some, arith, is_nil, Bool-cases, inl, inr, ltb_ℤ,
  leb_ℤ, if◌then◌else◌,
}
use wreckr.Platform.{Platform, Result, ok, err}
use wreckr.Scenario.{Scenario, Request}
use wreckr.Report.{ResponseRecord}
use wreckr.Report.Build.{has_error}
use wreckr.Runner.{joined, join_url}
use wreckr.Runner.Send.{
  opened, show_ints, unexpected, HttpRequest, HttpResponse, Net, Exchange, max_body_preview_bytes,
  read_limited, contains_status, status_error, http_request, judge_read, receive, blank_record,
  send_accepted, send_joined, execute_request,
}

-- Which statuses a request takes: those that it lists, or all below 500.
abbrev pub takes : List ℤ → ℤ → Bool
takes [] status = ltb_ℤ status (pos 500)
takes (s ∷ ss) status = contains_status (s ∷ ss) status

status_error-nil :
    (expected : List ℤ) (status : ℤ) → is_nil (status_error expected status) ≡ takes expected status
unfolding status_error unexpected
status_error-nil [] status =
    let text : is_nil ("server error status " +++ show_ℤ status) ≡ false =
      is_nil-append "server error status " (show_ℤ status) (unfold is_nil in refl) in
    elim (Bool-cases (leb_ℤ (pos 500) status)) [
      | inl q ↦ rw q (ground (arith, text))
      | inr q ↦ rw q (unfold is_nil in ground arith)
    ]
status_error-nil (s ∷ ss) status = elim (Bool-cases (contains_status (s ∷ ss) status)) [
  | inl q ↦ rw q (unfold is_nil in refl)
  | inr q ↦ rw q (
      is_nil-append "unexpected status " (show_ℤ status +++ ", expected " +++ show_ints (s ∷ ss))
        (unfold is_nil in refl))
]

module _ (p : Platform) (net : Net) where
  -- Every error has a text, as those of the packages of Go do.
  pub record Speaks (x : Exchange) : Type 0 where
    pub parse : (s e : String) → p.parse_url s ≡ err e → is_nil e ≡ false
    pub refusal : (method url e : String) → net.refused method url ≡ some e → is_nil e ≡ false
    pub transport : (r : HttpRequest) (e : String) → x.answer r ≡ err e → is_nil e ≡ false
    pub reading :
        (r : HttpRequest) (a : HttpResponse) (e : String)
        → x.answer r ≡ ok a
        → a.failure ≡ some e
        → is_nil e ≡ false

  -- The response was read, up to the limit, and its status is one that the request takes.
  abbrev pub good_answer : Request → Result HttpResponse → Bool
  good_answer req (err e) = false
  good_answer req (ok a) =
      not (is_some (read_limited (suc max_body_preview_bytes) a).1)
      && takes req.expect_status a.status_code

  abbrev pub good_made : Request → Option String → Result HttpResponse → Bool
  good_made req (some e) answer = false
  good_made req none answer = good_answer req answer

  abbrev pub good_url : (String → Bool) → Result String → Bool
  good_url made (err e) = false
  good_url made (ok url) = made url

  -- The URL of the request can be made, the request too, and the answer to it is good.
  abbrev pub succeeds : String → Scenario → Request → ℤ → ℕ → Exchange → Bool
  succeeds run_id sc req iteration attempt x =
      good_url
        (λ url.
          good_made req (net.refused req.method url)
            (x.answer (http_request net run_id sc req iteration attempt url)))
        (join_url p sc.target.base_url req.path)

  module _ (run_id : String) (sc : Scenario) (req : Request) (iteration : ℤ) (attempt : ℕ)
      (x : Exchange) (speaks : Speaks x) where
    read_lem :
        (r : ResponseRecord) (o : Option String)
        → ((e : String) → o ≡ some e → is_nil e ≡ false)
        → has_error (judge_read run_id req r o).0
          ≡ not (not (is_some o) && takes req.expect_status r.status_code)
    unfolding judge_read
    read_lem r (some e) h = let q = h e refl in rw q refl
    read_lem r none h = rw (status_error-nil req.expect_status r.status_code) refl

    answered_lem :
        (r : ResponseRecord) (made : HttpRequest) (o : Result HttpResponse)
        → x.answer made ≡ o
        → has_error (receive net run_id req r o).0 ≡ not (good_answer req o)
    unfolding receive read_limited
    answered_lem r made (err e) h = let q = speaks.transport made e h in rw q refl
    answered_lem r made (ok a) h =
        read_lem (opened net r a.status_code (read_limited (suc max_body_preview_bytes) a).0) _
          (λ e q. speaks.reading made a e h (if-eq-some _ a.failure q).1)

    accepted_lem :
        (url : String) (o : Option String)
        → net.refused req.method url ≡ o
        → has_error (send_accepted net run_id sc req iteration attempt x url o).0
          ≡ not (good_made req o (x.answer (http_request net run_id sc req iteration attempt url)))
    unfolding send_accepted
    accepted_lem url (some e) h = let q = speaks.refusal req.method url e h in rw q refl
    accepted_lem url none h =
        answered_lem (blank_record req iteration attempt x)
          (http_request net run_id sc req iteration attempt url) _ refl

    literal_or_joined :
        (b : Bool) (path : String) (base rel : Result p.Url) (e : String)
        → (if b then ok path else joined p base rel) ≡ err e
        → joined p base rel ≡ err e
    literal_or_joined true path base rel e h = cc
    literal_or_joined false path base rel e h = h

    joined_lem :
        (base rel : Result p.Url) (e : String)
        → ((f : String) → base ≡ err f → is_nil f ≡ false)
        → ((f : String) → rel ≡ err f → is_nil f ≡ false)
        → joined p base rel ≡ err e
        → is_nil e ≡ false
    unfolding joined
    joined_lem (err f) rel e h k q = let w = h f refl in cc
    joined_lem (ok base) (err f) e h k q = let w = k f refl in cc
    joined_lem (ok base) (ok rel) e h k q = cc

    url_lem : (raw path e : String) → join_url p raw path ≡ err e → is_nil e ≡ false
    unfolding join_url
    url_lem raw path e q =
        joined_lem (p.parse_url raw) (p.parse_url path) e (speaks.parse raw) (speaks.parse path)
          (literal_or_joined _ path _ _ e q)

    sent_lem :
        (o : Result String)
        → join_url p sc.target.base_url req.path ≡ o
        → has_error (send_joined net run_id sc req iteration attempt x o).0
          ≡ not (
              good_url
                (λ url.
                  good_made req
                    (net.refused req.method url)
                    (x.answer (http_request net run_id sc req iteration attempt url)))
                o)
    unfolding send_joined
    sent_lem (err e) h = let q = url_lem sc.target.base_url req.path e h in rw q refl
    sent_lem (ok url) h = accepted_lem url (net.refused req.method url) refl

    -- The record of a request has an error exactly when its URL cannot be made, net/http refuses it, the
    -- client fails, the body cannot be read up to the limit, or the status is none of those expected, or,
    -- where none is listed, one from 500; provided that the errors of Go's packages have a text.
    pub execute_request_lem :
        has_error (execute_request net p run_id sc req iteration attempt x).0
        ≡ not (succeeds run_id sc req iteration attempt x)
    unfolding execute_request
    execute_request_lem = sent_lem (join_url p sc.target.base_url req.path) refl
