-- ===== src/Runner/Send.antt =====
-- Sending one request (apps/api/internal/runner/runner.go, executeRequest, requestBody and
-- containsStatus). The HTTP client is a parameter.
pub mod Outcome
pub mod Identity
use wreckr.Prelude.{
  ℕ, suc, zero, ℤ, pos, String, ◌+++◌, Bool, true, false, not, ◌&&◌, List, [], ◌∷◌, ◌++◌, Option,
  none, some, any, length, show, show_ℤ, join, map, ltb, leb_ℤ, eqb_ℤ, is_nil, is_empty, Dict,
  lookup, insert, if◌then◌else◌,
}
use wreckr.Platform.{Platform, Result, ok, err}
use wreckr.Value.{Float64, Json, Meta}
use wreckr.Event.{
  Event, Level, info, error, EventType, request_started, request_completed, assertion_failed, Time,
  Metadata, new_event,
}
use wreckr.Scenario.{Scenario, Headers, Request}
use wreckr.Report.{ResponseRecord}
use wreckr.Report.Build.{has_error}
use wreckr.Runner.{join_url, emit}

pub record HttpRequest : Type 0 where
  pub method : String
  pub url : String
  pub headers : Dict String
  pub body : Option String

-- The bytes of the body, and the error that ends the reading of them, if one does.
pub record HttpResponse : Type 0 where
  pub status_code : ℤ
  pub body : List ℕ
  pub failure : Option String

-- What the runner takes of net/http and encoding/json: http.CanonicalHeaderKey, the error of
-- http.NewRequestWithContext for a method and a URL, string(raw), and json.Unmarshal into an `any`.
pub record Net : Type 0 where
  pub canonical_key : String → String
  pub refused : String → String → Option String
  pub text_of : List ℕ → String
  pub decode : List ℕ → Result Json

-- What one request meets: the reading of the clock before it, the milliseconds that pass until it is
-- answered or fails, and Client.Do.
pub record Exchange : Type 0 where
  pub started_at : Time
  pub duration : Float64
  pub answer : HttpRequest → Result HttpResponse

unfoldable pub contains_status : List ℤ → ℤ → Bool
contains_status statuses status = any (λ expected. eqb_ℤ expected status) statuses

-- The body, and the content type that it stands for.
unfoldable pub request_body : Request → Option String × String
request_body r =
    if not (is_nil r.json)
    then (some r.json, "application/json")
    else if not (is_nil r.body)
    then (some r.body, "text/plain")
    else (none, "")

abbrev pub max_body_preview_bytes : ℕ
max_body_preview_bytes = 4096

unfoldable pub take {ℓ} : {A : Type ℓ} → ℕ → List A → List A
take zero xs = []
take (suc n) [] = []
take (suc n) (x ∷ xs) = x ∷ take n xs

-- io.ReadAll(io.LimitReader(body, n)): at most n bytes, and an error only if it stands before them.
unfoldable pub read_limited : ℕ → HttpResponse → List ℕ × Option String
unfolding take
read_limited n r = (take n r.body, if ltb (length r.body) n then r.failure else none)

-- fmt's %v of a slice of numbers.
show_ints : List ℤ → String
show_ints ns = "[" +++ join " " (map show_ℤ ns) +++ "]"

unexpected : List ℤ → ℤ → String
unfolding show_ints
unexpected expected status =
    "unexpected status " +++ show_ℤ status +++ ", expected " +++ show_ints expected

-- The error that the status makes of a response.
unfoldable pub status_error : List ℤ → ℤ → String
unfolding contains_status unexpected
status_error [] status =
    if leb_ℤ (pos 500) status then "server error status " +++ show_ℤ status else ""
status_error (s ∷ ss) status =
    if contains_status (s ∷ ss) status then "" else unexpected (s ∷ ss) status

-- The metadata that the events of one request begin with.
request_meta : Request → ℤ → ℕ → Metadata
request_meta req iteration attempt =
    ("request", Meta.text req.name)
    ∷ ("method", Meta.text req.method)
    ∷ ("path", Meta.text req.path)
    ∷ ("iteration", Meta.int iteration)
    ∷ ("attempt", Meta.int (pos attempt))
    ∷ []

-- The event of the deferred function, on the record as it is returned.
unfoldable pub completed : String → Request → ResponseRecord → Event
unfolding emit request_meta
completed run_id req r = emit run_id info request_completed "request completed" (
    request_meta req r.iteration r.attempt
    ++ (("status_code", Meta.int r.status_code)
        ∷ ("duration_ms", Meta.float r.duration_ms)
        ∷ (if has_error r then ("error", Meta.text r.error) ∷ [] else [])))

unfoldable pub assertion : String → Request → ResponseRecord → List Event
unfolding emit
assertion run_id req r =
    if not (is_empty req.expect_status) && not (contains_status req.expect_status r.status_code)
    then emit run_id error assertion_failed r.error (
        ("request", Meta.text req.name)
        ∷ ("iteration", Meta.int r.iteration)
        ∷ ("attempt", Meta.int (pos r.attempt))
        ∷ ("expected", Meta.ints req.expect_status)
        ∷ ("actual", Meta.int r.status_code)
        ∷ ("status_code", Meta.int r.status_code)
        ∷ [])
      ∷ []
    else []

-- After the body was read.
unfoldable pub judge_read :
    String → Request → ResponseRecord → Option String → ResponseRecord × List Event
unfolding status_error assertion
judge_read run_id req r (some e) = (record r { error = e }, [])
judge_read run_id req r none =
    let judged : ResponseRecord = record r {
      error = status_error req.expect_status r.status_code;
    } in
    (judged, assertion run_id req judged)

unfoldable pub blank_record : Request → ℤ → ℕ → Exchange → ResponseRecord
blank_record req iteration attempt x = record {
  request_name = req.name;
  iteration = iteration;
  attempt = attempt;
  status_code = pos 0;
  duration_ms = x.duration;
  error = "";
  body_preview = "";
  started_at = x.started_at;
}

-- The empty string stands for a missing value.
abbrev pub or_blank : Option String → String
or_blank none = ""
or_blank (some v) = v

module _ (net : Net) where
  -- Header.Set and Header.Get
  unfoldable pub set_header : String → String → Dict String → Dict String
  set_header key value h = insert (net.canonical_key key) value h

  unfoldable pub get_header : Dict String → String → String
  get_header h key = or_blank (lookup (net.canonical_key key) h)

  unfoldable pub set_all : Dict String → Dict String → Dict String
  unfolding set_header
  set_all [] h = h
  set_all ((key, value) ∷ more) h = set_all more (set_header key value h)

  unfoldable pub set_headers : Headers → Dict String → Dict String
  unfolding set_all
  set_headers none h = h
  set_headers (some given) h = set_all given h

  unfoldable pub set_content_type : String → Dict String → Dict String
  unfolding set_header get_header
  set_content_type type h =
      if not (is_nil type) && is_nil (get_header h "Content-Type")
      then set_header "Content-Type" type h
      else h

  unfoldable pub set_identity : String → String → String → ℤ → ℕ → Dict String → Dict String
  unfolding set_header
  set_identity run_id scenario request iteration attempt h =
      set_header "X-Wreckr-Attempt" (show attempt) (
        set_header "X-Wreckr-Iteration" (show_ℤ iteration) (
          set_header "X-Wreckr-Request" request
            (set_header "X-Wreckr-Scenario" scenario (set_header "X-Wreckr-Run-ID" run_id h))))

  unfoldable pub http_request : String → Scenario → Request → ℤ → ℕ → String → HttpRequest
  unfolding set_headers set_content_type set_identity request_body
  http_request run_id sc req iteration attempt url =
      let (body, content_type) = request_body req in
      record {
        method = req.method;
        url = url;
        headers = set_identity run_id sc.name req.name iteration attempt (
            set_content_type content_type
              (set_headers req.headers (set_headers sc.target.headers [])));
        body = body;
      }

  -- The record with the status and the bytes of the body that it keeps.
  unfoldable pub opened : ResponseRecord → ℤ → List ℕ → ResponseRecord
  unfolding take
  opened r status raw = record r {
    status_code = status;
    body_preview = net.text_of (take max_body_preview_bytes raw);
  }

  -- After Client.Do; `r` has the duration.
  unfoldable pub receive :
      String → Request → ResponseRecord → Result HttpResponse → ResponseRecord × List Event
  unfolding read_limited judge_read opened
  receive run_id req r (err e) = (record r { error = e }, [])
  receive run_id req r (ok response) =
      let (raw, failure) = read_limited (suc max_body_preview_bytes) response in
      judge_read run_id req (opened r response.status_code raw) failure

  -- After http.NewRequestWithContext, by the error that it gives.
  unfoldable pub send_accepted :
      String
      → Scenario
      → Request
      → ℤ
      → ℕ
      → Exchange
      → String
      → Option String
      → ResponseRecord × List Event
  unfolding blank_record receive http_request
  send_accepted run_id sc req iteration attempt x url (some e) =
      (record (blank_record req iteration attempt x) { error = e }, [])
  send_accepted run_id sc req iteration attempt x url none =
      receive run_id req (blank_record req iteration attempt x)
        (x.answer (http_request run_id sc req iteration attempt url))

  -- After joinURL.
  unfoldable pub send_joined :
      String → Scenario → Request → ℤ → ℕ → Exchange → Result String → ResponseRecord × List Event
  unfolding blank_record send_accepted
  send_joined run_id sc req iteration attempt x (err e) =
      (record (blank_record req iteration attempt x) { error = e }, [])
  send_joined run_id sc req iteration attempt x (ok url) =
      send_accepted run_id sc req iteration attempt x url (net.refused req.method url)

  -- The record of the request, and the events that are emitted for it.
  unfoldable pub execute_request :
      Platform → String → Scenario → Request → ℤ → ℕ → Exchange → ResponseRecord × List Event
  unfolding send_joined completed emit request_meta
  execute_request p run_id sc req iteration attempt x =
      let (r, events) =
        send_joined run_id sc req iteration attempt x (join_url p sc.target.base_url req.path) in
      (
        r,
        emit run_id info request_started "request started" (request_meta req iteration attempt)
            ∷ (events ++ completed run_id req r ∷ []),
      )
