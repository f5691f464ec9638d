-- ===== src/Http.antt =====
-- The HTTP API (apps/api/internal/httpapi/server.go): its state and its answers. The handlers are in
-- the modules below; each takes the decoded request, or the error of the decoder. Encoding an answer
-- and the headers of the two wrappers of the mux are not modelled.
pub mod Prepare
pub mod Targets
pub mod Scenarios
pub mod Runs
pub mod Execute
pub mod Cancel
pub mod Stream
pub mod Metrics
use wreckr.Prelude.{
  inl, inr, ◌⊎◌, refl, ◌≡◌, ℕ, ℤ, pos, String, Bool, true, false, List, [], ◌∷◌, Option, none, some,
  Dict, lookup, insert, erase, is_some, ltb_ℤ, ◌&&◌, if◌then◌else◌,
}
use wreckr.Event.{Event}
use wreckr.Report.{Report}
use wreckr.Store.{TargetRecord, ScenarioRecord, ScenarioVersionRecord, RunRecord, Memory}
use wreckr.Guardrails.{Guardrails}

pub record Config : Type 0 where
  pub run_timeout : ℤ
  pub guardrails : Guardrails

-- The server's own state beside the store: the runs that execute in this process, and those of them
-- that a client asked to cancel.
pub record Server : Type 0 where
  pub store : Memory
  pub run_cancels : Dict (Unit {0})
  pub cancel_requests : Dict (Unit {0})

-- What an answer carries; `raw` is a report as the object store holds it.
pub data Body : Type 0 where
  error : String → Body
  target : TargetRecord → Body
  targets : List TargetRecord → Body
  scenario : ScenarioRecord → Body
  scenarios : List ScenarioRecord → Body
  version : ScenarioVersionRecord → Body
  versions : List ScenarioVersionRecord → Body
  run : Option RunRecord → Body
  runs : List RunRecord → Body
  report : Report → Body
  raw : String → Body
  events : List Event → Body
  canceled : String → Body
  empty : Body

pub record Answer : Type 0 where
  pub code : ℕ
  pub body : Body

abbrev pub answer : ℕ → Body → Answer
answer code body = record { code = code; body = body }

-- A step of a handler that may end it with an answer.
pub data Step {ℓ} (A : Type ℓ) : Type ℓ where
  go : A → Step A
  stop : Answer → Step A

infixl 5 ◌>>=◌
abbrev pub ◌>>=◌ {ℓ κ} : {A : Type ℓ} {B : Type κ} → Step A → (A → Step B) → Step B
go a >>= f = f a
stop e >>= f = stop e

-- writeError
abbrev pub fail {ℓ} : {A : Type ℓ} → ℕ → String → Step A
fail code message = stop (answer code (error message))

-- A check that reports an error by its text.
abbrev pub check : ℕ → Option String → Step (Unit {0})
check code none = go tt
check code (some e) = fail code e

abbrev pub found {ℓ} : {A : Type ℓ} → ℕ → String → Option A → Step A
found code message none = fail code message
found code message (some a) = go a

pub Step-cases {ℓ} :
    {A : Type ℓ} (m : Step A) → ((a : Answer) × (m ≡ stop a)) ⊎ ((x : A) × (m ≡ go x))
Step-cases (go x) = inr (x, refl)
Step-cases (stop a) = inl (a, refl)

pub >>=-eq-go {ℓ κ} :
    {A : Type ℓ} {B : Type κ} (m : Step A) (f : A → Step B) (b : B)
    → (m >>= f) ≡ go b
    → (a : A) × (m ≡ go a) × (f a ≡ go b)
>>=-eq-go (go a) f b h = (a, refl, h)
>>=-eq-go (stop e) f b h = cc

-- The cancel functions, by the runs that registered one.
unfoldable pub register_run_cancel : String → Server → Server
register_run_cancel id s = record s { run_cancels = insert id tt s.run_cancels }

-- Calls the cancel function of a run that has one, which ends the context of its execution.
unfoldable pub request_run_cancel : String → Server → Server × Bool
request_run_cancel id s =
    if is_some (lookup id s.run_cancels)
    then (record s { cancel_requests = insert id tt s.cancel_requests }, true)
    else (s, false)

unfoldable pub finish_run_cancel : String → Server → Server × Bool
finish_run_cancel id s = (
  record s { run_cancels = erase id s.run_cancels; cancel_requests = erase id s.cancel_requests },
  is_some (lookup id s.cancel_requests),
)

unfoldable pub effective_run_timeout : Config → ℤ
effective_run_timeout c =
    if ltb_ℤ (pos 0) c.guardrails.max_run_duration
      && ltb_ℤ c.guardrails.max_run_duration c.run_timeout
    then c.guardrails.max_run_duration
    else c.run_timeout
