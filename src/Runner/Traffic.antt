-- ===== src/Runner/Traffic.antt =====
-- The traffic of a run (apps/api/internal/runner/runner.go, runParallel and runRace): goroutines that
-- take turns. The order in which they run, the ticks of the limiter and the moment at which the context
-- ends are a list of moves.
pub mod Counted
pub mod Once
pub mod Returns
use wreckr.Prelude.{
  ℕ, zero, suc, ◌+◌, ◌-◌, ℤ, pos, pos_part, String, Bool, true, false, not, ◌&&◌, ◌||◌, List, [],
  ◌∷◌, ◌++◌, Option, none, some, map, all, is_empty, ltb, eqb, leb_ℤ, ltb_ℤ, if◌then◌else◌,
}
use wreckr.Platform.{Platform}
use wreckr.Event.{Event}
use wreckr.Scenario.{Scenario, Request, TrafficType, race, retry_storm}
use wreckr.Scenario.Normalize.{is_retry_storm}
use wreckr.Report.{ResponseRecord}
use wreckr.Runner.Limiter.{wait, new_request_limiter}
use wreckr.Runner.Send.{Net, Exchange, execute_request}

-- One call of executeRequest.
pub record Turn : Type 0 where
  pub request : Request
  pub iteration : ℕ
  pub attempt : ℕ

-- The attempts at one request, `left` of them from the given one on.
unfoldable pub attempt_turns : ℕ → Request → ℕ → ℕ → List Turn
attempt_turns iteration req zero attempt = []
attempt_turns iteration req (suc left) attempt =
    record { request = req; iteration = iteration; attempt = attempt }
    ∷ attempt_turns iteration req left (suc attempt)

-- The two inner loops of a worker, for one iteration.
unfoldable pub iteration_turns : ℕ → ℕ → List Request → List Turn
unfolding attempt_turns
iteration_turns attempts iteration [] = []
iteration_turns attempts iteration (req ∷ reqs) =
    attempt_turns iteration req attempts 1 ++ iteration_turns attempts iteration reqs

-- The iterations from one on.
unfoldable pub iterations_from : ℕ → ℕ → List ℕ
iterations_from zero i = []
iterations_from (suc left) i = i ∷ iterations_from left (suc i)

-- Where a worker is, with the turns that it has before it: it waits for an iteration, is before the
-- check of the context, before the limiter, before executeRequest, in the pause between two attempts, or
-- has returned.
pub data Worker : Type 0 where
  waiting returned : Worker
  ready resting : List Turn → Worker
  checked admitted : Turn → List Turn → Worker

pub data Act : Type 0 where
  check pause finish : Act
  limit : Bool → Act
  send : Exchange → Act

abbrev pub Sent : Type 0
Sent = Turn × ResponseRecord × List Event

-- The surroundings of the workers. `rests` is the test that a pause follows an attempt.
pub record Plan : Type 0 where
  pub limiter : Option ℕ
  pub rests : Turn → Bool
  pub execute : Turn → Exchange → ResponseRecord × List Event

-- After the limiter.
unfoldable pub admit : Option Bool → Turn → List Turn → Worker
admit none t ts = checked t ts
admit (some true) t ts = admitted t ts
admit (some false) t ts = returned

-- One act of a worker, and what it adds to the collector. An act that it is not ready for changes
-- nothing.
unfoldable pub act : Plan → Bool → Bool → Act → Worker → Worker × List Sent
unfolding admit
act plan canceled closed check (ready []) = (waiting, [])
act plan canceled closed check (ready (t ∷ ts)) = (if canceled then returned else checked t ts, [])
act plan canceled closed (limit ticked) (checked t ts) =
    (admit (wait plan.limiter ticked canceled) t ts, [])
act plan canceled closed (send x) (admitted t ts) =
    let (r, events) = plan.execute t x in
    (if plan.rests t then resting ts else ready ts, (t, r, events) ∷ [])
act plan canceled closed pause (resting ts) = (if canceled then returned else ready ts, [])
act plan canceled closed finish waiting = (if closed then returned else waiting, [])
act plan canceled closed a w = (w, [])

-- The workers, the iterations that no worker has yet, the collector in the order of its additions, and
-- whether the channel of iterations is closed and the context is done.
pub record Pool : Type 0 where
  pub pending : List ℕ
  pub closed : Bool
  pub canceled : Bool
  pub workers : List Worker
  pub collected : List Sent

pub data Move : Type 0 where
  hand : ℕ → Move
  work : ℕ → Act → Move
  close cancel : Move

-- The worker with an index acts.
unfoldable pub act_at : Plan → Bool → Bool → ℕ → Act → List Worker → List Worker × List Sent
act_at plan canceled closed k a [] = ([], [])
act_at plan canceled closed zero a (w ∷ ws) =
    let (w', sent) = act plan canceled closed a w in (w' ∷ ws, sent)
act_at plan canceled closed (suc k) a (w ∷ ws) =
    let (ws', sent) = act_at plan canceled closed k a ws in (w ∷ ws', sent)

abbrev pub behind : Worker → Option (List Worker) → Option (List Worker)
behind w none = none
behind w (some ws) = some (w ∷ ws)

-- The channel has no buffer: an iteration goes to a worker that waits.
unfoldable pub hand_to : ℕ → List Turn → List Worker → Option (List Worker)
hand_to k turns [] = none
hand_to zero turns (waiting ∷ ws) = some (ready turns ∷ ws)
hand_to zero turns (w ∷ ws) = none
hand_to (suc k) turns (w ∷ ws) = behind w (hand_to k turns ws)

-- The loop that hands out the iterations.
unfoldable pub handed : Pool → List ℕ → Option (List Worker) → Pool
handed pool rest none = pool
handed pool rest (some ws) = record pool { pending = rest; workers = ws }

unfoldable pub hand_next : (ℕ → List Turn) → ℕ → List ℕ → Pool → Pool
unfolding handed
hand_next turns k [] pool = pool
hand_next turns k (i ∷ rest) pool =
    if pool.closed then pool else handed pool rest (hand_to k (turns i) pool.workers)

unfoldable pub step : Plan → (ℕ → List Turn) → Move → Pool → Pool
unfolding hand_next
step plan turns (hand k) pool = hand_next turns k pool.pending pool
step plan turns (work k a) pool =
    let (ws, sent) = act_at plan pool.canceled pool.closed k a pool.workers in
    record pool { workers = ws; collected = pool.collected ++ sent }
step plan turns close pool = record pool {
  closed = pool.closed || is_empty pool.pending || pool.canceled;
}
step plan turns cancel pool = record pool { canceled = true }

unfoldable pub steps : Plan → (ℕ → List Turn) → List Move → Pool → Pool
steps plan turns [] pool = pool
steps plan turns (m ∷ ms) pool = steps plan turns ms (step plan turns m pool)

unfoldable pub has_returned : Worker → Bool
has_returned returned = true
has_returned _ = false

-- wg.Wait returns.
unfoldable pub is_over : Pool → Bool
unfolding has_returned
is_over pool = pool.closed && all has_returned pool.workers

unfoldable pub crew : ℕ → Worker → List Worker
crew zero w = []
crew (suc n) w = w ∷ crew n w

-- What one run of the pool leaves: nothing where it is not over.
unfoldable pub outcome : Pool → Option Pool
unfolding is_over
outcome pool = if is_over pool then some pool else none

module _ (p : Platform) (net : Net) (run_id : String) (sc : Scenario) where
  unfoldable pub execute_turn : Turn → Exchange → ResponseRecord × List Event
  execute_turn t x = execute_request net p run_id sc t.request (pos t.iteration) t.attempt x

  -- The test that a pause follows an attempt.
  unfoldable pub rests : ℕ → Turn → Bool
  rests attempts t =
      is_retry_storm sc.traffic.type
      && ltb_ℤ (pos 0) sc.traffic.retry.backoff_ms
      && not (eqb t.attempt attempts)

  unfoldable pub plan : ℕ → Plan
  unfolding execute_turn rests
  plan attempts = record {
    limiter = new_request_limiter sc.traffic.rate_per_second;
    rests = rests attempts;
    execute = execute_turn;
  }

  unfoldable pub turns_of : ℕ → ℕ → List Turn
  unfolding iteration_turns
  turns_of attempts i = iteration_turns attempts i sc.requests

  unfoldable pub start : Bool → Pool
  unfolding iterations_from crew
  start canceled = record {
    pending = iterations_from (pos_part sc.traffic.iterations) 0;
    closed = false;
    canceled = canceled;
    workers = crew (pos_part sc.traffic.concurrency) waiting;
    collected = [];
  }

  unfoldable pub run_parallel : ℕ → List Move → Bool → Option Pool
  unfolding plan turns_of start steps outcome
  run_parallel attempts moves canceled =
      outcome (steps (plan attempts) (turns_of attempts) moves (start canceled))
