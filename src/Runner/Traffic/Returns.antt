-- ===== src/Runner/Traffic/Returns.antt =====
-- runParallel returns (apps/api/internal/runner/runner.go): the order in which the first worker takes
-- every turn is one that ends.
use wreckr.Prelude.{
  subst, ℕ, zero, suc, ◌<◌, pos_part, ◌≡◌, refl, sym, ap, ◌∙◌, Bool, true, false, List, [], ◌∷◌,
  ◌++◌, Option, none, some, all, arith, String, if◌then◌else◌,
}
use wreckr.Platform.{Platform}
use wreckr.Scenario.{Scenario}
use wreckr.Runner.Limiter.{wait}
use wreckr.Runner.Send.{Net, Exchange}
use wreckr.Runner.Traffic.{
  Turn, Worker, waiting, returned, ready, resting, admitted, Plan, Pool, Move, hand, work, close,
  Sent, act, act_at, admit, hand_to, handed, hand_next, step, steps, has_returned, crew, outcome,
  plan, turns_of, start, run_parallel, iterations_from, check, limit, send, pause, finish,
}

pub steps-append :
    (plan : Plan) (turns : ℕ → List Turn) (ms ns : List Move) (pool : Pool)
    → steps plan turns (ms ++ ns) pool ≡ steps plan turns ns (steps plan turns ms pool)
unfolding steps
steps-append plan turns [] ns pool = refl
steps-append plan turns (m ∷ ms) ns pool = steps-append plan turns ms ns (step plan turns m pool)

module _ (plan : Plan) (turns : ℕ → List Turn) (x : Exchange) where
  -- The pool with its first worker apart.
  abbrev at : List ℕ → List Worker → List Sent → Worker → Pool
  at pending ws collected w = record {
    pending = pending;
    closed = false;
    canceled = false;
    workers = w ∷ ws;
    collected = collected;
  }

  -- The moves that serve the turns of one iteration.
  serve : List Turn → List Move
  serve [] = work 0 check ∷ []
  serve (t ∷ ts) = work 0 check ∷ work 0 (limit true) ∷ work 0 (send x) ∷ work 0 pause ∷ serve ts

  admitted_lem :
      (o : Option ℕ) (t : Turn) (ts : List Turn) → admit (wait o true false) t ts ≡ admitted t ts
  unfolding admit wait
  admitted_lem none t ts = refl
  admitted_lem (some i) t ts = refl

  paused_lem :
      (closed b : Bool) (ts : List Turn)
      → act plan false closed pause (if b then resting ts else ready ts) ≡ (ready ts, [])
  unfolding act
  paused_lem closed true ts = refl
  paused_lem closed false ts = refl

  serve_lem :
      (ts : List Turn) (pending : List ℕ) (ws : List Worker) (collected : List Sent)
      → (more : List Sent) × (steps plan turns (serve ts) (at pending ws collected (ready ts))
          ≡ at pending ws more waiting)
  unfolding steps serve step act_at act
  serve_lem [] pending ws collected = (collected ++ [], refl)
  serve_lem (t ∷ ts) pending ws collected =
      let paused = λ (y : Worker × List Sent) (sent : List Sent).
        (more : List Sent) × (steps plan turns (serve ts)
            (at pending ws (collected ++ [] ++ [] ++ sent ++ y.1) y.0)
          ≡ at pending ws more waiting) in
      let sent = λ (w : Worker). act plan false false (send x) w in
      subst (λ (w : Worker). paused (act plan false false pause (sent w).0) (sent w).1)
        (sym (admitted_lem plan.limiter t ts))
        (subst (λ (y : Worker × List Sent). paused y (sent (admitted t ts)).1)
          (sym (paused_lem false (plan.rests t) ts)) (serve_lem ts pending ws _))

  serve_all : List ℕ → List Move
  serve_all [] = []
  serve_all (i ∷ is) = hand 0 ∷ (serve (turns i) ++ serve_all is)

  serve_all_lem :
      (pending : List ℕ) (ws : List Worker) (collected : List Sent)
      → (more : List Sent) × (steps plan turns (serve_all pending) (at pending ws collected waiting)
          ≡ at [] ws more waiting)
  unfolding serve_all steps step hand_next handed hand_to
  serve_all_lem [] ws collected = (collected, refl)
  serve_all_lem (i ∷ pending) ws collected =
      let (more, e) = serve_lem (turns i) pending ws collected in
      let (rest, f) = serve_all_lem pending ws more in
      (
        rest,
        steps-append plan turns (serve (turns i)) (serve_all pending) _
            ∙ ap (steps plan turns (serve_all pending)) e
            ∙ f,
      )

  abbrev ended : List Worker → List Sent → Pool
  ended ws collected = record {
    pending = [];
    closed = true;
    canceled = false;
    workers = ws;
    collected = collected;
  }

  act_at-finish :
      (k : ℕ) (ws : List Worker)
      → act_at plan false true k finish (crew k returned ++ waiting ∷ ws)
        ≡ (crew k returned ++ returned ∷ ws, [])
  unfolding act_at act crew
  act_at-finish zero ws = refl
  act_at-finish (suc k) ws =
      ap (λ (o : List Worker × List Sent). (returned ∷ o.0, o.1)) (act_at-finish k ws)

  crew-cons :
      (k : ℕ) (ws : List Worker) → crew k returned ++ returned ∷ ws ≡ crew (suc k) returned ++ ws
  unfolding crew
  crew-cons zero ws = refl
  crew-cons (suc k) ws = ap (λ l. returned ∷ l) (crew-cons k ws)

  crew_returned : (k : ℕ) → all has_returned (crew k returned ++ []) ≡ true
  unfolding crew has_returned
  crew_returned zero = refl
  crew_returned (suc k) = crew_returned k

  finish_from : ℕ → ℕ → List Move
  finish_from k zero = []
  finish_from k (suc n) = work k finish ∷ finish_from (suc k) n

  finish_lem :
      (n k : ℕ) (collected : List Sent)
      → (out : Pool) × (outcome (
            steps plan turns
              (finish_from k n)
              (ended (crew k returned ++ crew n waiting) collected))
          ≡ some out)
        × (out.canceled ≡ false)
  unfolding finish_from steps step outcome crew
  finish_lem zero k collected =
      (ended (crew k returned ++ []) collected, rw (crew_returned k) refl, refl)
  finish_lem (suc n) k collected =
      let served = λ (o : List Worker × List Sent).
        (out : Pool) × (outcome
            (steps plan turns (finish_from (suc k) n) (ended o.0 (collected ++ o.1)))
          ≡ some out)
        × (out.canceled ≡ false) in
      subst served (sym (act_at-finish k (crew n waiting))) (
        subst (λ (ws : List Worker). served (ws, [])) (sym (crew-cons k (crew n waiting)))
          (finish_lem n (suc k) (collected ++ [])))

  all_moves : ℕ → List ℕ → List Move
  all_moves idle pending = serve_all pending ++ (close ∷ finish_from 0 (suc idle))

  all_moves_lem :
      (idle : ℕ) (pending : List ℕ)
      → (out : Pool) × (outcome
            (steps plan turns (all_moves idle pending) (at pending (crew idle waiting) [] waiting))
          ≡ some out)
        × (out.canceled ≡ false)
  unfolding all_moves steps step crew
  all_moves_lem idle pending =
      let (more, e) = serve_all_lem pending (crew idle waiting) [] in
      let (out, f, g) = finish_lem (suc idle) 0 more in
      (
        out,
        ap outcome (
              steps-append plan turns (serve_all pending) (close ∷ finish_from 0 (suc idle)) _
              ∙ ap (steps plan turns (close ∷ finish_from 0 (suc idle))) e)
            ∙ f,
        g,
      )

module _ (p : Platform) (net : Net) (run_id : String) (sc : Scenario) (attempts : ℕ) where
  crew_size :
      (n : ℕ) (x : Exchange)
      → 0 < n
      → (moves : List Move) × (out : Pool) × (outcome (
            steps
              (plan p net run_id sc attempts)
              (turns_of p net run_id sc attempts)
              moves
              (record (start p net run_id sc false) { workers = crew n waiting }))
          ≡ some out)
        × (out.canceled ≡ false)
  unfolding start crew
  crew_size zero x h = absurd (omega arith)
  crew_size (suc idle) x h =
      let pending = iterations_from (pos_part sc.traffic.iterations) 0 in
      let (out, e, f) =
        all_moves_lem (plan p net run_id sc attempts) (turns_of p net run_id sc attempts) x idle
          pending in
      (
        all_moves (plan p net run_id sc attempts) (turns_of p net run_id sc attempts) x idle
            pending,
        out,
        e,
        f,
      )

  -- With at least one worker there is an order in which all workers of runParallel return without an end
  -- of the context, whatever the requests are answered and whether there is a limiter or not.
  pub run_parallel_returns :
      (x : Exchange)
      → 0 < pos_part sc.traffic.concurrency
      → (moves : List Move) × (out : Pool) × (run_parallel p net run_id sc attempts moves false
          ≡ some out)
        × (out.canceled ≡ false)
  unfolding run_parallel start
  run_parallel_returns x h = crew_size (pos_part sc.traffic.concurrency) x h
