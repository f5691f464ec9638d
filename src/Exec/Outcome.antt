-- ===== src/Exec/Outcome.antt =====
-- What an execution leaves in the two stores and returns (apps/api/internal/runexec/executor.go).
use wreckr.Prelude.{
  refl, ◌||◌, String, ◌≡◌, List, [], ◌∷◌, Option, none, some, Bool, true, false, arith, lookup,
}
use wreckr.Store.{RunRecord, Memory, is_cancelable, RunStatus}
use wreckr.Store.Events.{is_run_cancel_requested}
use wreckr.Store.Runs
use wreckr.Store.Op.{apply}
use wreckr.Store.Cancel.{requested-apply_all, requested-apply}
use wreckr.Exec.Settles.{dispatch-begin}
use wreckr.Exec.{
  execute_found, canceled_report, upload_report, Report, Scenario, ℤ, cancel_phase, apply_all,
  begin, Env, World, Tick, write, poll, run_ticks, ExecError, run_not_found, bad_status, execute,
  dispatch,
}

abbrev pub of_status : String → RunStatus → Option ExecError
of_status id (RunStatus.other s) = some (bad_status id s)
of_status id _ = none

-- The answer for a run that is not to be executed.
abbrev pub refusal : String → Option RunRecord → Option ExecError
refusal id none = some (run_not_found id)
refusal id (some r) = of_status id r.status

abbrev pub can_execute : Option RunRecord → Bool
can_execute none = false
can_execute (some r) = is_cancelable r.status

-- An execution of a run that is not queued or running changes nothing: it is an error for a run that
-- is missing or has an unknown status, and a success for a run that has ended.
pub execute_refused :
    (e : Env) (id : String) (w : World)
    → can_execute (lookup id w.store.runs) ≡ false
    → execute e id w ≡ (w, refusal id (lookup id w.store.runs))
unfolding execute Runs.get_run dispatch is_cancelable
execute_refused e id w h = ground arith

-- The flag of the poll tells nothing that the store does not.
run_ticks_flag :
    (id : String) (ts : List Tick) (m : Memory) (flag : Bool)
    → (flag ≡ true → is_run_cancel_requested id m ≡ true)
    → (run_ticks id ts (m, flag)).1 ≡ true
    → is_run_cancel_requested id (run_ticks id ts (m, flag)).0 ≡ true
unfolding run_ticks
run_ticks_flag id [] m flag h q = h q
run_ticks_flag id (write op ∷ ts) m flag h q =
    run_ticks_flag id ts (apply op m) flag (λ f. requested-apply op id m (h f)) q
run_ticks_flag id (poll ∷ ts) m flag h q = run_ticks_flag id ts m _ (λ f. ground arith) q

absorb : (a b : Bool) → (a ≡ true → b ≡ true) → (a || b) ≡ b
absorb true b h = ground arith
absorb false b h = refl

-- The test after a run asks the poll's flag or the store. The store alone gives the same answer: a
-- request that the poll saw is still in the log.
pub run_ticks_test :
    (e : Env) (id : String) (m : Memory)
    → let (n, flag) = run_ticks id e.during (m, false) in
      let end = apply_all e.before_test n in
      (flag || is_run_cancel_requested id end) ≡ is_run_cancel_requested id end
run_ticks_test e id m =
    absorb _ _
      λ q. requested-apply_all e.before_test id _ (run_ticks_flag id e.during m false (λ f. cc) q)

-- Where cancellation was requested before an execution of a queued or running run begins, the runner
-- is never called: any other runner gives the same result, which is a success, and the object store
-- gets the report of a run canceled before it began.
pub execute_canceled_before :
    (e : Env) (run : ℤ → Scenario → Report × Option String) (id : String) (r : RunRecord)
    (w : World)
    → lookup id w.store.runs ≡ some r
    → is_cancelable r.status ≡ true
    → is_run_cancel_requested id w.store ≡ true
    → (execute (record e { run = run }) id w ≡ execute e id w)
      × ((execute e id w).1 ≡ none)
      × ((execute e id w).0.blob
          ≡ upload_report e.marshal id
              (canceled_report e.made_at id r.scenario.name "run canceled before worker execution")
              w.blob)
unfolding execute Runs.get_run begin cancel_phase
execute_canceled_before e run id r w held c q =
    let q' = requested-apply_all e.before_check id w.store q in
    rw (held, execute_found)
      (rw (dispatch-begin e id r w c, dispatch-begin (record e { run = run }) id r w c)
        (rw q' (refl, refl, refl)))
