-- ===== src/Exec/Settles.antt =====
-- An execution ends its run, whatever the other callers of the store do meanwhile
-- (apps/api/internal/runexec/executor.go).
use wreckr.Prelude.{
  String, ◌≡◌, refl, inl, inr, List, [], ◌∷◌, Option, none, some, Bool, true, false, arith, lookup,
  any, Bool-cases, if◌then◌else◌,
}
use wreckr.Store.{RunRecord, Memory, is_cancelable}
use wreckr.Store.Runs
use wreckr.Store.Events.{is_run_cancel_requested}
use wreckr.Store.Op.{apply, apply_all, creates_run}
use wreckr.Store.Later.{Later, Later-trans, Kept}
use wreckr.Store.History.{apply-Kept, apply_all-Kept}
use wreckr.Store.Ending.{
  mark-Underway, Later-Underway, Underway, Underway, Ended, complete-Ended, cancel-Ended,
  error-Ended,
}
use wreckr.Exec.{
  dispatch, execute_found, is_queued, is_running, still_running, is_running, still_running, Report,
  get_run, Scenario, Env, World, Tick, write, poll, run_ticks, finish, run_phase, start_phase,
  cancel_phase, begin, execute,
}

-- None of the other writes creates a run at the reading of the clock that named this one.
abbrev ticks_create : String → Tick → Bool
ticks_create id (write op) = creates_run id op
ticks_create id poll = false

pub record NoReplay (e : Env) (id : String) : Type 0 where
  pub check : any (creates_run id) e.before_check ≡ false
  pub start : any (creates_run id) e.before_start ≡ false
  pub started : any (creates_run id) e.after_start ≡ false
  pub during : any (ticks_create id) e.during ≡ false
  pub test : any (creates_run id) e.before_test ≡ false
  pub end : any (creates_run id) e.before_end ≡ false

-- The poll writes nothing, so the ticks keep the run as the writes do.
run_ticks-Kept :
    (id : String) (ts : List Tick) (r : RunRecord) (m : Memory) (flag : Bool)
    → lookup id m.runs ≡ some r
    → any (ticks_create id) ts ≡ false
    → Kept id r (run_ticks id ts (m, flag)).0.runs
unfolding run_ticks apply_all
run_ticks-Kept id [] r m flag held h = apply_all-Kept [] id r m held refl
run_ticks-Kept id (write op ∷ ts) r m flag held h =
    let (s, at, later) = apply-Kept id r m held op (ground arith) in
    let (t, at', rest) = run_ticks-Kept id ts s (apply op m) flag at (ground arith) in
    (t, at', Later-trans r s t later rest)
run_ticks-Kept id (poll ∷ ts) r m flag held h = run_ticks-Kept id ts r m _ held h

module _ (e : Env) (id : String) (safe : NoReplay e id) where
  finish-Ended :
      (sc : Scenario) (stopped : Bool) (rep : Report) (err : Option String) (w : World)
      (r : RunRecord)
      → lookup id w.store.runs ≡ some r
      → Ended id (finish e id sc stopped rep err w).0.store
  unfolding finish
  finish-Ended sc true rep err w r held =
      let (s, at, _) = apply_all-Kept e.before_end id r w.store held safe.end in
      cancel-Ended id s _ at _ _ _
  finish-Ended sc false rep (some err) w r held =
      let (s, at, _) = apply_all-Kept e.before_end id r w.store held safe.end in
      error-Ended id s _ at _ _ _
  finish-Ended sc false rep none w r held =
      let (s, at, _) = apply_all-Kept e.before_end id r w.store held safe.end in
      complete-Ended id s _ at _ _ _

  run_phase-Ended :
      (sc : Scenario) (w : World) (r : RunRecord)
      → lookup id w.store.runs ≡ some r
      → Ended id (run_phase e id sc w).0.store
  unfolding run_phase
  run_phase-Ended sc w r held =
      let (s, at, _) = run_ticks-Kept id e.during r w.store false held safe.during in
      let (t, at', _) = apply_all-Kept e.before_test id s _ at safe.test in
      finish-Ended sc _ _ _ _ t at'

  -- From a run that is running or terminal at the second look.
  look-Ended :
      (sc : Scenario) (w : World) (r : RunRecord)
      → lookup id w.store.runs ≡ some r
      → Underway r
      → Ended id
          (if still_running (Runs.get_run id w.store)
            then run_phase e id sc w
            else (w, none)).0.store
  unfolding Runs.get_run still_running is_running
  look-Ended sc w r held u =
      let looked : still_running (Runs.get_run id w.store) ≡ is_running r.status = rw held in
      elim (Bool-cases (is_running r.status)) [
        | inl q ↦ rw (looked, q) (run_phase-Ended sc w r held)
        | inr q ↦ rw (looked, q) (r, held, ground arith)
      ]

  start_phase-Ended :
      (r s : RunRecord) (w : World)
      → lookup id w.store.runs ≡ some s
      → Later r s
      → is_cancelable r.status ≡ true
      → Ended id (start_phase e id r w).0.store
  unfolding start_phase is_queued is_cancelable
  start_phase-Ended r s w held later c =
      let (t, at, more) = apply_all-Kept e.before_start id s w.store held safe.start in
      elim (Bool-cases (is_queued r.status)) [
        | inl q ↦
            let (u, at', under) = mark-Underway e.started_at e.started_logged id t _ at in
            let (v, at'', last) = apply_all-Kept e.after_start id u _ at' safe.started in
            rw q (look-Ended r.scenario _ v at'' (Later-Underway u v last under))
        | inr q ↦
            let (v, at'', last) = apply_all-Kept e.after_start id t _ at safe.started in
            rw q (
              look-Ended r.scenario _ v at'' (
                Later-Underway r v (Later-trans r t v (Later-trans r s t later more) last)
                  (ground arith)))
      ]

  cancel_phase-Ended :
      (r s : RunRecord) (w : World)
      → lookup id w.store.runs ≡ some s
      → Ended id (cancel_phase e id r w).0.store
  unfolding cancel_phase
  cancel_phase-Ended r s w held =
      let (t, at, _) = apply_all-Kept e.before_start id s w.store held safe.start in
      cancel-Ended id t _ at _ _ _

  begin-Ended :
      (r : RunRecord) (w : World)
      → lookup id w.store.runs ≡ some r
      → is_cancelable r.status ≡ true
      → Ended id (begin e id r w).0.store
  unfolding begin
  begin-Ended r w held c =
      let (s, at, later) = apply_all-Kept e.before_check id r w.store held safe.check in
      elim (Bool-cases (is_run_cancel_requested id (apply_all e.before_check w.store))) [
        | inl q ↦ rw q (cancel_phase-Ended r s _ at)
        | inr q ↦ rw q (start_phase-Ended r s _ at later c)
      ]

pub dispatch-begin :
    (e : Env) (id : String) (r : RunRecord) (w : World)
    → is_cancelable r.status ≡ true
    → dispatch r.status e id r w ≡ begin e id r w
unfolding dispatch is_cancelable
dispatch-begin e id r w c = ground arith

-- Execute ends a run that is queued or running: whatever the runner returns and whatever the other
-- callers of the store write between its steps, as long as none of them creates a run of the same
-- id, the store then holds the run with a terminal status.
pub execute-Ended :
    (e : Env) (id : String) (r : RunRecord) (w : World)
    → NoReplay e id
    → lookup id w.store.runs ≡ some r
    → is_cancelable r.status ≡ true
    → Ended id (execute e id w).0.store
unfolding execute Runs.get_run
execute-Ended e id r w safe held c =
    rw (held, execute_found) (rw (dispatch-begin e id r w c) (begin-Ended e id safe r w held c))
