-- ===== src/Http/Execute/Settles.antt =====
-- An execution in the API's process ends its run (apps/api/internal/httpapi/server.go, executeRun).
use wreckr.Prelude.{
  Dict, subst, subst, String, ◌≡◌, refl, inl, inr, List, [], ◌∷◌, Option, none, some, Bool, true,
  false, arith, lookup, any, Bool-cases,
}
use wreckr.Scenario.{Scenario}
use wreckr.Report.{Report}
use wreckr.Event.{Time}
use wreckr.Store.{Memory, RunRecord, is_terminal}
use wreckr.Store.Runs
use wreckr.Store.Op.{apply, creates_run, cancel_run, error_run, complete_run, mark_run_started}
use wreckr.Store.Later.{Later, Later-refl, Later-trans, Kept}
use wreckr.Store.History.{apply-Kept}
use wreckr.Store.Shared.{Follows, Later-Follows}
use wreckr.Store.Ending.{
  cancel-Ended, error-Ended, complete-Ended, Underway, mark-Underway, Later-Underway,
}
use wreckr.Http.{Config, Server, register_run_cancel, request_run_cancel, finish_run_cancel}
use wreckr.Http.Execute.{
  Act, write, request, act, act_all, Env, has_started, is_running, settle, run_phase, begun,
  execute_run,
}

-- None of the other writes creates a run at the reading of the clock that named this one.
abbrev acts_create : String → Act → Bool
acts_create id (write op) = creates_run id op
acts_create id (request _) = false

pub record NoReplay (e : Env) (id : String) : Type 0 where
  pub before_start : any (acts_create id) e.before_start ≡ false
  pub after_start : any (acts_create id) e.after_start ≡ false
  pub during : any (acts_create id) e.during ≡ false
  pub before_end : any (acts_create id) e.before_end ≡ false

store-request : (id : String) (s : Server) → (request_run_cancel id s).0.store ≡ s.store
unfolding request_run_cancel
store-request id s = ground arith

act_all-Kept :
    (acts : List Act) (id : String) (r : RunRecord) (s : Server)
    → lookup id s.store.runs ≡ some r
    → any (acts_create id) acts ≡ false
    → Kept id r (act_all acts s).store.runs
unfolding act_all act
act_all-Kept [] id r s held h = (r, held, Later-refl r)
act_all-Kept (write op ∷ acts) id r s held h =
    let (t, at, later) = apply-Kept id r s.store held op (ground arith) in
    let (u, at', more) =
      act_all-Kept acts id t (record s { store = apply op s.store }) at (ground arith) in
    (u, at', Later-trans r t u later more)
act_all-Kept (request k ∷ acts) id r s held h =
    act_all-Kept acts id r _ (rw (store-request k s) held) h

-- The run `id` has ended, and is a later state of `r`.
abbrev pub EndsLater : String → RunRecord → Dict RunRecord → Type 0
EndsLater id r rs =
    (t : RunRecord) × (lookup id rs ≡ some t) × (is_terminal t.status ≡ true) × Later r t

-- What the store keeps of a run that it has ended.
both :
    (id : String) (r : RunRecord) (rs : Dict RunRecord)
    → (t : RunRecord) × (lookup id rs ≡ some t) × (is_terminal t.status ≡ true)
    → Kept id r rs
    → EndsLater id r rs
both id r rs (t, at, ended) (u, at', later) =
    let same : u ≡ t = cc in (t, at, ended, subst (Later r) same later)

started :
    (now at : Time) (id : String) (r : RunRecord) (m : Memory)
    → lookup id m.runs ≡ some r
    → (t : RunRecord) × (lookup id (Runs.mark_run_started now at id m).runs ≡ some t)
      × Later r t
      × Underway t
unfolding apply
started now at id r m held =
    let (t, here, under) = mark-Underway now at id r m held in
    let (u, here', later) = apply-Kept id r m held (mark_run_started now at id) refl in
    let same : u ≡ t = cc in (t, here, subst (Later r) same later, under)

module _ (c : Config) (e : Env) (id : String) (sc : Scenario) (safe : NoReplay e id) where
  settle-EndsLater :
      (canceled : Bool) (rep : Report) (err : Option String) (r : RunRecord) (s : Server)
      → lookup id s.store.runs ≡ some r
      → EndsLater id r (settle e id sc canceled rep err s).store.runs
  unfolding settle apply
  settle-EndsLater true rep err r s held =
      both id r _ (cancel-Ended id r s.store held _ _ _)
        (apply-Kept id r s.store held (cancel_run e.ended_at e.ended_logged _ id) refl)
  settle-EndsLater false rep (some x) r s held =
      both id r _ (error-Ended id r s.store held _ _ _)
        (apply-Kept id r s.store held (error_run e.ended_at e.ended_logged x id) refl)
  settle-EndsLater false rep none r s held =
      both id r _ (complete-Ended id r s.store held _ _ _)
        (apply-Kept id r s.store held (complete_run e.ended_at e.ended_logged rep id) refl)

  run_phase-EndsLater :
      (r : RunRecord) (s : Server)
      → lookup id s.store.runs ≡ some r
      → EndsLater id r (run_phase c e id sc s).store.runs
  unfolding run_phase finish_run_cancel
  run_phase-EndsLater r s held =
      let (t, at, later) = act_all-Kept e.during id r s held safe.during in
      let (u, at', more) =
        act_all-Kept e.before_end id t (finish_run_cancel id (act_all e.during s)).0 at
          safe.before_end in
      let (v, at'', ended, last) = settle-EndsLater _ _ _ u _ at' in
      (v, at'', ended, Later-trans r u v (Later-trans r t u later more) last)

  begun-Underway :
      (r : RunRecord) (s : Server)
      → lookup id s.store.runs ≡ some r
      → (t : RunRecord) × (lookup id (begun e id s).store.runs ≡ some t) × Later r t × Underway t
  unfolding begun register_run_cancel
  begun-Underway r s held =
      let (t, at, later) =
        act_all-Kept e.before_start id r (register_run_cancel id s) held safe.before_start in
      let (u, at', marked, under) = started e.started_at e.started_logged id t _ at in
      let (v, end, more) = act_all-Kept e.after_start id u _ at' safe.after_start in
      (
        v,
        end,
        Later-trans r u v (Later-trans r t u later marked) more,
        Later-Underway u v more under,
      )

  pub execute_run-EndsLater :
      (r : RunRecord) (s : Server)
      → lookup id s.store.runs ≡ some r
      → EndsLater id r (execute_run c e id sc s).store.runs
  unfolding execute_run finish_run_cancel Runs.get_run has_started is_running
  execute_run-EndsLater r s held =
      let (t, at, later, under) = begun-Underway r s held in
      let looked : has_started (Runs.get_run id (begun e id s).store) ≡ is_running t.status =
        rw at in
      elim (Bool-cases (is_running t.status)) [
        | inl q ↦
            let (u, at', ended, more) = run_phase-EndsLater t _ at in
            rw (looked, q) (u, at', ended, Later-trans r t u later more)
        | inr q ↦ rw (looked, q) (t, at, ground arith, later)
      ]

  -- executeRun ends the run, whatever the runner returns and whatever methods the other handlers call
  -- between its calls, as long as none of them creates a run of the same id: the store then holds the run
  -- with a terminal status, and with the ids, the target, the version and the time of creation that it had.
  pub execute_run-Ended :
      (r : RunRecord) (s : Server)
      → lookup id s.store.runs ≡ some r
      → (t : RunRecord) × (lookup id (execute_run c e id sc s).store.runs ≡ some t)
        × (is_terminal t.status ≡ true)
        × Follows r t
  execute_run-Ended r s held =
      let (t, at, ended, later) = execute_run-EndsLater r s held in
      (t, at, ended, Later-Follows r t later)
