-- ===== src/Store/History.antt =====
-- What every history of the store keeps of a run: its identity, its snapshot, and the order of its
-- states (apps/api/internal/store/memory.go).
use wreckr.Prelude.{
  String, ◌+++◌, show, ◌≡◌, refl, inl, inr, List, [], ◌∷◌, none, some, true, false, arith, eq_iff,
  lookup, insert, Bool-cases, Option-cases, any,
}
use wreckr.Event.{Time, Event}
use wreckr.Scenario.{Scenario}
use wreckr.Report.{Report}
use wreckr.Store.{TargetRecord, RunRecord, Memory, is_terminal}
use wreckr.Store.Targets
use wreckr.Store.Scenarios
use wreckr.Store.Events
use wreckr.Store.Runs
use wreckr.Store.Runs.{on_active, put_run}
use wreckr.Store.Op.{
  Op, create_target, update_target, delete_target, create_scenario, update_scenario, create_run,
  mark_run_started, complete_run, cancel_run, error_run, request_run_cancel, append_run_event,
  apply, apply_all, creates_run,
}
use wreckr.Store.Later.{Later, Later-trans, Kept, Kept-same, Kept-insert}

-- What a write by `on_active` does to the run map, for each thing that the map may hold.
module _ (k : String) (logged : Time) (g : RunRecord → RunRecord) (ev : RunRecord → Event) where
  abbrev pub write : RunRecord → Memory → Memory
  write s = put_run logged k (g s) (ev s)

  pub on_active_missing : (m : Memory) → lookup k m.runs ≡ none → on_active k write m ≡ m
  unfolding on_active
  on_active_missing m e = ground arith

  pub on_active_settled :
      (m : Memory) (s : RunRecord)
      → lookup k m.runs ≡ some s
      → is_terminal s.status ≡ true
      → on_active k write m ≡ m
  unfolding on_active
  on_active_settled m s e h = ground arith

  pub on_active_live :
      (m : Memory) (s : RunRecord)
      → lookup k m.runs ≡ some s
      → is_terminal s.status ≡ false
      → on_active k write m ≡ write s m
  unfolding on_active
  on_active_live m s e h = ground arith

  pub runs-write : (s : RunRecord) (m : Memory) → (write s m).runs ≡ insert k (g s) m.runs
  unfolding put_run Events.append_run_event
  runs-write s m = refl

  pub on_active-Kept :
      ((s : RunRecord) → is_terminal s.status ≡ false → Later s (g s))
      → (id : String) (r : RunRecord) (m : Memory) → lookup id m.runs ≡ some r
      → Kept id r (on_active k write m).runs
  on_active-Kept later id r m held = elim (Option-cases (lookup k m.runs)) [
    | inl e ↦ rw (on_active_missing m e) (Kept-same id r m held refl)
    | inr (s, e) ↦ elim (Bool-cases (is_terminal s.status)) [
      | inl t ↦ rw (on_active_settled m s e t) (Kept-same id r m held refl)
      | inr t ↦ rw (on_active_live m s e t) (
          Kept-insert id r m held k (g s) (runs-write s m)
            (λ same. let found : s ≡ r = cc in rw (← found) (later s t)))
    ]
  ]

-- One lemma for each method that moves a run: the record that it writes is a later state.
module _ (id : String) (r : RunRecord) (m : Memory) (held : lookup id m.runs ≡ some r) where
  pub started-Kept :
      (now logged : Time) (k : String) → Kept id r (Runs.mark_run_started now logged k m).runs
  unfolding Runs.mark_run_started
  started-Kept now logged k = on_active-Kept k logged _ _ (λ s t. ground arith) id r m held

  completed-Kept :
      (now logged : Time) (rep : Report) (k : String)
      → Kept id r (Runs.complete_run now logged rep k m).runs
  unfolding Runs.complete_run is_terminal
  completed-Kept now logged rep k = on_active-Kept k logged _ _ (λ s t. ground arith) id r m held

  canceled-Kept :
      (now logged : Time) (rep : Report) (k : String)
      → Kept id r (Runs.cancel_run now logged rep k m).runs
  unfolding Runs.cancel_run is_terminal
  canceled-Kept now logged rep k = on_active-Kept k logged _ _ (λ s t. ground arith) id r m held

  errored-Kept :
      (now logged : Time) (err : String) (k : String)
      → Kept id r (Runs.error_run now logged err k m).runs
  unfolding Runs.error_run is_terminal
  errored-Kept now logged err k = on_active-Kept k logged _ _ (λ s t. ground arith) id r m held

  runs-request : (logged : Time) (k : String) → (Runs.request_run_cancel logged k m).0.runs ≡ m.runs
  unfolding Runs.request_run_cancel Events.append_run_event
  runs-request logged k = ground arith

  runs-update_scenario :
      (now : Time) (k : String) (sc : Scenario)
      → (Scenarios.update_scenario now k sc m).0.runs ≡ m.runs
  unfolding Scenarios.update_scenario
  runs-update_scenario now k sc = ground arith

  runs-update_target :
      (now : Time) (k : String) (t : TargetRecord)
      → (Targets.update_target now k t m).0.runs ≡ m.runs
  unfolding Targets.update_target
  runs-update_target now k t = ground arith

  runs-delete_target : (k : String) → (Targets.delete_target k m).0.runs ≡ m.runs
  unfolding Targets.delete_target
  runs-delete_target k = ground arith

  pub apply-Kept : (op : Op) → creates_run id op ≡ false → Kept id r (apply op m).runs
  unfolding apply Targets.create_target Scenarios.create_scenario Runs.create_run
      Events.append_run_event
  apply-Kept (create_target now t) h = Kept-same id r m held refl
  apply-Kept (update_target now k t) h = Kept-same id r m held (runs-update_target now k t)
  apply-Kept (delete_target k) h = Kept-same id r m held (runs-delete_target k)
  apply-Kept (create_scenario now sc) h = Kept-same id r m held refl
  apply-Kept (update_scenario now k sc) h = Kept-same id r m held (runs-update_scenario now k sc)
  apply-Kept (create_run now logged sid tid sc ref) h =
      Kept-insert id r m held ("run_" +++ show now) _ refl
        (λ same. cc ((eq_iff ("run_" +++ show now) id).1 same))
  apply-Kept (mark_run_started now logged k) h = started-Kept now logged k
  apply-Kept (complete_run now logged rep k) h = completed-Kept now logged rep k
  apply-Kept (cancel_run now logged rep k) h = canceled-Kept now logged rep k
  apply-Kept (error_run now logged err k) h = errored-Kept now logged err k
  apply-Kept (request_run_cancel logged k) h = Kept-same id r m held (runs-request logged k)
  apply-Kept (append_run_event now k e) h = Kept-same id r m held refl

-- Through any history of methods, without writes in place, that does not create a run at the same reading
-- of the clock, the store goes on holding a later state of the run.
pub apply_all-Kept :
    (ops : List Op) (id : String) (r : RunRecord) (m : Memory)
    → lookup id m.runs ≡ some r
    → any (creates_run id) ops ≡ false
    → Kept id r (apply_all ops m).runs
unfolding apply_all
apply_all-Kept [] id r m held h = Kept-same id r m held refl
apply_all-Kept (op ∷ ops) id r m held h =
    let (s, at, later) = apply-Kept id r m held op (ground arith) in
    let (t, end, rest) = apply_all-Kept ops id s (apply op m) at (ground arith) in
    (t, end, Later-trans r s t later rest)
