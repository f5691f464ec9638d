-- ===== src/Http/Cancel/Answers.antt =====
-- What the handler that cancels a run answers and does (apps/api/internal/httpapi/server.go,
-- cancelRun).
use wreckr.Prelude.{
  ap, ℕ, String, ◌≡◌, refl, sym, ◌∙◌, inl, inr, [], Option, none, some, Bool, true, false, ◌||◌,
  ◌&&◌, arith, lookup, lookup-insert, eq_refl, Bool-cases, if◌then◌else◌,
}
use wreckr.Event.{Time}
use wreckr.Report.{Report}
use wreckr.Store.{Memory, RunRecord, RunStatus, is_cancelable, is_terminal, queued, canceled}
use wreckr.Store.Runs
use wreckr.Store.Cancel.{request_run_cancel_lem, can_cancel}
use wreckr.Store.Ending.{written}
use wreckr.Http.{Server, Answer}
use wreckr.Http.Execute.{act_all}
use wreckr.Http.Execute.Marks.{registered, marked, request_told, request_unknown}
use wreckr.Http.Cancel.{Meanwhile, is_queued, tell, cancel_logged, cancel_found, cancel_run}

-- Nothing happens between the handler's own calls.
pub record Alone (w : Meanwhile) : Type 0 where
  pub after_read : w.after_read ≡ []
  pub after_log : w.after_log ≡ []
  pub after_request : w.after_request ≡ []

abbrev pub code_for : Option RunRecord → ℕ
code_for none = 404
code_for (some r) = if is_cancelable r.status then 202 else 409

abbrev pub status_of : Option RunRecord → Option RunStatus
status_of none = none
status_of (some r) = some r.status

-- What becomes of a status; `here` says that the run executes in this process.
abbrev pub status_after : Bool → Option RunStatus → Option RunStatus
status_after here (some queued) = some (if here then queued else canceled)
status_after here o = o

after_queued : (st : RunStatus) → is_queued st ≡ true → status_after false (some st) ≡ some canceled
unfolding is_queued
after_queued st h = ground arith

after_here : (st : RunStatus) → status_after true (some st) ≡ some st
after_here st = ground arith

after_other :
    (b : Bool) (st : RunStatus) → is_queued st ≡ false → status_after b (some st) ≡ some st
unfolding is_queued
after_other b st h = ground arith

canceled_now :
    (now at : Time) (rep : Report) (id : String) (r : RunRecord) (m : Memory)
    → lookup id m.runs ≡ some r
    → is_cancelable r.status ≡ true
    → status_of (lookup id (Runs.cancel_run now at rep id m).runs) ≡ some canceled
unfolding Runs.cancel_run is_cancelable is_terminal
canceled_now now at rep id r m held c =
    let live : is_terminal r.status ≡ false = ground arith in
    ap status_of (written id r m held at _ _ live)

module _ (w : Meanwhile) (alone : Alone w) (id : String) where
  abbrev Says : Option RunRecord → Server → Server × Answer → Type 0
  Says o s (t, a) =
      (a.code ≡ code_for o)
      × (marked id t ≡ (can_cancel o && registered id s) || marked id s)
      × (status_of (lookup id t.store.runs) ≡ status_after (registered id s) (status_of o))

  known :
      (r : RunRecord) (s : Server) {b : Bool}
      → registered id s ≡ b
      → status_after (registered id s) (some r.status) ≡ status_after b (some r.status)
  known r s q = ap (λ b. status_after b (some r.status)) q

  tell_lem :
      (r : RunRecord) (s : Server)
      → lookup id s.store.runs ≡ some r
      → is_cancelable r.status ≡ true
      → (marked id (tell w id r s) ≡ registered id s || marked id s)
        × (status_of (lookup id (tell w id r s).store.runs)
            ≡ status_after (registered id s) (some r.status))
  unfolding tell act_all
  tell_lem r s held c = elim (Bool-cases (registered id s)) [
    | inl q ↦ rw (request_told id s q) (
      rw lookup-insert (rw (eq_refl id) (rw q refl)),
      ap status_of held ∙ sym (known r s q ∙ after_here r.status),
    )
    | inr q ↦ elim (Bool-cases (is_queued r.status)) [
      | inl u ↦
          rw (request_unknown id s q, u)
            (rw (alone.after_request) (
              rw q refl,
              canceled_now _ _ _ id r s.store held c ∙ sym (known r s q ∙ after_queued r.status u),
            ))
      | inr u ↦
          rw (request_unknown id s q, u)
            (rw q refl, ap status_of held ∙ sym (after_other (registered id s) r.status u))
    ]
  ]

  logged_lem :
      (r : RunRecord) (s : Server)
      → lookup id s.store.runs ≡ some r
      → is_cancelable r.status ≡ true
      → let (t, a) = cancel_logged w id r s in
        (a.code ≡ 202)
        × (marked id t ≡ registered id s || marked id s)
        × (status_of (lookup id t.store.runs) ≡ status_after (registered id s) (some r.status))
  unfolding cancel_logged act_all Runs.get_run tell
  logged_lem r s held c =
      let (done, runs, _, _) = request_run_cancel_lem w.logged id s.store in
      let yes : (Runs.request_run_cancel w.logged id s.store).1 ≡ true = rw (done, held) c in
      let t : Server = record s { store = (Runs.request_run_cancel w.logged id s.store).0 } in
      let told = tell_lem r t (rw runs held) c in
      rw yes (rw (alone.after_log) (refl, told.0, told.1))

  quiet_read : (s : Server) → act_all w.after_read s ≡ s
  unfolding act_all
  quiet_read s = ap (λ acts. act_all acts s) (alone.after_read)

  found_lem :
      (o : Option RunRecord) (s : Server)
      → lookup id s.store.runs ≡ o
      → Says o s (cancel_found w id o s)
  unfolding cancel_found
  found_lem none s held = (refl, refl, rw held refl)
  found_lem (some r) s held = elim (Bool-cases (is_cancelable r.status)) [
    | inl c ↦ rw c (rw (quiet_read s) (logged_lem r s held c))
    | inr c ↦ rw c (
      refl,
      refl,
      ap status_of held
          ∙ sym (
              after_other (registered id s) r.status
                (unfold is_queued is_cancelable in ground arith)),
    )
  ]

  -- Where nothing happens between the handler's own calls: the code of the answer is 404 for a run that
  -- is not stored, 409 for one that is neither queued nor running, and 202 otherwise. In the last case
  -- the execution is marked for its end if it is in this process; a queued run that is not is canceled
  -- in the store. No other status is changed: a run that another process executes goes on running.
  pub cancel_run_lem :
      (s : Server)
      → let (t, a) = cancel_run w id s in
        let o = lookup id s.store.runs in
        (a.code ≡ code_for o)
        × (marked id t ≡ (can_cancel o && registered id s) || marked id s)
        × (status_of (lookup id t.store.runs) ≡ status_after (registered id s) (status_of o))
  unfolding cancel_run Runs.get_run
  cancel_run_lem s = found_lem (lookup id s.store.runs) s refl
