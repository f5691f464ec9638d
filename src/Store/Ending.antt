-- ===== src/Store/Ending.antt =====
-- The three methods that end a run leave it terminal, whatever it was
-- (apps/api/internal/store/memory.go, CompleteRun, CancelRun and ErrorRun).
use wreckr.Store.Later.{Later}
use wreckr.Prelude.{
  ◌⊎◌, String, ◌≡◌, refl, inl, inr, some, true, false, arith, lookup, lookup-insert, eq_refl,
  Bool-cases,
}
use wreckr.Event.{Time, Event}
use wreckr.Report.{Report}
use wreckr.Store.{running, RunRecord, Memory, is_terminal}
use wreckr.Store.Runs.{mark_run_started, on_active, complete_run, cancel_run, error_run}
use wreckr.Store.History.{write, on_active_settled, on_active_live, runs-write}

-- The store holds the run `id`, and it is terminal.
abbrev pub Ended : String → Memory → Type 0
Ended id m = (t : RunRecord) × (lookup id m.runs ≡ some t) × (is_terminal t.status ≡ true)

abbrev HasEnded : RunRecord → Type 0
HasEnded t = is_terminal t.status ≡ true

module _ (id : String) (r : RunRecord) (m : Memory) (held : lookup id m.runs ≡ some r) where
  -- What the store holds after a write to a run that is not terminal.
  pub written :
      (at : Time) (g : RunRecord → RunRecord) (ev : RunRecord → Event)
      → is_terminal r.status ≡ false
      → lookup id (on_active id (write id at g ev) m).runs ≡ some (g r)
  written at g ev t =
      rw (on_active_live id at g ev m r held t)
        (rw (runs-write id at g ev r m) (rw lookup-insert (rw (eq_refl id))))

  -- What holds of a terminal run and of every record that the method writes holds afterwards.
  pub write_holds :
      (P : RunRecord → Type 0) (at : Time) (g : RunRecord → RunRecord) (ev : RunRecord → Event)
      → (is_terminal r.status ≡ true → P r)
      → P (g r)
      → (t : RunRecord) × (lookup id (on_active id (write id at g ev) m).runs ≡ some t) × P t
  write_holds P at g ev old new = elim (Bool-cases (is_terminal r.status)) [
    | inl t ↦ rw (on_active_settled id at g ev m r held t) (r, held, old t)
    | inr t ↦ (g r, written at g ev t, new)
  ]

  pub complete-Ended : (now at : Time) (rep : Report) → Ended id (complete_run now at rep id m)
  unfolding complete_run is_terminal
  complete-Ended now at rep = write_holds HasEnded at _ _ (λ t. t) (ground arith)

  pub cancel-Ended : (now at : Time) (rep : Report) → Ended id (cancel_run now at rep id m)
  unfolding cancel_run is_terminal
  cancel-Ended now at rep = write_holds HasEnded at _ _ (λ t. t) refl

  pub error-Ended : (now at : Time) (err : String) → Ended id (error_run now at err id m)
  unfolding error_run is_terminal
  error-Ended now at err = write_holds HasEnded at _ _ (λ t. t) refl

-- Running or terminal: what a run is after MarkRunStarted, and then remains.
abbrev pub Underway : RunRecord → Type 0
Underway r = (r.status ≡ running) ⊎ (is_terminal r.status ≡ true)

pub Later-Underway : (r s : RunRecord) → Later r s → Underway r → Underway s
unfolding is_terminal
Later-Underway r s h u = ground arith

pub mark-Underway :
    (now at : Time) (id : String) (r : RunRecord) (m : Memory)
    → lookup id m.runs ≡ some r
    → (t : RunRecord) × (lookup id (mark_run_started now at id m).runs ≡ some t) × Underway t
unfolding mark_run_started
mark-Underway now at id r m held = write_holds id r m held Underway at _ _ (λ t. inr t) (inl refl)
