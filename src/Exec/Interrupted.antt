-- ===== src/Exec/Interrupted.antt =====
-- An execution that a client cancels while the runner works
-- (apps/api/internal/runexec/executor.go).
use wreckr.Prelude.{String, ◌≡◌, [], ◌∷◌, some, false, lookup}
use wreckr.Event.{Time}
use wreckr.Report
use wreckr.Report.{Report}
use wreckr.Store.{RunRecord, Memory, queued}
use wreckr.Store.Events.{is_run_cancel_requested}
use wreckr.Store.Runs
use wreckr.Store.Op.{request_run_cancel}
use wreckr.Blob.{Blob}
use wreckr.Exec.{Env, World, write, poll}
use wreckr.Exec.Alone.{alone, started}

-- No other caller writes but one that requests the end of the run while the runner works.
abbrev pub interrupted : Time → String → Env → Env
interrupted at id e = record (alone e) { during = write (request_run_cancel at id) ∷ poll ∷ [] }

module _ (e : Env) (id : String) (r : RunRecord) (w : World)
    (held : lookup id w.store.runs ≡ some r) (new : r.status ≡ queued)
    (calm : is_run_cancel_requested id w.store ≡ false) (at : Time) where
  abbrev marked : Memory
  marked = started e id r w held new calm

  abbrev asked : Memory
  asked = (Runs.request_run_cancel at id marked).0
