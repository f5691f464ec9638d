-- ===== src/Store/Op.antt =====
-- The methods of the memory store that write, as data: a history of the store is a list of them, in
-- the order in which they took the lock (apps/api/internal/store/memory.go).
use wreckr.Prelude.{String, ◌+++◌, ◌==◌, List, [], ◌∷◌, Option, Bool, false, show}
use wreckr.Event.{Time, Event}
use wreckr.Scenario.{Scenario}
use wreckr.Report.{Report}
use wreckr.Store.{TargetRecord, ScenarioVersionRecord, Memory}
use wreckr.Store.Targets
use wreckr.Store.Scenarios
use wreckr.Store.Events
use wreckr.Store.Runs

pub data Op : Type 0 where
  create_target : Time → TargetRecord → Op
  update_target : Time → String → TargetRecord → Op
  delete_target : String → Op
  create_scenario : Time → Scenario → Op
  update_scenario : Time → String → Scenario → Op
  create_run : Time → Time → String → String → Scenario → Option ScenarioVersionRecord → Op
  mark_run_started : Time → Time → String → Op
  complete_run : Time → Time → Report → String → Op
  cancel_run : Time → Time → Report → String → Op
  error_run : Time → Time → String → String → Op
  request_run_cancel : Time → String → Op
  append_run_event : Time → String → Event → Op

unfoldable pub apply : Op → Memory → Memory
apply (create_target now t) m = (Targets.create_target now t m).0
apply (update_target now id t) m = (Targets.update_target now id t m).0
apply (delete_target id) m = (Targets.delete_target id m).0
apply (create_scenario now sc) m = (Scenarios.create_scenario now sc m).0
apply (update_scenario now id sc) m = (Scenarios.update_scenario now id sc m).0
apply (create_run now logged sid tid sc ref) m = (Runs.create_run now logged sid tid sc ref m).0
apply (mark_run_started now logged id) m = Runs.mark_run_started now logged id m
apply (complete_run now logged rep id) m = Runs.complete_run now logged rep id m
apply (cancel_run now logged rep id) m = Runs.cancel_run now logged rep id m
apply (error_run now logged err id) m = Runs.error_run now logged err id m
apply (request_run_cancel logged id) m = (Runs.request_run_cancel logged id m).0
apply (append_run_event now id e) m = (Events.append_run_event now id e m).0

unfoldable pub apply_all : List Op → Memory → Memory
unfolding apply
apply_all [] m = m
apply_all (op ∷ ops) m = apply_all ops (apply op m)

-- A run's id is the clock's reading: a second creation at one reading takes the first one's place.
abbrev pub creates_run : String → Op → Bool
creates_run id (create_run now _ _ _ _ _) = ("run_" +++ show now) == id
creates_run id _ = false

abbrev pub creates_scenario : String → Op → Bool
creates_scenario id (create_scenario now _) = ("scn_" +++ show now) == id
creates_scenario id _ = false
