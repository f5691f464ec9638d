-- ===== src/Store/Targets.antt =====
-- Targets of the memory store (apps/api/internal/store/memory.go). `now` is the clock's reading.
use wreckr.Prelude.{
  String, ◌+++◌, List, [], Option, none, some, Bool, true, false, lookup, insert, erase, values,
  show,
}
use wreckr.Event.{Time}
use wreckr.Scenario.{Headers}
use wreckr.Store.{TargetRecord, Memory}

-- if target.Headers == nil { target.Headers = map[string]string{} }
unfoldable pub or_empty : Headers → Headers
or_empty none = some []
or_empty (some h) = some h

unfoldable pub create_target : Time → TargetRecord → Memory → Memory × TargetRecord
unfolding or_empty
create_target now target m =
    let id = "tgt_" +++ show now in
    let t : TargetRecord = record target {
      id = id;
      created_at = some now;
      updated_at = some now;
      headers = or_empty target.headers;
    } in
    (record m { targets = insert id t m.targets }, t)

-- The branch of UpdateTarget on what the map holds.
unfoldable pub update_found :
    Time → String → TargetRecord → Option TargetRecord → Memory → Memory × Option TargetRecord
unfolding or_empty
update_found now id target none m = (m, none)
update_found now id target (some current) m =
    let t : TargetRecord = record target {
      id = id;
      created_at = current.created_at;
      updated_at = some now;
      headers = or_empty target.headers;
    } in
    (record m { targets = insert id t m.targets }, some t)

unfoldable pub update_target : Time → String → TargetRecord → Memory → Memory × Option TargetRecord
unfolding update_found
update_target now id target m = update_found now id target (lookup id m.targets) m

unfoldable pub delete_found : String → Option TargetRecord → Memory → Memory × Bool
delete_found id none m = (m, false)
delete_found id (some _) m = (record m { targets = erase id m.targets }, true)

unfoldable pub delete_target : String → Memory → Memory × Bool
unfolding delete_found
delete_target id m = delete_found id (lookup id m.targets) m

unfoldable pub get_target : String → Memory → Option TargetRecord
get_target id m = lookup id m.targets

unfoldable pub list_targets : Memory → List TargetRecord
list_targets m = values m.targets
