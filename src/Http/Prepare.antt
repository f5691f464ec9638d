-- ===== src/Http/Prepare.antt =====
-- How a handler turns the scenario of a request into the one that it stores or runs
-- (apps/api/internal/httpapi/server.go).
pub mod Merged
use wreckr.Prelude.{
  ℕ, ℤ, pos, String, ◌+++◌, Bool, true, false, ◌&&◌, List, [], ◌∷◌, Option, none, some, Dict,
  insert, ltb_ℤ, eqb_ℤ, is_nil, trim_space, quote, if◌then◌else◌,
}
use wreckr.Platform.{Platform}
use wreckr.Scenario.{Scenario, Headers}
use wreckr.Scenario.Normalize.{with_env, normalized}
use wreckr.Scenario.Validate.{validate}
use wreckr.Guardrails.{Guardrails, check_scenario}
use wreckr.Store.{TargetRecord, Memory}
use wreckr.Store.Targets.{get_target}
use wreckr.Http.{Config, Step, go, stop, ◌>>=◌, fail, check, found}

-- The entries of a header map that may be nil.
abbrev pub entries : Headers → Dict String
entries none = []
entries (some h) = h

unfoldable pub copy_into : Dict String → Dict String → Dict String
copy_into [] merged = merged
copy_into ((k, v) ∷ h) merged = copy_into h (insert k v merged)

-- The headers of the target, and over them those of the scenario.
unfoldable pub merge_headers : Headers → Headers → Headers
unfolding copy_into
merge_headers target_headers scenario_headers =
    some (copy_into (entries scenario_headers) (copy_into (entries target_headers) []))

-- The id of the target: the explicit one, or the scenario's.
unfoldable pub target_id_of : String → Scenario → String
target_id_of explicit sc =
    if is_nil (trim_space explicit) then trim_space sc.target.id else trim_space explicit

unfoldable pub with_target : Scenario → TargetRecord → Scenario × String
unfolding merge_headers
with_target sc t = (
  record sc {
    target = record {
      id = t.id;
      base_url = t.base_url;
      headers = merge_headers t.headers sc.target.headers;
    };
  },
  t.id,
)

unfoldable pub resolve_scenario_target : Memory → Scenario → String → Step (Scenario × String)
unfolding target_id_of with_target
resolve_scenario_target m sc explicit =
    let id = target_id_of explicit sc in
    if is_nil id
    then go (sc, "")
    else (found 400 ("target " +++ quote id +++ " not found") (get_target id m) >>= λ t.
        go (with_target sc t))

-- A run without a rate gets the highest that is allowed.
unfoldable pub apply_run_guardrails : Guardrails → Scenario → Scenario
apply_run_guardrails g sc =
    if ltb_ℤ (pos 0) g.max_request_rate && eqb_ℤ sc.traffic.rate_per_second (pos 0)
    then record sc { traffic = record sc.traffic { rate_per_second = g.max_request_rate } }
    else sc

module _ (p : Platform) where
  -- The two checks.
  unfoldable pub checked : Guardrails → Scenario → String → Step (Scenario × String)
  checked g sc target_id = do
    _ ← check 400 (validate p sc)
    _ ← check 400 (check_scenario p sc g)
    go (sc, target_id)

  -- What createScenario, updateScenario and createRun have in common.
  unfoldable pub prepare : Guardrails → Memory → Scenario → String → Step (Scenario × String)
  prepare g m raw explicit = do
    resolved ← resolve_scenario_target m raw explicit
    checked g (normalized p (with_env p resolved.0)) resolved.1
