-- ===== src/Http/Targets.antt =====
-- The handlers of targets (apps/api/internal/httpapi/server.go).
pub mod Accepted
use wreckr.Prelude.{
  String, ◌+++◌, Bool, true, false, List, [], ◌∷◌, ◌++◌, Option, none, some, any, is_empty, is_nil,
  trim_space, join, quote, if◌then◌else◌, when,
}
use wreckr.Platform.{Platform}
use wreckr.Event.{Time}
use wreckr.Scenario.{Headers}
use wreckr.Scenario.Validate.{is_blank}
use wreckr.Guardrails.{Guardrails, check_base_url}
use wreckr.Store.{TargetRecord, TargetEnvironment, development, Memory}
use wreckr.Store.Targets
use wreckr.Http.{Config, Answer, answer, error, target, targets, empty, Step, go, stop}
use wreckr.Http.Prepare.{entries}

pub record TargetRequest : Type 0 where
  pub name : String
  pub base_url : String
  pub environment : TargetEnvironment
  pub description : String
  pub headers : Headers

unfoldable pub is_environment : TargetEnvironment → Bool
is_environment TargetEnvironment.unset = false
is_environment (TargetEnvironment.other _) = false
is_environment _ = true

or_development : TargetEnvironment → TargetEnvironment
or_development TargetEnvironment.unset = development
or_development e = e

-- The literal in readTargetRequest.
unfoldable pub target_of : TargetRequest → TargetRecord
unfolding or_development
target_of req = record {
  id = "";
  name = trim_space req.name;
  base_url = trim_space req.base_url;
  environment = or_development req.environment;
  description = trim_space req.description;
  headers = req.headers;
  created_at = none;
  updated_at = none;
}

-- if err := …; err != nil { problems = append(problems, err.Error()) }
abbrev pub error_list : Option String → List String
error_list none = []
error_list (some e) = e ∷ []

module _ (p : Platform) where
  unfoldable pub target_problems : TargetRecord → Guardrails → List String
  target_problems t g =
      when (is_nil t.name) "name is required"
      ++ (when (if is_environment t.environment then false else true)
            "environment must be one of local, development, staging, production"
          ++ (error_list (check_base_url p t.base_url g)
              ++ when (any (λ h. is_blank h.0) (entries t.headers))
                  "header names must not be empty"))

  unfoldable pub validate_target_record : TargetRecord → Guardrails → Option String
  validate_target_record t g =
      if is_empty (target_problems t g) then none else some (join "; " (target_problems t g))

  valid_or_stop : TargetRecord → Option String → Step TargetRecord
  valid_or_stop t none = go t
  valid_or_stop t (some e) = stop (answer 400 (error e))

  unfoldable pub read_target_request : Config → Option String → TargetRequest → Step TargetRecord
  unfolding valid_or_stop
  read_target_request c (some e) req = stop (answer 400 (error e))
  read_target_request c none req =
      valid_or_stop (target_of req) (validate_target_record (target_of req) c.guardrails)

  created : Memory × TargetRecord → Memory × Answer
  created (n, t) = (n, answer 201 (target t))

  unfoldable pub post_target :
      Config → Time → Option String → TargetRequest → Memory → Memory × Answer
  unfolding created
  post_target c now bad req m = elim (read_target_request c bad req) [
    | stop a ↦ (m, a)
    | go t ↦ created (Targets.create_target now t m)
  ]

  updated : String → Memory × Option TargetRecord → Memory × Answer
  updated id (n, none) = (n, answer 404 (error ("target " +++ quote id +++ " not found")))
  updated id (n, some t) = (n, answer 200 (target t))

  unfoldable pub put_target :
      Config → Time → Option String → String → TargetRequest → Memory → Memory × Answer
  unfolding updated
  put_target c now bad id req m = elim (read_target_request c bad req) [
    | stop a ↦ (m, a)
    | go t ↦ updated id (Targets.update_target now id t m)
  ]

found_target : String → Option TargetRecord → Answer
found_target id none = answer 404 (error ("target " +++ quote id +++ " not found"))
found_target id (some t) = answer 200 (target t)

unfoldable pub get_target : String → Memory → Answer
unfolding found_target
get_target id m = found_target id (Targets.get_target id m)

unfoldable pub list_targets : Memory → Answer
list_targets m = answer 200 (targets (Targets.list_targets m))

deleted : String → Memory × Bool → Memory × Answer
deleted id (n, true) = (n, answer 204 empty)
deleted id (n, false) = (n, answer 404 (error ("target " +++ quote id +++ " not found")))

unfoldable pub delete_target : String → Memory → Memory × Answer
unfolding deleted
delete_target id m = deleted id (Targets.delete_target id m)
