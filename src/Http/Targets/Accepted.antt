-- ===== src/Http/Targets/Accepted.antt =====
-- The targets that the API lets into the store (apps/api/internal/httpapi/server.go, createTarget and
-- validateTargetRecord).
use wreckr.Prelude.{
  String, ◌≡◌, refl, ◌↔◌, Bool, true, false, [], Option, none, some, any, is_nil, when_iff,
  iff_trans, parts_iff, none_iff, if◌then◌else◌,
}
use wreckr.Platform.{Platform}
use wreckr.Scenario.Validate.{is_blank}
use wreckr.Guardrails.{Guardrails, check_base_url}
use wreckr.Store.{TargetRecord}
use wreckr.Http.Prepare.{entries}
use wreckr.Http.Targets.{is_environment, error_list, target_problems, validate_target_record}

error_iff : (o : Option String) → (error_list o ≡ []) ↔ (o ≡ none)
error_iff none = (λ h. refl, λ h. refl)
error_iff (some e) = (λ h. cc, λ h. cc)

environment_iff : (b : Bool) → ((if b then false else true) ≡ false) ↔ (b ≡ true)
environment_iff true = (λ h. refl, λ h. refl)
environment_iff false = (λ h. cc, λ h. cc)

module _ (p : Platform) (g : Guardrails) where
  -- A target is accepted exactly when it has a name, one of the four environments, a base URL that the
  -- guardrails accept, and no header with a blank name.
  pub validate_target_record_iff :
      (t : TargetRecord)
      → (validate_target_record p t g ≡ none) ↔ (
          (is_nil t.name ≡ false)
          × (is_environment t.environment ≡ true)
          × (check_base_url p t.base_url g ≡ none)
          × (any (λ h. is_blank h.0) (entries t.headers) ≡ false))
  unfolding validate_target_record target_problems
  validate_target_record_iff t = iff_trans (none_iff (target_problems p t g) _) (
      iff_trans
        (parts_iff _ _ (when_iff _ _) (
          parts_iff _ _ (iff_trans (when_iff _ _) (environment_iff (is_environment t.environment)))
            (parts_iff _ _ (error_iff (check_base_url p t.base_url g)) (when_iff _ _))))
        (λ h. (h.0, h.1.0, h.1.1.0, h.1.1.1), λ h. (h.0, (h.1, (h.2, h.3)))))
