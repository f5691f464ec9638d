-- ===== src/Examples/ScenarioCases.antt =====
-- Scenarios and guardrails on concrete inputs.
use wreckr.Prelude.{
  ℤ, pos, String, ◌≡◌, refl, ◌≢◌, ◌↔◌, Bool, true, false, [], ◌∷◌, Option, none, some, ltb_ℤ, eqb_ℤ,
  is_some, all, ◌&&◌, inl, inr, arith,
}
use wreckr.Platform.{Platform, ok, upper_char, to_upper, to_lower}
use wreckr.Scenario.{Scenario}
use wreckr.Scenario.Validate.{validate}
use wreckr.Scenario.Valid.{Valid, validate_iff}
use wreckr.Guardrails.{
  Guardrails, check_scenario, parse_target_url, is_metadata_host, matches_allowlist,
}
use wreckr.Guardrails.Accepts.{Within, check_scenario_iff}
use wreckr.Guardrails.Metadata.{SafePaths, check_scenario-SafePaths}
use wreckr.Examples.Fixtures.{sample}
use wreckr.Examples.Web.{upper_char_idem, web, Address}

abbrev pub limits : Guardrails
limits = record {
  max_concurrency = pos 1000;
  max_request_rate = pos 5000;
  max_run_duration = pos 300000000000;
  max_request_body_bytes = pos 1048576;
  target_allowlist = [];
  allow_metadata_target = true;
}

validate_iff_example : (validate web sample ≡ none) ↔ Valid web sample
validate_iff_example = validate_iff web sample

sample_valid : validate web sample ≡ none
unfolding validate wreckr.Scenario.Validate.problems wreckr.Scenario.Validate.is_blank
    wreckr.Prelude.is_nil wreckr.Prelude.trim_space wreckr.Scenario.Validate.parse_http_url
    wreckr.Examples.Web.parse_address wreckr.Scenario.Validate.traffic_problems
    wreckr.Scenario.Validate.is_known wreckr.Scenario.Validate.request_problems
    wreckr.Scenario.Validate.invariant_problems
sample_valid = refl

check_scenario_iff_example : (check_scenario web sample limits ≡ none) ↔ Within web sample limits
check_scenario_iff_example = check_scenario_iff web sample limits

pub sample_accepted : check_scenario web sample limits ≡ none
unfolding check_scenario wreckr.Guardrails.violation_error wreckr.Guardrails.violations
    wreckr.Guardrails.limit_problems wreckr.Guardrails.body_problems
    wreckr.Guardrails.target_problems wreckr.Guardrails.url_problems
    wreckr.Guardrails.request_target_problems wreckr.Guardrails.path_problems
    wreckr.Guardrails.admits wreckr.Guardrails.entry_host
    wreckr.Guardrails.invariant_target_problems wreckr.Guardrails.is_absolute
    wreckr.Guardrails.matches_allowlist wreckr.Guardrails.normalize_entry
    wreckr.Guardrails.reference_problems wreckr.Guardrails.same_origin wreckr.Guardrails.same_ip
    wreckr.Guardrails.is_metadata_host wreckr.Guardrails.parse_target_url wreckr.Prelude.size_text
    wreckr.Prelude.is_nil wreckr.Prelude.trim_space wreckr.Prelude.contains_any
    wreckr.Prelude.translate wreckr.Prelude.has_prefix to_lower wreckr.Platform.lower_char
    wreckr.Scenario.Validate.is_blank wreckr.Examples.Web.parse_address wreckr.Examples.Web.resolve
sample_accepted = refl

check_scenario-SafePaths_example :
    SafePaths web sample (parse_target_url web sample.target.base_url)
check_scenario-SafePaths_example = check_scenario-SafePaths web sample limits refl sample_accepted

-- A scenario whose base URL is instance metadata.
abbrev aimed : Scenario
aimed = record sample { target = record sample.target { base_url = "http://169.254.169.254" } }

abbrev metadata : Address
metadata = record { scheme = "http"; host = "169.254.169.254" }
