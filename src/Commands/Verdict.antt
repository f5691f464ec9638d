-- ===== src/Commands/Verdict.antt =====
-- The exit code of the command `run` (apps/api/cmd/wreckr/main.go).
use wreckr.Prelude.{
  String, ◌≡◌, refl, ap, ◌∙◌, Bool, false, not, ◌&&◌, List, [], ◌∷◌, Option, none, some, eqb,
}
use wreckr.Platform.{Platform, Result, ok}
use wreckr.Scenario.{Scenario}
use wreckr.Scenario.Validate.{validate}
use wreckr.Report.{Status, passed, failed, canceled, Report}
use wreckr.Report.Build.{FloatOps}
use wreckr.Report.Verdict.{passes}
use wreckr.Runner.{has_failed_check}
use wreckr.Runner.Send.{Net}
use wreckr.Runner.Traffic.{Sent}
use wreckr.Runner.Run.{Circumstances, records_of, run_traffic}
use wreckr.Runner.Run.Verdict.{
  taken, named, setup_checks, teardown_checks, good_traffic, run_with_options-passes,
}
use wreckr.K6.Compile.{Encoder}
use wreckr.Commands.{
  Exit, Loaded, Parsed, parsed, load_file, run_loaded, finish_run, exit_code, run, main,
}

exit_code-passes : (s : Status) → eqb (exit_code s) 0 ≡ passes s
exit_code-passes passed = refl
exit_code-passes failed = refl
exit_code-passes canceled = refl

module _ (p : Platform) (f : FloatOps) (net : Net) (enc : Encoder) (read : String → Loaded)
    (json_text : Report → Result String) (write : String → String → Option String)
    (parse_run : List String → Parsed Bool) (parse_compile : List String → Parsed String)
    (c : Circumstances) (sc : Scenario) where
  abbrev its : Scenario
  its = taken p f net "" sc c

  abbrev its_id : String
  its_id = named p f net "" sc c

  -- Where `wreckr run` is given one file, without -json, that holds a valid scenario, which is valid as well
  -- once its variables are expanded again, and the setup of the run has no failed check and its traffic
  -- returns, the command ends with code 0 exactly if no response of the traffic has an error, the error rate
  -- and the 95th percentile of the latency are within the limits, every invariant holds, and no request of
  -- the teardown failed.
  pub main-good_traffic :
      (path : String) (args : List String) (sent : List Sent)
      → parse_run args ≡ parsed false (path ∷ [])
      → load_file p (read path) ≡ ok sc
      → validate p its ≡ none
      → has_failed_check (setup_checks p f net its_id its c) ≡ false
      → run_traffic p f net its.traffic.type its_id its c ≡ some sent
      → (e : Exit) × (main p f net enc read json_text write parse_run parse_compile c ("run" ∷ args)
          ≡ some e)
        × (eqb e.code 0
            ≡ good_traffic p f net its_id its c (records_of sent)
              && not (has_failed_check (teardown_checks p f net its_id its c)))
  unfolding main run run_loaded finish_run
  main-good_traffic path args sent given loaded valid up done =
      let (rep, e, good) = run_with_options-passes p f net "" sc c sent valid up done in
      (
        _,
        ap (run p f net read json_text c) given
            ∙ ap (run_loaded p f net false json_text c) loaded
            ∙ ap (finish_run p f false json_text) e,
        exit_code-passes rep.status ∙ good,
      )
