-- ===== src/Commands.antt =====
-- The command wreckr (apps/api/cmd/wreckr/main.go) with LoadFile of apps/api/internal/scenario/schema.go,
-- and the choice of a store (apps/api/internal/app/store.go). Package flag, files and standard streams are
-- values: what they gave to the command, and what it gives to them.
pub mod Verdict
use wreckr.Prelude.{
  ℕ, String, ◌+++◌, ◌==◌, Bool, true, false, ◌||◌, List, [], ◌∷◌, Option, none, some, is_nil,
  if◌then◌else◌,
}
use wreckr.Platform.{Platform, Result, ok, err, to_lower}
use wreckr.Scenario.{Scenario}
use wreckr.Scenario.Normalize.{normalized, with_env}
use wreckr.Scenario.Validate.{validate}
use wreckr.Report.{Status, passed, failed, canceled, Report}
use wreckr.Report.Build.{FloatOps}
use wreckr.Report.Text.{text}
use wreckr.Runner.Send.{Net}
use wreckr.Runner.Run.{Circumstances, run_with_options}
use wreckr.K6.Compile.{Script, Encoder, compile}
use wreckr.Config.{Config, S3Config}

-- How the command ends: its exit code and the texts on standard output and standard error.
pub record Exit : Type 0 where
  pub code : ℕ
  pub output : String
  pub errors : String

abbrev pub fail : ℕ → String → Exit
fail code message = record { code = code; output = ""; errors = message +++ "\n" }

-- What package flag made of the arguments: it ended the process itself, or gave a flag of its command and
-- the other arguments.
pub data Parsed (A : Type 0) : Type 0 where
  ended : Exit → Parsed A
  parsed : A → List String → Parsed A

-- What os.ReadFile and json.Unmarshal made of a path: an error of one of them, or a scenario.
pub data Loaded : Type 0 where
  unreadable : String → Loaded
  undecodable : String → Loaded
  decoded : Scenario → Loaded

abbrev pub accepted : Option String → Scenario → Result Scenario
accepted (some e) sc = err e
accepted none sc = ok sc

unfoldable pub load_file : Platform → Loaded → Result Scenario
load_file p (unreadable e) = err e
load_file p (undecodable e) = err ("parse scenario: " +++ e)
load_file p (decoded given) =
    let sc = normalized p (with_env p given) in accepted (validate p sc) sc

abbrev pub exit_code : Status → ℕ
exit_code passed = 0
exit_code failed = 1
exit_code canceled = 1

usage_of : String → String
usage_of flags = "scenario file is required\nusage: wreckr " +++ flags

unfoldable pub usage : String
usage =
    "Wreckr - production scenario testing for backend systems\n" +++ "\n" +++ "commands:\n"
    +++ "  run <scenario.json>              run a scenario file\n"
    +++ "  compile-k6 <scenario.json>       compile a scenario to a k6 script"

-- The report in JSON, where it could be written.
abbrev pub printed : Result String → Status → Exit
printed (err e) s = fail 1 e
printed (ok raw) s = record { code = exit_code s; output = raw +++ "\n"; errors = "" }

module _ (p : Platform) (f : FloatOps) where
  -- The end of `run`; `json_text` is JSON of the report.
  unfoldable pub finish_run : Bool → (Report → Result String) → Option (Result Report) → Option Exit
  finish_run json json_text none = none
  finish_run json json_text (some (err e)) = some (fail 1 e)
  finish_run true json_text (some (ok rep)) = some (printed (json_text rep) rep.status)
  finish_run false json_text (some (ok rep)) =
      some (record { code = exit_code rep.status; output = text f rep; errors = "" })

  module _ (net : Net) where
    run_loaded : Bool → (Report → Result String) → Circumstances → Result Scenario → Option Exit
    unfolding finish_run
    run_loaded json json_text c (err e) = some (fail 2 e)
    run_loaded json json_text c (ok sc) =
        finish_run json json_text (run_with_options p f net "" sc c)

    -- The command `run`. None where the traffic has not returned.
    unfoldable pub run :
        (String → Loaded) → (Report → Result String) → Circumstances → Parsed Bool → Option Exit
    unfolding run_loaded load_file usage_of
    run read json_text c (ended e) = some e
    run read json_text c (parsed json (path ∷ [])) =
        run_loaded json json_text c (load_file p (read path))
    run read json_text c (parsed json rest) = some (fail 2 (usage_of "run [flags] <scenario.json>"))

  module _ (enc : Encoder) where
    -- `write` is the error of os.WriteFile, if it has one.
    abbrev deliver : String → (String → String → Option String) → Script → Exit
    deliver output write script =
        if is_nil output
        then record { code = 0; output = script.content; errors = "" }
        else elim (write output script.content) [
          | none ↦ record { code = 0; output = ""; errors = "" }
          | some e ↦ fail 1 e
        ]

    compiled : String → (String → String → Option String) → Result Script → Exit
    compiled output write (err e) = fail 2 e
    compiled output write (ok script) = deliver output write script

    compile_loaded : String → (String → String → Option String) → Result Scenario → Exit
    unfolding compiled
    compile_loaded output write (err e) = fail 2 e
    compile_loaded output write (ok sc) = compiled output write (compile enc f p sc)

    -- The command `compile-k6`.
    unfoldable pub compile_k6 :
        (String → Loaded) → (String → String → Option String) → Parsed String → Exit
    unfolding compile_loaded load_file usage_of
    compile_k6 read write (ended e) = e
    compile_k6 read write (parsed output (path ∷ [])) =
        compile_loaded output write (load_file p (read path))
    compile_k6 read write (parsed output rest) =
        fail 2 (usage_of "compile-k6 [-o script.js] <scenario.json>")

-- The first argument names the command; package flag parses those behind it.
module _ (p : Platform) (f : FloatOps) (net : Net) (enc : Encoder) where
  unfoldable pub main :
      (String → Loaded)
      → (Report → Result String)
      → (String → String → Option String)
      → (List String → Parsed Bool)
      → (List String → Parsed String)
      → Circumstances
      → List String
      → Option Exit
  unfolding run compile_k6 usage
  main read json_text write parse_run parse_compile c [] = some (fail 2 usage)
  main read json_text write parse_run parse_compile c (name ∷ args) =
      if name == "run"
      then run p f net read json_text c (parse_run args)
      else if name == "compile-k6"
      then some (compile_k6 p f enc read write (parse_compile args))
      else some (fail 2 usage)

-- The stores that the configuration can name.
pub data StoreChoice : Type 0 where
  memory : StoreChoice
  postgres : String → StoreChoice

unfoldable pub open_store : Platform → Config → Result StoreChoice
open_store p cfg =
    let backend = to_lower p cfg.store_backend in
    if is_nil backend || backend == "memory"
    then ok memory
    else if backend == "postgres" || backend == "postgresql"
    then ok (postgres cfg.database_url)
    else err ("unknown WRECKR_STORE backend: " +++ cfg.store_backend)

-- None is the store in memory.
unfoldable pub open_blob_store : Platform → Config → Option S3Config
open_blob_store p cfg =
    if to_lower p cfg.store_backend == "memory" || is_nil cfg.s3.endpoint then none else some cfg.s3
