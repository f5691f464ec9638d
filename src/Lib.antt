-- ===== src/Lib.antt =====
-- wreckr: the control plane and the runner of a load-testing tool, in Go. The paths below are those
-- under apps/api/internal/, but for the demo API, which stands under examples/, and the
-- commands, which stand in apps/api/cmd/.
--
-- A client sends scenarios to the HTTP API (httpapi/server.go), which resolves their target, expands
-- and normalises them (scenario/schema.go), checks them (scenario/schema.go and
-- guardrails/guardrails.go) and keeps them in a store (store/memory.go) as numbered versions. A request
-- for a run makes a run record that is executed by the API itself, or, where there is a queue, by a
-- worker (runexec/executor.go). An execution calls the runner, files its report in the store and, in
-- the worker, in an object store (blob/memory.go). Each step of a run is an event in the run's log,
-- which the API streams to clients. A run is canceled by an event in the log and, in the API's own
-- process, by a mark that ends the run's context.
--
-- The files, by part:
--   Prelude/*    Go's strings, maps, slices, signed integers and decimal printing, and lemmas on them
--   Platform     what the program takes from outside: net/url, net.ParseIP, json.Valid, os.ExpandEnv
--   Value, Event, Scenario, Report
--                the data of runevent/event.go, scenario/schema.go and report/report.go
--   Report/*     Build and Summarize (Build), over a record of the float64 operations, Text (Text), and their
--                theorems
--   Runner/*     runner/runner.go: the setup, the teardown and the URL of a request (Runner), executeRequest
--                (Send), the rate limiter (Limiter), runParallel (Traffic), runRace (Race), thresholds and
--                invariants (Checks), RunWithOptions (Run), and their theorems
--   K6/*         k6script/compiler.go (Compile, Thresholds, Helpers) and runner/k6_runner.go (Names, Runner)
--   Worker       the handler of a queue task, worker/worker.go, and the events of its attempts
--   Scenario/*   WithEnv and Normalized (Normalize), Validate (Validate), LookupJSONPath of
--                scenario/jsonpath.go (JsonPath), and their theorems
--   Guardrails   Validate, ValidateTargetBaseURL, and the allowlist; Guardrails/* its theorems
--   Store        the state of store/memory.go; Targets, Scenarios, Runs and Events have its methods under
--                their names in snake case, Op the methods as data, Shared the writes in place, and the other
--                children the theorems
--   Blob         MemoryStore of blob/memory.go
--   Exec         Executor.Execute, in the phases dispatch, begin, start_phase, run_phase and finish
--   Http         the API's own state; Prepare is what the handlers share, Targets, Scenarios, Runs,
--                Cancel, Stream and Metrics are the handlers, and Execute is executeRun
--   Config       FromEnv of config/config.go; Config/* its theorems
--   Commands     the command wreckr of cmd/wreckr/main.go with LoadFile, and the choice of a store of app/store.go
--   Demo         the target of examples/demo-api/cmd/main.go; Demo/* its clients in any order
--   Examples/*   concrete inputs, the witnesses of the theorems and tests
--
-- The traffic of a run is sent by goroutines that share a limiter and a list of work. Their state is a
-- record, and a schedule is a list of moves, each of which lets one of them take its next step with what
-- the network and the clock say then. A run of a schedule gives none while a goroutine has not
-- returned. net/http and encoding/json are the records Net, Exchange and Encoder.
--
-- A method of the store holds one lock from its first line to its return and is one function on the
-- state. The executor, executeRun, cancelRun and the event stream do not hold it: between any two of their
-- calls the model puts a list of writes by others. A poll of the executor's goroutine is a step in such a
-- list. createRun and the other handlers are functions on one state of the store: for them nothing is
-- written between their calls. Readings of the clock are inputs, as are the order of a loop over a map (the
-- order of an association list) and the results of the runner.
--
-- WithEnv and Normalized write through the slices and maps of their receiver, which the store's records
-- share. They are functions to a new scenario here; what they may do to the records is a write in place of
-- Store/Shared, which turns any scenario in the store into any other between two methods. The executor and
-- executeRun are modelled without such writes, also by the runner that they call, and where a stored
-- scenario is said to have passed a check, it is as the handler stored it.
--
-- int is the integers ℤ, or ℕ for counters that only grow: the code compares these numbers and does
-- not overflow them. Where it multiplies, in a k6 script and in durations, the product wraps around at 64
-- bits, and a number that strconv.Atoi reads must fit them. Strings are texts of Unicode characters; %q
-- takes those beyond ASCII to print, and strings.EqualFold goes by lower case. Every
-- loop is over a list and ends with it; the only fuel is in decimal printing, where the number itself is
-- more than its digits need. The event stream's loop runs over the states in which its rounds find the store.
--
-- Not modelled: the PostgreSQL store (store/postgres.go, statements that the database runs), the S3
-- client, the mux, JSON and HTTP encoding, the process of k6 and its temporary files, the queue itself, the
-- processes of the API and of the worker (cmd/api and cmd/worker: wiring), and the JSON form of a report.
pub mod Prelude
pub mod Value
pub mod Event
pub mod Scenario
pub mod Report
pub mod Store
pub mod Platform
pub mod Blob
pub mod Config
pub mod Guardrails
pub mod Exec
pub mod Runner
pub mod Worker
pub mod Http
pub mod Examples
pub mod K6
pub mod Demo
pub mod Commands
