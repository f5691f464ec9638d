-- ===== src/K6/Names.antt =====
-- The names of the metrics of k6 (apps/api/internal/runner/k6_runner.go, reconstructRecords): the regular
-- expression is matched by hand.
pub mod Read
use Prim.Native.Char.{Char, code}
use Prim.Native.String.{String}
use wreckr.Prelude.{
  ℕ, zero, suc, ◌-◌, ◌^◌, ℤ, pos, ◌+++◌, ◌==◌, Bool, true, false, not, ◌&&◌, ◌||◌, List, [], ◌∷◌,
  ◌++◌, Option, none, some, Dict, lookup, contains, show_ℤ, is_nil, is_empty, leb_ℤ, eqb, leb,
  eqb_ℤ, cut, scan, atoi, has_prefix, trim_prefix, if◌then◌else◌,
}
use wreckr.Platform.{Platform, Result, ok, err}
use wreckr.Value.{Float64}
use wreckr.Event.{Time}
use wreckr.Scenario.{Scenario, Thresholds, Invariant}
use wreckr.Report.{Report, ResponseRecord, CheckResult, LatencyStats, Summary}
use wreckr.Report.Build.{FloatOps, zero_float, build}
use wreckr.Runner.Send.{Net}
use wreckr.Runner.Checks.{Visit, evaluate_invariants}
use wreckr.K6.Compile.{Script}

-- One or more digits and a closing brace, which ends the name.
digits_then_brace : String → String → Option String
digits_then_brace read String.[] = none
digits_then_brace read (String.◌∷◌ c s) =
    let more = digits_then_brace (read +++ String.◌∷◌ c "") s in
    if leb 48 (code c) && leb (code c) 57
    then more
    else if eqb (code c) 125 && is_nil s && not (is_nil read)
    then some read
    else none

-- The text behind a prefix, if the text has it.
after : String → String → Option String
after prefix s = if has_prefix s prefix then some (trim_prefix s prefix) else none

status_of : String → Option String → Option (String × String)
unfolding digits_then_brace
status_of name none = none
status_of name (some rest) = elim (digits_then_brace "" rest) [
  | none ↦ none
  | some status ↦ some (name, status)
]

-- A name up to a character, at least one long, and the status behind it.
name_until : ℕ → String → String → Option (String × String)
unfolding status_of after
name_until stop mark s =
    let (name, rest) = cut stop s in if is_nil name then none else status_of name (after mark rest)

abbrev or_try : Option (String × String) → Option (String × String) → Option (String × String)
or_try none o = o
or_try (some a) o = some a

abbrev in_quotes : Option String → Option (String × String)
in_quotes none = none
in_quotes (some s) = name_until 34 "\",status:" s

-- http_reqs{name:(?:"([^"]+)"|([^,]+)),status:(\d+)}, by the name and the digits.
unfoldable pub match_name : Option String → Option (String × String)
unfolding name_until
match_name none = none
match_name (some s) = or_try (in_quotes (after "\"" s)) (name_until 44 ",status:" s)

unfoldable pub match_metric : String → Option (String × String)
unfolding match_name after
match_metric key = match_name (after "http_reqs{name:" key)

-- strconv.Atoi with its error ignored: 0, or the largest int for more.
unfoldable pub status_number : String → ℤ
status_number s = elim (atoi s) [ none ↦ pos (2 ^ 63 - 1) | some n ↦ n ]
