-- ===== src/Report/Text.antt =====
-- The text form of a report (apps/api/internal/report/report.go, Text and formatStatusCodes).
pub mod Stable
use wreckr.Prelude.{ℕ, String, ◌+++◌, List, [], ◌∷◌, Dict, map, join, show, sort_entries}
use wreckr.Report.{Status, passed, failed, canceled, Report}
use wreckr.Report.Build.{FloatOps}

abbrev code_count : String × ℕ → String
code_count entry = entry.0 +++ "=" +++ show entry.1

unfoldable pub format_status_codes : Dict ℕ → String
format_status_codes [] = "none"
format_status_codes (entry ∷ rest) = join ", " (map code_count (sort_entries (entry ∷ rest)))

abbrev title : Status → String
title passed = "PASSED"
title failed = "FAILED"
title canceled = "CANCELED"

unfoldable pub failure_lines : List String → String
failure_lines [] = ""
failure_lines (x ∷ xs) =
    "\nFailures:\n" +++ join "" (map (λ (failure : String). "- " +++ failure +++ "\n") (x ∷ xs))

unfoldable pub text : FloatOps → Report → String
unfolding format_status_codes failure_lines
text f r =
    title r.status
    +++ "\n\n"
    +++ "Scenario: "
    +++ r.scenario
    +++ "\n"
    +++ "Run ID:   "
    +++ r.run_id
    +++ "\n"
    +++ "Duration: "
    +++ f.fixed 1 r.duration_ms
    +++ "ms\n\n"
    +++ "Technical summary:\n"
    +++ "- Requests: "
    +++ show r.summary.total_requests
    +++ "\n"
    +++ "- Failed:   "
    +++ show r.summary.failed_requests
    +++ "\n"
    +++ "- Errors:   "
    +++ f.fixed 2 (f.mul r.summary.error_rate (f.of_nat 100))
    +++ "%\n"
    +++ "- p95:      "
    +++ f.fixed 1 r.summary.latency.p95_ms
    +++ "ms\n"
    +++ "- Status:   "
    +++ format_status_codes r.summary.status_codes
    +++ "\n"
    +++ failure_lines r.failures
