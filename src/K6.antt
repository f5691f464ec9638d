-- ===== src/K6.antt =====
-- The k6 engine: the script that is made of a scenario (apps/api/internal/k6script/compiler.go) and the
-- report that is made of what k6 says (apps/api/internal/runner/k6_runner.go).
pub mod Helpers
pub mod Thresholds
pub mod Compile
pub mod Names
pub mod Runner
