-- ===== src/Report.antt =====
-- The report of a run (apps/api/internal/report/report.go).
pub mod Build
pub mod Verdict
pub mod Text
use wreckr.Prelude.{ℕ, ℤ, String, Bool, List, Dict}
use wreckr.Value.{Float64}
use wreckr.Event.{Time}

pub data Status : Type 0 where
  passed failed canceled : Status

pub record ResponseRecord : Type 0 where
  pub request_name : String
  pub iteration : ℤ
  pub attempt : ℕ
  pub status_code : ℤ
  pub duration_ms : Float64
  pub error : String
  pub body_preview : String
  pub started_at : Time

pub record LatencyStats : Type 0 where
  pub min_ms : Float64
  pub avg_ms : Float64
  pub p50_ms : Float64
  pub p95_ms : Float64
  pub p99_ms : Float64
  pub max_ms : Float64

pub record Summary : Type 0 where
  pub total_requests : ℕ
  pub failed_requests : ℕ
  pub error_rate : Float64
  pub status_codes : Dict ℕ
  pub latency : LatencyStats

pub record CheckResult : Type 0 where
  pub name : String
  pub passed : Bool
  pub message : String
  pub expected : String
  pub actual : String

pub record Report : Type 0 where
  pub run_id : String
  pub scenario : String
  pub scenario_version_id : String
  pub scenario_version_number : ℕ
  pub status : Status
  pub started_at : Time
  pub finished_at : Time
  pub duration_ms : Float64
  pub summary : Summary
  pub thresholds : List CheckResult
  pub invariants : List CheckResult
  pub failures : List String
  pub responses : List ResponseRecord
