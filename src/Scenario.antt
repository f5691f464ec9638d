-- ===== src/Scenario.antt =====
-- The scenario contract (apps/api/internal/scenario/schema.go): what a user sends as JSON.
pub mod Normalize
pub mod Validate
pub mod Valid
pub mod Normal
pub mod JsonPath
use wreckr.Prelude.{ℤ, String, List, Option, Dict}
use wreckr.Value.{Float64, Json}

-- `unset` is the empty string; `other` is any word that the program does not know.
pub data TrafficType : Type 0 where
  unset load burst spike race retry_storm : TrafficType
  other : String → TrafficType

-- A header map; `none` is the nil map.
abbrev pub Headers : Type 0
Headers = Option (Dict String)

pub record Target : Type 0 where
  pub id : String
  pub base_url : String
  pub headers : Headers

pub record RetryPolicy : Type 0 where
  pub attempts : ℤ
  pub backoff_ms : ℤ

pub record Traffic : Type 0 where
  pub type : TrafficType
  pub concurrency : ℤ
  pub iterations : ℤ
  pub rate_per_second : ℤ
  pub retry : RetryPolicy

-- `json` is the raw message, empty when the request has none.
pub record Request : Type 0 where
  pub name : String
  pub method : String
  pub path : String
  pub headers : Headers
  pub json : String
  pub body : String
  pub expect_status : List ℤ

pub record Thresholds : Type 0 where
  pub max_error_rate : Option Float64
  pub p95_ms : Option Float64

pub record Invariant : Type 0 where
  pub name : String
  pub type : String
  pub request : String
  pub method : String
  pub path : String
  pub headers : Headers
  pub status : Option ℤ
  pub equals : Option ℤ
  pub min : Option ℤ
  pub max : Option ℤ
  pub expect_json_path : String
  pub expect_equals : Json

pub record Scenario : Type 0 where
  pub version : ℤ
  pub name : String
  pub description : String
  pub target : Target
  pub traffic : Traffic
  pub setup : List Request
  pub requests : List Request
  pub teardown : List Request
  pub thresholds : Thresholds
  pub invariants : List Invariant
