-- ===== src/Examples.antt =====
-- Concrete inputs for the theorems: a small scenario, a store with one run, and what they show.
mod Web
mod Fixtures
mod StoreCases
mod ScenarioCases
mod HttpCases
mod ReportCases
mod RunnerCases
mod ExecCases
mod SendCases
mod TrafficCases
mod ConfigCases
mod K6Cases
mod CommandCases
mod RunCases
