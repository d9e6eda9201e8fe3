-- ===== src/Journey.antt =====
-- The package journey: plans of journeys and their execution.
pub mod World
pub mod Plan
pub mod Engine
pub mod Outcome
pub mod Fault
pub mod Telemetry
pub mod Attempt
pub mod Recovery
pub mod Executor
