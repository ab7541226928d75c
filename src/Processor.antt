-- ===== src/Processor.antt =====
-- The result processor (src/worker/monitor/processor.ts): a check result becomes monitor status,
-- automatic incidents and notification events.
pub mod Actions
pub mod Interpret
pub mod Announced
pub mod Batch
pub mod Failures
pub mod Frozen
pub mod Isolation
pub mod Incidents
pub mod OneAuto
pub mod Outcome
pub mod Alternation
