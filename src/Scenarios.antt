-- ===== src/Scenarios.antt =====
-- A small task, and every theorem of the development at work on it.
pub mod Data
mod Lifecycle
mod Decisions
mod Reductions
mod Batches
mod Plans
mod Closeout
pub mod ToolData
mod Calls
mod Attempts
mod Runs
