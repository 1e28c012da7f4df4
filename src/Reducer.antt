-- ===== src/Reducer.antt =====
-- core/reducer.py
pub mod Facts
pub mod Evidence
pub mod Steps
pub mod Replies
pub mod PlanCommands
pub mod Approvals
pub mod Commands
pub mod Workspace
pub mod ToolBatch
pub mod Observe
pub mod Decision
pub mod Once
pub mod Guards
pub mod Lifecycle
