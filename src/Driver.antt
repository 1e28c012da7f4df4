-- ===== src/Driver.antt =====
-- core/driver.py with core/transcript.py and core/tool_step.py: how a run keeps its transcript, its
-- batches of tool calls and its boundaries in order.
pub mod Types
pub mod Transcript
pub mod ToolStep
pub mod Batch
pub mod Boundaries
