-- ===== src/ToolRuntime.antt =====
-- tools/runtime.py: how a call of a tool is admitted, by the permission engine or by an approval of
-- the user. Each stage has a module of its own.
pub mod Types
pub mod Registry
pub mod Moves
pub mod Prepare
pub mod Resume
pub mod Results
pub mod Requests
