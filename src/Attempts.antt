-- ===== src/Attempts.antt =====
-- tools/state.py: the attempts at tool calls that are under way, their states, and the store that
-- keeps them for approvals and answers that come later.
pub mod Types
pub mod Transitions
pub mod Store
