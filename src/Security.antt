-- ===== src/Security.antt =====
-- What tools/security.py decides: which calls of tools may run, which need the user's approval, and
-- what an approval grants. Each has a module of its own.
pub mod Types
pub mod Permissions
pub mod Rules
pub mod Engine
pub mod Grants
