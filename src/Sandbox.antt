-- ===== src/Sandbox.antt =====
-- src/core/sandbox/sandbox.c: sandboxes, their permissions and their manager.
pub mod Types
pub mod Context
pub mod Manager
pub mod Tests
