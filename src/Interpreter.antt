-- ===== src/Interpreter.antt =====
-- src/core/interpreter: the values, the scopes, the stack and the tree interpreter.
pub mod Values
pub mod Environment
pub mod Stack
pub mod Functions
pub mod Evaluate
pub mod Calls
pub mod Execute
pub mod Meaning
pub mod Silent
pub mod Scopes
pub mod Returns
pub mod Tests
