-- ===== src/Typechecker.antt =====
-- src/core/typechecker: the check of a syntax tree before it runs.
pub mod Types
pub mod Infer
pub mod Check
pub mod Errors
pub mod Operators
pub mod Results
pub mod Values
pub mod Numeric
pub mod Logical
pub mod Inferred
mod Tests
