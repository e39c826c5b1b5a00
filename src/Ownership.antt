-- ===== src/Ownership.antt =====
-- src/core/memory/ownership.h and src/core/memory/ownership.c: the borrow checker and slices.
pub mod Types
pub mod Table
pub mod Lifetimes
pub mod Checker
pub mod Views
pub mod Tests
