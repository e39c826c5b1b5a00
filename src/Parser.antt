-- ===== src/Parser.antt =====
-- src/core/parser/parser.c: the recursive descent.
pub mod Source
pub mod Moves
pub mod Expressions
pub mod Annotations
pub mod Statements
pub mod Program
pub mod Lexing
pub mod Tests
