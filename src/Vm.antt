-- ===== src/Vm.antt =====
-- src/core/vm: the compiler from the syntax tree to instructions, and the machine that runs them.
pub mod Bytecode
pub mod Symbols
pub mod Compiler
pub mod Machine
pub mod Operations
pub mod Steps
pub mod Calls
pub mod Run
pub mod Reaches
pub mod Pushes
pub mod Loads
pub mod Correct
pub mod Tests
