-- ===== src/Region.antt =====
-- src/core/memory/region_memory.c: regions of memory.
pub mod Types
pub mod Alloc
pub mod Manager
pub mod Buffers
pub mod Io
pub mod Tests
