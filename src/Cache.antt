-- ===== src/Cache.antt =====
-- src/modules/cache.c: the cache of compiled modules, and the versions of modules.
pub mod Version
pub mod Types
pub mod Store
pub mod Calls
pub mod Chains
pub mod Puts
pub mod Uses
pub mod Gets
pub mod Clears
pub mod Tests
