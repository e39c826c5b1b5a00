-- ===== src/Cache/Types.antt =====
-- src/modules/cache.h: the data of the cache. A pointer to an entry is its place in the store, which
-- keeps the entries in the order of their creation, and a module is known by its number.
use asteron.Prelude.{ℕ, Bool, Option, List}

-- The field `next` links both the list of the last uses and the chain of a bucket.
pub record CacheEntry : Type 0 where
  pub key : List ℕ
  pub module_id : ℕ
  pub last_access : ℕ
  pub source_mtime : ℕ
  pub hit_count : ℕ
  pub is_dirty : Bool
  pub prev : Option ℕ
  pub next : Option ℕ

-- The calls that the cache makes on modules.
pub data ModuleCall : Type 0 where
  retain_module free_module save_module : ℕ → ModuleCall

-- `store` is the memory of the entries and `module_calls` the calls so far, the latest first.
pub record ModuleCache : Type 0 where
  pub store : List CacheEntry
  pub module_calls : List ModuleCall
  pub buckets : List (Option ℕ)
  pub entry_count : ℕ
  pub max_entries : ℕ
  pub lru_head : Option ℕ
  pub lru_tail : Option ℕ
  pub hits : ℕ
  pub misses : ℕ
  pub evictions : ℕ
