-- ===== src/Cache/Gets.antt =====
-- src/modules/cache.c: cache_get. What the call learns of the clock, the times of the files, the file of
-- the cache and the compiler is the record `Request`.
pub mod Counts
pub mod Answers
use asteron.Prelude.{
  ℕ, ◌+◌, ◌%◌, Bool, true, Option, none, some, List, ltb, ◌&&◌, if◌then◌else◌, get_elem?, u64_mod,
}
use asteron.Cache.Types.{CacheEntry, ModuleCache}
use asteron.Cache.Store.{update_entry, lru_touch, cache_lookup}
use asteron.Cache.Calls.{cache_put, cache_invalidate}

-- `key` is the normal form of the path, `source_mtime` the time of the source file, 0 if there is none,
-- and `key_mtime` that of the file that the key names; `disk` is the module of a valid file of the cache,
-- and `compiled` the module that the compiler makes.
pub record Request : Type 0 where
  pub key : List ℕ
  pub source_mtime : ℕ
  pub key_mtime : ℕ
  pub now : ℕ
  pub disk : Option ℕ
  pub compiled : Option ℕ

abbrev pub mark_dirty : Option ℕ → ModuleCache → ModuleCache
mark_dirty none c = c
mark_dirty (some p) c = record c {
  store = update_entry (λ e. record e { is_dirty = true }) p c.store;
}

abbrev pub put_module : ModuleCache → Request → ℕ → ModuleCache
put_module c r m = cache_put c r.key m r.key_mtime r.now

unfoldable pub get_compiled : ModuleCache → Request → Option ℕ → ModuleCache × Option ℕ
get_compiled c r none = (c, none)
get_compiled c r (some m) =
    let put = put_module c r m in (mark_dirty (cache_lookup put r.key) put, some m)

abbrev pub get_loaded : ModuleCache → Request → Option ℕ → ModuleCache × Option ℕ
get_loaded c r none = get_compiled c r r.compiled
get_loaded c r (some m) = (put_module c r m, some m)

-- The part of the code after `cache->misses++`, with it.
unfoldable pub get_missing : ModuleCache → Request → ModuleCache × Option ℕ
get_missing c r = get_loaded (record c { misses = (c.misses + 1) % u64_mod }) r r.disk

-- `hit_count` is an int: what happens past its largest value is not defined.
unfoldable pub get_hit : ModuleCache → Request → ℕ → CacheEntry → ModuleCache × Option ℕ
get_hit c r p e =
    let touched = lru_touch (record c { hits = (c.hits + 1) % u64_mod }) p r.now in
    (
      record touched {
        store = update_entry (λ x. record x { hit_count = x.hit_count + 1 }) p touched.store;
      },
      some e.module_id,
    )

abbrev pub is_stale : ℕ → CacheEntry → Bool
is_stale mtime e = ltb 0 mtime && ltb e.source_mtime mtime

abbrev pub get_found : ModuleCache → Request → ℕ → Option CacheEntry → ModuleCache × Option ℕ
get_found c r p none = get_missing c r
get_found c r p (some e) =
    if is_stale r.source_mtime e then get_missing (cache_invalidate c r.key) r else get_hit c r p e

abbrev pub get_at : ModuleCache → Request → Option ℕ → ModuleCache × Option ℕ
get_at c r none = get_missing c r
get_at c r (some p) = get_found c r p (get_elem? c.store p)

unfoldable pub cache_get : ModuleCache → Request → ModuleCache × Option ℕ
cache_get c r = get_at c r (cache_lookup c r.key)
