-- ===== src/Cache/Calls.antt =====
-- src/modules/cache.c: the calls of the cache. What the call learns of the clock, of the time of the
-- source file (0 if there is none) and of the compiler is an argument.
use asteron.Prelude.{
  ℕ, zero, suc, ◌+◌, ◌-◌, ◌%◌, Bool, true, false, Option, none, some, List, [], ◌∷◌, ◌++◌, leb,
  ◌==◌, if◌then◌else◌, length, get_elem?, get_or, set, u64_mod,
}
use asteron.Cache.Types.{
  CacheEntry, ModuleCache, ModuleCall, retain_module, free_module, save_module,
}
use asteron.Cache.Store.{
  bucket_of, bucket_head, update_entry, next_of, set_next, lru_remove, lru_insert_front, lru_touch,
  cache_lookup,
}

-- The walk with `pp` at the field `next` of the entry `q`.
unfoldable pub unlink_next : ℕ → ℕ → ℕ → ModuleCache → ModuleCache
unlink_next zero victim q c = c
unlink_next (suc fuel) victim q c = elim (next_of c q) [
  | none ↦ c
  | some p ↦ if p == victim then set_next q (next_of c victim) c else unlink_next fuel victim p c
]

-- The loop that takes an entry out of the chain of a bucket.
abbrev pub unlink_from : Option ℕ → ℕ → ℕ → ModuleCache → ModuleCache
unlink_from none bucket victim c = c
unlink_from (some p) bucket victim c =
    if p == victim
    then record c { buckets = set c.buckets bucket (next_of c victim) }
    else unlink_next (length c.store) victim p c

unfoldable pub unlink_chain : ModuleCache → ℕ → ℕ → ModuleCache
unlink_chain c bucket victim = unlink_from (get_or c.buckets bucket none) bucket victim c

abbrev pub called : ModuleCall → ModuleCache → ModuleCache
called m c = record c { module_calls = m ∷ c.module_calls }

abbrev pub evict_entry : ModuleCache → ℕ → Option CacheEntry → ModuleCache
evict_entry c victim none = c
evict_entry c victim (some e) =
    let unlinked = unlink_chain (lru_remove c victim) (bucket_of c e.key) victim in
    let saved = if e.is_dirty then called (save_module e.module_id) unlinked else unlinked in
    record (called (free_module e.module_id) saved) {
      entry_count = (c.entry_count + u64_mod - 1) % u64_mod;
      evictions = (c.evictions + 1) % u64_mod;
    }

abbrev pub evict_tail : ModuleCache → Option ℕ → ModuleCache
evict_tail c none = c
evict_tail c (some victim) = evict_entry c victim (get_elem? c.store victim)

unfoldable pub evict_lru : ModuleCache → ModuleCache
evict_lru c = evict_tail c c.lru_tail

-- `while (entry_count >= max_entries) evict_lru(cache);` An eviction lowers the count unless the list
-- is empty, and then the loop of the code does not end.
unfoldable pub evict_while : ℕ → ModuleCache → ModuleCache
evict_while zero c = c
evict_while (suc fuel) c =
    let rest = evict_while fuel (evict_lru c) in if leb c.max_entries c.entry_count then rest else c

abbrev pub replace_module : ModuleCache → ℕ → ℕ → Option CacheEntry → ModuleCache
replace_module c p module_id none = c
replace_module c p module_id (some e) =
    if e.module_id == module_id
    then c
    else called (retain_module module_id) (
        called (free_module e.module_id)
          (record c { store = update_entry (λ e. record e { module_id = module_id }) p c.store }))

unfoldable pub put_existing : ModuleCache → ℕ → ℕ → ℕ → ℕ → ModuleCache
put_existing c p module_id mtime now =
    let replaced = replace_module c p module_id (get_elem? c.store p) in
    lru_touch
      (record replaced {
        store =
            update_entry (λ e. record e { source_mtime = mtime; is_dirty = true }) p replaced.store;
      })
      p now

abbrev pub new_entry : ModuleCache → List ℕ → ℕ → ℕ → ℕ → CacheEntry
new_entry c key module_id mtime now = record {
  key = key;
  module_id = module_id;
  last_access = now;
  source_mtime = mtime;
  hit_count = 0;
  is_dirty = false;
  prev = none;
  next = bucket_head c key;
}

-- The new entry, at the head of its bucket.
unfoldable pub in_bucket : ModuleCache → List ℕ → ℕ → ℕ → ℕ → ModuleCache
in_bucket c key module_id mtime now = record (called (retain_module module_id) c) {
  store = c.store ++ new_entry c key module_id mtime now ∷ [];
  buckets = set c.buckets (bucket_of c key) (some (length c.store));
}

unfoldable pub put_new : ModuleCache → List ℕ → ℕ → ℕ → ℕ → ModuleCache
put_new full key module_id mtime now =
    let c = evict_while (full.entry_count + 1) full in
    let p = length c.store in
    let linked = lru_insert_front (in_bucket c key module_id mtime now) p in
    record linked { entry_count = (c.entry_count + 1) % u64_mod }

unfoldable pub cache_put : ModuleCache → List ℕ → ℕ → ℕ → ℕ → ModuleCache
cache_put c key module_id mtime now = elim (cache_lookup c key) [
  | some p ↦ put_existing c p module_id mtime now
  | none ↦ put_new c key module_id mtime now
]

abbrev pub free_entry : Option CacheEntry → ModuleCache → ModuleCache
free_entry none c = c
free_entry (some e) c = called (free_module e.module_id) c

-- The entry at `p` leaves the list and the chain, in this order.
unfoldable pub invalidate_entry : ModuleCache → List ℕ → ℕ → ModuleCache
invalidate_entry c key p =
    let unlinked = unlink_chain (lru_remove c p) (bucket_of c key) p in
    record (free_entry (get_elem? c.store p) unlinked) {
      entry_count = (c.entry_count + u64_mod - 1) % u64_mod;
    }

unfoldable pub cache_invalidate : ModuleCache → List ℕ → ModuleCache
cache_invalidate c key = elim (cache_lookup c key) [ none ↦ c | some p ↦ invalidate_entry c key p ]

abbrev pub entry_valid : ℕ → Option CacheEntry → Bool
entry_valid mtime none = false
entry_valid mtime (some e) = if mtime == 0 then true else leb mtime e.source_mtime

unfoldable pub cache_is_valid : ModuleCache → List ℕ → ℕ → Bool
cache_is_valid c key mtime = elim (cache_lookup c key) [
  | none ↦ false
  | some p ↦ entry_valid mtime (get_elem? c.store p)
]
