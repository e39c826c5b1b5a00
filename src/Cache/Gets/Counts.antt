-- ===== src/Cache/Gets/Counts.antt =====
-- src/modules/cache.c: the counters of cache_get and the module that it returns.
use asteron.Prelude.{
  ℕ, zero, suc, ◌+◌, ◌≡◌, refl, ◌∙◌, Option, none, some, List, leb, ◌==◌, get_elem?, Option-cases,
  Bool-cases, inl, inr,
}
use asteron.Cache.Types.{CacheEntry, ModuleCache}
use asteron.Cache.Store.{
  set_next, set_prev, link_before, link_after, link_head, lru_remove, lru_insert_front, lru_touch,
  next_of, cache_lookup, bucket_of,
}
use asteron.Cache.Calls.{
  unlink_next, unlink_from, unlink_chain, evict_entry, evict_tail, evict_lru, evict_while,
  replace_module, put_existing, put_new, in_bucket, cache_put, free_entry, invalidate_entry,
  cache_invalidate,
}

-- The two counters of requests.
abbrev pub counts : ModuleCache → ℕ × ℕ
counts c = (c.hits, c.misses)

link_before-counts : (p o : Option ℕ) (c : ModuleCache) → counts (link_before p o c) ≡ counts c
unfolding link_before set_next
link_before-counts none o c = refl
link_before-counts (some p) o c = refl

link_after-counts : (p o : Option ℕ) (c : ModuleCache) → counts (link_after p o c) ≡ counts c
unfolding link_after set_prev
link_after-counts none o c = refl
link_after-counts (some p) o c = refl

link_head-counts : (o : Option ℕ) (p : ℕ) (c : ModuleCache) → counts (link_head o p c) ≡ counts c
unfolding set_prev
link_head-counts none p c = refl
link_head-counts (some h) p c = refl

lru_remove-counts : (c : ModuleCache) (p : ℕ) → counts (lru_remove c p) ≡ counts c
unfolding lru_remove set_next set_prev
lru_remove-counts c p = link_after-counts _ _ _ ∙ link_before-counts _ _ c

lru_insert_front-counts : (c : ModuleCache) (p : ℕ) → counts (lru_insert_front c p) ≡ counts c
unfolding lru_insert_front set_next set_prev
lru_insert_front-counts c p = link_head-counts c.lru_head p _

pub lru_touch-counts : (c : ModuleCache) (p now : ℕ) → counts (lru_touch c p now) ≡ counts c
unfolding lru_touch
lru_touch-counts c p now = lru_insert_front-counts (lru_remove c p) p ∙ lru_remove-counts c p

unlink_next-counts :
    (fuel victim q : ℕ) (c : ModuleCache) → counts (unlink_next fuel victim q c) ≡ counts c
unfolding unlink_next set_next
unlink_next-counts zero victim q c = refl
unlink_next-counts (suc fuel) victim q c = elim (Option-cases (next_of c q)) [
  | inl h ↦ rw (h, unlink_next) refl
  | inr (p, h) ↦ elim (Bool-cases (p == victim)) [
    | inl same ↦ rw (h, same, unlink_next) refl
    | inr other ↦ rw (h, other, unlink_next) (unlink_next-counts fuel victim p c)
  ]
]

unlink_from-counts :
    (o : Option ℕ) (bucket victim : ℕ) (c : ModuleCache)
    → counts (unlink_from o bucket victim c) ≡ counts c
unlink_from-counts none bucket victim c = refl
unlink_from-counts (some p) bucket victim c = elim (Bool-cases (p == victim)) [
  | inl same ↦ rw (same) refl
  | inr other ↦ rw (other) (unlink_next-counts _ victim p c)
]

unlink_chain-counts :
    (c : ModuleCache) (bucket victim : ℕ) → counts (unlink_chain c bucket victim) ≡ counts c
unfolding unlink_chain
unlink_chain-counts c bucket victim = unlink_from-counts _ bucket victim c

evict_entry-counts :
    (c : ModuleCache) (victim : ℕ) (o : Option CacheEntry)
    → counts (evict_entry c victim o) ≡ counts c
evict_entry-counts c victim none = refl
evict_entry-counts c victim (some e) =
    let unlinked = unlink_chain-counts (lru_remove c victim) (bucket_of c e.key) victim in
    elim (Bool-cases e.is_dirty) [
      | inl h ↦ rw (h) (unlinked ∙ lru_remove-counts c victim)
      | inr h ↦ rw (h) (unlinked ∙ lru_remove-counts c victim)
    ]

evict_tail-counts : (c : ModuleCache) (o : Option ℕ) → counts (evict_tail c o) ≡ counts c
evict_tail-counts c none = refl
evict_tail-counts c (some victim) = evict_entry-counts c victim (get_elem? c.store victim)

evict_while-counts : (fuel : ℕ) (c : ModuleCache) → counts (evict_while fuel c) ≡ counts c
unfolding evict_while evict_lru
evict_while-counts zero c = refl
evict_while-counts (suc fuel) c = elim (Bool-cases (leb c.max_entries c.entry_count)) [
  | inl full ↦
      rw (full, evict_while)
        (evict_while-counts fuel (evict_lru c) ∙ evict_tail-counts c c.lru_tail)
  | inr room ↦ rw (room, evict_while) refl
]

replace_module-counts :
    (c : ModuleCache) (p m : ℕ) (o : Option CacheEntry) → counts (replace_module c p m o) ≡ counts c
replace_module-counts c p m none = refl
replace_module-counts c p m (some e) = elim (Bool-cases (e.module_id == m)) [
  | inl same ↦ rw (same) refl
  | inr other ↦ rw (other) refl
]

pub cache_put-counts :
    (c : ModuleCache) (key : List ℕ) (m mtime now : ℕ)
    → counts (cache_put c key m mtime now) ≡ counts c
unfolding cache_put put_existing put_new in_bucket
cache_put-counts c key m mtime now = elim (Option-cases (cache_lookup c key)) [
  | inl h ↦
      rw (h, cache_put) (lru_insert_front-counts _ _ ∙ evict_while-counts (c.entry_count + 1) c)
  | inr (p, h) ↦
      rw (h, cache_put)
        (lru_touch-counts _ p now ∙ replace_module-counts c p m (get_elem? c.store p))
]

free_entry-counts : (o : Option CacheEntry) (c : ModuleCache) → counts (free_entry o c) ≡ counts c
free_entry-counts none c = refl
free_entry-counts (some e) c = refl

pub cache_invalidate-counts :
    (c : ModuleCache) (key : List ℕ) → counts (cache_invalidate c key) ≡ counts c
unfolding cache_invalidate invalidate_entry
cache_invalidate-counts c key = elim (Option-cases (cache_lookup c key)) [
  | inl h ↦ rw (h, cache_invalidate) refl
  | inr (p, h) ↦
      rw (h, cache_invalidate)
        (free_entry-counts (get_elem? c.store p) _
          ∙ unlink_chain-counts (lru_remove c p) (bucket_of c key) p
          ∙ lru_remove-counts c p)
]
