-- ===== src/Cache/Chains.antt =====
-- src/modules/cache.c: the chains of the buckets, whose links the list of the last uses shares.
use asteron.Prelude.{
  ℕ, zero, suc, ◌+◌, ◌%◌, ◌≡◌, refl, ap, ◌∙◌, Option, none, some, List, [], ◌∷◌, length, length-set,
  get_elem?, get_or, set, eq→==,
}
use asteron.Cache.Types.{CacheEntry, ModuleCache}
use asteron.Cache.Store.{
  bucket_of, bucket_head, update_entry, next_of, next_in, set_next, set_prev, link_before,
  link_after, lru_remove, find_key, cache_lookup, hash_string,
}
use asteron.Cache.Calls.{unlink_chain, invalidate_entry, cache_invalidate, free_entry}

-- The operations on the list leave the buckets as they are.
link_before-buckets : (p q : Option ℕ) (c : ModuleCache) → (link_before p q c).buckets ≡ c.buckets
unfolding link_before set_next
link_before-buckets none q c = refl
link_before-buckets (some p) q c = refl

link_after-buckets : (p q : Option ℕ) (c : ModuleCache) → (link_after p q c).buckets ≡ c.buckets
unfolding link_after set_prev
link_after-buckets none q c = refl
link_after-buckets (some p) q c = refl

lru_remove-buckets : (c : ModuleCache) (p : ℕ) → (lru_remove c p).buckets ≡ c.buckets
unfolding lru_remove set_next set_prev
lru_remove-buckets c p = link_after-buckets _ _ _ ∙ link_before-buckets _ _ c

next_in-update_entry :
    (p : ℕ) (q : Option ℕ) (es : List CacheEntry)
    → next_in (get_elem? (update_entry (λ e. record e { next = q }) p es) p)
      ≡ elim (get_elem? es p) [ none ↦ none | some e ↦ q ]
unfolding update_entry
next_in-update_entry p q [] = refl
next_in-update_entry zero q (e ∷ es) = refl
next_in-update_entry (suc p) q (e ∷ es) = next_in-update_entry p q es

no_link : (o : Option CacheEntry) → elim o as (λ x. Option ℕ) [ none ↦ none | some e ↦ none ] ≡ none
no_link none = refl
no_link (some e) = refl

-- An entry that has left the list has no link.
next_of-lru_remove : (c : ModuleCache) (p : ℕ) → next_of (lru_remove c p) p ≡ none
unfolding lru_remove set_next next_of
next_of-lru_remove c p = next_in-update_entry p none _ ∙ no_link _

get_or-set : (xs : List (Option ℕ)) (i : ℕ) → get_or (set xs i none) i none ≡ none
get_or-set [] i = refl
get_or-set (x ∷ xs) zero = refl
get_or-set (x ∷ xs) (suc i) = get_or-set xs i

find_key-none : (fuel : ℕ) (c : ModuleCache) (key : List ℕ) → find_key fuel c key none ≡ none
unfolding find_key
find_key-none zero c key = refl
find_key-none (suc fuel) c key = refl

free_entry-buckets :
    (o : Option CacheEntry) (c : ModuleCache) → (free_entry o c).buckets ≡ c.buckets
free_entry-buckets none c = refl
free_entry-buckets (some e) c = refl

-- The bucket whose head leaves the list is emptied.
unlink_chain-head :
    (c : ModuleCache) (bucket p : ℕ)
    → get_or c.buckets bucket none ≡ some p
    → (unlink_chain (lru_remove c p) bucket p).buckets ≡ set c.buckets bucket none
unfolding unlink_chain
unlink_chain-head c bucket p h =
    let same = lru_remove-buckets c p in
    let head : get_or (lru_remove c p).buckets bucket none ≡ some p =
      ap (λ (bs : List (Option ℕ)). get_or bs bucket none) same ∙ h in
    rw (head, eq→== p p refl, next_of-lru_remove c p, same) refl

lookup_in_empty :
    (c : ModuleCache) (key : List ℕ) → bucket_head c key ≡ none → cache_lookup c key ≡ none
unfolding cache_lookup
lookup_in_empty c key h =
    ap (find_key (length c.store + 1) c key) h ∙ find_key-none (length c.store + 1) c key

-- Of an entry that is the head of its bucket, the invalidation empties the bucket: the link to the
-- rest of the chain is cleared with the links of the list before the chain is mended. So no key of
-- that bucket is found any more, also those of the entries that stay in the list.
pub cache_invalidate-head :
    (c : ModuleCache) (key other : List ℕ) (p : ℕ)
    → cache_lookup c key ≡ some p
    → bucket_head c key ≡ some p
    → bucket_of c other ≡ bucket_of c key
    → cache_lookup (cache_invalidate c key) other ≡ none
unfolding cache_invalidate invalidate_entry bucket_head bucket_of
cache_invalidate-head c key other p found head same =
    let b = bucket_of c key in
    let after = invalidate_entry c key p in
    let emptied : after.buckets ≡ set c.buckets b none =
      free_entry-buckets (get_elem? c.store p) (unlink_chain (lru_remove c p) b p)
      ∙ unlink_chain-head c b p head in
    let no_head : bucket_head after other ≡ none =
      ap (λ (bs : List (Option ℕ)). get_or bs (hash_string other % length bs) none) emptied
      ∙ ap (λ (n : ℕ). get_or (set c.buckets b none) (hash_string other % n) none)
          (length-set c.buckets b none)
      ∙ ap (λ (i : ℕ). get_or (set c.buckets b none) i none) same
      ∙ get_or-set c.buckets b in
    rw (found, cache_invalidate) (lookup_in_empty after other no_head)
