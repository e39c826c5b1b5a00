-- ===== src/Cache/Puts.antt =====
-- src/modules/cache.c: what is put in the cache is found.
use mathlib.Core.Option
use native.Mathlib.Nat.{mod-lt}
use asteron.Prelude.{
  ℕ, zero, suc, ◌+◌, ◌%◌, ◌<◌, ◌≡◌, refl, ap, ◌∙◌, sym, true, false, Option, none, some, List, [],
  ◌∷◌, ◌++◌, arith, leb, length, length-set, get_elem?, get_or, set, bytes_eq, bytes_eq_refl,
  u64_mod, Option-cases, inl, inr,
}
use asteron.Cache.Types.{CacheEntry, ModuleCache}
use asteron.Cache.Store.{
  bucket_of, bucket_head, update_entry, set_next, set_prev, lru_insert_front, find_key,
  cache_lookup, link_head, hash_string,
}
use asteron.Cache.Calls.{cache_put, put_new, in_bucket, evict_while, new_entry}

abbrev Label : Type 0
Label = List ℕ × ℕ

abbrev label : CacheEntry → Label
label e = (e.key, e.module_id)

-- The key and the module of the entry at `p`.
abbrev label_at : ℕ → List CacheEntry → Option Label
label_at p es = Option.map label (get_elem? es p)

label_at-update_entry :
    (f : CacheEntry → CacheEntry) (p q : ℕ) (es : List CacheEntry)
    → ((e : CacheEntry) → label (f e) ≡ label e)
    → label_at q (update_entry f p es) ≡ label_at q es
unfolding update_entry
label_at-update_entry f p q [] h = refl
label_at-update_entry f zero zero (e ∷ es) h = ap some (h e)
label_at-update_entry f zero (suc q) (e ∷ es) h = refl
label_at-update_entry f (suc p) zero (e ∷ es) h = refl
label_at-update_entry f (suc p) (suc q) (e ∷ es) h = label_at-update_entry f p q es h

label_at-link_head :
    (o : Option ℕ) (p q : ℕ) (c : ModuleCache)
    → label_at q (link_head o p c).store ≡ label_at q c.store
unfolding set_prev
label_at-link_head none p q c = refl
label_at-link_head (some h) p q c = label_at-update_entry _ h q c.store (λ e. refl)

label_at-lru_insert_front :
    (c : ModuleCache) (p q : ℕ) → label_at q (lru_insert_front c p).store ≡ label_at q c.store
unfolding lru_insert_front set_prev set_next
label_at-lru_insert_front c p q =
    label_at-link_head c.lru_head p q _
    ∙ label_at-update_entry _ p q _ (λ e. refl)
    ∙ label_at-update_entry _ p q c.store (λ e. refl)

link_head-buckets : (o : Option ℕ) (p : ℕ) (c : ModuleCache) → (link_head o p c).buckets ≡ c.buckets
unfolding set_prev
link_head-buckets none p c = refl
link_head-buckets (some h) p c = refl

lru_insert_front-buckets : (c : ModuleCache) (p : ℕ) → (lru_insert_front c p).buckets ≡ c.buckets
unfolding lru_insert_front set_prev set_next
lru_insert_front-buckets c p = link_head-buckets c.lru_head p _

get_elem?-last :
    (es : List CacheEntry) (e : CacheEntry) → get_elem? (es ++ e ∷ []) (length es) ≡ some e
get_elem?-last [] e = refl
get_elem?-last (x ∷ es) e = get_elem?-last es e

get_or-set_self :
    (xs : List (Option ℕ)) (i : ℕ) (o : Option ℕ) → i < length xs → get_or (set xs i o) i none ≡ o
get_or-set_self [] i o h = absurd (omega arith)
get_or-set_self (x ∷ xs) zero o h = refl
get_or-set_self (x ∷ xs) (suc i) o h = get_or-set_self xs i o (omega arith)

abbrev key_in : Option Label → List ℕ
key_in none = []
key_in (some l) = l.0

abbrev module_of : Option Label → Option ℕ
module_of none = none
module_of (some l) = some l.1

no_label : {l : Label} → none ≡ some l → ⊥
no_label {l} h = ground (arith, h)

find_key-here :
    (fuel : ℕ) (c : ModuleCache) (key : List ℕ) (p m : ℕ)
    → label_at p c.store ≡ some (key, m)
    → find_key (suc fuel) c key (some p) ≡ some p
unfolding find_key
find_key-here fuel c key p m h = elim (Option-cases (get_elem? c.store p)) [
  | inl e ↦ absurd (no_label (sym (ap (Option.map label) e) ∙ h))
  | inr (q, e) ↦
      let named : q.key ≡ key = ap key_in (sym (ap (Option.map label) e) ∙ h) in
      let equal : bytes_eq q.key key ≡ true =
        ap (λ (k : List ℕ). bytes_eq k key) named ∙ bytes_eq_refl key in
      rw (e, equal, find_key) refl
]

-- The module of the entry at `p`.
abbrev pub module_at : ℕ → List CacheEntry → Option ℕ
module_at p es = Option.map (λ (e : CacheEntry). e.module_id) (get_elem? es p)

module_in :
    (o : Option CacheEntry) (key : List ℕ) (m : ℕ)
    → Option.map label o ≡ some (key, m)
    → Option.map (λ (e : CacheEntry). e.module_id) o ≡ some m
module_in none key m h = absurd (no_label h)
module_in (some e) key m h = ap module_of h

lookup_here :
    (d : ModuleCache) (key : List ℕ) (p m : ℕ)
    → bucket_head d key ≡ some p
    → label_at p d.store ≡ some (key, m)
    → cache_lookup d key ≡ some p
unfolding cache_lookup
lookup_here d key p m head named =
    let fuel : length d.store + 1 ≡ suc (length d.store) = omega arith in
    ap (find_key (length d.store + 1) d key) head
    ∙ ap (λ (n : ℕ). find_key n d key (some p)) fuel
    ∙ find_key-here (length d.store) d key p m named

evict_while-idle :
    (fuel : ℕ) (c : ModuleCache) → leb c.max_entries c.entry_count ≡ false → evict_while fuel c ≡ c
unfolding evict_while
evict_while-idle zero c h = refl
evict_while-idle (suc fuel) c h = rw (h, evict_while) refl

module _ (c : ModuleCache) (key : List ℕ) (module_id mtime now : ℕ) where
  abbrev linked : ModuleCache
  linked = lru_insert_front (in_bucket c key module_id mtime now) (length c.store)

  put_fresh :
      cache_lookup c key ≡ none
      → leb c.max_entries c.entry_count ≡ false
      → cache_put c key module_id mtime now
        ≡ record linked { entry_count = (c.entry_count + 1) % u64_mod }
  unfolding cache_put put_new
  put_fresh missing full =
      let idle = evict_while-idle (c.entry_count + 1) c full in rw (missing, idle, cache_put) refl

  linked_label : label_at (length c.store) linked.store ≡ some (key, module_id)
  unfolding in_bucket
  linked_label =
      label_at-lru_insert_front (in_bucket c key module_id mtime now) (length c.store)
        (length c.store)
      ∙ ap (Option.map label) (get_elem?-last c.store (new_entry c key module_id mtime now))

  linked_head : 0 < length c.buckets → bucket_head linked key ≡ some (length c.store)
  unfolding bucket_head bucket_of in_bucket
  linked_head h =
      let b = hash_string key % length c.buckets in
      let after = set c.buckets b (some (length c.store)) in
      ap (λ (bs : List (Option ℕ)). get_or bs (hash_string key % length bs) none)
        (lru_insert_front-buckets (in_bucket c key module_id mtime now) (length c.store))
      ∙ ap (λ (n : ℕ). get_or after (hash_string key % n) none)
          (length-set c.buckets b (some (length c.store)))
      ∙ get_or-set_self c.buckets b (some (length c.store)) (mod-lt (hash_string key) h)

-- A key that the cache does not have is found once it is put, if there is room for one more entry:
-- the entry is the one that was made, with the module of the call.
pub cache_put-cache_lookup :
    (c : ModuleCache) (key : List ℕ) (module_id mtime now : ℕ)
    → cache_lookup c key ≡ none
    → c.entry_count < c.max_entries
    → 0 < length c.buckets
    → (cache_lookup (cache_put c key module_id mtime now) key ≡ some (length c.store))
      × (module_at (length c.store) (cache_put c key module_id mtime now).store ≡ some module_id)
unfolding bucket_head bucket_of
cache_put-cache_lookup c key module_id mtime now missing room some_buckets =
    let full : leb c.max_entries c.entry_count ≡ false = ground arith in
    let put = put_fresh c key module_id mtime now missing full in
    let front = linked_head c key module_id mtime now some_buckets in
    let made = linked_label c key module_id mtime now in
    (
      ap (λ (d : ModuleCache). cache_lookup d key) put
          ∙ lookup_here _ key (length c.store) module_id front made,
      ap (λ (d : ModuleCache). module_at (length c.store) d.store) put
          ∙ module_in _ key module_id made,
    )
