-- ===== src/Cache/Store.antt =====
-- src/modules/cache.c: the table of buckets and the list of the last uses. The clock and the times of
-- the files are arguments.
use asteron.Prelude.{
  ℕ, zero, suc, ◌+◌, ◌-◌, ◌*◌, ◌%◌, Option, none, some, List, [], ◌∷◌, ltb, if◌then◌else◌, length,
  get_elem?, get_or, bytes_eq, u32_mod,
}
use asteron.Cache.Types.{CacheEntry, ModuleCache}

-- `char` is signed: a byte from 128 on counts as its negative number.
abbrev pub char_value : ℕ → ℕ
char_value c = if ltb c 128 then c else c + u32_mod - 256

unfoldable pub hash_from : ℕ → List ℕ → ℕ
hash_from hash [] = hash
hash_from hash (c ∷ cs) = hash_from ((hash * 33 + char_value c) % u32_mod) cs

unfoldable pub hash_string : List ℕ → ℕ
hash_string = hash_from 5381

unfoldable pub bucket_of : ModuleCache → List ℕ → ℕ
bucket_of c key = hash_string key % length c.buckets

abbrev cache_buckets : ℕ
cache_buckets = 32

abbrev pub empty_buckets : ℕ → List (Option ℕ)
empty_buckets zero = []
empty_buckets (suc n) = none ∷ empty_buckets n

unfoldable pub cache_create : ℕ → ModuleCache
cache_create max_entries = record {
  store = [];
  module_calls = [];
  buckets = empty_buckets cache_buckets;
  entry_count = 0;
  max_entries = if ltb 0 max_entries then max_entries else 64;
  lru_head = none;
  lru_tail = none;
  hits = 0;
  misses = 0;
  evictions = 0;
}

-- A write through a pointer to an entry.
unfoldable pub update_entry : (CacheEntry → CacheEntry) → ℕ → List CacheEntry → List CacheEntry
update_entry f p [] = []
update_entry f zero (e ∷ es) = f e ∷ es
update_entry f (suc p) (e ∷ es) = e ∷ update_entry f p es

abbrev pub next_in : Option CacheEntry → Option ℕ
next_in none = none
next_in (some e) = e.next

abbrev pub prev_in : Option CacheEntry → Option ℕ
prev_in none = none
prev_in (some e) = e.prev

unfoldable pub next_of : ModuleCache → ℕ → Option ℕ
next_of c p = next_in (get_elem? c.store p)

unfoldable pub prev_of : ModuleCache → ℕ → Option ℕ
prev_of c p = prev_in (get_elem? c.store p)

unfoldable pub set_next : ℕ → Option ℕ → ModuleCache → ModuleCache
set_next p q c = record c { store = update_entry (λ e. record e { next = q }) p c.store }

unfoldable pub set_prev : ℕ → Option ℕ → ModuleCache → ModuleCache
set_prev p q c = record c { store = update_entry (λ e. record e { prev = q }) p c.store }

-- The link before the entry, or the head of the list.
unfoldable pub link_before : Option ℕ → Option ℕ → ModuleCache → ModuleCache
link_before none q c = record c { lru_head = q }
link_before (some p) q c = set_next p q c

unfoldable pub link_after : Option ℕ → Option ℕ → ModuleCache → ModuleCache
link_after none q c = record c { lru_tail = q }
link_after (some p) q c = set_prev p q c

unfoldable pub lru_remove : ModuleCache → ℕ → ModuleCache
lru_remove c p =
    let before = link_before (prev_of c p) (next_of c p) c in
    let after = link_after (next_of before p) (prev_of before p) before in
    set_next p none (set_prev p none after)

abbrev pub tail_or : Option ℕ → ℕ → Option ℕ
tail_or none p = some p
tail_or (some t) p = some t

abbrev pub link_head : Option ℕ → ℕ → ModuleCache → ModuleCache
link_head none p c = c
link_head (some h) p c = set_prev h (some p) c

unfoldable pub lru_insert_front : ModuleCache → ℕ → ModuleCache
lru_insert_front c p =
    let linked = link_head c.lru_head p (set_next p c.lru_head (set_prev p none c)) in
    record linked { lru_head = some p; lru_tail = tail_or linked.lru_tail p }

unfoldable pub lru_touch : ModuleCache → ℕ → ℕ → ModuleCache
lru_touch c p now =
    let moved = lru_insert_front (lru_remove c p) p in
    record moved { store = update_entry (λ e. record e { last_access = now }) p moved.store }

-- The walk over a chain from a pointer on; the fuel is one more than the entries ever made.
unfoldable pub find_key : ℕ → ModuleCache → List ℕ → Option ℕ → Option ℕ
find_key zero c key p = none
find_key (suc fuel) c key none = none
find_key (suc fuel) c key (some p) = elim (get_elem? c.store p) [
  | none ↦ none
  | some e ↦ if bytes_eq e.key key then some p else find_key fuel c key e.next
]

unfoldable pub bucket_head : ModuleCache → List ℕ → Option ℕ
bucket_head c key = get_or c.buckets (bucket_of c key) none

unfoldable pub cache_lookup : ModuleCache → List ℕ → Option ℕ
cache_lookup c key = find_key (length c.store + 1) c key (bucket_head c key)
