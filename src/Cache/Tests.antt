-- ===== src/Cache/Tests.antt =====
-- Tests of the cache and of versions, and their theorems at concrete data.
use asteron.Prelude.{
  ℕ, ◌⊎◌, ◌≡◌, ◌≢◌, ap, refl, false, Option, none, some, List, [], ◌∷◌, ◌++◌, arith, codes, set,
}
use asteron.Cache.Version.{ModuleVersion, version_compare, difference, negsuc}
use asteron.Cache.Types.{CacheEntry, ModuleCache, retain_module}
use asteron.Cache.Store.{
  cache_create, cache_lookup, bucket_head, bucket_of, hash_string, hash_from, find_key, next_of,
  lru_insert_front, lru_touch, set_next, set_prev, update_entry, empty_buckets,
}
use asteron.Cache.Calls.{cache_put, cache_invalidate, put_new, evict_while, in_bucket}
use asteron.Cache.Uses.{IsLru}
use asteron.Cache.Uses.Touch.{lru_touch-IsLru}
use asteron.Cache.Uses.Lost.{key_at, IsMissing, cache_lookup-lru_touch}
use asteron.Cache.Gets.{Request, cache_get, get_hit, get_missing, get_compiled}
use asteron.Cache.Gets.Answers.{IsHit, IsMiss, cache_get-cache_is_valid}
use asteron.Cache.Clears.{cache_clear, cache_clear-twice, clear_chains, chain_from}
use asteron.Cache.Chains.{cache_invalidate-head}
use asteron.Cache.Puts.{cache_put-cache_lookup, module_at}

abbrev v1_2_3 : ModuleVersion
v1_2_3 = record { major = 1; minor = 2; patch = 3; build = 9 }

abbrev v1_3_0 : ModuleVersion
v1_3_0 = record { major = 1; minor = 3; patch = 0; build = 0 }

compare_minor : version_compare v1_2_3 v1_3_0 ≡ negsuc 0
unfolding version_compare difference
compare_minor = refl

-- The keys `a` and `A` fall into one bucket of 32.
abbrev key_a : List ℕ
key_a = codes "a"

abbrev key_b : List ℕ
key_b = codes "A"

one_bucket : bucket_of (cache_create 4) key_a ≡ bucket_of (cache_create 4) key_b
unfolding bucket_of hash_string hash_from cache_create
one_bucket = refl

empty_lookup : cache_lookup (cache_create 4) key_a ≡ none
unfolding cache_lookup find_key bucket_head bucket_of hash_string hash_from cache_create
empty_lookup = refl

put_example :
    (cache_lookup (cache_put (cache_create 4) key_a 7 100 200) key_a ≡ some 0)
    × (module_at 0 (cache_put (cache_create 4) key_a 7 100 200).store ≡ some 7)
unfolding cache_create
put_example =
    cache_put-cache_lookup (cache_create 4) key_a 7 100 200 empty_lookup (omega arith) (omega arith)

abbrev entry : List ℕ → ℕ → Option ℕ → Option ℕ → CacheEntry
entry key module_id prev next = record {
  key = key;
  module_id = module_id;
  last_access = 200;
  source_mtime = 100;
  hit_count = 0;
  is_dirty = false;
  prev = prev;
  next = next;
}

-- Both keys put, the second at the head of the bucket and of the list.
abbrev two_entries : ModuleCache
two_entries = record {
  store = entry key_a 7 (some 1) none ∷ entry key_b 8 none (some 0) ∷ [];
  module_calls = retain_module 8 ∷ retain_module 7 ∷ [];
  buckets = set (empty_buckets 32) 6 (some 1);
  entry_count = 2;
  max_entries = 4;
  lru_head = some 1;
  lru_tail = some 0;
  hits = 0;
  misses = 0;
  evictions = 0;
}

two_puts : cache_put (cache_put (cache_create 4) key_a 7 100 200) key_b 8 100 200 ≡ two_entries
unfolding cache_put cache_lookup find_key bucket_head bucket_of hash_string hash_from cache_create
    put_new evict_while in_bucket lru_insert_front set_next set_prev update_entry
two_puts = refl

found_before :
    (cache_lookup two_entries key_a ≡ some 0)
    × (cache_lookup two_entries key_b ≡ some 1)
    × (bucket_head two_entries key_b ≡ some 1)
    × (bucket_of two_entries key_a ≡ bucket_of two_entries key_b)
unfolding cache_lookup find_key bucket_head bucket_of hash_string hash_from
found_before = (refl, refl, refl, refl)

-- The first key is found before the second is invalidated, and not after it.
invalidate_example : cache_lookup (cache_invalidate two_entries key_b) key_a ≡ none
invalidate_example =
    cache_invalidate-head two_entries key_b key_a 1 found_before.1 found_before.2 found_before.3

two_entries-IsLru : IsLru two_entries (1 ∷ 0 ∷ [])
two_entries-IsLru = record {
  first = refl;
  final = refl;
  linked = (
    entry key_b 8 none (some 0),
    refl,
    refl,
    refl,
    (entry key_a 7 (some 1) none, refl, refl, refl, tt),
  );
  simple = ((omega arith, tt), (tt, tt));
}

touch_example : IsLru (lru_touch two_entries 0 300) (0 ∷ 1 ∷ [])
touch_example = lru_touch-IsLru two_entries (1 ∷ []) 0 [] two_entries-IsLru 300

-- The first key is behind the head of its bucket, and found before it is used.
bucket_of_both : bucket_head two_entries key_a ≡ some 1
unfolding bucket_head bucket_of hash_string hash_from
bucket_of_both = refl

abbrev first_byte : Option (List ℕ) → ℕ
first_byte none = 0
first_byte (some []) = 0
first_byte (some (k ∷ ks)) = k

other_key : IsMissing key_a two_entries.store (1 ∷ [])
other_key = let different : 65 ≢ 97 = omega arith in ((λ h. different (ap first_byte h)), tt)

lost_example :
    (cache_lookup (lru_touch two_entries 0 300) key_a ≡ none)
    × (key_at 0 (lru_touch two_entries 0 300).store ≡ some key_a)
    × IsLru (lru_touch two_entries 0 300) (0 ∷ 1 ∷ [])
lost_example =
    cache_lookup-lru_touch two_entries [] 1 [] 0 [] key_a 300 two_entries-IsLru bucket_of_both refl
      other_key

abbrev request : ℕ → Request
request source_mtime = record {
  key = key_b;
  source_mtime = source_mtime;
  key_mtime = source_mtime;
  now = 300;
  disk = none;
  compiled = some 9;
}

-- The source is as old as the entry: a hit. It is newer: the module is compiled again.
get_valid : (cache_get two_entries (request 100)).1 ≡ some 8
unfolding cache_get cache_lookup find_key bucket_head bucket_of hash_string hash_from get_hit
get_valid = refl

get_stale : (cache_get two_entries (request 101)).1 ≡ some 9
unfolding cache_get cache_lookup find_key bucket_head bucket_of hash_string hash_from get_missing
    get_compiled
get_stale = refl

get_example :
    IsHit two_entries (request 100) (cache_get two_entries (request 100))
    ⊎ IsMiss two_entries (request 100) (cache_get two_entries (request 100))
get_example = cache_get-cache_is_valid two_entries (request 100)

-- The keys `a` and, before it, the grave accent fall into two buckets, one after the other.
abbrev apart : ModuleCache
apart = record two_entries {
  store = entry key_a 7 (some 1) none ∷ entry (codes "`") 8 none (some 0) ∷ [];
  buckets = set (set (empty_buckets 32) 6 (some 0)) 5 (some 1);
}

apart_puts : cache_put (cache_put (cache_create 4) key_a 7 100 200) (codes "`") 8 100 200 ≡ apart
unfolding cache_put cache_lookup find_key bucket_head bucket_of hash_string hash_from cache_create
    put_new evict_while in_bucket lru_insert_front set_next set_prev update_entry
apart_puts = refl

apart-IsLru : IsLru apart (1 ∷ 0 ∷ [])
apart-IsLru = record {
  first = refl;
  final = refl;
  linked = (
    entry (codes "`") 8 none (some 0),
    refl,
    refl,
    refl,
    (entry key_a 7 (some 1) none, refl, refl, refl, tt),
  );
  simple = ((omega arith, tt), (tt, tt));
}

apart_freed : (cache_clear apart).1 ≡ 1 ∷ 0 ∷ 0 ∷ []
unfolding cache_clear clear_chains chain_from next_of
apart_freed = refl

twice_example : (xs ys zs : List ℕ) × ((cache_clear apart).1 ≡ xs ++ 0 ∷ (ys ++ 0 ∷ zs))
twice_example =
    cache_clear-twice apart [] 1 0 [] (empty_buckets 5) [] (empty_buckets 25) apart-IsLru refl
