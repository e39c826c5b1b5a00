-- ===== src/Cache/Gets/Answers.antt =====
-- src/modules/cache.c: what cache_get answers and counts.
use asteron.Prelude.{
  ℕ, ◌+◌, ◌%◌, ◌≡◌, refl, ap, ◌∙◌, sym, subst, Bool, true, false, Option, none, some, ltb, leb,
  ◌==◌, ◌&&◌, if◌then◌else◌, get_elem?, arith, u64_mod, Option-cases, Bool-cases, inl, inr, ◌⊎◌,
}
use asteron.Cache.Types.{CacheEntry, ModuleCache}
use asteron.Cache.Store.{cache_lookup}
use asteron.Cache.Calls.{cache_invalidate, cache_is_valid}
use asteron.Cache.Gets.{
  Request, mark_dirty, put_module, get_compiled, get_loaded, get_missing, get_hit, is_stale,
  cache_get,
}
use asteron.Cache.Gets.Counts.{counts, lru_touch-counts, cache_put-counts, cache_invalidate-counts}

abbrev first_of : Option ℕ → Option ℕ → Option ℕ
first_of none b = b
first_of (some a) b = some a

abbrev module_in : Option CacheEntry → Option ℕ
module_in none = none
module_in (some e) = some e.module_id

abbrev module_found : ModuleCache → Option ℕ → Option ℕ
module_found c none = none
module_found c (some p) = module_in (get_elem? c.store p)

-- The answer is the module of the entry that is found, which is valid.
abbrev pub IsHit : ModuleCache → Request → ModuleCache × Option ℕ → Type 0
IsHit c r (after, answer) =
    (cache_is_valid c r.key r.source_mtime ≡ true)
    × (answer ≡ module_found c (cache_lookup c r.key))
    × (counts after ≡ ((c.hits + 1) % u64_mod, c.misses))

-- No valid entry is found, and the answer is the module of the file of the cache or else of the
-- compiler.
abbrev pub IsMiss : ModuleCache → Request → ModuleCache × Option ℕ → Type 0
IsMiss c r (after, answer) =
    (cache_is_valid c r.key r.source_mtime ≡ false)
    × (answer ≡ first_of r.disk r.compiled)
    × (counts after ≡ (c.hits, (c.misses + 1) % u64_mod))

mark_dirty-counts : (o : Option ℕ) (c : ModuleCache) → counts (mark_dirty o c) ≡ counts c
mark_dirty-counts none c = refl
mark_dirty-counts (some p) c = refl

get_compiled-counts :
    (c : ModuleCache) (r : Request) (o : Option ℕ)
    → ((get_compiled c r o).1 ≡ o) × (counts (get_compiled c r o).0 ≡ counts c)
unfolding get_compiled
get_compiled-counts c r none = (refl, refl)
get_compiled-counts c r (some m) =
    let put = put_module c r m in
    (
      refl,
      mark_dirty-counts (cache_lookup put r.key) put ∙ cache_put-counts c r.key m r.key_mtime r.now,
    )

get_loaded-counts :
    (c : ModuleCache) (r : Request) (o : Option ℕ)
    → ((get_loaded c r o).1 ≡ first_of o r.compiled) × (counts (get_loaded c r o).0 ≡ counts c)
get_loaded-counts c r none = get_compiled-counts c r r.compiled
get_loaded-counts c r (some m) = (refl, cache_put-counts c r.key m r.key_mtime r.now)

get_missing-counts :
    (c d : ModuleCache) (r : Request)
    → counts d ≡ counts c
    → ((get_missing d r).1 ≡ first_of r.disk r.compiled)
      × (counts (get_missing d r).0 ≡ (c.hits, (c.misses + 1) % u64_mod))
unfolding get_missing
get_missing-counts c d r same =
    let one = record d { misses = (d.misses + 1) % u64_mod } in
    let (answer, count) = get_loaded-counts one r r.disk in
    (answer, count ∙ ap (λ (n : ℕ × ℕ). (n.0, (n.1 + 1) % u64_mod)) same)

stale_or_valid :
    (m s : ℕ) (b : Bool)
    → (ltb 0 m && ltb s m) ≡ b
    → (if m == 0 then true else leb m s) ≡ (if b then false else true)
stale_or_valid m s b h = ground (arith, h)

module _ (c : ModuleCache) (r : Request) where
  cache_get-IsMiss :
      (d : ModuleCache)
      → cache_is_valid c r.key r.source_mtime ≡ false
      → counts d ≡ counts c
      → cache_get c r ≡ get_missing d r
      → IsMiss c r (cache_get c r)
  cache_get-IsMiss d invalid same got =
      let (answer, count) = get_missing-counts c d r same in
      subst (IsMiss c r) (sym got) (invalid, answer, count)

  cache_get-IsMiss_unknown : cache_lookup c r.key ≡ none → IsMiss c r (cache_get c r)
  unfolding cache_get cache_is_valid
  cache_get-IsMiss_unknown h =
      cache_get-IsMiss c (rw (h, cache_is_valid) refl) refl (rw (h, cache_get) refl)

  module _ (p : ℕ) (found : cache_lookup c r.key ≡ some p) where
    cache_get-IsMiss_without : get_elem? c.store p ≡ none → IsMiss c r (cache_get c r)
    unfolding cache_get cache_is_valid
    cache_get-IsMiss_without h =
        cache_get-IsMiss c (rw (found, h, cache_is_valid) refl) refl (rw (found, h, cache_get) refl)

    module _ (e : CacheEntry) (at : get_elem? c.store p ≡ some e) where
      valid_is :
          (b : Bool)
          → is_stale r.source_mtime e ≡ b
          → cache_is_valid c r.key r.source_mtime ≡ (if b then false else true)
      unfolding cache_is_valid
      valid_is b h =
          rw (found, at, cache_is_valid) (stale_or_valid r.source_mtime e.source_mtime b h)

      cache_get-IsMiss_stale : is_stale r.source_mtime e ≡ true → IsMiss c r (cache_get c r)
      unfolding cache_get
      cache_get-IsMiss_stale h =
          cache_get-IsMiss (cache_invalidate c r.key) (valid_is true h)
            (cache_invalidate-counts c r.key) (rw (found, at, h, cache_get) refl)

      cache_get-IsHit : is_stale r.source_mtime e ≡ false → IsHit c r (cache_get c r)
      unfolding cache_get get_hit
      cache_get-IsHit h =
          let got : cache_get c r ≡ get_hit c r p e = rw (found, at, h, cache_get) refl in
          let answer : some e.module_id ≡ module_found c (cache_lookup c r.key) =
            rw (found, at) refl in
          let one = record c { hits = (c.hits + 1) % u64_mod } in
          subst (IsHit c r) (sym got) (valid_is false h, answer, lru_touch-counts one p r.now)

-- A request for a key counts once: it is a hit exactly if the cache has an entry of the key that is
-- valid for the time of the source, and then the answer is the module of that entry; else it is a miss,
-- and the answer is the module of the file of the cache, or else what the compiler makes.
pub cache_get-cache_is_valid :
    (c : ModuleCache) (r : Request) → IsHit c r (cache_get c r) ⊎ IsMiss c r (cache_get c r)
cache_get-cache_is_valid c r = elim (Option-cases (cache_lookup c r.key)) [
  | inl unknown ↦ inr (cache_get-IsMiss_unknown c r unknown)
  | inr (p, found) ↦ elim (Option-cases (get_elem? c.store p)) [
    | inl h ↦ inr (cache_get-IsMiss_without c r p found h)
    | inr (e, at) ↦ elim (Bool-cases (is_stale r.source_mtime e)) [
      | inl h ↦ inr (cache_get-IsMiss_stale c r p found e at h)
      | inr h ↦ inl (cache_get-IsHit c r p found e at h)
    ]
  ]
]
