-- ===== src/Cache/Uses/Lost.antt =====
-- src/modules/cache.c: the search in a bucket after a use, which has written the links it follows.
use mathlib.Core.Option
use asteron.Prelude.{
  ℕ, zero, suc, ◌+◌, ◌%◌, ◌≡◌, ◌≢◌, refl, ap, ◌∙◌, sym, Option, none, some, List, [], ◌∷◌, ◌++◌,
  length, All, get_elem?, get_or, bytes_eq, bytes_eq→eq, Bool-cases, inl, inr,
}
use asteron.Cache.Types.{CacheEntry, ModuleCache}
use asteron.Cache.Store.{
  update_entry, set_next, set_prev, link_before, link_after, link_head, lru_remove,
  lru_insert_front, lru_touch, find_key, bucket_of, bucket_head, cache_lookup, hash_string, next_of,
  prev_of,
}
use asteron.Cache.Uses.{head, IsLinked, IsLru}
use asteron.Cache.Uses.Touch.{lru_touch-IsLru}

-- The key of the entry at `p`.
abbrev pub key_at : ℕ → List CacheEntry → Option (List ℕ)
key_at p es = Option.map (λ (e : CacheEntry). e.key) (get_elem? es p)

-- A write to a field other than the key.
key_at-update_entry :
    (f : CacheEntry → CacheEntry) (p q : ℕ) (es : List CacheEntry)
    → ((e : CacheEntry) → (f e).key ≡ e.key)
    → key_at q (update_entry f p es) ≡ key_at q es
unfolding update_entry
key_at-update_entry f p q [] h = refl
key_at-update_entry f zero zero (e ∷ es) h = ap some (h e)
key_at-update_entry f zero (suc q) (e ∷ es) h = refl
key_at-update_entry f (suc p) zero (e ∷ es) h = refl
key_at-update_entry f (suc p) (suc q) (e ∷ es) h = key_at-update_entry f p q es h

-- What a use keeps: the buckets and the key of every entry.
abbrev Frame : ModuleCache → ModuleCache → ℕ → Type 0
Frame c d q = (d.buckets ≡ c.buckets) × (key_at q d.store ≡ key_at q c.store)

Frame-refl : (c : ModuleCache) (q : ℕ) → Frame c c q
Frame-refl c q = (refl, refl)

Frame-trans : (c d e : ModuleCache) (q : ℕ) → Frame c d q → Frame d e q → Frame c e q
Frame-trans c d e q (b, k) (b', k') = (b' ∙ b, k' ∙ k)

set_next-Frame : (p : ℕ) (o : Option ℕ) (c : ModuleCache) (q : ℕ) → Frame c (set_next p o c) q
unfolding set_next
set_next-Frame p o c q = (refl, key_at-update_entry _ p q c.store (λ e. refl))

set_prev-Frame : (p : ℕ) (o : Option ℕ) (c : ModuleCache) (q : ℕ) → Frame c (set_prev p o c) q
unfolding set_prev
set_prev-Frame p o c q = (refl, key_at-update_entry _ p q c.store (λ e. refl))

link_before-Frame : (p o : Option ℕ) (c : ModuleCache) (q : ℕ) → Frame c (link_before p o c) q
unfolding link_before
link_before-Frame none o c q = (refl, refl)
link_before-Frame (some p) o c q = set_next-Frame p o c q

link_after-Frame : (p o : Option ℕ) (c : ModuleCache) (q : ℕ) → Frame c (link_after p o c) q
unfolding link_after
link_after-Frame none o c q = (refl, refl)
link_after-Frame (some p) o c q = set_prev-Frame p o c q

link_head-Frame : (o : Option ℕ) (p : ℕ) (c : ModuleCache) (q : ℕ) → Frame c (link_head o p c) q
link_head-Frame none p c q = Frame-refl c q
link_head-Frame (some h) p c q = set_prev-Frame h (some p) c q

lru_remove-Frame : (c : ModuleCache) (p q : ℕ) → Frame c (lru_remove c p) q
unfolding lru_remove
lru_remove-Frame c p q =
    let before = link_before (prev_of c p) (next_of c p) c in
    let after = link_after (next_of before p) (prev_of before p) before in
    let cleared = set_prev p none after in
    Frame-trans c before (set_next p none cleared) q (link_before-Frame _ _ c q) (
      Frame-trans before after (set_next p none cleared) q (link_after-Frame _ _ before q) (
        Frame-trans after cleared (set_next p none cleared) q (set_prev-Frame p none after q)
          (set_next-Frame p none cleared q)))

lru_insert_front-Frame : (c : ModuleCache) (p q : ℕ) → Frame c (lru_insert_front c p) q
unfolding lru_insert_front
lru_insert_front-Frame c p q =
    let cleared = set_prev p none c in
    let ahead = set_next p c.lru_head cleared in
    let linked = link_head c.lru_head p ahead in
    Frame-trans c cleared linked q (set_prev-Frame p none c q) (
      Frame-trans cleared ahead linked q (set_next-Frame p c.lru_head cleared q)
        (link_head-Frame c.lru_head p ahead q))

lru_touch-Frame : (c : ModuleCache) (p now q : ℕ) → Frame c (lru_touch c p now) q
unfolding lru_touch
lru_touch-Frame c p now q =
    let removed = lru_remove c p in
    let moved = lru_insert_front removed p in
    Frame-trans c removed (lru_touch c p now) q (lru_remove-Frame c p q) (
      Frame-trans removed moved (lru_touch c p now) q (lru_insert_front-Frame removed p q)
        (refl, key_at-update_entry _ p q moved.store (λ e. refl)))

-- No entry at the pointers has the key.
abbrev pub IsMissing : List ℕ → List CacheEntry → List ℕ → Type 0
IsMissing key es ps = All (λ (q : ℕ). key_at q es ≢ some key) ps

IsMissing-touch :
    (c : ModuleCache) (p now : ℕ) (key ps : List ℕ)
    → IsMissing key c.store ps
    → IsMissing key (lru_touch c p now).store ps
IsMissing-touch c p now key [] m = tt
IsMissing-touch c p now key (q ∷ ps) (ne, m) =
    (λ h. ne (sym (lru_touch-Frame c p now q).1 ∙ h), IsMissing-touch c p now key ps m)

-- The search follows the links of the list.
find_key-missing :
    (fuel : ℕ) (d : ModuleCache) (key : List ℕ) (before : Option ℕ) (ps : List ℕ)
    → IsLinked d.store before ps
    → IsMissing key d.store ps
    → find_key fuel d key (head ps) ≡ none
unfolding find_key
find_key-missing zero d key before ps l m = refl
find_key-missing (suc fuel) d key before [] l m = refl
find_key-missing (suc fuel) d key before (p ∷ ps) (e, at, b, f, l) (ne, m) =
    elim (Bool-cases (bytes_eq e.key key)) [
      | inl same ↦ absurd (
          ne
            (ap (Option.map (λ (x : CacheEntry). x.key)) at ∙ ap some (bytes_eq→eq e.key key same)))
      | inr other ↦
          let rest : find_key fuel d key e.next ≡ none =
            ap (find_key fuel d key) f ∙ find_key-missing fuel d key (some p) ps l m in
          rw (at, other, find_key) rest
    ]

-- The part of a list from one of its entries on.
IsLinked-from :
    (es : List CacheEntry) (before : Option ℕ) (front : List ℕ) (b : ℕ) (mid back : List ℕ)
    → IsLinked es before ((front ++ b ∷ mid) ++ back)
    → (o : Option ℕ) × IsLinked es o (b ∷ (mid ++ back))
IsLinked-from es before [] b mid back l = (before, l)
IsLinked-from es before (q ∷ front) b mid back (e, at, p, f, l) =
    IsLinked-from es (some q) front b mid back l

-- A use of an entry that stands in the list behind the head of its bucket loses it: the search starts
-- at that head and follows the list, in which the entry is now before the head, so the key is not
-- found if no other entry from the head on has it.
pub cache_lookup-lru_touch :
    (c : ModuleCache) (front : List ℕ) (b : ℕ) (mid : List ℕ) (p : ℕ) (back key : List ℕ) (now : ℕ)
    → IsLru c ((front ++ b ∷ mid) ++ p ∷ back)
    → bucket_head c key ≡ some b
    → key_at p c.store ≡ some key
    → IsMissing key c.store (b ∷ (mid ++ back))
    → (cache_lookup (lru_touch c p now) key ≡ none)
      × (key_at p (lru_touch c p now).store ≡ some key)
      × IsLru (lru_touch c p now) (p ∷ ((front ++ b ∷ mid) ++ back))
unfolding cache_lookup bucket_head bucket_of
cache_lookup-lru_touch c front b mid p back key now l bucket named missing =
    let d = lru_touch c p now in
    let frame = lru_touch-Frame c p now p in
    let moved = lru_touch-IsLru c (front ++ b ∷ mid) p back l now in
    let (e, at, pv, nx, links) = moved.linked in
    let (o, from) = IsLinked-from d.store (some p) front b mid back links in
    let same : bucket_head d key ≡ some b =
      ap (λ (bs : List (Option ℕ)). get_or bs (hash_string key % length bs) none) frame.0
      ∙ bucket in
    let searched =
      find_key-missing (length d.store + 1) d key o (b ∷ (mid ++ back)) from
        (IsMissing-touch c p now key (b ∷ (mid ++ back)) missing) in
    (ap (find_key (length d.store + 1) d key) same ∙ searched, frame.1 ∙ named, moved)
