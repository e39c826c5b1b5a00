-- ===== src/Cache/Uses.antt =====
-- src/modules/cache.c: the list of the last uses as a list of pointers, the latest first.
pub mod Lost
pub mod Removal
pub mod Touch
use asteron.Prelude.{
  ℕ, zero, suc, ◌<◌, ◌≡◌, ◌≢◌, refl, ap, ◌∙◌, sym, subst, Option, none, some, List, [], ◌∷◌, arith,
  length, All, get_elem?, get_elem?-exists,
}
use asteron.Cache.Types.{CacheEntry, ModuleCache}
use asteron.Cache.Store.{update_entry, set_next, set_prev, lru_insert_front, link_head, tail_or}

abbrev pub head : List ℕ → Option ℕ
head [] = none
head (p ∷ ps) = some p

abbrev pub last : List ℕ → Option ℕ
last [] = none
last (p ∷ []) = some p
last (p ∷ q ∷ ps) = last (q ∷ ps)

-- The entries at the pointers, each with the links to the one before and the one after it.
abbrev pub IsLinked : List CacheEntry → Option ℕ → List ℕ → Type 0
IsLinked es before [] = Unit
IsLinked es before (p ∷ ps) =
    (e : CacheEntry) × (get_elem? es p ≡ some e)
    × (e.prev ≡ before)
    × (e.next ≡ head ps)
    × IsLinked es (some p) ps

abbrev pub IsAbsent : ℕ → List ℕ → Type 0
IsAbsent q ps = All (λ (p : ℕ). p ≢ q) ps

-- No pointer stands twice.
abbrev pub IsSimple : List ℕ → Type 0
IsSimple [] = Unit
IsSimple (p ∷ ps) = IsAbsent p ps × IsSimple ps

-- The cache keeps the list `ps`.
pub record IsLru (c : ModuleCache) (ps : List ℕ) : Type 0 where
  pub first : c.lru_head ≡ head ps
  pub final : c.lru_tail ≡ last ps
  pub linked : IsLinked c.store none ps
  pub simple : IsSimple ps

abbrev map_entry : (CacheEntry → CacheEntry) → Option CacheEntry → Option CacheEntry
map_entry f none = none
map_entry f (some e) = some (f e)

pub get_elem?-update_entry_self :
    (f : CacheEntry → CacheEntry) (p : ℕ) (es : List CacheEntry) (e : CacheEntry)
    → get_elem? es p ≡ some e
    → get_elem? (update_entry f p es) p ≡ some (f e)
unfolding update_entry
get_elem?-update_entry_self f p [] e h = ground arith
get_elem?-update_entry_self f zero (x ∷ es) e h = ap (map_entry f) h
get_elem?-update_entry_self f (suc p) (x ∷ es) e h = get_elem?-update_entry_self f p es e h

pub get_elem?-update_entry_ne :
    (f : CacheEntry → CacheEntry) (p q : ℕ) (es : List CacheEntry)
    → q ≢ p
    → get_elem? (update_entry f p es) q ≡ get_elem? es q
unfolding update_entry
get_elem?-update_entry_ne f p q [] h = refl
get_elem?-update_entry_ne f zero zero (x ∷ es) h = absurd (h refl)
get_elem?-update_entry_ne f zero (suc q) (x ∷ es) h = refl
get_elem?-update_entry_ne f (suc p) zero (x ∷ es) h = refl
get_elem?-update_entry_ne f (suc p) (suc q) (x ∷ es) h =
    get_elem?-update_entry_ne f p q es (λ e. h (ap suc e))

-- A write to an entry that is not in the list leaves the list as it is.
pub IsLinked-update_entry :
    (f : CacheEntry → CacheEntry) (q : ℕ) (es : List CacheEntry) (before : Option ℕ) (ps : List ℕ)
    → IsAbsent q ps
    → IsLinked es before ps
    → IsLinked (update_entry f q es) before ps
IsLinked-update_entry f q es before [] absent l = tt
IsLinked-update_entry f q es before (p ∷ ps) (ne, absent) (e, at, back, forth, l) = (
  e,
  get_elem?-update_entry_ne f q p es ne ∙ at,
  back,
  forth,
  IsLinked-update_entry f q es (some p) ps absent l,
)

-- The head of a list gets another entry before it.
pub IsLinked-new_head :
    (o : Option ℕ) (h : ℕ) (es : List CacheEntry) (before : Option ℕ) (ps : List ℕ)
    → IsSimple (h ∷ ps)
    → IsLinked es before (h ∷ ps)
    → IsLinked (update_entry (λ e. record e { prev = o }) h es) o (h ∷ ps)
IsLinked-new_head o h es before ps (absent, simple) (e, at, back, forth, l) = (
  record e { prev = o },
  get_elem?-update_entry_self (λ e. record e { prev = o }) h es e at,
  refl,
  forth,
  IsLinked-update_entry (λ e. record e { prev = o }) h es (some h) ps absent l,
)

-- The store after the two writes to the entry `p`, and after the write to the old head.
abbrev base : Option ℕ → ℕ → List CacheEntry → List CacheEntry
base o p es =
    update_entry (λ e. record e { next = o }) p (update_entry (λ e. record e { prev = none }) p es)

abbrev head_linked : Option ℕ → ℕ → List CacheEntry → List CacheEntry
head_linked none p es = es
head_linked (some h) p es = update_entry (λ e. record e { prev = some p }) h es

link_head-store :
    (o : Option ℕ) (p : ℕ) (d : ModuleCache) → (link_head o p d).store ≡ head_linked o p d.store
unfolding set_prev
link_head-store none p d = refl
link_head-store (some h) p d = refl

link_head-lru_tail :
    (o : Option ℕ) (p : ℕ) (d : ModuleCache) → (link_head o p d).lru_tail ≡ d.lru_tail
unfolding set_prev
link_head-lru_tail none p d = refl
link_head-lru_tail (some h) p d = refl

tail_or-last : (p : ℕ) (ps : List ℕ) → tail_or (last ps) p ≡ last (p ∷ ps)
tail_or-last p [] = refl
tail_or-last p (q ∷ []) = refl
tail_or-last p (q ∷ r ∷ ps) = tail_or-last p (r ∷ ps)

base-IsLinked :
    (o : Option ℕ) (p : ℕ) (es : List CacheEntry) (before : Option ℕ) (ps : List ℕ)
    → IsAbsent p ps
    → IsLinked es before ps
    → IsLinked (base o p es) before ps
base-IsLinked o p es before ps absent l =
    IsLinked-update_entry _ p _ before ps absent (IsLinked-update_entry _ p es before ps absent l)

base_at :
    (o : Option ℕ) (p : ℕ) (es : List CacheEntry)
    → p < length es
    → (e : CacheEntry) × (get_elem? (base o p es) p ≡ some e) × (e.prev ≡ none) × (e.next ≡ o)
base_at o p es inside =
    let (e, at) = get_elem?-exists es p inside in
    (
      record e { prev = none; next = o },
      get_elem?-update_entry_self _ p _ _ (get_elem?-update_entry_self _ p es e at),
      refl,
      refl,
    )

front-IsLinked :
    (p : ℕ) (ps : List ℕ) (es : List CacheEntry)
    → p < length es
    → IsAbsent p ps
    → IsSimple ps
    → IsLinked es none ps
    → IsLinked (head_linked (head ps) p (base (head ps) p es)) none (p ∷ ps)
front-IsLinked p [] es inside absent simple l =
    let (e, at, back, forth) = base_at none p es inside in (e, at, back, forth, tt)
front-IsLinked p (h ∷ ps) es inside (ne, absent) simple l =
    let (e, at, back, forth) = base_at (some h) p es inside in
    (
      e,
      get_elem?-update_entry_ne _ h p (base (some h) p es) (λ q. ne (sym q)) ∙ at,
      back,
      forth,
      IsLinked-new_head (some p) h (base (some h) p es) none ps simple
          (base-IsLinked (some h) p es none (h ∷ ps) (ne, absent) l),
    )

-- An entry of the store that is not in the list comes to its front: the links of the entries, the
-- head and the tail are those of the longer list.
pub lru_insert_front-IsLru :
    (c : ModuleCache) (p : ℕ) (ps : List ℕ)
    → p < length c.store
    → IsAbsent p ps
    → IsLru c ps
    → IsLru (lru_insert_front c p) (p ∷ ps)
unfolding lru_insert_front set_next set_prev
lru_insert_front-IsLru c p ps inside absent l =
    let store : (lru_insert_front c p).store ≡ head_linked (head ps) p (base (head ps) p c.store) =
      link_head-store c.lru_head p _
      ∙ ap (λ (o : Option ℕ). head_linked o p (base o p c.store)) l.first in
    let tail : (lru_insert_front c p).lru_tail ≡ last (p ∷ ps) =
      ap (λ (o : Option ℕ). tail_or o p) (link_head-lru_tail c.lru_head p _ ∙ l.final)
      ∙ tail_or-last p ps in
    record {
      first = refl;
      final = tail;
      linked =
          subst (λ (es : List CacheEntry). IsLinked es none (p ∷ ps)) (sym store)
            (front-IsLinked p ps c.store inside absent l.simple l.linked);
      simple = (absent, l.simple);
    }
