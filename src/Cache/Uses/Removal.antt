-- ===== src/Cache/Uses/Removal.antt =====
-- src/modules/cache.c: an entry leaves the list of the last uses.
use asteron.Prelude.{
  ℕ, ◌≡◌, ◌≢◌, refl, ap, ◌∙◌, sym, Option, none, some, List, [], ◌∷◌, ◌++◌, get_elem?,
}
use asteron.Cache.Types.{CacheEntry, ModuleCache}
use asteron.Cache.Store.{
  update_entry, set_next, set_prev, lru_remove, link_before, link_after, next_of, prev_of, next_in,
  prev_in,
}
use asteron.Cache.Uses.{
  head, IsLinked, IsAbsent, IsSimple, IsLinked-new_head, get_elem?-update_entry_self,
  get_elem?-update_entry_ne, IsLinked-update_entry,
}

-- The last pointer of `ps`, or what stands before the list.
abbrev pub last_or : Option ℕ → List ℕ → Option ℕ
last_or before [] = before
last_or before (p ∷ ps) = last_or (some p) ps

abbrev pub next_write : Option ℕ → Option ℕ → List CacheEntry → List CacheEntry
next_write none o es = es
next_write (some q) o es = update_entry (λ e. record e { next = o }) q es

abbrev pub prev_write : Option ℕ → Option ℕ → List CacheEntry → List CacheEntry
prev_write none o es = es
prev_write (some q) o es = update_entry (λ e. record e { prev = o }) q es

-- The two writes around the entry that leaves, between `before` and `back`.
abbrev pub bridged : Option ℕ → Option ℕ → List CacheEntry → List CacheEntry
bridged before after es = prev_write after before (next_write before after es)

-- A pointer that may be missing is not in the list.
abbrev pub IsAway : Option ℕ → List ℕ → Type 0
IsAway none ps = Unit
IsAway (some q) ps = IsAbsent q ps

-- The entry between `front` and `back`.
pub entry_between :
    (es : List CacheEntry) (before : Option ℕ) (front : List ℕ) (p : ℕ) (back : List ℕ)
    → IsLinked es before (front ++ p ∷ back)
    → (e : CacheEntry) × (get_elem? es p ≡ some e)
      × (e.prev ≡ last_or before front)
      × (e.next ≡ head back)
entry_between es before [] p back (e, at, b, f, l) = (e, at, b, f)
entry_between es before (q ∷ front) p back (e, at, b, f, l) =
    entry_between es (some q) front p back l

IsAbsent-tail :
    (q : ℕ) (front : List ℕ) (p : ℕ) (back : List ℕ)
    → IsAbsent q (front ++ p ∷ back)
    → IsAbsent q back
IsAbsent-tail q [] p back (ne, a) = a
IsAbsent-tail q (r ∷ front) p back (ne, a) = IsAbsent-tail q front p back a

IsAbsent-skip :
    (q : ℕ) (front : List ℕ) (p : ℕ) (back : List ℕ)
    → IsAbsent q (front ++ p ∷ back)
    → IsAbsent q (front ++ back)
IsAbsent-skip q [] p back (ne, a) = a
IsAbsent-skip q (r ∷ front) p back (ne, a) = (ne, IsAbsent-skip q front p back a)

pub IsSimple-skip :
    (front : List ℕ) (p : ℕ) (back : List ℕ)
    → IsSimple (front ++ p ∷ back)
    → IsSimple (front ++ back)
IsSimple-skip [] p back (a, s) = s
IsSimple-skip (q ∷ front) p back (a, s) =
    (IsAbsent-skip q front p back a, IsSimple-skip front p back s)

-- The first entry leaves.
bridged-first :
    (es : List CacheEntry) (before : Option ℕ) (p : ℕ) (back : List ℕ)
    → IsAway before (p ∷ back)
    → IsSimple (p ∷ back)
    → IsLinked es before (p ∷ back)
    → IsLinked (bridged before (head back) es) before back
bridged-first es before p [] a s l = tt
bridged-first es none p (h ∷ back) a (_, s) (e, at, b, f, l) =
    IsLinked-new_head none h es (some p) back s l
bridged-first es (some q) p (h ∷ back) (_, a) (_, s) (e, at, b, f, l) =
    IsLinked-new_head (some q) h (next_write (some q) (some h) es) (some p) back s
      (IsLinked-update_entry _ q es (some p) (h ∷ back) a l)

abbrev pub IsOther : ℕ → Option ℕ → Type 0
IsOther p none = Unit
IsOther p (some q) = q ≢ p

IsAbsent-front : (q : ℕ) (front rest : List ℕ) → IsAbsent q (front ++ rest) → IsAbsent q front
IsAbsent-front q [] rest a = tt
IsAbsent-front q (r ∷ front) rest (ne, a) = (ne, IsAbsent-front q front rest a)

-- The write to the entry before the one that leaves, and to the one after it, seen at `p`.
pub next_write_at :
    (p : ℕ) (o : Option ℕ) (es : List CacheEntry) (before : Option ℕ) (front : List ℕ)
    → IsOther p before
    → IsAbsent p front
    → get_elem? (next_write (last_or before front) o es) p ≡ get_elem? es p
next_write_at p o es none [] h a = refl
next_write_at p o es (some q) [] h a = get_elem?-update_entry_ne _ q p es (λ e. h (sym e))
next_write_at p o es before (r ∷ front) h (ne, a) = next_write_at p o es (some r) front ne a

prev_write_at :
    (p : ℕ) (o : Option ℕ) (es : List CacheEntry) (back : List ℕ)
    → IsAbsent p back
    → get_elem? (prev_write (head back) o es) p ≡ get_elem? es p
prev_write_at p o es [] a = refl
prev_write_at p o es (h ∷ back) (ne, a) = get_elem?-update_entry_ne _ h p es (λ e. ne (sym e))

pub bridged-IsLinked :
    (es : List CacheEntry) (before : Option ℕ) (front : List ℕ) (p : ℕ) (back : List ℕ)
    → IsAway before (front ++ p ∷ back)
    → IsSimple (front ++ p ∷ back)
    → IsLinked es before (front ++ p ∷ back)
    → IsLinked (bridged (last_or before front) (head back) es) before (front ++ back)
bridged-IsLinked es before [] p back a s l = bridged-first es before p back a s l
bridged-IsLinked es before (q ∷ []) p back a (absent, s) (e, at, b, f, l) = (
  record e { next = head back },
  prev_write_at q (some q) _ back (IsAbsent-tail q [] p back absent)
      ∙ get_elem?-update_entry_self _ q es e at,
  b,
  refl,
  bridged-IsLinked es (some q) [] p back absent s l,
)
bridged-IsLinked es before (q ∷ r ∷ front) p back a ((ne, absent), s) (e, at, b, f, l) = (
  e,
  prev_write_at q (last_or (some r) front) _ back (IsAbsent-tail q front p back absent)
      ∙ next_write_at q (head back) es (some r) front ne (IsAbsent-front q front (p ∷ back) absent)
      ∙ at,
  b,
  f,
  bridged-IsLinked es (some q) (r ∷ front) p back (ne, absent) s l,
)

absent_head :
    (q : ℕ) (front : List ℕ) (p : ℕ) (back : List ℕ) → IsAbsent q (front ++ p ∷ back) → p ≢ q
absent_head q [] p back (ne, a) = ne
absent_head q (r ∷ front) p back (ne, a) = absent_head q front p back a

-- The entry that leaves stands nowhere else.
pub IsSimple-front :
    (front : List ℕ) (p : ℕ) (back : List ℕ) → IsSimple (front ++ p ∷ back) → IsAbsent p front
IsSimple-front [] p back s = tt
IsSimple-front (q ∷ front) p back (a, s) =
    (λ e. (absent_head q front p back a) (sym e), IsSimple-front front p back s)

pub IsSimple-IsAbsent :
    (front : List ℕ) (p : ℕ) (back : List ℕ)
    → IsSimple (front ++ p ∷ back)
    → IsAbsent p (front ++ back)
IsSimple-IsAbsent [] p back (a, s) = a
IsSimple-IsAbsent (q ∷ front) p back (a, s) =
    (λ e. (absent_head q front p back a) (sym e), IsSimple-IsAbsent front p back s)

-- The writes at the ends of the list.
abbrev pub end_after : Option ℕ → Option ℕ → Option ℕ → Option ℕ
end_after none o old = o
end_after (some q) o old = old

pub link_before-store :
    (o w : Option ℕ) (c : ModuleCache) → (link_before o w c).store ≡ next_write o w c.store
unfolding link_before set_next
link_before-store none w c = refl
link_before-store (some q) w c = refl

pub link_before-lru_head :
    (o w : Option ℕ) (c : ModuleCache) → (link_before o w c).lru_head ≡ end_after o w c.lru_head
unfolding link_before set_next
link_before-lru_head none w c = refl
link_before-lru_head (some q) w c = refl

pub link_before-lru_tail :
    (o w : Option ℕ) (c : ModuleCache) → (link_before o w c).lru_tail ≡ c.lru_tail
unfolding link_before set_next
link_before-lru_tail none w c = refl
link_before-lru_tail (some q) w c = refl

pub link_after-store :
    (o w : Option ℕ) (c : ModuleCache) → (link_after o w c).store ≡ prev_write o w c.store
unfolding link_after set_prev
link_after-store none w c = refl
link_after-store (some q) w c = refl

pub link_after-lru_tail :
    (o w : Option ℕ) (c : ModuleCache) → (link_after o w c).lru_tail ≡ end_after o w c.lru_tail
unfolding link_after set_prev
link_after-lru_tail none w c = refl
link_after-lru_tail (some q) w c = refl

pub link_after-lru_head :
    (o w : Option ℕ) (c : ModuleCache) → (link_after o w c).lru_head ≡ c.lru_head
unfolding link_after set_prev
link_after-lru_head none w c = refl
link_after-lru_head (some q) w c = refl

-- `lru_remove`, with the links of the entry that leaves written out.
abbrev pub unlinked : ModuleCache → ℕ → Option ℕ → Option ℕ → ModuleCache
unlinked c p pv nx = set_next p none (set_prev p none (link_after nx pv (link_before pv nx c)))

pub lru_remove-unlinked :
    (c : ModuleCache) (p : ℕ) (pv nx : Option ℕ)
    → prev_of c p ≡ pv
    → next_of c p ≡ nx
    → get_elem? (next_write pv nx c.store) p ≡ get_elem? c.store p
    → lru_remove c p ≡ unlinked c p pv nx
unfolding lru_remove next_of prev_of
lru_remove-unlinked c p pv nx e f same =
    let before = link_before pv nx c in
    let at : get_elem? before.store p ≡ get_elem? c.store p =
      ap (λ (es : List CacheEntry). get_elem? es p) (link_before-store pv nx c) ∙ same in
    let done : ModuleCache → ModuleCache = λ d. set_next p none (set_prev p none d) in
    ap
      (λ (o : Option ℕ).
        let d = link_before o (next_of c p) c in done (link_after (next_of d p) (prev_of d p) d))
      e
    ∙ ap
        (λ (o : Option ℕ).
          let d = link_before pv o c in done (link_after (next_of d p) (prev_of d p) d))
        f
    ∙ ap (λ (o : Option ℕ). done (link_after o (prev_of before p) before)) (ap next_in at ∙ f)
    ∙ ap (λ (o : Option ℕ). done (link_after nx o before)) (ap prev_in at ∙ e)
