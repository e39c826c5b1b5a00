-- ===== src/Cache/Uses/Touch.antt =====
-- src/modules/cache.c: the last use of an entry, on the list of the last uses.
use asteron.Prelude.{
  ℕ, zero, suc, ◌<◌, ◌≡◌, ◌≢◌, refl, ap, ◌∙◌, sym, subst, Option, none, some, List, [], ◌∷◌, ◌++◌,
  arith, length, get_elem?, get_elem?-lt, eq_cases, inl, inr, false, ◌==◌,
}
use asteron.Cache.Types.{CacheEntry, ModuleCache}
use asteron.Cache.Store.{
  update_entry, set_next, set_prev, lru_remove, lru_touch, link_before, next_of, prev_of, next_in,
  prev_in,
}
use asteron.Cache.Uses.{
  head, last, IsLinked, IsLru, get_elem?-update_entry_self, get_elem?-update_entry_ne,
  IsLinked-update_entry, lru_insert_front-IsLru,
}
use asteron.Cache.Uses.Removal.{
  last_or, bridged, next_write, prev_write, end_after, unlinked, entry_between, bridged-IsLinked,
  IsSimple-skip, IsSimple-front, IsSimple-IsAbsent, next_write_at, lru_remove-unlinked,
  link_before-store, link_before-lru_head, link_before-lru_tail, link_after-store,
  link_after-lru_head, link_after-lru_tail,
}

-- The ends of a list without one of its pointers.
last-skip :
    (front : List ℕ) (p h : ℕ) (back : List ℕ)
    → last (front ++ p ∷ h ∷ back) ≡ last (front ++ h ∷ back)
last-skip [] p h back = refl
last-skip (q ∷ []) p h back = refl
last-skip (q ∷ r ∷ front) p h back = last-skip (r ∷ front) p h back

last-end : (front : List ℕ) → last_or none front ≡ last (front ++ [])
last-end [] = refl
last-end (q ∷ []) = refl
last-end (q ∷ r ∷ front) = last-end (r ∷ front)

end_after-some :
    (q : ℕ) (front : List ℕ) (o old : Option ℕ) → end_after (last_or (some q) front) o old ≡ old
end_after-some q [] o old = refl
end_after-some q (r ∷ front) o old = end_after-some r front o old

new_head :
    (front : List ℕ) (p : ℕ) (back : List ℕ) (old : Option ℕ)
    → old ≡ head (front ++ p ∷ back)
    → end_after (last_or none front) (head back) old ≡ head (front ++ back)
new_head [] p back old h = refl
new_head (q ∷ front) p back old h = end_after-some q front (head back) old ∙ h

new_tail :
    (front : List ℕ) (p : ℕ) (back : List ℕ) (old : Option ℕ)
    → old ≡ last (front ++ p ∷ back)
    → end_after (head back) (last_or none front) old ≡ last (front ++ back)
new_tail front p [] old h = last-end front
new_tail front p (b ∷ back) old h = h ∙ last-skip front p b back

module _ (c : ModuleCache) (p : ℕ) (pv nx : Option ℕ) where
  unlinked-store :
      (unlinked c p pv nx).store
      ≡ update_entry
          (λ e. record e { next = none })
          p
          (update_entry (λ e. record e { prev = none }) p (bridged pv nx c.store))
  unfolding set_next set_prev
  unlinked-store =
      ap
        (λ (es : List CacheEntry).
          update_entry (λ e. record e { next = none }) p
            (update_entry (λ e. record e { prev = none }) p es))
        (link_after-store nx pv (link_before pv nx c)
          ∙ ap (prev_write nx pv) (link_before-store pv nx c))

  unlinked-lru_head : (unlinked c p pv nx).lru_head ≡ end_after pv nx c.lru_head
  unfolding set_next set_prev
  unlinked-lru_head = link_after-lru_head nx pv (link_before pv nx c) ∙ link_before-lru_head pv nx c

  unlinked-lru_tail : (unlinked c p pv nx).lru_tail ≡ end_after nx pv c.lru_tail
  unfolding set_next set_prev
  unlinked-lru_tail =
      link_after-lru_tail nx pv (link_before pv nx c)
      ∙ ap (end_after nx pv) (link_before-lru_tail pv nx c)

module _ (c : ModuleCache) (front : List ℕ) (p : ℕ) (back : List ℕ)
    (l : IsLru c (front ++ p ∷ back)) where
  removed_is : lru_remove c p ≡ unlinked c p (last_or none front) (head back)
  unfolding next_of prev_of
  removed_is =
      let (e, at, b, f) = entry_between c.store none front p back l.linked in
      lru_remove-unlinked c p (last_or none front) (head back) (ap prev_in at ∙ b)
        (ap next_in at ∙ f)
        (next_write_at p (head back) c.store none front tt (IsSimple-front front p back l.simple))

  -- An entry of the list that is removed leaves the list of the others, in their order, and the head
  -- and the tail are those of that list.
  pub lru_remove-IsLru : IsLru (lru_remove c p) (front ++ back)
  lru_remove-IsLru =
      let pv = last_or none front in
      let nx = head back in
      let absent = IsSimple-IsAbsent front p back l.simple in
      subst (λ (d : ModuleCache). IsLru d (front ++ back)) (sym removed_is)
        (record {
          first = unlinked-lru_head c p pv nx ∙ new_head front p back c.lru_head l.first;
          final = unlinked-lru_tail c p pv nx ∙ new_tail front p back c.lru_tail l.final;
          linked =
              subst (λ (es : List CacheEntry). IsLinked es none (front ++ back))
                (sym (unlinked-store c p pv nx))
                (IsLinked-update_entry _ p _ none (front ++ back) absent (
                  IsLinked-update_entry _ p _ none (front ++ back) absent
                    (bridged-IsLinked c.store none front p back tt l.simple l.linked)));
          simple = IsSimple-skip front p back l.simple;
        })

length-update_entry :
    (f : CacheEntry → CacheEntry) (p : ℕ) (es : List CacheEntry)
    → length (update_entry f p es) ≡ length es
unfolding update_entry
length-update_entry f p [] = refl
length-update_entry f zero (e ∷ es) = refl
length-update_entry f (suc p) (e ∷ es) = ap suc (length-update_entry f p es)

length-next_write : (o w : Option ℕ) (es : List CacheEntry) → length (next_write o w es) ≡ length es
length-next_write none w es = refl
length-next_write (some q) w es = length-update_entry _ q es

length-prev_write : (o w : Option ℕ) (es : List CacheEntry) → length (prev_write o w es) ≡ length es
length-prev_write none w es = refl
length-prev_write (some q) w es = length-update_entry _ q es

length-unlinked :
    (c : ModuleCache) (p : ℕ) (pv nx : Option ℕ)
    → length (unlinked c p pv nx).store ≡ length c.store
length-unlinked c p pv nx =
    ap length (unlinked-store c p pv nx)
    ∙ length-update_entry _ p _
    ∙ length-update_entry _ p _
    ∙ length-prev_write nx pv _
    ∙ length-next_write pv nx c.store

ne_of : (p q : ℕ) → (p == q) ≡ false → p ≢ q
ne_of p q h = ground arith

-- A new time of access changes no link.
IsLinked-access :
    (now q : ℕ) (es : List CacheEntry) (before : Option ℕ) (ps : List ℕ)
    → IsLinked es before ps
    → IsLinked (update_entry (λ e. record e { last_access = now }) q es) before ps
IsLinked-access now q es before [] l = tt
IsLinked-access now q es before (p ∷ ps) (e, at, b, f, l) =
    let rest = IsLinked-access now q es (some p) ps l in
    elim (eq_cases p q) [
      | inl same ↦
          let here : get_elem? (update_entry (λ e. record e { last_access = now }) q es) p
              ≡ some (record e { last_access = now }) =
            ap (get_elem? (update_entry (λ e. record e { last_access = now }) q es)) same
            ∙ get_elem?-update_entry_self _ q es e (ap (get_elem? es) (sym same) ∙ at) in
          (record e { last_access = now }, here, b, f, rest)
      | inr other ↦ (e, get_elem?-update_entry_ne _ q p es (ne_of p q other) ∙ at, b, f, rest)
    ]

module _ (c : ModuleCache) (front : List ℕ) (p : ℕ) (back : List ℕ)
    (l : IsLru c (front ++ p ∷ back)) where
  -- A use of an entry of the list moves it to the front and keeps the order of the others: the links,
  -- the head and the tail are those of the new list.
  pub lru_touch-IsLru : (now : ℕ) → IsLru (lru_touch c p now) (p ∷ (front ++ back))
  unfolding lru_touch
  lru_touch-IsLru now =
      let removed = lru_remove c p in
      let (e, at, b, f) = entry_between c.store none front p back l.linked in
      let same : length removed.store ≡ length c.store =
        ap (λ (d : ModuleCache). length d.store) (removed_is c front p back l)
        ∙ length-unlinked c p (last_or none front) (head back) in
      let inside : p < length removed.store = omega (arith, same, get_elem?-lt c.store p e at) in
      let moved =
        lru_insert_front-IsLru removed p (front ++ back) inside
          (IsSimple-IsAbsent front p back l.simple) (lru_remove-IsLru c front p back l) in
      record {
        first = moved.first;
        final = moved.final;
        linked = IsLinked-access now p _ none (p ∷ (front ++ back)) moved.linked;
        simple = moved.simple;
      }
