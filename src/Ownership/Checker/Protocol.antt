-- ===== src/Ownership/Checker/Protocol.antt =====
-- When the borrow checker grants a call, and what a granted call changes.
use asteron.Prelude.{
  ℕ, ◌+◌, ◌<◌, ◌≡◌, ◌≢◌, refl, sym, ap, ◌∙◌, ◌↔◌, inl, inr, some, List, ◌∷◌, arith, ◌==◌, ==→eq,
  if◌then◌else◌, get_elem?, Bool-cases, u32_mod,
}
use asteron.Ownership.Types.{
  BorrowRegion, owned, borrowed, OwnershipInfo, BorrowChecker, Variable, LifetimeId, none_err,
}
use asteron.Ownership.Table.{get_ownership, update_info}
use asteron.Ownership.Checker.{
  borrow_var, borrow_mut_var, borrow_checker_borrow, borrow_checker_borrow_mut,
  borrow_checker_unborrow, release_region, count_borrow, release_borrow, take_region, new_region,
}
use asteron.Ownership.Checker.Invariant.{
  shared_borrows, shared_borrows-le, mut_borrows, IsTracked, InvOf, get_elem?-update_info_self,
  get_elem?-update_info_ne,
}

borrow_var_iff :
    (bc : BorrowChecker) (v : ℕ) (lt : LifetimeId) (x : Variable) (s m : ℕ)
    → IsTracked s m x.ownership
    → ((borrow_var bc v lt x).1 ≡ none_err) ↔ ((x.ownership.state ≡ owned) × (m ≡ 0))
unfolding borrow_var
borrow_var_iff bc v lt x s m t = (ground (arith, t), ground (arith, t))

borrow_mut_var_iff :
    (bc : BorrowChecker) (v : ℕ) (lt : LifetimeId) (x : Variable) (s m : ℕ)
    → IsTracked s m x.ownership
    → ((borrow_mut_var bc v lt x).1 ≡ none_err) ↔ ((x.ownership.state ≡ owned) × (s ≡ 0) × (m ≡ 0))
unfolding borrow_mut_var
borrow_mut_var_iff bc v lt x s m t = (ground (arith, t), ground (arith, t))

module _ (n : ℕ) (bc : BorrowChecker) (i : InvOf n bc) (v : ℕ) (x : Variable)
    (e : get_ownership bc v ≡ some x) where
  tracked :
      IsTracked (shared_borrows v bc.active_borrows) (mut_borrows v bc.active_borrows) x.ownership
  unfolding get_ownership
  tracked = i.tracked v x e

  -- Under the invariant a shared borrow is granted exactly if the variable is owned and the list of
  -- active borrows has no mutable borrow of it; a mutable borrow exactly if it is owned and the list
  -- has no borrow of it at all.
  pub borrow_granted_iff :
      (lt : LifetimeId)
      → (((borrow_checker_borrow bc v lt).1 ≡ none_err)
          ↔ ((x.ownership.state ≡ owned) × (mut_borrows v bc.active_borrows ≡ 0)))
        × (((borrow_checker_borrow_mut bc v lt).1 ≡ none_err) ↔ (
            (x.ownership.state ≡ owned)
            × (shared_borrows v bc.active_borrows ≡ 0)
            × (mut_borrows v bc.active_borrows ≡ 0)))
  unfolding borrow_checker_borrow borrow_checker_borrow_mut
  borrow_granted_iff lt = (
    rw (e, borrow_checker_borrow) (borrow_var_iff bc v lt x _ _ tracked),
    rw (e, borrow_checker_borrow_mut) (borrow_mut_var_iff bc v lt x _ _ tracked),
  )

after_borrow : BorrowChecker → ℕ → LifetimeId → BorrowChecker
unfolding new_region
after_borrow bc v lt = record bc {
  variables = update_info (count_borrow bc.current_line) v bc.variables;
  active_borrows = new_region bc v borrowed lt ∷ bc.active_borrows;
}

borrow_var_granted :
    (bc : BorrowChecker) (v : ℕ) (lt : LifetimeId) (x : Variable)
    → (borrow_var bc v lt x).1 ≡ none_err
    → (borrow_var bc v lt x).0 ≡ after_borrow bc v lt
unfolding borrow_var after_borrow
borrow_var_granted bc v lt x h = ground arith

-- The variable after a borrow that was given back: only its line of last use has changed.
abbrev pub touched : BorrowChecker → Variable → Variable
touched bc x = record x { ownership = record x.ownership { last_use_line = bc.current_line } }

counted_down :
    (bc : BorrowChecker) (x : Variable)
    → x.ownership.borrow_count + 1 < u32_mod
    → release_borrow borrowed (count_borrow bc.current_line x.ownership)
      ≡ record x.ownership { last_use_line = bc.current_line }
counted_down bc x h = ground arith

borrow_checker_borrow_found :
    (bc : BorrowChecker) (v : ℕ) (lt : LifetimeId) (x : Variable)
    → get_elem? bc.variables v ≡ some x
    → borrow_checker_borrow bc v lt ≡ borrow_var bc v lt x
unfolding borrow_checker_borrow get_ownership
borrow_checker_borrow_found bc v lt x e = rw (e, borrow_checker_borrow)

take_region_head :
    (v : ℕ) (r : BorrowRegion) (rs : List BorrowRegion)
    → r.var_id ≡ v
    → take_region v (r ∷ rs) ≡ some (r, rs)
unfolding take_region
take_region_head v r rs e = ground arith

unborrow-after_borrow :
    (bc : BorrowChecker) (v : ℕ) (lt : LifetimeId) (x : Variable)
    → get_elem? bc.variables v ≡ some x
    → borrow_checker_unborrow (after_borrow bc v lt) v ≡ record bc {
      variables =
          update_info
            (release_borrow borrowed)
            v
            (update_info (count_borrow bc.current_line) v bc.variables);
    }
unfolding after_borrow borrow_checker_unborrow get_ownership release_region
unborrow-after_borrow bc v lt x e = rw (
  get_elem?-update_info_self (count_borrow bc.current_line) v bc.variables x e,
  take_region_head v (new_region bc v borrowed lt) bc.active_borrows refl,
  borrow_checker_unborrow,
  release_region,
)

-- `after` is `bc` again, but for the line of last use of `x`, the variable `v`.
abbrev pub Restores : BorrowChecker → ℕ → Variable → BorrowChecker → Type 0
Restores bc v x after =
    (after.active_borrows ≡ bc.active_borrows)
    × ((j : ℕ)
        → get_elem? after.variables j
          ≡ (if v == j then some (touched bc x) else get_elem? bc.variables j))

twice-Restores :
    (bc : BorrowChecker) (v : ℕ) (x : Variable) (f g : OwnershipInfo → OwnershipInfo)
    → get_elem? bc.variables v ≡ some x
    → g (f x.ownership) ≡ record x.ownership { last_use_line = bc.current_line }
    → Restores bc v x (record bc { variables = update_info g v (update_info f v bc.variables) })
twice-Restores bc v x f g e q =
    let twice = update_info g v (update_info f v bc.variables) in
    let own : get_elem? twice v ≡ some (touched bc x) =
      get_elem?-update_info_self g v _ _ (get_elem?-update_info_self f v bc.variables x e)
      ∙ ap (λ o. some (record x { ownership = o })) q in
    (
      refl,
      λ j. elim (Bool-cases (v == j)) [
        | inl h ↦ rw h (ap (get_elem? twice) (sym (==→eq v j h)) ∙ own)
        | inr h ↦
            let ne : v ≢ j = ground arith in
            rw h (
              get_elem?-update_info_ne g v j (update_info f v bc.variables) ne
              ∙ get_elem?-update_info_ne f v j bc.variables ne)
      ],
    )

-- A granted shared borrow that is given back leaves the list of active borrows, every other
-- variable, and this variable but for its line of last use as they were.
pub unborrow-borrow :
    (n : ℕ) (bc : BorrowChecker) (v : ℕ) (lt : LifetimeId) (x : Variable)
    → InvOf n bc
    → n + 1 < u32_mod
    → get_ownership bc v ≡ some x
    → (borrow_checker_borrow bc v lt).1 ≡ none_err
    → Restores bc v x (borrow_checker_unborrow (borrow_checker_borrow bc v lt).0 v)
unfolding get_ownership
unborrow-borrow n bc v lt x i h e g =
    let found = borrow_checker_borrow_found bc v lt x e in
    let after =
      ap (λ r. r.0) found ∙ borrow_var_granted bc v lt x (ap (λ r. r.1) (sym found) ∙ g) in
    let small : x.ownership.borrow_count + 1 < u32_mod =
      omega (arith, (i.tracked v x e).count, shared_borrows-le v bc.active_borrows, i.few) in
    rw (after, unborrow-after_borrow bc v lt x e)
      (twice-Restores bc v x (count_borrow bc.current_line) (release_borrow borrowed) e
        (counted_down bc x small))
