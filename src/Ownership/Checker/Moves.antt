-- ===== src/Ownership/Checker/Moves.antt =====
-- What a granted move changes, and a dropped value that is moved.
use asteron.Prelude.{ℕ, ◌≡◌, ◌≢◌, refl, sym, ap, ◌∙◌, false, some, arith, inl, inr, eq_cases}
use mathlib.Core.Option
use asteron.Ownership.Types.{
  owned, dropped, BorrowChecker, Variable, LifetimeId, none_err, use_after_move,
}
use asteron.Ownership.Table.{get_ownership, update_info}
use asteron.Ownership.Checker.{
  borrow_var, borrow_mut_var, move_var, drop_var, borrow_checker_borrow, borrow_checker_borrow_mut,
  borrow_checker_move, borrow_checker_drop, borrow_checker_verify, drop_info, is_moved, is_borrowed,
  move_from, move_into,
}
use asteron.Ownership.Checker.Invariant.{get_elem?-update_info_self, get_elem?-update_info_ne}

abbrev after_move : BorrowChecker → ℕ → ℕ → Variable → BorrowChecker
after_move bc a b x = record bc {
  variables =
      update_info (move_into x.ownership.owner_id bc.current_line) b
        (update_info (move_from b bc.current_line) a bc.variables);
}

move_var_granted :
    (bc : BorrowChecker) (a b : ℕ) (x : Variable)
    → is_borrowed x.ownership ≡ false
    → is_moved x.ownership.state ≡ false
    → move_var bc a b x ≡ (after_move bc a b x, none_err)
unfolding move_var
move_var_granted bc a b x h k = rw (h, k)

move_var_refused :
    (bc : BorrowChecker) (a b : ℕ) (x : Variable)
    → (move_var bc a b x).1 ≡ none_err
    → (is_borrowed x.ownership ≡ false) × (is_moved x.ownership.state ≡ false)
unfolding move_var
move_var_refused bc a b x h = ground arith

module _ (bc : BorrowChecker) (a b : ℕ) (x y : Variable) (ne : a ≢ b)
    (at_a : get_ownership bc a ≡ some x) (at_b : get_ownership bc b ≡ some y) where
  move_found : borrow_checker_move bc a b ≡ move_var bc a b x
  unfolding borrow_checker_move
  move_found = rw (at_a, at_b, borrow_checker_move)

  moved_from :
      get_ownership (after_move bc a b x) a
      ≡ some (record x { ownership = move_from b bc.current_line x.ownership })
  unfolding get_ownership
  moved_from =
      get_elem?-update_info_ne _ b a _ (λ e. ne (sym e))
      ∙ get_elem?-update_info_self (move_from b bc.current_line) a bc.variables x at_a

  moved_into :
      get_ownership (after_move bc a b x) b
      ≡ some (record y { ownership = move_into x.ownership.owner_id bc.current_line y.ownership })
  unfolding get_ownership
  moved_into =
      get_elem?-update_info_self _ b _ y (get_elem?-update_info_ne _ a b bc.variables ne ∙ at_b)

  moved_other : (c : ℕ) → a ≢ c → b ≢ c → get_ownership (after_move bc a b x) c ≡ get_ownership bc c
  unfolding get_ownership
  moved_other c ne_a ne_b =
      get_elem?-update_info_ne _ b c _ ne_b
      ∙ get_elem?-update_info_ne (move_from b bc.current_line) a c bc.variables ne_a

  -- No move takes a variable away.
  still_there :
      (c : ℕ) (z : Variable)
      → get_ownership bc c ≡ some z
      → (z' : Variable) × (get_ownership (after_move bc a b x) c ≡ some z')
  still_there c z at_c = elim (eq_cases a c) [
    | inl e ↦ (_, ap (get_ownership (after_move bc a b x)) (sym e) ∙ moved_from)
    | inr apart_a ↦ elim (eq_cases b c) [
      | inl e ↦ (_, ap (get_ownership (after_move bc a b x)) (sym e) ∙ moved_into)
      | inr apart_b ↦ (z, moved_other c (ground arith) (ground arith) ∙ at_c)
    ]
  ]

  -- Right after a granted move of `a` to another variable `b`: `b` is owned under the owner of `a`, is
  -- defined on the current line, and is otherwise as before; a third variable is as before; a borrow of
  -- `a`, and a move of `a` to any variable there is, are refused as a use after a move; a drop of `a` is
  -- granted and changes nothing.
  pub move_granted :
      (lt : LifetimeId) (c : ℕ) (z : Variable)
      → (borrow_checker_move bc a b).1 ≡ none_err
      → get_ownership bc c ≡ some z
      → let after = (borrow_checker_move bc a b).0 in
        (get_ownership after b
          ≡ some (record y {
            ownership = record y.ownership {
              state = owned;
              owner_id = x.ownership.owner_id;
              def_line = bc.current_line;
            };
          }))
        × (a ≢ c → b ≢ c → get_ownership after c ≡ some z)
        × ((borrow_checker_borrow after a lt).1 ≡ use_after_move)
        × ((borrow_checker_borrow_mut after a lt).1 ≡ use_after_move)
        × ((borrow_checker_move after a c).1 ≡ use_after_move)
        × (borrow_checker_drop after a ≡ (after, none_err))
  unfolding borrow_checker_borrow borrow_checker_borrow_mut borrow_checker_drop borrow_checker_move
      borrow_var borrow_mut_var drop_var move_var
  move_granted lt c z g at_c =
      let free = move_var_refused bc a b x (ap (λ r. r.1) (sym move_found) ∙ g) in
      let after = ap (λ r. r.0) (move_found ∙ move_var_granted bc a b x free.0 free.1) in
      let (z', there) = still_there c z at_c in
      rw after (
        moved_into,
        λ ne_a ne_b. moved_other c ne_a ne_b ∙ at_c,
        rw (moved_from, borrow_checker_borrow),
        rw (moved_from, borrow_checker_borrow_mut),
        rw (moved_from, there, free.0, borrow_checker_move),
        rw (moved_from, free.0, borrow_checker_drop),
      )

  -- The state after the moved value is dropped under its new name.
  abbrev after_drop : BorrowChecker
  after_drop =
      let after = after_move bc a b x in
      record after { variables = update_info (drop_info bc.current_line) b after.variables }

  drop_moved :
      is_borrowed y.ownership ≡ false
      → borrow_checker_drop (after_move bc a b x) b ≡ (after_drop, none_err)
  unfolding borrow_checker_drop drop_var
  drop_moved free_y = rw (moved_into, free_y, borrow_checker_drop) refl

  dropped_into : Option.map (λ v. v.ownership.state) (get_ownership after_drop b) ≡ some dropped
  unfolding get_ownership
  dropped_into = ap (Option.map (λ v. v.ownership.state)) (
      get_elem?-update_info_self (drop_info bc.current_line) b (after_move bc a b x).variables _
        moved_into)

  -- A dropped variable that is not borrowed can be moved to another one that is not borrowed: the call
  -- is granted and records no error, and the other variable counts as owned; a drop of it is granted and
  -- records no error either. So one value is dropped twice and the verdict of the checker stands.
  pub move_dropped :
      x.ownership.state ≡ dropped
      → is_borrowed x.ownership ≡ false
      → is_borrowed y.ownership ≡ false
      → let after = (borrow_checker_move bc a b).0 in
        ((borrow_checker_move bc a b).1 ≡ none_err)
        × (after.errors ≡ bc.errors)
        × (Option.map (λ v. v.ownership.state) (get_ownership after b) ≡ some owned)
        × ((borrow_checker_drop after b).1 ≡ none_err)
        × ((borrow_checker_drop after b).0.errors ≡ bc.errors)
        × (Option.map (λ v. v.ownership.state) (get_ownership (borrow_checker_drop after b).0 b)
            ≡ some dropped)
        × (borrow_checker_verify (borrow_checker_drop after b).0 ≡ borrow_checker_verify bc)
  unfolding borrow_checker_verify
  move_dropped gone free_x free_y =
      rw (move_found ∙ move_var_granted bc a b x free_x (ap is_moved gone), drop_moved free_y)
        (
          refl,
          refl,
          ap (Option.map (λ v. v.ownership.state)) moved_into,
          refl,
          refl,
          dropped_into,
          refl,
        )
