-- ===== src/Ownership/Checker.antt =====
-- src/core/memory/ownership.c: borrows, moves and drops, each from the checker to the
-- new checker and its result.
pub mod Invariant
pub mod Release
pub mod Preserve
pub mod History
pub mod Moves
pub mod Protocol
use mathlib.Core.Option
use asteron.Prelude.{
  ℕ, ◌+◌, ◌-◌, ◌%◌, String, Bool, true, false, Option, none, some, List, [], ◌∷◌, ◌||◌, ltb, ◌==◌,
  if◌then◌else◌, length, u32_mod,
}
use asteron.Ownership.Types.{
  OwnershipState, owned, borrowed, borrowed_mut, moved, dropped, LifetimeId, OwnershipInfo,
  BorrowRegion, Variable, OwnershipError, none_err, use_after_move, double_free, borrow_while_mut,
  mut_borrow_while_borrow, dangling_ref, move_while_borrowed, BorrowChecker,
}
use asteron.Ownership.Table.{add_error, get_ownership, update_info}

abbrev pub is_moved : OwnershipState → Bool
is_moved moved = true
is_moved _ = false

abbrev pub is_dropped : OwnershipState → Bool
is_dropped dropped = true
is_dropped _ = false

abbrev pub fail : BorrowChecker → OwnershipError → String → BorrowChecker × OwnershipError
fail bc err ctx = (add_error bc err ctx, err)

unfoldable pub new_region : BorrowChecker → ℕ → OwnershipState → LifetimeId → BorrowRegion
new_region bc var_id kind lifetime = record {
  var_id = var_id;
  borrow_type = kind;
  lifetime = lifetime;
  start_line = bc.current_line;
  end_line = 0;
}

abbrev pub count_borrow : ℕ → OwnershipInfo → OwnershipInfo
count_borrow line o = record o {
  borrow_count = (o.borrow_count + 1) % u32_mod;
  last_use_line = line;
}

abbrev pub mark_mut : ℕ → OwnershipInfo → OwnershipInfo
mark_mut line o = record o { is_mut_borrowed = true; last_use_line = line }

-- `borrow_checker_borrow`, once the variable is found.
unfoldable pub borrow_var :
    BorrowChecker → ℕ → LifetimeId → Variable → BorrowChecker × OwnershipError
unfolding new_region
borrow_var bc var_id lifetime x =
    if is_moved x.ownership.state
    then fail bc use_after_move x.name
    else if is_dropped x.ownership.state
    then fail bc dangling_ref x.name
    else if x.ownership.is_mut_borrowed
    then fail bc borrow_while_mut x.name
    else (
      record bc {
        variables = update_info (count_borrow bc.current_line) var_id bc.variables;
        active_borrows = new_region bc var_id borrowed lifetime ∷ bc.active_borrows;
      },
      none_err,
    )

unfoldable pub borrow_checker_borrow :
    BorrowChecker → ℕ → LifetimeId → BorrowChecker × OwnershipError
borrow_checker_borrow bc var_id lifetime = elim (get_ownership bc var_id) [
  | none ↦ (bc, dangling_ref)
  | some x ↦ borrow_var bc var_id lifetime x
]

-- `borrow_checker_borrow_mut`, once the variable is found.
unfoldable pub borrow_mut_var :
    BorrowChecker → ℕ → LifetimeId → Variable → BorrowChecker × OwnershipError
unfolding new_region
borrow_mut_var bc var_id lifetime x =
    if is_moved x.ownership.state
    then fail bc use_after_move x.name
    else if is_dropped x.ownership.state
    then fail bc dangling_ref x.name
    else if ltb 0 x.ownership.borrow_count
    then fail bc mut_borrow_while_borrow x.name
    else if x.ownership.is_mut_borrowed
    then fail bc borrow_while_mut x.name
    else (
      record bc {
        variables = update_info (mark_mut bc.current_line) var_id bc.variables;
        active_borrows = new_region bc var_id borrowed_mut lifetime ∷ bc.active_borrows;
      },
      none_err,
    )

unfoldable pub borrow_checker_borrow_mut :
    BorrowChecker → ℕ → LifetimeId → BorrowChecker × OwnershipError
borrow_checker_borrow_mut bc var_id lifetime = elim (get_ownership bc var_id) [
  | none ↦ (bc, dangling_ref)
  | some x ↦ borrow_mut_var bc var_id lifetime x
]

abbrev pub is_borrowed : OwnershipInfo → Bool
is_borrowed o = ltb 0 o.borrow_count || o.is_mut_borrowed

abbrev pub move_from : ℕ → ℕ → OwnershipInfo → OwnershipInfo
move_from to line o = record o { state = moved; moved_to = to; last_use_line = line }

abbrev pub move_into : ℕ → ℕ → OwnershipInfo → OwnershipInfo
move_into owner line o = record o { state = owned; owner_id = owner; def_line = line }

-- `borrow_checker_move`, once both variables are found. The writes to `from` come first; where both
-- are one variable the writes to `to` go on top of them.
unfoldable pub move_var : BorrowChecker → ℕ → ℕ → Variable → BorrowChecker × OwnershipError
move_var bc from_var to_var x =
    if is_borrowed x.ownership
    then fail bc move_while_borrowed x.name
    else if is_moved x.ownership.state
    then fail bc use_after_move x.name
    else (
      record bc {
        variables =
            update_info (move_into x.ownership.owner_id bc.current_line) to_var
              (update_info (move_from to_var bc.current_line) from_var bc.variables);
      },
      none_err,
    )

unfoldable pub borrow_checker_move : BorrowChecker → ℕ → ℕ → BorrowChecker × OwnershipError
borrow_checker_move bc from_var to_var = elim (get_ownership bc from_var) [
  | none ↦ (bc, dangling_ref)
  | some x ↦ elim (get_ownership bc to_var) [
    | none ↦ (bc, dangling_ref)
    | some y ↦ move_var bc from_var to_var x
  ]
]

abbrev pub drop_info : ℕ → OwnershipInfo → OwnershipInfo
drop_info line o = record o { state = dropped; last_use_line = line }

-- `borrow_checker_drop`, once the variable is found.
unfoldable pub drop_var : BorrowChecker → ℕ → Variable → BorrowChecker × OwnershipError
drop_var bc var_id x =
    if is_borrowed x.ownership
    then fail bc move_while_borrowed x.name
    else if is_dropped x.ownership.state
    then fail bc double_free x.name
    else if is_moved x.ownership.state
    then (bc, none_err)
    else (
      record bc { variables = update_info (drop_info bc.current_line) var_id bc.variables },
      none_err,
    )

unfoldable pub borrow_checker_drop : BorrowChecker → ℕ → BorrowChecker × OwnershipError
borrow_checker_drop bc var_id = elim (get_ownership bc var_id) [
  | none ↦ (bc, dangling_ref)
  | some x ↦ drop_var bc var_id x
]

-- The walk over the list of borrows: the first region of the variable, and the list without it.
unfoldable pub take_region : ℕ → List BorrowRegion → Option (BorrowRegion × List BorrowRegion)
take_region v [] = none
take_region v (r ∷ rs) =
    if r.var_id == v then some (r, rs) else Option.map (λ p. (p.0, r ∷ p.1)) (take_region v rs)

abbrev pub is_shared : OwnershipState → Bool
is_shared borrowed = true
is_shared _ = false

abbrev pub release_borrow : OwnershipState → OwnershipInfo → OwnershipInfo
release_borrow kind o =
    if is_shared kind
    then record o { borrow_count = o.borrow_count - 1 }
    else record o { is_mut_borrowed = false }

-- `borrow_checker_unborrow`, once the variable is found. The count is lowered only above zero.
unfoldable pub release_region : BorrowChecker → ℕ → BorrowChecker
release_region bc var_id = elim (take_region var_id bc.active_borrows) [
  | none ↦ bc
  | some (r, rest) ↦ record bc {
    variables = update_info (release_borrow r.borrow_type) var_id bc.variables;
    active_borrows = rest;
  }
]

unfoldable pub borrow_checker_unborrow : BorrowChecker → ℕ → BorrowChecker
borrow_checker_unborrow bc var_id = elim (get_ownership bc var_id) [
  | none ↦ bc
  | some x ↦ release_region bc var_id
]

unfoldable pub borrow_checker_verify : BorrowChecker → Bool
borrow_checker_verify bc = length bc.errors == 0
