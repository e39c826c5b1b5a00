-- ===== src/Ownership/Tests.antt =====
-- Tests of the borrow checker and of slices, and their theorems at concrete data.
use asteron.Prelude.{String, ℕ, ◌≡◌, ◌↔◌, refl, true, false, some, List, [], ◌∷◌, arith}
use mathlib.Core.Option
use asteron.Ownership.Types.{
  lifetime_static, OwnershipState, owned, dropped, mem_heap, copy_none, MemoryLayout, BorrowChecker,
  Variable, none_err, use_after_move, mut_borrow_while_borrow,
}
use asteron.Ownership.Table.{
  borrow_checker_create, borrow_checker_add_var, get_ownership, update_info, grown, owned_info,
}
use asteron.Ownership.Checker.{
  borrow_checker_borrow, borrow_checker_borrow_mut, borrow_checker_move, borrow_checker_drop,
  borrow_checker_unborrow, borrow_checker_verify, borrow_var, borrow_mut_var, move_var, drop_var,
  new_region,
}
use asteron.Ownership.Checker.Invariant.{shared_borrows, mut_borrows, IsTracked, InvOf}
use asteron.Ownership.Checker.History.{
  Call, add_var, borrow, drop, step, run, run-Inv, run-IsTracked,
}
use asteron.Ownership.Checker.Preserve.{create-Inv}
use asteron.Ownership.Checker.Protocol.{borrow_granted_iff, unborrow-borrow, Restores}
use asteron.Ownership.Checker.Moves.{move_granted, move_dropped}
use asteron.Ownership.Views.{Slice, slice_get, slice_sub, element, slice_get-slice_sub}

abbrev word : MemoryLayout
word = record {
  size = 8;
  alignment = 8;
  location = mem_heap;
  copy_type = copy_none;
  is_zero_sized = false;
  needs_drop = true;
}

-- Two variables, the first with a shared borrow.
abbrev calls : List Call
calls = add_var "a" word ∷ add_var "b" word ∷ borrow 0 7 ∷ []

-- What a checker run on `calls` computes.
after_calls : BorrowChecker
unfolding run step borrow_checker_create borrow_checker_add_var borrow_checker_borrow borrow_var
    get_ownership update_info new_region grown owned_info
after_calls = run borrow_checker_create calls

mut_borrow_refused : (borrow_checker_borrow_mut after_calls 0 8).1 ≡ mut_borrow_while_borrow
unfolding after_calls borrow_checker_borrow_mut borrow_mut_var
mut_borrow_refused = refl

-- A variable with `n` shared borrows.
abbrev var_with : String → ℕ → OwnershipState → ℕ → Variable
var_with name id state n = record {
  name = name;
  id = id;
  ownership = record {
    state = state;
    lifetime = lifetime_static;
    borrow_count = n;
    is_mut_borrowed = false;
    owner_id = id;
    moved_to = 0;
    def_line = 1;
    last_use_line = 1;
  };
  layout = word;
}

run-IsTracked_example :
    IsTracked
      (shared_borrows 0 (run borrow_checker_create calls).active_borrows)
      (mut_borrows 0 (run borrow_checker_create calls).active_borrows)
      (var_with "a" 0 owned 1).ownership
unfolding after_calls
run-IsTracked_example = run-IsTracked calls 0 (var_with "a" 0 owned 1) (omega arith) refl

after_calls-Inv : InvOf 3 after_calls
unfolding after_calls
after_calls-Inv = run-Inv 0 borrow_checker_create calls create-Inv (omega arith)

borrow_granted_example :
    (((borrow_checker_borrow after_calls 0 9).1 ≡ none_err)
      ↔ ((owned ≡ owned) × (mut_borrows 0 after_calls.active_borrows ≡ 0)))
    × (((borrow_checker_borrow_mut after_calls 0 9).1 ≡ none_err) ↔ (
        (owned ≡ owned)
        × (shared_borrows 0 after_calls.active_borrows ≡ 0)
        × (mut_borrows 0 after_calls.active_borrows ≡ 0)))
unfolding after_calls
borrow_granted_example =
    borrow_granted_iff 3 after_calls after_calls-Inv 0 (var_with "a" 0 owned 1) refl 9

unborrow_example :
    Restores after_calls 0
      (var_with "a" 0 owned 1)
      (borrow_checker_unborrow (borrow_checker_borrow after_calls 0 9).0 0)
unfolding after_calls
unborrow_example =
    unborrow-borrow 3 after_calls 0 9 (var_with "a" 0 owned 1) after_calls-Inv (omega arith) refl
      refl

-- Of the two variables, the one without a borrow is moved to the other one.
move_granted_example :
    (borrow_checker_move (borrow_checker_move after_calls 1 0).0 1 0).1 ≡ use_after_move
unfolding after_calls borrow_checker_move move_var
move_granted_example =
    (move_granted after_calls 1 0 (var_with "b" 1 owned 0) (var_with "a" 0 owned 1) (omega arith)
      refl refl 9 0 (var_with "a" 0 owned 1) refl refl).4

-- Two variables, the first dropped.
abbrev dropped_calls : List Call
dropped_calls = add_var "a" word ∷ add_var "b" word ∷ drop 0 ∷ []

after_drop : BorrowChecker
unfolding after_calls borrow_checker_drop drop_var
after_drop = run borrow_checker_create dropped_calls

move_dropped_example :
    let after = (borrow_checker_move after_drop 0 1).0 in
    ((borrow_checker_move after_drop 0 1).1 ≡ none_err)
    × (after.errors ≡ after_drop.errors)
    × (Option.map (λ v. v.ownership.state) (get_ownership after 1) ≡ some owned)
    × ((borrow_checker_drop after 1).1 ≡ none_err)
    × ((borrow_checker_drop after 1).0.errors ≡ after_drop.errors)
    × (Option.map (λ v. v.ownership.state) (get_ownership (borrow_checker_drop after 1).0 1)
        ≡ some dropped)
    × (borrow_checker_verify (borrow_checker_drop after 1).0 ≡ borrow_checker_verify after_drop)
unfolding after_drop
move_dropped_example =
    move_dropped after_drop 0 1 (var_with "a" 0 dropped 0) (var_with "b" 1 owned 0) (omega arith)
      refl refl refl refl refl

-- Four elements of 8 bytes.
abbrev array : Slice
array = record { ptr = some 4096; len = 4; elem_size = 8 }

slice_example : slice_get (slice_sub array 1 9) 2 ≡ some 4120
unfolding slice_get element
slice_example = slice_get-slice_sub array 1 9 2 (omega arith)
