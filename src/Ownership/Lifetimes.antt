-- ===== src/Ownership/Lifetimes.antt =====
-- src/core/memory/ownership.c: scopes and lifetimes.
use asteron.Prelude.{
  ◌+◌, ◌-◌, ◌%◌, String, Bool, true, false, Option, none, some, List, [], ◌∷◌, ◌++◌, ltb, leb, ◌==◌,
  if◌then◌else◌, length, u32_mod,
}
use asteron.Ownership.Types.{
  LifetimeId, lifetime_static, lifetime_temporary, Lifetime, BorrowChecker,
}
use asteron.Ownership.Table.{grown}

unfoldable pub borrow_checker_enter_scope : BorrowChecker → BorrowChecker
borrow_checker_enter_scope bc = record bc { current_scope = (bc.current_scope + 1) % u32_mod }

unfoldable pub borrow_checker_exit_scope : BorrowChecker → BorrowChecker
borrow_checker_exit_scope bc =
    if ltb 0 bc.current_scope then record bc { current_scope = bc.current_scope - 1 } else bc

unfoldable pub borrow_checker_new_lifetime :
    BorrowChecker → Option String → BorrowChecker × LifetimeId
unfolding grown
borrow_checker_new_lifetime bc name =
    let id = bc.next_lifetime_id in
    let lifetime : Lifetime = record {
      id = id;
      name = name;
      scope_depth = bc.current_scope;
      start_line = bc.current_line;
      end_line = 0;
    } in
    (
      record bc {
        lifetimes = bc.lifetimes ++ lifetime ∷ [];
        lifetime_capacity = grown (length bc.lifetimes) bc.lifetime_capacity;
        next_lifetime_id = (id + 1) % u32_mod;
      },
      id,
    )

-- The loop over the table keeps the last match.
pub find_lifetime : LifetimeId → List Lifetime → Option Lifetime → Option Lifetime
find_lifetime id [] found = found
find_lifetime id (l ∷ ls) found = find_lifetime id ls (if l.id == id then some l else found)

abbrev within_scope : Option Lifetime → Option Lifetime → Bool
within_scope none outer = false
within_scope (some inner) none = false
within_scope (some inner) (some outer) = leb outer.scope_depth inner.scope_depth

unfoldable pub borrow_checker_lifetime_valid : BorrowChecker → LifetimeId → LifetimeId → Bool
unfolding find_lifetime
borrow_checker_lifetime_valid bc inner outer =
    if outer == lifetime_static
    then true
    else if inner == lifetime_static
    then true
    else if inner == lifetime_temporary
    then false
    else if outer == lifetime_temporary
    then true
    else within_scope (find_lifetime inner bc.lifetimes none)
        (find_lifetime outer bc.lifetimes none)
