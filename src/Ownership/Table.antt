-- ===== src/Ownership/Table.antt =====
-- src/core/memory/ownership.c: the tables of the borrow checker, and the variables in them.
use asteron.Prelude.{
  ℕ, zero, suc, ◌*◌, ◌%◌, String, false, Option, List, [], ◌∷◌, ◌++◌, leb, if◌then◌else◌, length,
  get_elem?, u32_mod,
}
use asteron.Ownership.Types.{
  owned, lifetime_static, OwnershipInfo, MemoryLayout, Variable, OwnershipError, BorrowChecker,
}

unfoldable pub borrow_checker_create : BorrowChecker
borrow_checker_create = record {
  variables = [];
  var_capacity = 64;
  lifetimes = [];
  lifetime_capacity = 32;
  next_lifetime_id = 1;
  active_borrows = [];
  current_scope = 0;
  current_line = 1;
  errors = [];
  error_capacity = 16;
}

-- `if (count >= capacity) capacity *= 2;`
unfoldable pub grown : ℕ → ℕ → ℕ
grown count capacity = if leb capacity count then capacity * 2 else capacity

unfoldable pub add_error : BorrowChecker → OwnershipError → String → BorrowChecker
unfolding grown
add_error bc err ctx = record bc {
  errors = bc.errors ++ record { line = bc.current_line; err = err; ctx = ctx } ∷ [];
  error_capacity = grown (length bc.errors) bc.error_capacity;
}

-- The initial ownership of a variable.
unfoldable pub owned_info : ℕ → ℕ → OwnershipInfo
owned_info id line = record {
  state = owned;
  lifetime = lifetime_static;
  borrow_count = 0;
  is_mut_borrowed = false;
  owner_id = id;
  moved_to = 0;
  def_line = line;
  last_use_line = line;
}

unfoldable pub borrow_checker_add_var : BorrowChecker → String → MemoryLayout → BorrowChecker × ℕ
unfolding grown owned_info
borrow_checker_add_var bc name layout =
    let id = length bc.variables % u32_mod in
    let var : Variable = record {
      name = name;
      id = id;
      ownership = owned_info id bc.current_line;
      layout = layout;
    } in
    (
      record bc {
        variables = bc.variables ++ var ∷ [];
        var_capacity = grown (length bc.variables) bc.var_capacity;
      },
      id,
    )

-- `get_ownership`, with the variable that it belongs to; `none` is the null pointer.
unfoldable pub get_ownership : BorrowChecker → ℕ → Option Variable
get_ownership bc var_id = get_elem? bc.variables var_id

-- A write through the pointer of `get_ownership`.
unfoldable pub update_info : (OwnershipInfo → OwnershipInfo) → ℕ → List Variable → List Variable
update_info f i [] = []
update_info f zero (x ∷ xs) = record x { ownership = f x.ownership } ∷ xs
update_info f (suc i) (x ∷ xs) = x ∷ update_info f i xs
