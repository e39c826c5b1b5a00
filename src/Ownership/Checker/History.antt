-- ===== src/Ownership/Checker/History.antt =====
-- Sequences of calls to the borrow checker, from its creation on.
use asteron.Prelude.{ℕ, ◌+◌, ◌<◌, ◌≡◌, Option, some, List, [], ◌∷◌, arith, length, u32_mod, String}
use asteron.Ownership.Types.{BorrowChecker, MemoryLayout, LifetimeId, Variable}
use asteron.Ownership.Table.{borrow_checker_create, borrow_checker_add_var, get_ownership}
use asteron.Ownership.Lifetimes.{
  borrow_checker_enter_scope, borrow_checker_exit_scope, borrow_checker_new_lifetime,
}
use asteron.Ownership.Checker.{
  borrow_checker_borrow, borrow_checker_borrow_mut, borrow_checker_move, borrow_checker_drop,
  borrow_checker_unborrow,
}
use asteron.Ownership.Checker.Invariant.{shared_borrows, mut_borrows, IsTracked, InvOf, Inv-mono}
use asteron.Ownership.Checker.Preserve.{
  create-Inv, add_var-Inv, borrow-Inv, borrow_mut-Inv, move-Inv, drop-Inv, unborrow-Inv,
  enter_scope-Inv, exit_scope-Inv, new_lifetime-Inv,
}

pub data Call : Type 0 where
  add_var : String → MemoryLayout → Call
  borrow borrow_mut : ℕ → LifetimeId → Call
  move : ℕ → ℕ → Call
  drop unborrow : ℕ → Call
  enter_scope exit_scope : Call
  new_lifetime : Option String → Call

unfoldable pub step : BorrowChecker → Call → BorrowChecker
step bc (add_var name layout) = (borrow_checker_add_var bc name layout).0
step bc (borrow v lifetime) = (borrow_checker_borrow bc v lifetime).0
step bc (borrow_mut v lifetime) = (borrow_checker_borrow_mut bc v lifetime).0
step bc (move a b) = (borrow_checker_move bc a b).0
step bc (drop v) = (borrow_checker_drop bc v).0
step bc (unborrow v) = borrow_checker_unborrow bc v
step bc enter_scope = borrow_checker_enter_scope bc
step bc exit_scope = borrow_checker_exit_scope bc
step bc (new_lifetime name) = (borrow_checker_new_lifetime bc name).0

unfoldable pub run : BorrowChecker → List Call → BorrowChecker
run bc [] = bc
run bc (c ∷ cs) = run (step bc c) cs

-- One call adds one active borrow at most.
step-Inv :
    (n : ℕ) (bc : BorrowChecker) (c : Call)
    → InvOf n bc
    → n + 1 < u32_mod
    → InvOf (n + 1) (step bc c)
unfolding step
step-Inv n bc (borrow v lifetime) i h = borrow-Inv n bc i v lifetime h
step-Inv n bc (borrow_mut v lifetime) i h = borrow_mut-Inv n bc i v lifetime
step-Inv n bc (add_var name layout) i h =
    Inv-mono n (n + 1) _ _ (omega arith) (add_var-Inv n bc name layout i)
step-Inv n bc (move a b) i h = Inv-mono n (n + 1) _ _ (omega arith) (move-Inv n bc i a b)
step-Inv n bc (drop v) i h = Inv-mono n (n + 1) _ _ (omega arith) (drop-Inv n bc i v)
step-Inv n bc (unborrow v) i h = Inv-mono n (n + 1) _ _ (omega arith) (unborrow-Inv n bc i v)
step-Inv n bc enter_scope i h = Inv-mono n (n + 1) _ _ (omega arith) (enter_scope-Inv n bc i)
step-Inv n bc exit_scope i h = Inv-mono n (n + 1) _ _ (omega arith) (exit_scope-Inv n bc i)
step-Inv n bc (new_lifetime name) i h =
    Inv-mono n (n + 1) _ _ (omega arith) (new_lifetime-Inv n bc i name)

pub run-Inv :
    (n : ℕ) (bc : BorrowChecker) (cs : List Call)
    → InvOf n bc
    → n + length cs < u32_mod
    → InvOf (n + length cs) (run bc cs)
unfolding run
run-Inv n bc [] i h = Inv-mono n _ _ _ (omega arith) i
run-Inv n bc (c ∷ cs) i h =
    let rest = run-Inv (n + 1) (step bc c) cs (step-Inv n bc c i (omega arith)) (omega arith) in
    Inv-mono _ _ _ _ (omega arith) rest

-- After any sequence of fewer than 2^32 calls, each variable's counter and flag agree with the list
-- of active borrows; it has shared borrows or one mutable borrow, never both; and none of either
-- kind once it is moved or dropped.
pub run-IsTracked :
    (cs : List Call) (v : ℕ) (x : Variable)
    → length cs < u32_mod
    → get_ownership (run borrow_checker_create cs) v ≡ some x
    → IsTracked
        (shared_borrows v (run borrow_checker_create cs).active_borrows)
        (mut_borrows v (run borrow_checker_create cs).active_borrows)
        x.ownership
unfolding get_ownership
run-IsTracked cs v x h e =
    (run-Inv 0 borrow_checker_create cs create-Inv (omega arith)).tracked v x e
