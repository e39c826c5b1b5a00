-- ===== src/Ownership/Types.antt =====
-- src/core/memory/ownership.h: the data of the borrow checker.
use asteron.Prelude.{ℕ, String, Bool, Option, List}

pub data OwnershipState : Type 0 where
  owned borrowed borrowed_mut moved dropped : OwnershipState

pub data CopyType : Type 0 where
  copy_none copy_trivial copy_clone : CopyType

pub data MemoryLocation : Type 0 where
  mem_stack mem_heap mem_static mem_register : MemoryLocation

abbrev pub LifetimeId : Type 0
LifetimeId = ℕ

abbrev pub lifetime_static : LifetimeId
lifetime_static = 0xffff_ffff

abbrev pub lifetime_temporary : LifetimeId
lifetime_temporary = 0

pub record Lifetime : Type 0 where
  pub id : LifetimeId
  pub name : Option String
  pub scope_depth : ℕ
  pub start_line : ℕ
  pub end_line : ℕ

pub record OwnershipInfo : Type 0 where
  pub state : OwnershipState
  pub lifetime : LifetimeId
  pub borrow_count : ℕ
  pub is_mut_borrowed : Bool
  pub owner_id : ℕ
  pub moved_to : ℕ
  pub def_line : ℕ
  pub last_use_line : ℕ

pub record MemoryLayout : Type 0 where
  pub size : ℕ
  pub alignment : ℕ
  pub location : MemoryLocation
  pub copy_type : CopyType
  pub is_zero_sized : Bool
  pub needs_drop : Bool

-- The `next` pointers link the regions to a list.
pub record BorrowRegion : Type 0 where
  pub var_id : ℕ
  pub borrow_type : OwnershipState
  pub lifetime : LifetimeId
  pub start_line : ℕ
  pub end_line : ℕ

-- The unnamed struct of a variable.
pub record Variable : Type 0 where
  pub name : String
  pub id : ℕ
  pub ownership : OwnershipInfo
  pub layout : MemoryLayout

pub data OwnershipError : Type 0 where
  none_err use_after_move double_free borrow_while_mut mut_borrow_while_borrow : OwnershipError
  outlives dangling_ref move_while_borrowed modify_while_borrowed : OwnershipError

-- An entry of the error table. Its message is made of these three and is not kept as text.
pub record ErrorEntry : Type 0 where
  pub line : ℕ
  pub err : OwnershipError
  pub ctx : String

-- The counts of the three tables are the lengths of the lists.
pub record BorrowChecker : Type 0 where
  pub variables : List Variable
  pub var_capacity : ℕ
  pub lifetimes : List Lifetime
  pub lifetime_capacity : ℕ
  pub next_lifetime_id : LifetimeId
  pub active_borrows : List BorrowRegion
  pub current_scope : ℕ
  pub current_line : ℕ
  pub errors : List ErrorEntry
  pub error_capacity : ℕ
