-- ===== src/Region/Types.antt =====
-- src/core/memory/region_memory.h: the data of the regions.
use asteron.Prelude.{ℕ, Option, List}
use asteron.Ownership.Types.{LifetimeId}

pub data RegionType : Type 0 where
  region_task region_request region_loop region_function region_temporary : RegionType

pub data RegionState : Type 0 where
  region_active region_frozen region_destroyed : RegionState

-- A tracked `Value`: no object, a string object with the address of its bytes, or another object. The
-- counts of references, which no region reads, are left out.
pub data TrackedValue : Type 0 where
  no_object : TrackedValue
  string_object : ℕ → Option ℕ → TrackedValue
  other_object : ℕ → TrackedValue

-- The struct `MemoryRegion`; its `type` is `kind`. The links, the dependencies
-- and the callback, which no code sets, are left out.
pub record MemoryRegion : Type 0 where
  pub id : ℕ
  pub kind : RegionType
  pub name : Option (List ℕ)
  pub state : RegionState
  pub lifetime : LifetimeId
  pub memory : ℕ
  pub size : ℕ
  pub capacity : ℕ
  pub alignment : ℕ
  pub tracked_values : List TrackedValue
  pub owned_vars : List ℕ
  pub allocations : ℕ
  pub peak_size : ℕ
  pub created_at : ℕ

-- The list of the regions begins at its head; a pointer to a region is its number.
pub record RegionManager : Type 0 where
  pub regions : List MemoryRegion
  pub current_region : Option ℕ
  pub next_region_id : ℕ
  pub total_regions : ℕ
  pub active_regions : ℕ
  pub total_allocated : ℕ
