-- ===== src/Region/Alloc.antt =====
-- src/core/memory/region_memory.c: allocation in a region, and the states of a region.
pub mod Rounding
pub mod Blocks
pub mod Limits
use Prim.Native.Nat.{bit_and}
use asteron.Prelude.{
  ℕ, ◌+◌, ◌-◌, ◌%◌, Bool, true, false, Option, none, some, [], ◌∷◌, ◌++◌, not, ltb, if◌then◌else◌,
  u64_mod,
}
use asteron.Region.Types.{RegionState, region_active, region_frozen, MemoryRegion}

-- `(size + alignment - 1) & ~(alignment - 1)` on `size_t`.
unfoldable pub align_size : ℕ → ℕ → ℕ
align_size size alignment =
    bit_and ((size + alignment + u64_mod - 1) % u64_mod)
      (u64_mod - 1 - (alignment + u64_mod - 1) % u64_mod)

abbrev pub is_active : RegionState → Bool
is_active region_active = true
is_active _ = false

abbrev pub is_frozen : RegionState → Bool
is_frozen region_frozen = true
is_frozen _ = false

-- The writes of a granted allocation, at the offset `offset`.
unfoldable pub allocated : MemoryRegion → ℕ → ℕ → MemoryRegion
allocated r offset aligned =
    let used = (offset + aligned) % u64_mod in
    record r {
      size = used;
      allocations = (r.allocations + 1) % u64_mod;
      peak_size = if ltb r.peak_size used then used else r.peak_size;
    }

-- The new region, and the address of the block; `none` is the null pointer.
unfoldable pub region_alloc_aligned : MemoryRegion → ℕ → ℕ → MemoryRegion × Option ℕ
region_alloc_aligned r size alignment =
    if not (is_active r.state)
    then (r, none)
    else (let aligned_size = align_size size alignment in
        let aligned_offset = align_size r.size alignment in
        if ltb r.capacity ((aligned_offset + aligned_size) % u64_mod)
        then (r, none)
        else (allocated r aligned_offset aligned_size, some (r.memory + aligned_offset)))

unfoldable pub region_alloc : MemoryRegion → ℕ → MemoryRegion × Option ℕ
region_alloc r size = region_alloc_aligned r size r.alignment

unfoldable pub region_move_var : MemoryRegion → ℕ → MemoryRegion
region_move_var r var_id = record r { owned_vars = r.owned_vars ++ var_id ∷ [] }

unfoldable pub region_freeze : MemoryRegion → MemoryRegion
region_freeze r = record r { state = region_frozen }

unfoldable pub region_unfreeze : MemoryRegion → MemoryRegion
region_unfreeze r = if is_frozen r.state then record r { state = region_active } else r

-- Used bytes, their peak, and the number of allocations.
unfoldable pub region_get_stats : MemoryRegion → ℕ × ℕ × ℕ
region_get_stats r = (r.size, r.peak_size, r.allocations)
