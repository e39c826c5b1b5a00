-- ===== src/Region/Alloc/Limits.antt =====
-- src/core/memory/region_memory.c: what an allocation at the limits of a region does.
use asteron.Prelude.{
  ℕ, ◌+◌, ◌-◌, ◌*◌, ◌%◌, ◌^◌, ◌≤◌, ◌<◌, ◌≡◌, refl, ◌∙◌, arith, false, some, ltb, u64_mod,
  bit_and-high,
}
use asteron.Region.Types.{MemoryRegion, region_active}
use asteron.Region.Alloc.{align_size, allocated, region_alloc_aligned, region_alloc}
use asteron.Region.Alloc.Rounding.{align_size-round}

-- Of a size within 8 bytes of 2^64, `align_size` makes zero.
align_size-wrap : (size : ℕ) → u64_mod - 8 < size → size < u64_mod → align_size size 8 ≡ 0
unfolding align_size
align_size-wrap size h l =
    let low : (size + 8 + u64_mod - 1) % u64_mod ≡ size + 7 - u64_mod = omega arith in
    let mask : u64_mod - 1 - (8 + u64_mod - 1) % u64_mod ≡ (2 ^ 61 - 1) * 2 ^ 3 = refl in
    rw low (rw mask (bit_and-high 61 3 (size + 7 - u64_mod) (omega arith) ∙ omega arith))

-- A request within 8 bytes of 2^64 of an active region that is used up to a multiple of 8 is
-- granted at an alignment of 8, whatever the capacity: the code returns the address of the next
-- byte and reserves nothing.
pub region_alloc-wraps :
    (r : MemoryRegion) (size : ℕ)
    → r.state ≡ region_active
    → r.alignment ≡ 8
    → r.size % 8 ≡ 0
    → r.size ≤ r.capacity
    → r.size + 8 ≤ u64_mod
    → u64_mod - 8 < size
    → size < u64_mod
    → ((region_alloc r size).0.size ≡ r.size) × ((region_alloc r size).1 ≡ some (r.memory + r.size))
unfolding region_alloc region_alloc_aligned allocated
region_alloc-wraps r size active eight even fits small h l =
    let nothing = align_size-wrap size h l in
    let offset : align_size r.size 8 ≡ r.size =
      align_size-round 3 r.size (omega arith) small ∙ omega arith in
    let sum : (r.size + 0) % u64_mod ≡ r.size = omega arith in
    let room : ltb r.capacity r.size ≡ false = ground arith in
    rw (eight, active, nothing, offset, sum, room) (refl, refl)
