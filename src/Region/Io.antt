-- ===== src/Region/Io.antt =====
-- src/core/memory/region_memory.c: a region prepared for input, the data read into it, and the
-- string value made of them.
pub mod Frees
use mathlib.Core.List
use asteron.Prelude.{
  ℕ, ◌+◌, ◌-◌, ◌*◌, ◌/◌, ◌%◌, ◌^◌, ◌<◌, ◌≤◌, false, Option, none, some, List, ◌≡◌, refl, arith,
  u64_mod, ap, ◌∙◌, ltb, if◌then◌else◌,
}
use asteron.Region.Types.{MemoryRegion, RegionManager, region_active, region_temporary}
use asteron.Region.Alloc.{region_alloc_aligned, region_alloc, allocated, is_active}
use asteron.Region.Alloc.Blocks.{rounded, alloc_small}
use asteron.Region.Manager.{region_create, region_prepare_for_io, io_capacity, new_memory_region}
use asteron.Region.Buffers.{
  ZeroCopyBuffer, zerocopy_create_from_region, zerocopy_create_for_read, region_finish_io, finished,
  buffer_of,
}

-- A request at the alignment of 8 that every region begins with.
pub alloc_eight :
    (r : MemoryRegion) (size : ℕ)
    → r.state ≡ region_active
    → r.alignment ≡ 8
    → r.size ≤ 2 ^ 61
    → size ≤ 2 ^ 61
    → region_alloc r size ≡ (
        if ltb r.capacity (rounded r.size 3 + rounded size 3)
        then (r, none)
        else (allocated r (rounded r.size 3) (rounded size 3), some (r.memory + rounded r.size 3)))
unfolding region_alloc
alloc_eight r size active eight used small =
    ap (λ (t : ℕ). region_alloc_aligned r size t) eight
    ∙ alloc_small r size 3 (ap is_active active) used small (omega arith)

io_capacity-bounds :
    (expected : ℕ)
    → expected ≤ 2 ^ 60
    → (rounded expected 3 ≤ io_capacity expected)
      × (4096 ≤ io_capacity expected)
      × (4096 ≤ expected → io_capacity expected ≡ expected + expected / 4)
      × (io_capacity expected ≤ 2 ^ 61)
unfolding io_capacity
io_capacity-bounds expected small = (ground arith, ground arith, λ h. ground arith, ground arith)

-- The client: a region is prepared for `expected` bytes, they are read, and the value is made.
abbrev pub finish_of : ℕ → MemoryRegion × Option ZeroCopyBuffer → Option ℕ
finish_of object_bytes (r, none) = none
finish_of object_bytes (r, some b) = (region_finish_io object_bytes r b).0.1

abbrev pub read_of : ℕ → ℕ → RegionManager × Option MemoryRegion → Option ℕ
read_of object_bytes expected (m, none) = none
read_of object_bytes expected (m, some r) =
    finish_of object_bytes (zerocopy_create_for_read r expected)

module _ (m : RegionManager) (expected : ℕ) (name : Option (List ℕ)) (memory now : ℕ)
    (small : expected ≤ 2 ^ 60) where
  abbrev pub prepared : MemoryRegion
  prepared =
      new_memory_region m.next_region_id region_temporary (io_capacity expected) name memory now

  abbrev pub filled : MemoryRegion
  filled = allocated prepared 0 (rounded expected 3)

  read_granted :
      zerocopy_create_for_read prepared expected
      ≡ (filled, some (zerocopy_create_from_region filled memory expected))
  unfolding zerocopy_create_for_read
  read_granted =
      let bounds = io_capacity-bounds expected small in
      let room : ltb (io_capacity expected) (0 + rounded expected 3) ≡ false = ground arith in
      let exact = alloc_eight prepared expected refl refl (omega arith) (omega arith) in
      let start : memory + 0 ≡ memory = omega arith in
      ap (buffer_of expected) exact ∙ rw (room, start) refl

  module _ (object_bytes : ℕ) (object_small : object_bytes ≤ 2 ^ 59) where
    abbrev pub both : ℕ
    both = rounded expected 3 + rounded (object_bytes + expected + 1) 3

    second_request : region_alloc filled ((object_bytes + expected + 1) % u64_mod) ≡ (
        if ltb (io_capacity expected) both then (filled, none) else (
          allocated filled (rounded expected 3) (rounded (object_bytes + expected + 1) 3),
          some (memory + rounded expected 3),
        ))
    unfolding allocated
    second_request =
        let bounds = io_capacity-bounds expected small in
        let asked : (object_bytes + expected + 1) % u64_mod ≡ object_bytes + expected + 1 =
          omega arith in
        let used : (0 + rounded expected 3) % u64_mod ≡ rounded expected 3 = omega arith in
        let place : rounded ((0 + rounded expected 3) % u64_mod) 3 ≡ rounded expected 3 =
          omega arith in
        let bytes = rounded (object_bytes + expected + 1) 3 in
        ap (region_alloc filled) asked
        ∙ alloc_eight filled (object_bytes + expected + 1) refl refl (omega (arith, used))
            (omega arith)
        ∙ ap
            (λ (t : ℕ).
              if ltb (io_capacity expected) (t + bytes)
              then (filled, none)
              else (allocated filled t bytes, some (memory + t)))
            place

    transferred :
        read_of object_bytes expected (region_prepare_for_io m expected name (some memory) now)
        ≡ (if ltb (io_capacity expected) both then none else some (memory + rounded expected 3))
    unfolding region_prepare_for_io region_create region_finish_io zerocopy_create_from_region
    transferred =
        ap (finish_of object_bytes) read_granted
        ∙ ap (λ (p : MemoryRegion × Option ℕ). (finished object_bytes p).1) second_request
        ∙ ground arith

no_room : (c b : ℕ) (x : Option ℕ) → c < b → (if ltb c b then none else x) ≡ none
no_room c b x h = ground arith

room : (c b : ℕ) (x : Option ℕ) → b ≤ c → (if ltb c b then none else x) ≡ x
room c b x h = ground arith

too_much :
    (expected object_bytes : ℕ)
    → 4096 ≤ expected
    → io_capacity expected ≡ expected + expected / 4
    → io_capacity expected < rounded expected 3 + rounded (object_bytes + expected + 1) 3
too_much expected object_bytes h e = omega arith

enough :
    (expected object_bytes capacity : ℕ)
    → 2 * expected + object_bytes + 16 ≤ 4096
    → 4096 ≤ capacity
    → rounded expected 3 + rounded (object_bytes + expected + 1) 3 ≤ capacity
enough expected object_bytes capacity h e = omega arith

-- The region that is prepared for `expected` bytes, 2^60 at most, always has room for one read of
-- that many, at its start. The string value made of them takes a second block, for its object and
-- the same bytes again: from 4096 expected bytes on there is no room for it, and the result of the
-- exchange is the nil value.
pub prepare_for_io-finish_large :
    (m : RegionManager) (expected : ℕ) (name : Option (List ℕ)) (memory now object_bytes : ℕ)
    → 4096 ≤ expected
    → (small : expected ≤ 2 ^ 60) → object_bytes ≤ 2 ^ 59
    → ((zerocopy_create_for_read (prepared m expected name memory now small) expected).1
        ≡ some
            (zerocopy_create_from_region (filled m expected name memory now small) memory expected))
      × (read_of object_bytes expected (region_prepare_for_io m expected name (some memory) now)
          ≡ none)
prepare_for_io-finish_large m expected name memory now object_bytes large small object_small =
    let bounds = io_capacity-bounds expected small in
    let whole = transferred m expected name memory now small object_bytes object_small in
    (
      ap (λ (p : MemoryRegion × Option ZeroCopyBuffer). p.1)
          (read_granted m expected name memory now small),
      whole ∙ no_room _ _ _ (too_much expected object_bytes large (bounds.2 large)),
    )

-- If twice the expected bytes, the object of the string and 16 bytes fit the 4096 of the least
-- region, the exchange gives the string value, at the first multiple of 8 behind the bytes read.
pub prepare_for_io-finish_small :
    (m : RegionManager) (expected : ℕ) (name : Option (List ℕ)) (memory now object_bytes : ℕ)
    → 2 * expected + object_bytes + 16 ≤ 4096
    → read_of object_bytes expected (region_prepare_for_io m expected name (some memory) now)
      ≡ some (memory + rounded expected 3)
prepare_for_io-finish_small m expected name memory now object_bytes h =
    let small : expected ≤ 2 ^ 60 = omega arith in
    let bounds = io_capacity-bounds expected small in
    transferred m expected name memory now small object_bytes (omega arith)
    ∙ room _ _ _ (enough expected object_bytes _ h bounds.1)
