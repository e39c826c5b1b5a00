-- ===== src/Region/Alloc/Blocks.antt =====
-- src/core/memory/region_memory.c: the blocks a region hands out, over a run of its operations.
use native.Mathlib.Nat.{one-le-pow, div-add-mod, mod-lt, pow-le-pow_right, mul-mod_left}
use asteron.Prelude.{
  ℕ, ◌+◌, ◌-◌, ◌*◌, ◌/◌, ◌%◌, ◌^◌, ◌≤◌, ◌<◌, ◌≡◌, refl, ap, ◌∙◌, arith, true, Option, none, some,
  List, [], ◌∷◌, All, ◌⊎◌, inl, inr, ltb, if◌then◌else◌, Bool-cases, u64_mod,
}
use asteron.Region.Types.{MemoryRegion}
use asteron.Region.Alloc.{
  is_active, is_frozen, allocated, region_alloc_aligned, region_freeze, region_unfreeze,
}
use asteron.Region.Alloc.Rounding.{align_size-round}

-- The least multiple of `2 ^ k` that is at least `n`.
abbrev pub rounded : ℕ → ℕ → ℕ
rounded n k = (n + 2 ^ k - 1) / 2 ^ k * 2 ^ k

pub rounded-bounds : (n k : ℕ) → n ≤ rounded n k × rounded n k < n + 2 ^ k
rounded-bounds n k =
    let p = 2 ^ k in
    let x = n + p - 1 in
    let positive = one-le-pow k 2 (omega arith) in
    let pieces = div-add-mod x p in
    let small = mod-lt x {m = p} positive in
    let commuted : p * (x / p) ≡ x / p * p = omega arith in (omega arith, omega arith)

-- A request of `size` bytes at an alignment of `2 ^ order`, and the changes of the state.
pub data RegionOp : Type 0 where
  request : ℕ → ℕ → RegionOp
  freeze unfreeze : RegionOp

pub record Block : Type 0 where
  pub address : ℕ
  pub length : ℕ
  pub order : ℕ

-- The region and the blocks it handed out, the latest first.
abbrev pub hand_out : List Block → ℕ → ℕ → MemoryRegion × Option ℕ → MemoryRegion × List Block
hand_out blocks size order (r, none) = (r, blocks)
hand_out blocks size order (r, some address) =
    (r, record { address = address; length = size; order = order } ∷ blocks)

abbrev pub step : MemoryRegion × List Block → RegionOp → MemoryRegion × List Block
step (r, blocks) (request size order) =
    hand_out blocks size order (region_alloc_aligned r size (2 ^ order))
step (r, blocks) freeze = (region_freeze r, blocks)
step (r, blocks) unfreeze = (region_unfreeze r, blocks)

abbrev pub run : MemoryRegion × List Block → List RegionOp → MemoryRegion × List Block
run s [] = s
run s (op ∷ ops) = run (step s op) ops

-- Every block is aligned, ends at `limit` or before, and begins where the blocks before it end.
abbrev pub IsCarved : ℕ → ℕ → List Block → Type 0
IsCarved base limit [] = base ≤ limit
IsCarved base limit (b ∷ blocks) =
    (b.address + b.length ≤ limit)
    × ((b.address - base) % 2 ^ b.order ≡ 0)
    × IsCarved base b.address blocks

abbrev pub IsSmall : RegionOp → Type 0
IsSmall (request size order) = size ≤ 2 ^ 61 × order ≤ 61
IsSmall freeze = Unit
IsSmall unfreeze = Unit

-- A request of less than 2^61 bytes in a region of less than 2^61 bytes is refused, and changes
-- nothing, or takes the next aligned bytes.
power_small : (k : ℕ) → k ≤ 61 → 2 ^ k ≤ 2 ^ 61
power_small k h = pow-le-pow_right (omega arith) h

-- A small request, with what the code tests written out.
pub alloc_small :
    (r : MemoryRegion) (size order : ℕ)
    → is_active r.state ≡ true
    → r.size ≤ 2 ^ 61
    → size ≤ 2 ^ 61
    → order ≤ 61
    → region_alloc_aligned r size (2 ^ order) ≡ (
        if ltb r.capacity (rounded r.size order + rounded size order) then (r, none) else (
          allocated r (rounded r.size order) (rounded size order),
          some (r.memory + rounded r.size order),
        ))
unfolding region_alloc_aligned
alloc_small r size order active used_small request_small order_small =
    let power = power_small order order_small in
    let bytes = align_size-round order size (omega arith) (omega arith) in
    let offset = align_size-round order r.size (omega arith) (omega arith) in
    let b = rounded-bounds size order in
    let o = rounded-bounds r.size order in
    let sum : (rounded r.size order + rounded size order) % u64_mod
        ≡ rounded r.size order + rounded size order =
      omega arith in
    rw (active, bytes, offset, sum) refl

abbrev Outcome : MemoryRegion → ℕ → ℕ → Type 0
Outcome r size order =
    (region_alloc_aligned r size (2 ^ order) ≡ (r, none))
    ⊎ ((aligned : ℕ) × (size ≤ aligned)
        × (rounded r.size order + aligned ≤ r.capacity)
        × (is_active r.state ≡ true)
        × (region_alloc_aligned r size (2 ^ order)
            ≡ (allocated r (rounded r.size order) aligned, some (r.memory + rounded r.size order))))

alloc-Outcome :
    (r : MemoryRegion) (size order : ℕ)
    → r.capacity ≤ 2 ^ 61
    → r.size ≤ r.capacity
    → size ≤ 2 ^ 61
    → order ≤ 61
    → Outcome r size order
unfolding region_alloc_aligned
alloc-Outcome r size order small fits request_small order_small =
    let b = rounded-bounds size order in
    elim (Bool-cases (is_active r.state)) [
      | inr idle ↦ inl (rw idle refl)
      | inl active ↦
          let exact = alloc_small r size order active (omega arith) request_small order_small in
          elim (Bool-cases (ltb r.capacity (rounded r.size order + rounded size order))) [
            | inl full ↦ inl (rw exact (rw full refl))
            | inr room ↦
                inr (rounded size order, b.0, ground arith, active, rw exact (rw room refl))
          ]
    ]

abbrev Good : ℕ → ℕ → MemoryRegion × List Block → Type 0
Good base capacity (r, blocks) =
    (r.memory ≡ base)
    × (r.capacity ≡ capacity)
    × (r.size ≤ capacity)
    × IsCarved base (base + r.size) blocks

IsCarved-mono :
    (base low high : ℕ) (blocks : List Block)
    → low ≤ high
    → IsCarved base low blocks
    → IsCarved base high blocks
IsCarved-mono base low high [] h c = omega arith
IsCarved-mono base low high (b ∷ blocks) h (ends, aligned, rest) = (omega arith, aligned, rest)

-- The next aligned bytes are behind all blocks.
granted-Good :
    (base capacity : ℕ) (r : MemoryRegion) (blocks : List Block) (size order aligned : ℕ)
    → capacity ≤ 2 ^ 61
    → size ≤ aligned
    → rounded r.size order + aligned ≤ r.capacity
    → Good base capacity (r, blocks)
    → Good base capacity (
        hand_out blocks size order
          (allocated r (rounded r.size order) aligned, some (r.memory + rounded r.size order)))
unfolding allocated
granted-Good base capacity r blocks size order aligned small least room (at, whole, fits, carved) =
    let offset = rounded r.size order in
    let bounds = rounded-bounds r.size order in
    let sum : (offset + aligned) % u64_mod ≡ offset + aligned = omega arith in
    let place : r.memory + offset - base ≡ offset = omega arith in
    (
      at,
      whole,
      omega arith,
      (
        omega arith,
        ap (λ (t : ℕ). t % 2 ^ order) place
            ∙ mul-mod_left ((r.size + 2 ^ order - 1) / 2 ^ order) (2 ^ order),
        IsCarved-mono base (base + r.size) (r.memory + offset) blocks (omega arith) carved,
      ),
    )

step-Good :
    (base capacity : ℕ) (r : MemoryRegion) (blocks : List Block) (op : RegionOp)
    → capacity ≤ 2 ^ 61
    → IsSmall op
    → Good base capacity (r, blocks)
    → Good base capacity (step (r, blocks) op)
unfolding region_freeze region_unfreeze allocated
step-Good base capacity r blocks freeze small h good = good
step-Good base capacity r blocks unfreeze small h good = elim (Bool-cases (is_frozen r.state)) [
  | inl e ↦ rw e good
  | inr e ↦ rw e good
]
step-Good base capacity r blocks (request size order) small h good =
    elim (alloc-Outcome r size order (omega arith) (omega arith) h.0 h.1) [
      | inl e ↦ rw e good
      | inr (aligned, least, room, active, e) ↦
          rw e (granted-Good base capacity r blocks size order aligned small least room good)
    ]

run-Good :
    (base capacity : ℕ) (s : MemoryRegion × List Block) (ops : List RegionOp)
    → capacity ≤ 2 ^ 61
    → All IsSmall ops
    → Good base capacity s
    → Good base capacity (run s ops)
run-Good base capacity s [] small h good = good
run-Good base capacity (r, blocks) (op ∷ ops) small (h, hs) good =
    run-Good base capacity (step (r, blocks) op) ops small hs
      (step-Good base capacity r blocks op small h good)

-- Over any run of allocations and freezes of a fresh region of at most 2^61 bytes, with requests of
-- at most 2^61 bytes at alignments that are powers of two up to 2^61: the region uses at most its
-- capacity; each block handed out is aligned relative to the region's memory and begins where the
-- blocks handed out before it have ended; and the last one ends within the used bytes. So no two
-- blocks overlap and none leaves the region.
pub run-IsCarved :
    (r : MemoryRegion) (ops : List RegionOp)
    → r.size ≡ 0
    → r.capacity ≤ 2 ^ 61
    → All IsSmall ops
    → ((run (r, []) ops).0.size ≤ r.capacity)
      × IsCarved r.memory (r.memory + (run (r, []) ops).0.size) (run (r, []) ops).1
run-IsCarved r ops fresh small h =
    let good =
      run-Good r.memory r.capacity (r, []) ops small h (refl, refl, omega arith, omega arith) in
    (omega (arith, good), good.3)
