-- ===== src/Region/Io/Frees.antt =====
-- src/core/memory/region_memory.c: what is freed with a region that holds a string value.
use asteron.Prelude.{
  ℕ, ◌+◌, ◌%◌, ◌^◌, ◌<◌, ◌≤◌, true, Option, none, some, [], ◌∷◌, ◌≡◌, refl, arith, u64_mod, ap, ◌∙◌,
  ltb, inl, inr, Bool-cases,
}
use asteron.Region.Types.{MemoryRegion, region_active, string_object}
use asteron.Region.Alloc.{region_alloc, allocated}
use asteron.Region.Alloc.Blocks.{rounded, rounded-bounds}
use asteron.Region.Buffers.{
  ZeroCopyBuffer, region_finish_io, region_track_value, freed_by_destroy, is_in_region, finished,
}
use asteron.Region.Io.{alloc_eight}

clash {ℓ} : {A : Type ℓ} (o : Option ℕ) (a : ℕ) → o ≡ none → o ≡ some a → A
clash o a h e = ground arith

same : (o : Option ℕ) (a b : ℕ) → o ≡ some a → o ≡ some b → a ≡ b
same o a b h e = ground arith

freed_once :
    (q : MemoryRegion) (str object_bytes : ℕ)
    → q.tracked_values ≡ []
    → is_in_region q (str + object_bytes) ≡ true
    → freed_by_destroy (region_track_value q (string_object str (some (str + object_bytes))))
      ≡ str ∷ q.memory ∷ []
unfolding freed_by_destroy region_track_value
freed_once q str object_bytes none_yet inside = rw (none_yet, inside) refl

is_in_region-intro :
    (q : MemoryRegion) (address : ℕ)
    → q.memory ≤ address
    → address < q.memory + q.capacity
    → is_in_region q address ≡ true
is_in_region-intro q address low high = ground arith

-- The next block of a region that is in use lies within its memory, past the first byte. When the
-- region that made a string value of a buffer is destroyed, the value's object is freed by itself,
-- although it is such a block, at an address that no call of `malloc` gave.
pub finish_io-frees_inside :
    (r : MemoryRegion) (b : ZeroCopyBuffer) (object_bytes str : ℕ)
    → r.state ≡ region_active
    → r.alignment ≡ 8
    → 0 < r.size
    → r.capacity ≤ 2 ^ 60
    → r.size ≤ r.capacity
    → object_bytes + b.size + 1 ≤ 2 ^ 60
    → r.tracked_values ≡ []
    → (region_finish_io object_bytes r b).0.1 ≡ some str
    → (r.memory < str)
      × (str < r.memory + r.capacity)
      × (freed_by_destroy (region_finish_io object_bytes r b).0.0 ≡ str ∷ r.memory ∷ [])
unfolding region_finish_io allocated
finish_io-frees_inside r b object_bytes str active eight used small fits asked none_yet made =
    let n = object_bytes + b.size + 1 in
    let size_fits : n % u64_mod ≡ n = omega arith in
    let second : MemoryRegion × Option ℕ → Option ℕ = λ p. (finished object_bytes p).1 in
    let whole =
      ap (region_alloc r) size_fits ∙ alloc_eight r n active eight (omega arith) (omega arith) in
    let address = r.memory + rounded r.size 3 in
    let next = allocated r (rounded r.size 3) (rounded n 3) in
    elim (Bool-cases (ltb r.capacity (rounded r.size 3 + rounded n 3))) [
      | inl full ↦
          let e : region_alloc r (n % u64_mod) ≡ (r, none) = whole ∙ rw full refl in
          clash _ str (ap second e) made
      | inr room_left ↦
          let e : region_alloc r (n % u64_mod) ≡ (next, some address) = whole ∙ rw room_left refl in
          let at : address ≡ str = same _ address str (ap second e) made in
          let within : rounded r.size 3 + rounded n 3 ≤ r.capacity = ground arith in
          let bounds = rounded-bounds r.size 3 in
          let bytes = rounded-bounds n 3 in
          let low : r.memory ≤ address + object_bytes = omega arith in
          let high : address + object_bytes < r.memory + r.capacity = omega arith in
          (
            omega arith,
            omega arith,
            rw e (
                freed_once next address object_bytes none_yet
                  (is_in_region-intro next (address + object_bytes) low high)
                ∙ ap (λ (t : ℕ). t ∷ r.memory ∷ []) at),
          )
    ]
