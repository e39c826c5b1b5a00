-- ===== src/Ownership/Views.antt =====
-- src/core/memory/ownership.h and src/core/memory/ownership.c: slices, the views of an array. An
-- address is a number, and `none` is the null pointer.
use mathlib.Core.Option
use asteron.Prelude.{
  ℕ, ◌+◌, ◌-◌, ◌*◌, ◌%◌, ◌≤◌, ◌<◌, ◌≡◌, refl, ap, Option, none, some, arith, leb, ltb,
  if◌then◌else◌, u64_mod,
}

pub record Slice : Type 0 where
  pub ptr : Option ℕ
  pub len : ℕ
  pub elem_size : ℕ

pub slice_from_array : Option ℕ → ℕ → ℕ → Slice
slice_from_array arr len elem_size = record { ptr = arr; len = len; elem_size = elem_size }

-- `(char*)p + i * size`, where the product is one of `size_t`. A null pointer stays null: the language
-- leaves its sum with another number than zero undefined.
unfoldable pub element : Option ℕ → ℕ → ℕ → Option ℕ
element p i size = Option.map (λ q. q + i * size % u64_mod) p

unfoldable pub slice_get : Slice → ℕ → Option ℕ
unfolding element
slice_get s index = if leb s.len index then none else element s.ptr index s.elem_size

abbrev empty_slice : Slice
empty_slice = record { ptr = none; len = 0; elem_size = 0 }

abbrev pub clip : ℕ → ℕ → ℕ
clip bound x = if ltb bound x then bound else x

unfoldable pub slice_sub : Slice → ℕ → ℕ → Slice
unfolding element
slice_sub s start end =
    if leb s.len start
    then empty_slice
    else (let e = clip s.len end in
        let b = clip e start in
        record { ptr = element s.ptr b s.elem_size; len = e - b; elem_size = s.elem_size })

element-add :
    (p : Option ℕ) (a i size : ℕ)
    → (a + i) * size < u64_mod
    → element (element p a size) i size ≡ element p (a + i) size
unfolding element
element-add none a i size h = refl
element-add (some q) a i size h = ap some (omega arith)

scaled_lt : (k len size bound : ℕ) → k ≤ len → len * size < bound → k * size < bound
scaled_lt k len size bound h f = grind arith

-- A sub-slice shows the elements of the slice from `start` on, up to `end` and to the end of the
-- slice, and nothing else: its element `i` is the element `start + i`, if the size of the slice in
-- bytes fits `size_t`; past its end there is none. Where `end` lies before `start` it has no element.
pub slice_get-slice_sub :
    (s : Slice) (start end i : ℕ)
    → s.len * s.elem_size < u64_mod
    → slice_get (slice_sub s start end) i
      ≡ (if ltb (start + i) (clip s.len end) then slice_get s (start + i) else none)
unfolding slice_get slice_sub
slice_get-slice_sub s start end i fits =
    ground (
      arith,
      element-add s.ptr start i s.elem_size,
      scaled_lt (start + i) s.len s.elem_size u64_mod,
    )
