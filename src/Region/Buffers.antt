-- ===== src/Region/Buffers.antt =====
-- src/core/memory/region_memory.c: the zero-copy buffers. An address is a number; the function that
-- frees an external buffer is its number, and a call of it is listed.
use asteron.Prelude.{
  ℕ, ◌+◌, Bool, true, false, Option, none, some, List, [], ◌∷◌, ◌++◌, ◌&&◌, ◌%◌, u64_mod, ltb, leb,
  if◌then◌else◌,
}
use asteron.Region.Types.{MemoryRegion, TrackedValue, no_object, string_object, other_object}
use asteron.Region.Alloc.{region_alloc}

pub record ZeroCopyBuffer : Type 0 where
  pub data_address : ℕ
  pub size : ℕ
  pub is_region_owned : Bool
  pub region : Option ℕ
  pub is_external : Bool
  pub free_fn : Option ℕ

unfoldable pub zerocopy_create_external : ℕ → ℕ → Option ℕ → ZeroCopyBuffer
zerocopy_create_external address size free_fn = record {
  data_address = address;
  size = size;
  is_region_owned = false;
  region = none;
  is_external = true;
  free_fn = free_fn;
}

unfoldable pub zerocopy_create_from_region : MemoryRegion → ℕ → ℕ → ZeroCopyBuffer
zerocopy_create_from_region r address size = record {
  data_address = address;
  size = size;
  is_region_owned = true;
  region = some r.id;
  is_external = false;
  free_fn = none;
}

abbrev pub buffer_of : ℕ → MemoryRegion × Option ℕ → MemoryRegion × Option ZeroCopyBuffer
buffer_of size (r, none) = (r, none)
buffer_of size (r, some address) = (r, some (zerocopy_create_from_region r address size))

unfoldable pub zerocopy_create_for_read : MemoryRegion → ℕ → MemoryRegion × Option ZeroCopyBuffer
zerocopy_create_for_read r size = buffer_of size (region_alloc r size)

-- A function that frees, and the address it is given.
abbrev pub FreeCall : Type 0
FreeCall = ℕ × ℕ

-- The calls of a function that frees.
abbrev pub freed : ZeroCopyBuffer → Option ℕ → List FreeCall
freed b none = []
freed b (some free_fn) = (free_fn, b.data_address) ∷ []

unfoldable pub zerocopy_destroy : Option ZeroCopyBuffer → List FreeCall
zerocopy_destroy none = []
zerocopy_destroy (some b) = if b.is_external then freed b b.free_fn else []

unfoldable pub zerocopy_get_data : Option ZeroCopyBuffer → Option ℕ
zerocopy_get_data none = none
zerocopy_get_data (some b) = some b.data_address

unfoldable pub zerocopy_get_size : Option ZeroCopyBuffer → ℕ
zerocopy_get_size none = 0
zerocopy_get_size (some b) = b.size

unfoldable pub region_track_value : MemoryRegion → TrackedValue → MemoryRegion
region_track_value r value = record r { tracked_values = r.tracked_values ++ value ∷ [] }

-- The string value made of the buffer, at its address; `none` is the nil value. The object takes
-- `object_bytes` bytes, and the text and its end follow it.
abbrev pub finished : ℕ → MemoryRegion × Option ℕ → MemoryRegion × Option ℕ
finished object_bytes (r, none) = (r, none)
finished object_bytes (r, some str) =
    (region_track_value r (string_object str (some (str + object_bytes))), some str)

-- Both results end with the buffer's destruction: the last part is what that frees.
unfoldable pub region_finish_io :
    ℕ → MemoryRegion → ZeroCopyBuffer → (MemoryRegion × Option ℕ) × List FreeCall
region_finish_io object_bytes r b = (
  finished object_bytes (region_alloc r ((object_bytes + b.size + 1) % u64_mod)),
  zerocopy_destroy (some b),
)

abbrev pub is_in_region : MemoryRegion → ℕ → Bool
is_in_region r address = leb r.memory address && ltb address (r.memory + r.capacity)

-- The addresses that `region_destroy` frees for one tracked value.
abbrev pub freed_chars : MemoryRegion → Option ℕ → List ℕ
freed_chars r none = []
freed_chars r (some chars) = if is_in_region r chars then [] else chars ∷ []

abbrev pub freed_value : MemoryRegion → TrackedValue → List ℕ
freed_value r no_object = []
freed_value r (string_object address chars) = freed_chars r chars ++ address ∷ []
freed_value r (other_object address) = address ∷ []

abbrev pub freed_values : MemoryRegion → List TrackedValue → List ℕ
freed_values r [] = []
freed_values r (value ∷ values) = freed_value r value ++ freed_values r values

-- The objects and the memory that `region_destroy` frees, in its order.
unfoldable pub freed_by_destroy : MemoryRegion → List ℕ
freed_by_destroy r = freed_values r r.tracked_values ++ r.memory ∷ []
