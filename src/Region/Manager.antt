-- ===== src/Region/Manager.antt =====
-- src/core/memory/region_memory.c: the list of regions. A call that may fail to get memory takes
-- the memory it gets as an argument, `none` for a failure; the clock is an argument too. A pointer
-- to a region is its number, and one to no region of the list is outside the model.
pub mod Find
pub mod Destroy
pub mod Counts
pub mod Changes
pub mod Runs
use asteron.Prelude.{
  ℕ, ◌+◌, ◌-◌, ◌%◌, ◌/◌, Bool, true, false, Option, none, some, List, [], ◌∷◌, ◌==◌, ltb,
  if◌then◌else◌, u64_mod, bytes_eq,
}
use asteron.Ownership.Types.{lifetime_static}
use asteron.Region.Types.{
  RegionType, region_task, region_request, region_loop, region_function, region_temporary,
  RegionState, region_active, region_destroyed, MemoryRegion, RegionManager,
}

abbrev pub type_number : RegionType → ℕ
type_number region_task = 0
type_number region_request = 1
type_number region_loop = 2
type_number region_function = 3
type_number region_temporary = 4

abbrev pub is_type : RegionType → MemoryRegion → Bool
is_type kind r = type_number r.kind == type_number kind

abbrev pub is_destroyed : RegionState → Bool
is_destroyed region_destroyed = true
is_destroyed _ = false

unfoldable pub region_memory_init : RegionManager
region_memory_init = record {
  regions = [];
  current_region = none;
  next_region_id = 1;
  total_regions = 0;
  active_regions = 0;
  total_allocated = 0;
}

abbrev pub new_memory_region : ℕ → RegionType → ℕ → Option (List ℕ) → ℕ → ℕ → MemoryRegion
new_memory_region id kind capacity name memory now = record {
  id = id;
  kind = kind;
  name = name;
  state = region_active;
  lifetime = lifetime_static;
  memory = memory;
  size = 0;
  capacity = capacity;
  alignment = 8;
  tracked_values = [];
  owned_vars = [];
  allocations = 0;
  peak_size = 0;
  created_at = now;
}

unfoldable pub region_create :
    RegionManager
    → RegionType
    → ℕ
    → Option (List ℕ)
    → Option ℕ
    → ℕ
    → RegionManager × Option MemoryRegion
region_create m kind capacity name none now = (m, none)
region_create m kind capacity name (some memory) now =
    let r = new_memory_region m.next_region_id kind capacity name memory now in
    (
      record m {
        regions = r ∷ m.regions;
        next_region_id = (m.next_region_id + 1) % u64_mod;
        active_regions = (m.active_regions + 1) % u64_mod;
        total_regions = (m.total_regions + 1) % u64_mod;
        total_allocated = (m.total_allocated + capacity) % u64_mod;
      },
      some r,
    )

-- The list without the first region of the number `id`.
unfoldable pub unlink : ℕ → List MemoryRegion → List MemoryRegion
unlink id [] = []
unlink id (r ∷ rs) = let rest = unlink id rs in if r.id == id then rs else r ∷ rest

unfoldable pub region_destroy : RegionManager → MemoryRegion → RegionManager
region_destroy m r = if is_destroyed r.state then m else record m {
  regions = unlink r.id m.regions;
  active_regions = (m.active_regions + u64_mod - 1) % u64_mod;
  total_allocated = (m.total_allocated + u64_mod - r.capacity) % u64_mod;
}

-- The loop of `region_memory_cleanup`: the next region is read before this one is destroyed, so the
-- loop goes over the list as it stood.
unfoldable pub destroy_each : List MemoryRegion → RegionManager → RegionManager
destroy_each [] m = m
destroy_each (r ∷ rs) m = destroy_each rs (region_destroy m r)

-- The manager ends as all zeros, also the next number.
unfoldable pub region_memory_cleanup : RegionManager → RegionManager
region_memory_cleanup m =
    let emptied = destroy_each m.regions m in
    record emptied {
      regions = [];
      current_region = none;
      next_region_id = 0;
      total_regions = 0;
      active_regions = 0;
      total_allocated = 0;
    }

unfoldable pub destroy_type : RegionType → List MemoryRegion → RegionManager → RegionManager
destroy_type kind [] m = m
destroy_type kind (r ∷ rs) m =
    destroy_type kind rs (if is_type kind r then region_destroy m r else m)

unfoldable pub region_destroy_all : RegionManager → RegionType → RegionManager
region_destroy_all m kind = destroy_type kind m.regions m

unfoldable pub region_set_current : RegionManager → Option ℕ → RegionManager
region_set_current m region = record m { current_region = region }

unfoldable pub region_get_current : RegionManager → Option ℕ
region_get_current m = m.current_region

unfoldable pub find_id : ℕ → List MemoryRegion → Option MemoryRegion
find_id id [] = none
find_id id (r ∷ rs) = let rest = find_id id rs in if r.id == id then some r else rest

unfoldable pub region_get_by_id : RegionManager → ℕ → Option MemoryRegion
region_get_by_id m id = find_id id m.regions

abbrev pub is_named : List ℕ → Option (List ℕ) → Bool
is_named name none = false
is_named name (some other) = bytes_eq other name

unfoldable pub find_name : List ℕ → List MemoryRegion → Option MemoryRegion
find_name name [] = none
find_name name (r ∷ rs) =
    let rest = find_name name rs in if is_named name r.name then some r else rest

unfoldable pub region_get_by_name : RegionManager → Option (List ℕ) → Option MemoryRegion
region_get_by_name m none = none
region_get_by_name m (some name) = find_name name m.regions

-- The capacity of a region for input or output: a quarter more than expected, and 4096 at least.
unfoldable pub io_capacity : ℕ → ℕ
io_capacity expected_size =
    let capacity = (expected_size + expected_size / 4) % u64_mod in
    if ltb capacity 4096 then 4096 else capacity

abbrev pub set_created : RegionManager × Option MemoryRegion → RegionManager × Option MemoryRegion
set_created (m, none) = (m, none)
set_created (m, some r) = (region_set_current m (some r.id), some r)

unfoldable pub region_prepare_for_io :
    RegionManager → ℕ → Option (List ℕ) → Option ℕ → ℕ → RegionManager × Option MemoryRegion
region_prepare_for_io m expected_size name memory now =
    set_created (region_create m region_temporary (io_capacity expected_size) name memory now)

-- A call on one region, for the client that holds a pointer to it.
unfoldable pub on_region : ℕ → (MemoryRegion → MemoryRegion) → List MemoryRegion → List MemoryRegion
on_region id f [] = []
on_region id f (r ∷ rs) = let rest = on_region id f rs in if r.id == id then f r ∷ rs else r ∷ rest
