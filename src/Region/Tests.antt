-- ===== src/Region/Tests.antt =====
-- Tests of the regions, and their theorems at concrete data.
use asteron.Prelude.{
  ℕ, ◌+◌, ◌-◌, ◌≤◌, ◌<◌, ◌≡◌, refl, true, false, none, some, List, [], ◌∷◌, All, arith, u64_mod,
}
use asteron.Region.Types.{MemoryRegion, RegionManager, region_task, region_request}
use asteron.Region.Alloc.{align_size, allocated, region_alloc, region_alloc_aligned}
use asteron.Region.Alloc.Rounding
use asteron.Region.Alloc.Blocks
use asteron.Region.Alloc.Limits.{region_alloc-wraps}
use asteron.Region.Manager.{
  region_memory_init, new_memory_region, region_destroy, region_destroy_all, region_get_by_id,
  find_id, region_prepare_for_io,
}
use asteron.Region.Manager.Find.{region_destroy-dangling, IsDistinct, IsAlive}
use asteron.Region.Manager.Destroy.{region_destroy_all-kept, IsCounted}
use asteron.Region.Manager.Runs
use asteron.Region.Manager.Changes
use asteron.Region.Buffers.{
  ZeroCopyBuffer, zerocopy_create_for_read, zerocopy_create_from_region, region_finish_io,
  freed_by_destroy,
}
use asteron.Region.Io.{prepare_for_io-finish_large, prepared, filled, read_of}
use asteron.Region.Io.Frees.{finish_io-frees_inside}

abbrev request_name : List ℕ
request_name = 114 ∷ []

-- A region of 64 bytes at the address 4096, and one of 32.
abbrev arena : MemoryRegion
arena = new_memory_region 1 region_request 64 (some request_name) 4096 10

abbrev other_arena : MemoryRegion
other_arena = new_memory_region 2 region_task 32 none 8192 11

align_size_seven : align_size 13 8 ≡ 16
unfolding align_size
align_size_seven = refl

-- Ten bytes at 8, three at 32 in a region that was frozen and unfrozen, and a request that is
-- refused.
abbrev requests : List Blocks.RegionOp
requests =
    Blocks.request 10 3
    ∷ Blocks.freeze
    ∷ Blocks.request 1 0
    ∷ Blocks.unfreeze
    ∷ Blocks.request 3 5
    ∷ Blocks.request 40 3
    ∷ []

blocks_example :
    ((Blocks.run (arena, []) requests).0.size ≤ 64)
    × Blocks.IsCarved 4096
        (4096 + (Blocks.run (arena, []) requests).0.size)
        (Blocks.run (arena, []) requests).1
blocks_example = Blocks.run-IsCarved arena requests refl (omega arith) (
  (omega arith, omega arith),
  (
    tt,
    (
      (omega arith, omega arith),
      (tt, ((omega arith, omega arith), ((omega arith, omega arith), tt))),
    ),
  ),
)

rounding_example : align_size 13 8 ≡ 16
rounding_example = Rounding.align_size-round 3 13 (omega arith) (omega arith)

-- A request of 2^64 - 1 bytes of 64.
wraps_example :
    ((region_alloc arena (u64_mod - 1)).0.size ≡ 0)
    × ((region_alloc arena (u64_mod - 1)).1 ≡ some 4096)
wraps_example =
    region_alloc-wraps arena (u64_mod - 1) refl refl refl (omega arith) (omega arith) (omega arith)
      (omega arith)

-- A manager of the two regions, the first the current one.
abbrev two_regions : RegionManager
two_regions = record {
  regions = other_arena ∷ arena ∷ [];
  current_region = some 1;
  next_region_id = 3;
  total_regions = 2;
  active_regions = 2;
  total_allocated = 96;
}

two_regions-IsDistinct : IsDistinct two_regions.regions
unfolding find_id
two_regions-IsDistinct = (refl, (refl, tt))

dangling_example :
    ((region_destroy two_regions arena).current_region ≡ some 1)
    × (region_get_by_id (region_destroy two_regions arena) 1 ≡ none)
dangling_example = region_destroy-dangling two_regions arena two_regions-IsDistinct refl refl

destroy_all_example :
    ((region_destroy_all two_regions region_task).regions ≡ arena ∷ [])
    × IsCounted (region_destroy_all two_regions region_task)
destroy_all_example =
    region_destroy_all-kept two_regions region_task two_regions-IsDistinct
      ((refl, omega arith), ((refl, omega arith), tt)) (refl, refl)

-- Two regions, one of which is filled, frozen and destroyed, and a creation without memory.
abbrev operations : List Runs.ManagerOp
operations =
    Runs.create region_request 64 (some request_name) (some 4096) 10
    ∷ Runs.prepare_for_io 100 none (some 8192) 11
    ∷ Runs.on 1 (Changes.alloc 24 8)
    ∷ Runs.on 1 Changes.freeze
    ∷ Runs.create region_task 32 none none 12
    ∷ Runs.destroy 1
    ∷ Runs.destroy_all region_task
    ∷ []

run-IsCounted_example :
    IsDistinct (Runs.run region_memory_init operations).regions
    × All IsAlive (Runs.run region_memory_init operations).regions
    × (region_get_by_id
          (Runs.run region_memory_init operations)
          (Runs.run region_memory_init operations).next_region_id
        ≡ none)
    × IsCounted (Runs.run region_memory_init operations)
run-IsCounted_example =
    Runs.run-IsCounted operations (omega arith, (tt, (tt, (tt, (omega arith, (tt, (tt, tt)))))))
      (omega arith)

prepare_large_example :
    ((zerocopy_create_for_read (prepared two_regions 5000 none 8192 12 (omega arith)) 5000).1
      ≡ some (
          zerocopy_create_from_region
            (filled two_regions 5000 none 8192 12 (omega arith))
            8192
            5000))
    × (read_of 32 5000 (region_prepare_for_io two_regions 5000 none (some 8192) 12) ≡ none)
prepare_large_example =
    prepare_for_io-finish_large two_regions 5000 none 8192 12 32 (omega arith) (omega arith)
      (omega arith)

-- The first region with 16 bytes in use, and a buffer of 8 bytes.
abbrev used_arena : MemoryRegion
used_arena = record arena { size = 16 }

abbrev eight_bytes : ZeroCopyBuffer
eight_bytes = record {
  data_address = 4104;
  size = 8;
  is_region_owned = true;
  region = some 1;
  is_external = false;
  free_fn = none;
}

finish_io_value : (region_finish_io 24 used_arena eight_bytes).0.1 ≡ some 4112
unfolding region_finish_io region_alloc region_alloc_aligned align_size allocated
finish_io_value = refl

frees_example :
    (4096 < 4112)
    × (4112 < 4096 + 64)
    × (freed_by_destroy (region_finish_io 24 used_arena eight_bytes).0.0 ≡ 4112 ∷ 4096 ∷ [])
frees_example =
    finish_io-frees_inside used_arena eight_bytes 24 4112 refl refl (omega arith) (omega arith)
      (omega arith) (omega arith) refl finish_io_value
