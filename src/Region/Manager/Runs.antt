-- ===== src/Region/Manager/Runs.antt =====
-- src/core/memory/region_memory.c: runs of the operations of the manager and of its regions.
use asteron.Prelude.{
  ℕ, ◌+◌, ◌<◌, Option, none, some, List, [], ◌∷◌, ◌≡◌, refl, arith, length, All, u64_mod, inl, inr,
  subst, Option-cases,
}
use asteron.Region.Types.{MemoryRegion, RegionManager, RegionType, region_temporary}
use asteron.Region.Manager.{
  find_id, region_create, region_destroy, region_destroy_all, region_set_current,
  region_prepare_for_io, io_capacity, region_get_by_id, region_memory_init,
}
use asteron.Region.Manager.Find.{IsDistinct, IsAlive}
use asteron.Region.Manager.Destroy.{IsCounted}
use asteron.Region.Manager.Counts.{Inv, create-Inv, destroy-Inv, destroy_all-Inv, find_id-below}
use asteron.Region.Manager.Changes.{Change, on_manager, change-Inv}

pub data ManagerOp : Type 0 where
  create : RegionType → ℕ → Option (List ℕ) → Option ℕ → ℕ → ManagerOp
  prepare_for_io : ℕ → Option (List ℕ) → Option ℕ → ℕ → ManagerOp
  destroy : ℕ → ManagerOp
  destroy_all : RegionType → ManagerOp
  set_current : Option ℕ → ManagerOp
  on : ℕ → Change → ManagerOp

-- A client destroys the regions it can find.
abbrev destroy_found : RegionManager → Option MemoryRegion → RegionManager
destroy_found m none = m
destroy_found m (some r) = region_destroy m r

abbrev pub step : RegionManager → ManagerOp → RegionManager
step m (create kind capacity name memory now) = (region_create m kind capacity name memory now).0
step m (prepare_for_io expected name memory now) =
    (region_prepare_for_io m expected name memory now).0
step m (destroy id) = destroy_found m (region_get_by_id m id)
step m (destroy_all kind) = region_destroy_all m kind
step m (set_current region) = region_set_current m region
step m (on id c) = on_manager m id c

unfoldable pub run : RegionManager → List ManagerOp → RegionManager
run m [] = m
run m (op ∷ ops) = run (step m op) ops

-- The capacity that is asked for is a `size_t`.
abbrev pub HasCapacity : ManagerOp → Type 0
HasCapacity (create kind capacity name memory now) = capacity < u64_mod
HasCapacity _ = Unit

io_capacity-lt : (expected : ℕ) → io_capacity expected < u64_mod
unfolding io_capacity
io_capacity-lt expected = ground arith

prepare_for_io-Inv :
    (n : ℕ) (m : RegionManager) (expected : ℕ) (name : Option (List ℕ)) (memory : Option ℕ)
    (now : ℕ)
    → n + 1 < u64_mod
    → Inv n m
    → Inv (n + 1) (region_prepare_for_io m expected name memory now).0
unfolding region_prepare_for_io region_create region_set_current
prepare_for_io-Inv n m expected name none now h i =
    create-Inv n m region_temporary (io_capacity expected) name none now (io_capacity-lt expected) h
      i
prepare_for_io-Inv n m expected name (some memory) now h i =
    let j =
      create-Inv n m region_temporary (io_capacity expected) name (some memory) now
        (io_capacity-lt expected) h i in
    record {
      distinct = j.distinct;
      alive = j.alive;
      below = j.below;
      counted = j.counted;
      bounded = j.bounded;
    }

Inv-suc : (n : ℕ) (m : RegionManager) → Inv n m → Inv (n + 1) m
Inv-suc n m i = record {
  distinct = i.distinct;
  alive = i.alive;
  below = i.below;
  counted = i.counted;
  bounded = omega (arith, i.bounded);
}

step-Inv :
    (n : ℕ) (m : RegionManager) (op : ManagerOp)
    → HasCapacity op
    → n + 1 < u64_mod
    → Inv n m
    → Inv (n + 1) (step m op)
unfolding region_get_by_id region_set_current
step-Inv n m (create kind capacity name memory now) c h i =
    create-Inv n m kind capacity name memory now c h i
step-Inv n m (prepare_for_io expected name memory now) c h i =
    prepare_for_io-Inv n m expected name memory now h i
step-Inv n m (destroy id) c h i = elim (Option-cases (find_id id m.regions)) [
  | inl e ↦ rw (e, destroy_found) (Inv-suc n m i)
  | inr (r, e) ↦ rw (e, destroy_found) (Inv-suc n (region_destroy m r) (destroy-Inv n m id r e i))
]
step-Inv n m (destroy_all kind) c h i =
    Inv-suc n (region_destroy_all m kind) (destroy_all-Inv n m kind i)
step-Inv n m (set_current region) c h i = record {
  distinct = i.distinct;
  alive = i.alive;
  below = i.below;
  counted = i.counted;
  bounded = omega (arith, i.bounded);
}
step-Inv n m (on id c) h' h i = Inv-suc n (on_manager m id c) (change-Inv n m id c i)

run-Inv :
    (n : ℕ) (m : RegionManager) (ops : List ManagerOp)
    → All HasCapacity ops
    → n + length ops < u64_mod
    → Inv n m
    → Inv (n + length ops) (run m ops)
unfolding run
run-Inv n m [] c h i = subst (λ (t : ℕ). Inv t m) (omega arith) i
run-Inv n m (op ∷ ops) (c, cs) h i =
    subst (λ (t : ℕ). Inv t (run (step m op) ops)) (omega arith)
      (run-Inv (n + 1) (step m op) ops cs (omega arith) (step-Inv n m op c (omega arith) i))

init-Inv : Inv 1 region_memory_init
unfolding region_memory_init
init-Inv = record {
  distinct = tt;
  alive = tt;
  below = tt;
  counted = (refl, refl);
  bounded = omega arith;
}

-- After any run of fewer than 2^64 - 1 operations from the initial manager, creations that fail for
-- lack of memory included: the regions have distinct numbers, none of them is a destroyed one, the
-- next number is on no region, and the two counters are the number of the regions and the sum of
-- their capacities, modulo 2^64.
pub run-IsCounted :
    (ops : List ManagerOp)
    → All HasCapacity ops
    → 1 + length ops < u64_mod
    → IsDistinct (run region_memory_init ops).regions
      × All IsAlive (run region_memory_init ops).regions
      × (region_get_by_id (run region_memory_init ops) (run region_memory_init ops).next_region_id
          ≡ none)
      × IsCounted (run region_memory_init ops)
unfolding region_get_by_id
run-IsCounted ops c h =
    let i = run-Inv 1 region_memory_init ops c h init-Inv in
    (i.distinct, i.alive, find_id-below _ _ i.below, i.counted)
