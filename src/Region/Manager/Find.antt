-- ===== src/Region/Manager/Find.antt =====
-- src/core/memory/region_memory.c: the regions of the list, found by their numbers.
use asteron.Prelude.{
  ℕ, ◌+◌, ◌<◌, false, none, some, List, [], ◌∷◌, ◌==◌, ◌≡◌, ◌≢◌, refl, arith, length, u64_mod,
  Bool-cases, ==→eq, inl, inr, ap, sym, ◌∙◌, if◌then◌else◌,
}
use asteron.Region.Types.{MemoryRegion, RegionManager}
use asteron.Region.Manager.{is_destroyed, unlink, find_id, region_destroy, region_get_by_id}

-- No two regions have one number.
abbrev pub IsDistinct : List MemoryRegion → Type 0
IsDistinct [] = Unit
IsDistinct (r ∷ rs) = (find_id r.id rs ≡ none) × IsDistinct rs

-- A region that was not destroyed, its capacity a `size_t`.
abbrev pub IsAlive : MemoryRegion → Type 0
IsAlive r = (is_destroyed r.state ≡ false) × (r.capacity < u64_mod)

abbrev pub capacities : List MemoryRegion → ℕ
capacities [] = 0
capacities (r ∷ rs) = r.capacity + capacities rs

pub find_id-unlink_self :
    (id : ℕ) (rs : List MemoryRegion) → IsDistinct rs → find_id id (unlink id rs) ≡ none
unfolding find_id unlink
find_id-unlink_self id [] d = refl
find_id-unlink_self id (r ∷ rs) (new, d) = ground (arith, find_id-unlink_self id rs d, new)

pub find_id-unlink_ne :
    (id j : ℕ) (rs : List MemoryRegion) → id ≢ j → find_id j (unlink id rs) ≡ find_id j rs
unfolding find_id unlink
find_id-unlink_ne id j [] h = refl
find_id-unlink_ne id j (r ∷ rs) h = ground (arith, find_id-unlink_ne id j rs h)

pub unlink-IsDistinct :
    (id : ℕ) (rs : List MemoryRegion) → IsDistinct rs → IsDistinct (unlink id rs)
unfolding find_id unlink
unlink-IsDistinct id [] d = d
unlink-IsDistinct id (r ∷ rs) (new, d) =
    ground (arith, unlink-IsDistinct id rs d, find_id-unlink_ne id r.id rs)

pub length-unlink :
    (id : ℕ) (rs : List MemoryRegion) (r : MemoryRegion)
    → find_id id rs ≡ some r
    → length (unlink id rs) + 1 ≡ length rs
unfolding find_id unlink
length-unlink id [] r h = ground arith
length-unlink id (q ∷ rs) r h = ground (arith, length-unlink id rs r)

pub capacities-unlink :
    (id : ℕ) (rs : List MemoryRegion) (r : MemoryRegion)
    → find_id id rs ≡ some r
    → capacities (unlink id rs) + r.capacity ≡ capacities rs
unfolding find_id unlink
capacities-unlink id [] r h = ground arith
capacities-unlink id (q ∷ rs) r h = ground (arith, capacities-unlink id rs r)

-- Once a region that was not destroyed is destroyed, its number finds no region, and every other
-- number finds what it found before, if the numbers of the list are distinct.
pub region_destroy-get_by_id :
    (m : RegionManager) (r : MemoryRegion) (id : ℕ)
    → IsDistinct m.regions
    → is_destroyed r.state ≡ false
    → region_get_by_id (region_destroy m r) id
      ≡ (if r.id == id then none else region_get_by_id m id)
unfolding region_get_by_id region_destroy
region_destroy-get_by_id m r id d alive = elim (Bool-cases (r.id == id)) [
  | inl e ↦
      rw (alive, e)
        (ap (λ (t : ℕ). find_id t (unlink r.id m.regions)) (sym (==→eq r.id id e))
          ∙ find_id-unlink_self r.id m.regions d)
  | inr e ↦ rw (alive, e) (find_id-unlink_ne r.id id m.regions (ground arith))
]

-- A region that is the current one when it is destroyed stays the current one: the pointer is kept,
-- and it finds no region.
pub region_destroy-dangling :
    (m : RegionManager) (r : MemoryRegion)
    → IsDistinct m.regions
    → is_destroyed r.state ≡ false
    → m.current_region ≡ some r.id
    → ((region_destroy m r).current_region ≡ some r.id)
      × (region_get_by_id (region_destroy m r) r.id ≡ none)
unfolding region_get_by_id region_destroy
region_destroy-dangling m r d alive current =
    (rw alive current, rw alive (find_id-unlink_self r.id m.regions d))
