-- ===== src/Region/Manager/Changes.antt =====
-- src/core/memory/region_memory.c: the calls on one region of the list.
use asteron.Prelude.{
  ℕ, none, List, [], ◌∷◌, ◌==◌, ◌≡◌, refl, arith, length, All, inl, inr, ap, ◌∙◌, Bool-cases,
}
use asteron.Region.Types.{MemoryRegion, RegionManager}
use asteron.Region.Alloc.{
  region_alloc_aligned, region_freeze, region_unfreeze, region_move_var, allocated,
}
use asteron.Region.Manager.{find_id, on_region}
use asteron.Region.Manager.Find.{IsDistinct, IsAlive, capacities}
use asteron.Region.Manager.Counts.{Inv, IsBelow}

-- What a client does to one region through its pointer.
pub data Change : Type 0 where
  alloc : ℕ → ℕ → Change
  freeze unfreeze : Change
  move_var : ℕ → Change

abbrev pub change : Change → MemoryRegion → MemoryRegion
change (alloc size alignment) r = (region_alloc_aligned r size alignment).0
change freeze r = region_freeze r
change unfreeze r = region_unfreeze r
change (move_var var_id) r = region_move_var r var_id

change-id : (c : Change) (r : MemoryRegion) → (change c r).id ≡ r.id
unfolding region_alloc_aligned allocated region_freeze region_unfreeze region_move_var
change-id (alloc size alignment) r = ground arith
change-id freeze r = refl
change-id unfreeze r = ground arith
change-id (move_var var_id) r = refl

change-capacity : (c : Change) (r : MemoryRegion) → (change c r).capacity ≡ r.capacity
unfolding region_alloc_aligned allocated region_freeze region_unfreeze region_move_var
change-capacity (alloc size alignment) r = ground arith
change-capacity freeze r = refl
change-capacity unfreeze r = ground arith
change-capacity (move_var var_id) r = refl

change-IsAlive : (c : Change) (r : MemoryRegion) → IsAlive r → IsAlive (change c r)
unfolding region_alloc_aligned allocated region_freeze region_unfreeze region_move_var
change-IsAlive (alloc size alignment) r h =
    let same = change-capacity (alloc size alignment) r in
    (ground (arith, h), omega (arith, same, h))
change-IsAlive freeze r h = (refl, h.1)
change-IsAlive unfreeze r h =
    let same = change-capacity unfreeze r in (ground (arith, h), omega (arith, same, h))
change-IsAlive (move_var var_id) r h = h

module _ (id : ℕ) (c : Change) where
  find_id-on_region :
      (j : ℕ) (rs : List MemoryRegion)
      → find_id j rs ≡ none
      → find_id j (on_region id (change c) rs) ≡ none
  unfolding find_id on_region
  find_id-on_region j [] h = refl
  find_id-on_region j (r ∷ rs) h = ground (arith, find_id-on_region j rs, change-id c r)

  length-on_region : (rs : List MemoryRegion) → length (on_region id (change c) rs) ≡ length rs
  unfolding on_region
  length-on_region [] = refl
  length-on_region (r ∷ rs) = ground (arith, length-on_region rs)

  capacities-on_region :
      (rs : List MemoryRegion) → capacities (on_region id (change c) rs) ≡ capacities rs
  unfolding on_region
  capacities-on_region [] = refl
  capacities-on_region (r ∷ rs) = ground (arith, capacities-on_region rs, change-capacity c r)

  on_region-IsDistinct :
      (rs : List MemoryRegion) → IsDistinct rs → IsDistinct (on_region id (change c) rs)
  unfolding on_region
  on_region-IsDistinct [] d = d
  on_region-IsDistinct (r ∷ rs) (new, d) = elim (Bool-cases (r.id == id)) [
    | inl e ↦ rw (e, on_region) (ap (λ (t : ℕ). find_id t rs) (change-id c r) ∙ new, d)
    | inr e ↦ rw (e, on_region) (find_id-on_region r.id rs new, on_region-IsDistinct rs d)
  ]

  module _ (P : MemoryRegion → Type 0) (keeps : (r : MemoryRegion) → P r → P (change c r)) where
    All-on_region : (rs : List MemoryRegion) → All P rs → All P (on_region id (change c) rs)
    unfolding on_region
    All-on_region [] a = a
    All-on_region (r ∷ rs) (p, a) = elim (Bool-cases (r.id == id)) [
      | inl e ↦ rw (e, on_region) (keeps r p, a)
      | inr e ↦ rw (e, on_region) (p, All-on_region rs a)
    ]

abbrev pub on_manager : RegionManager → ℕ → Change → RegionManager
on_manager m id c = record m { regions = on_region id (change c) m.regions }

pub change-Inv :
    (n : ℕ) (m : RegionManager) (id : ℕ) (c : Change) → Inv n m → Inv n (on_manager m id c)
change-Inv n m id c i = record {
  distinct = on_region-IsDistinct id c m.regions i.distinct;
  alive = All-on_region id c IsAlive (change-IsAlive c) m.regions i.alive;
  below =
      All-on_region id c (IsBelow m.next_region_id) (λ r h. omega (arith, change-id c r)) m.regions
        i.below;
  counted = (
    omega (arith, i.counted, length-on_region id c m.regions),
    omega (arith, i.counted, capacities-on_region id c m.regions),
  );
  bounded = i.bounded;
}
