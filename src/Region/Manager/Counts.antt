-- ===== src/Region/Manager/Counts.antt =====
-- src/core/memory/region_memory.c: the invariant of the manager, and the operations that keep it.
use asteron.Prelude.{
  ℕ, ◌+◌, ◌%◌, ◌<◌, ◌≤◌, Option, none, some, List, [], ◌∷◌, ◌==◌, ◌≡◌, refl, arith, All, ==→eq,
  u64_mod, inl, inr, ap, sym, subst, ◌∙◌, Bool-cases,
}
use asteron.Region.Types.{MemoryRegion, RegionManager, RegionType}
use asteron.Region.Manager.{
  is_type, unlink, find_id, region_create, region_destroy, region_destroy_all, destroy_type,
}
use asteron.Region.Manager.Find.{IsDistinct, IsAlive, unlink-IsDistinct}
use asteron.Region.Manager.Destroy.{
  IsCounted, kept, region_destroy-IsCounted, region_destroy_all-kept,
}

abbrev pub IsBelow : ℕ → MemoryRegion → Type 0
IsBelow next r = r.id < next

pub record Inv (n : ℕ) (m : RegionManager) : Type 0 where
  pub distinct : IsDistinct m.regions
  pub alive : All IsAlive m.regions
  pub below : All (IsBelow m.next_region_id) m.regions
  pub counted : IsCounted m
  pub bounded : m.next_region_id ≤ n

module _ (P : MemoryRegion → Type 0) where
  pub All-unlink : (id : ℕ) (rs : List MemoryRegion) → All P rs → All P (unlink id rs)
  unfolding unlink
  All-unlink id [] a = a
  All-unlink id (r ∷ rs) (p, a) = elim (Bool-cases (r.id == id)) [
    | inl e ↦ rw (e, unlink) a
    | inr e ↦ rw (e, unlink) (p, All-unlink id rs a)
  ]

  All-kept : (kind : RegionType) (rs : List MemoryRegion) → All P rs → All P (kept kind rs)
  All-kept kind [] a = a
  All-kept kind (r ∷ rs) (p, a) = elim (Bool-cases (is_type kind r)) [
    | inl e ↦ rw (e, kept) (All-kept kind rs a)
    | inr e ↦ rw (e, kept) (p, All-kept kind rs a)
  ]

  pub find_id-All :
      (id : ℕ) (rs : List MemoryRegion) (r : MemoryRegion) → find_id id rs ≡ some r → All P rs → P r
  unfolding find_id
  find_id-All id [] r h a = ground arith
  find_id-All id (q ∷ rs) r h (p, a) = elim (Bool-cases (q.id == id)) [
    | inl e ↦ subst P (ground arith) p
    | inr e ↦ find_id-All id rs r (ground arith) a
  ]

pub find_id-id :
    (id : ℕ) (rs : List MemoryRegion) (r : MemoryRegion) → find_id id rs ≡ some r → r.id ≡ id
unfolding find_id
find_id-id id [] r h = ground arith
find_id-id id (q ∷ rs) r h = ground (arith, find_id-id id rs r, ==→eq q.id id)

pub find_id-below :
    (next : ℕ) (rs : List MemoryRegion) → All (IsBelow next) rs → find_id next rs ≡ none
unfolding find_id
find_id-below next [] a = refl
find_id-below next (r ∷ rs) (h, a) = ground (arith, find_id-below next rs a)

IsBelow-suc :
    (next : ℕ) (rs : List MemoryRegion) → All (IsBelow next) rs → All (IsBelow (next + 1)) rs
IsBelow-suc next [] a = tt
IsBelow-suc next (r ∷ rs) (h, a) = (omega arith, IsBelow-suc next rs a)

find_id-kept :
    (kind : RegionType) (id : ℕ) (rs : List MemoryRegion)
    → find_id id rs ≡ none
    → find_id id (kept kind rs) ≡ none
unfolding find_id
find_id-kept kind id [] h = refl
find_id-kept kind id (r ∷ rs) h = ground (arith, find_id-kept kind id rs)

kept-IsDistinct :
    (kind : RegionType) (rs : List MemoryRegion) → IsDistinct rs → IsDistinct (kept kind rs)
kept-IsDistinct kind [] d = d
kept-IsDistinct kind (r ∷ rs) (new, d) = elim (Bool-cases (is_type kind r)) [
  | inl e ↦ rw (e, kept) (kept-IsDistinct kind rs d)
  | inr e ↦ rw (e, kept) (find_id-kept kind r.id rs new, kept-IsDistinct kind rs d)
]

-- A new region has the next number, which no region has.
pub create-Inv :
    (n : ℕ) (m : RegionManager) (kind : RegionType) (capacity : ℕ) (name : Option (List ℕ))
    (memory : Option ℕ) (now : ℕ)
    → capacity < u64_mod
    → n + 1 < u64_mod
    → Inv n m
    → Inv (n + 1) (region_create m kind capacity name memory now).0
unfolding region_create
create-Inv n m kind capacity name none now c h i = record {
  distinct = i.distinct;
  alive = i.alive;
  below = i.below;
  counted = i.counted;
  bounded = omega (arith, i.bounded);
}
create-Inv n m kind capacity name (some memory) now c h i =
    let b = i.bounded in
    let next : (m.next_region_id + 1) % u64_mod ≡ m.next_region_id + 1 = omega arith in
    record {
      distinct = (find_id-below m.next_region_id m.regions i.below, i.distinct);
      alive = ((refl, c), i.alive);
      below = (
        omega (arith, next),
        subst (λ (t : ℕ). All (IsBelow t) m.regions) (sym next)
            (IsBelow-suc m.next_region_id m.regions i.below),
      );
      counted = (omega (arith, i.counted), omega (arith, i.counted));
      bounded = omega arith;
    }

pub destroy-Inv :
    (n : ℕ) (m : RegionManager) (id : ℕ) (r : MemoryRegion)
    → find_id id m.regions ≡ some r
    → Inv n m
    → Inv n (region_destroy m r)
unfolding region_destroy
destroy-Inv n m id r found i =
    let at = find_id-id id m.regions r found in
    let live = find_id-All IsAlive id m.regions r found i.alive in
    let own : find_id r.id m.regions ≡ some r = ap (λ (t : ℕ). find_id t m.regions) at ∙ found in
    record {
      distinct = rw live.0 (unlink-IsDistinct r.id m.regions i.distinct);
      alive = rw live.0 (All-unlink IsAlive r.id m.regions i.alive);
      below = rw live.0 (All-unlink (IsBelow m.next_region_id) r.id m.regions i.below);
      counted = region_destroy-IsCounted m r own live.1 i.counted;
      bounded = rw live.0 i.bounded;
    }

destroy_type-next_region_id :
    (kind : RegionType) (rs : List MemoryRegion) (m : RegionManager)
    → (destroy_type kind rs m).next_region_id ≡ m.next_region_id
unfolding destroy_type region_destroy
destroy_type-next_region_id kind [] m = refl
destroy_type-next_region_id kind (r ∷ rs) m = destroy_type-next_region_id kind rs _ ∙ ground arith

pub destroy_all-Inv :
    (n : ℕ) (m : RegionManager) (kind : RegionType) → Inv n m → Inv n (region_destroy_all m kind)
unfolding region_destroy_all
destroy_all-Inv n m kind i =
    let k = region_destroy_all-kept m kind i.distinct i.alive i.counted in
    let next = destroy_type-next_region_id kind m.regions m in
    record {
      distinct = rw k.0 (kept-IsDistinct kind m.regions i.distinct);
      alive = rw k.0 (All-kept IsAlive kind m.regions i.alive);
      below = rw (k.0, next) (All-kept (IsBelow m.next_region_id) kind m.regions i.below);
      counted = k.1;
      bounded = rw next i.bounded;
    }
