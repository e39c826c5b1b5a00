-- ===== src/Region/Manager/Destroy.antt =====
-- src/core/memory/region_memory.c: the loops that destroy many regions.
use asteron.Prelude.{
  ℕ, ◌%◌, ◌<◌, false, none, some, List, [], ◌∷◌, ◌++◌, ◌≡◌, refl, arith, length, All, u64_mod, inl,
  inr, ap, sym, ◌∙◌, Bool-cases, if◌then◌else◌,
}
use asteron.Region.Types.{MemoryRegion, RegionManager, RegionType}
use asteron.Region.Manager.{
  is_destroyed, is_type, unlink, find_id, region_destroy, region_destroy_all, destroy_type,
}
use asteron.Region.Manager.Find.{IsDistinct, IsAlive, capacities, length-unlink, capacities-unlink}

-- The counters of the manager agree with the list.
abbrev pub IsCounted : RegionManager → Type 0
IsCounted m =
    (m.active_regions ≡ length m.regions % u64_mod)
    × (m.total_allocated ≡ capacities m.regions % u64_mod)

pub region_destroy-IsCounted :
    (m : RegionManager) (r : MemoryRegion)
    → find_id r.id m.regions ≡ some r
    → r.capacity < u64_mod
    → IsCounted m
    → IsCounted (region_destroy m r)
unfolding region_destroy
region_destroy-IsCounted m r found small c = elim (Bool-cases (is_destroyed r.state)) [
  | inl gone ↦ rw gone c
  | inr alive ↦ rw alive (
    omega (arith, length-unlink r.id m.regions r found, c),
    omega (arith, capacities-unlink r.id m.regions r found, c),
  )
]

-- The regions of the list that are not of a type.
abbrev pub kept : RegionType → List MemoryRegion → List MemoryRegion
kept kind [] = []
kept kind (r ∷ rs) = if is_type kind r then kept kind rs else r ∷ kept kind rs

abbrev Apart : List MemoryRegion → List MemoryRegion → Type 0
Apart front rs = All (λ (r : MemoryRegion). find_id r.id front ≡ none) rs

find_id-append_none :
    (id : ℕ) (front rs : List MemoryRegion)
    → find_id id front ≡ none
    → find_id id (front ++ rs) ≡ find_id id rs
unfolding find_id
find_id-append_none id [] rs h = refl
find_id-append_none id (q ∷ front) rs h = ground (arith, find_id-append_none id front rs)

unlink-append_none :
    (id : ℕ) (front : List MemoryRegion) (r : MemoryRegion) (rs : List MemoryRegion)
    → find_id id front ≡ none
    → r.id ≡ id
    → unlink id (front ++ r ∷ rs) ≡ front ++ rs
unfolding find_id unlink
unlink-append_none id [] r rs h e = ground arith
unlink-append_none id (q ∷ front) r rs h e = ground (arith, unlink-append_none id front r rs)

find_id-head : (r : MemoryRegion) (rs : List MemoryRegion) → find_id r.id (r ∷ rs) ≡ some r
unfolding find_id
find_id-head r rs = ground arith

append_assoc :
    (front : List MemoryRegion) (r : MemoryRegion) (rs : List MemoryRegion)
    → front ++ r ∷ rs ≡ (front ++ r ∷ []) ++ rs
append_assoc [] r rs = refl
append_assoc (q ∷ front) r rs = ap (◌∷◌ q) (append_assoc front r rs)

-- A region that stays joins the front.
Apart-snoc :
    (front : List MemoryRegion) (r : MemoryRegion) (rs : List MemoryRegion)
    → find_id r.id rs ≡ none
    → Apart front rs
    → Apart (front ++ r ∷ []) rs
unfolding find_id
Apart-snoc front r [] h a = tt
Apart-snoc front r (q ∷ rs) h (new, a) = (
  find_id-append_none q.id front (r ∷ []) new ∙ ground arith,
  Apart-snoc front r rs (ground arith) a,
)

Apart-nil : (rs : List MemoryRegion) → Apart [] rs
unfolding find_id
Apart-nil [] = tt
Apart-nil (r ∷ rs) = (refl, Apart-nil rs)

module _ (front rs : List MemoryRegion) (m : RegionManager) (r : MemoryRegion)
    (e : m.regions ≡ front ++ r ∷ rs) (apart : find_id r.id front ≡ none) where
  destroyed_next : is_destroyed r.state ≡ false → (region_destroy m r).regions ≡ front ++ rs
  unfolding region_destroy
  destroyed_next alive =
      rw alive (ap (unlink r.id) e ∙ unlink-append_none r.id front r rs apart refl)

  found_next : find_id r.id m.regions ≡ some r
  found_next =
      ap (find_id r.id) e ∙ find_id-append_none r.id front (r ∷ rs) apart ∙ find_id-head r rs

abbrev Swept : RegionType → List MemoryRegion → List MemoryRegion → RegionManager → Type 0
Swept kind front rs m = (m.regions ≡ front ++ kept kind rs) × IsCounted m

sweep :
    (kind : RegionType) (front rs : List MemoryRegion) (m : RegionManager)
    → m.regions ≡ front ++ rs
    → Apart front rs
    → IsDistinct rs
    → All IsAlive rs
    → IsCounted m
    → Swept kind front rs (destroy_type kind rs m)
unfolding destroy_type
sweep kind front [] m e a d alive c = (e, c)
sweep kind front (r ∷ rs) m e (apart, a) (new, d) ((alive, small), rest) c =
    elim (Bool-cases (is_type kind r)) [
      | inr stays ↦
          rw (stays, destroy_type)
            (let swept =
                sweep kind (front ++ r ∷ []) rs m (e ∙ append_assoc front r rs)
                  (Apart-snoc front r rs new a) d rest c in
              (swept.0 ∙ sym (append_assoc front r (kept kind rs)), swept.1))
      | inl goes ↦
          rw (goes, destroy_type)
            (sweep kind front rs (region_destroy m r) (destroyed_next front rs m r e apart alive) a
              d rest (region_destroy-IsCounted m r (found_next front rs m r e apart) small c))
    ]

-- If the numbers of the list are distinct, `region_destroy_all` leaves exactly the regions of the
-- other types, in their order, and the counters agree with what is left.
pub region_destroy_all-kept :
    (m : RegionManager) (kind : RegionType)
    → IsDistinct m.regions
    → All IsAlive m.regions
    → IsCounted m
    → ((region_destroy_all m kind).regions ≡ kept kind m.regions)
      × IsCounted (region_destroy_all m kind)
unfolding region_destroy_all
region_destroy_all-kept m kind d alive c =
    sweep kind [] m.regions m refl (Apart-nil m.regions) d alive c
