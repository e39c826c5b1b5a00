-- ===== src/Ownership/Checker/Release.antt =====
-- The end of a borrow: the region that leaves the list, and the invariant after it.
use mathlib.Core.Path.{subst₂}
use asteron.Prelude.{
  ℕ, suc, ◌+◌, ◌≡◌, ◌≢◌, refl, ap, inl, inr, true, false, some, List, [], ◌∷◌, not, arith, ◌==◌,
  if◌then◌else◌, length, get_elem?, Option-cases, Bool-cases,
}
use asteron.Ownership.Types.{OwnershipInfo, BorrowRegion, Variable, BorrowChecker}
use asteron.Ownership.Checker.{take_region, release_region, is_shared, release_borrow}
use asteron.Ownership.Checker.Invariant.{shared_borrows, mut_borrows, IsTracked, InvOf, Inv-update}

-- What the walk over the borrows finds and leaves.
record Taken (v : ℕ) (rs : List BorrowRegion) (r : BorrowRegion) (rest : List BorrowRegion)
    : Type 0 where
  shared_less :
      shared_borrows v rs ≡ (if is_shared r.borrow_type then 1 else 0) + shared_borrows v rest
  mut_less :
      mut_borrows v rs ≡ (if not (is_shared r.borrow_type) then 1 else 0) + mut_borrows v rest
  others_shared : (j : ℕ) → v ≢ j → shared_borrows j rest ≡ shared_borrows j rs
  others_mut : (j : ℕ) → v ≢ j → mut_borrows j rest ≡ mut_borrows j rs
  shorter : length rs ≡ suc (length rest)

Taken-hit :
    (v : ℕ) (q : BorrowRegion) (rs : List BorrowRegion)
    → (q.var_id == v) ≡ true
    → Taken v (q ∷ rs) q rs
unfolding shared_borrows mut_borrows
Taken-hit v q rs h = record {
  shared_less = ground arith;
  mut_less = ground arith;
  others_shared = λ j ne. ground arith;
  others_mut = λ j ne. ground arith;
  shorter = refl;
}

Taken-miss :
    (v : ℕ) (q r : BorrowRegion) (rs rest : List BorrowRegion)
    → (q.var_id == v) ≡ false
    → Taken v rs r rest
    → Taken v (q ∷ rs) r (q ∷ rest)
unfolding shared_borrows mut_borrows
Taken-miss v q r rs rest h t = record {
  shared_less = ground (arith, t.shared_less);
  mut_less = ground (arith, t.mut_less);
  others_shared = λ j ne. ground (arith, t.others_shared j ne);
  others_mut = λ j ne. ground (arith, t.others_mut j ne);
  shorter = ap suc t.shorter;
}

take_region-Taken :
    (v : ℕ) (rs : List BorrowRegion) (r : BorrowRegion) (rest : List BorrowRegion)
    → take_region v rs ≡ some (r, rest)
    → Taken v rs r rest
unfolding take_region
take_region-Taken v [] r rest e = cc
take_region-Taken v (q ∷ rs) r rest e = elim (Bool-cases (q.var_id == v)) [
  | inl h ↦
      let e' : some (q, rs) ≡ some (r, rest) = rw (h, take_region) at e in
      subst₂ (Taken v (q ∷ rs)) (cc e') (cc e') (Taken-hit v q rs h)
  | inr h ↦ elim (Option-cases (take_region v rs)) [
    | inl f ↦ absurd (ground (arith, f))
    | inr ((r', rest'), f) ↦
        let e' : some (r', q ∷ rest') ≡ some (r, rest) = rw (h, f, take_region) at e in
        subst₂ (Taken v (q ∷ rs)) (cc e') (cc e')
          (Taken-miss v q r' rs rest' h (take_region-Taken v rs r' rest' f))
  ]
]

release-IsTracked :
    (v : ℕ) (o : OwnershipInfo) (rs rest : List BorrowRegion) (r : BorrowRegion)
    → IsTracked (shared_borrows v rs) (mut_borrows v rs) o
    → Taken v rs r rest
    → IsTracked (shared_borrows v rest) (mut_borrows v rest) (release_borrow r.borrow_type o)
release-IsTracked v o rs rest r t k = ground (arith, t, k.shared_less, k.mut_less)

pub release_region-Inv :
    (n : ℕ) (bc : BorrowChecker) (v : ℕ) (x : Variable)
    → InvOf n bc
    → get_elem? bc.variables v ≡ some x
    → InvOf n (release_region bc v)
unfolding release_region
release_region-Inv n bc v x i e = elim (Option-cases (take_region v bc.active_borrows)) [
  | inl f ↦ rw (f, release_region) i
  | inr ((r, rest), f) ↦
      let k = take_region-Taken v bc.active_borrows r rest f in
      rw (f, release_region)
        (Inv-update n n v x bc.variables bc.active_borrows rest _ i e
          (release-IsTracked v x.ownership bc.active_borrows rest r (i.tracked v x e) k)
          (λ j ne. (k.others_shared j ne, k.others_mut j ne)) (omega (arith, i.few, k.shorter)))
]
