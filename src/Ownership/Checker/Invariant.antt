-- ===== src/Ownership/Checker/Invariant.antt =====
-- The invariant of the borrow checker: the counts of each variable agree with the list of active
-- borrows, and no variable is borrowed in both ways, or while moved or dropped.
use asteron.Prelude.{
  ℕ, zero, suc, ◌+◌, ◌≤◌, ◌≡◌, ◌≢◌, refl, sym, ap, ◌∙◌, ◌⊎◌, inl, inr, false, some, List, [], ◌∷◌,
  ◌++◌, ◌&&◌, not, arith, ◌==◌, if◌then◌else◌, length, get_elem?, get_elem?-lt, length-append,
  eq_cases,
}
use asteron.Ownership.Types.{
  owned, moved, dropped, OwnershipInfo, BorrowRegion, Variable, BorrowChecker,
}
use asteron.Ownership.Table.{update_info}
use asteron.Ownership.Checker.{is_shared}

-- The active borrows of the variable `v` of either kind.
unfoldable pub shared_borrows : ℕ → List BorrowRegion → ℕ
shared_borrows v [] = 0
shared_borrows v (r ∷ rs) =
    (if r.var_id == v && is_shared r.borrow_type then 1 else 0) + shared_borrows v rs

unfoldable pub mut_borrows : ℕ → List BorrowRegion → ℕ
mut_borrows v [] = 0
mut_borrows v (r ∷ rs) =
    (if r.var_id == v && not (is_shared r.borrow_type) then 1 else 0) + mut_borrows v rs

pub shared_borrows-le : (v : ℕ) (rs : List BorrowRegion) → shared_borrows v rs ≤ length rs
unfolding shared_borrows
shared_borrows-le v [] = omega arith
shared_borrows-le v (r ∷ rs) = ground (arith, shared_borrows-le v rs)

-- A variable with `s` shared and `m` mutable borrows.
pub record IsTracked (s m : ℕ) (o : OwnershipInfo) : Type 0 where
  pub count : o.borrow_count ≡ s
  pub flag : m ≡ (if o.is_mut_borrowed then 1 else 0)
  pub exclusive : (s ≡ 0) ⊎ (m ≡ 0)
  pub idle : (o.state ≡ owned) ⊎ (((o.state ≡ moved) ⊎ (o.state ≡ dropped)) × (s ≡ 0) × (m ≡ 0))

-- `n` bounds the number of active borrows.
pub record Inv (n : ℕ) (vars : List Variable) (regions : List BorrowRegion) : Type 0 where
  pub tracked :
      (v : ℕ) (x : Variable)
      → get_elem? vars v ≡ some x
      → IsTracked (shared_borrows v regions) (mut_borrows v regions) x.ownership
  pub no_stray :
      (v : ℕ) → length vars ≤ v → (shared_borrows v regions ≡ 0) × (mut_borrows v regions ≡ 0)
  pub few : length regions ≤ n

abbrev pub InvOf : ℕ → BorrowChecker → Type 0
InvOf n bc = Inv n bc.variables bc.active_borrows

pub Inv-mono :
    (n k : ℕ) (vars : List Variable) (regions : List BorrowRegion)
    → n ≤ k
    → Inv n vars regions
    → Inv k vars regions
Inv-mono n k vars regions h i = record {
  tracked = i.tracked;
  no_stray = i.no_stray;
  few = omega (arith, i.few);
}

pub length-update_info :
    (f : OwnershipInfo → OwnershipInfo) (i : ℕ) (xs : List Variable)
    → length (update_info f i xs) ≡ length xs
unfolding update_info
length-update_info f i [] = refl
length-update_info f zero (x ∷ xs) = refl
length-update_info f (suc i) (x ∷ xs) = ap suc (length-update_info f i xs)

pub get_elem?-update_info_self :
    (f : OwnershipInfo → OwnershipInfo) (i : ℕ) (xs : List Variable) (x : Variable)
    → get_elem? xs i ≡ some x
    → get_elem? (update_info f i xs) i ≡ some (record x { ownership = f x.ownership })
unfolding update_info
get_elem?-update_info_self f i [] x h = ground arith
get_elem?-update_info_self f zero (y ∷ ys) x h = ground arith
get_elem?-update_info_self f (suc i) (y ∷ ys) x h = get_elem?-update_info_self f i ys x h

pub get_elem?-update_info_ne :
    (f : OwnershipInfo → OwnershipInfo) (i j : ℕ) (xs : List Variable)
    → i ≢ j
    → get_elem? (update_info f i xs) j ≡ get_elem? xs j
unfolding update_info
get_elem?-update_info_ne f i j [] h = refl
get_elem?-update_info_ne f zero zero (x ∷ xs) h = absurd (h refl)
get_elem?-update_info_ne f zero (suc j) (x ∷ xs) h = refl
get_elem?-update_info_ne f (suc i) zero (x ∷ xs) h = refl
get_elem?-update_info_ne f (suc i) (suc j) (x ∷ xs) h =
    get_elem?-update_info_ne f i j xs (λ e. h (ap suc e))

get_elem?-snoc :
    (xs : List Variable) (x : Variable) (i : ℕ) (y : Variable)
    → get_elem? (xs ++ x ∷ []) i ≡ some y
    → (get_elem? xs i ≡ some y) ⊎ ((length xs ≤ i) × (x ≡ y))
get_elem?-snoc [] x zero y h = inr (omega arith, ground arith)
get_elem?-snoc [] x (suc i) y h = ground arith
get_elem?-snoc (z ∷ zs) x zero y h = inl h
get_elem?-snoc (z ∷ zs) x (suc i) y h = ground (arith, get_elem?-snoc zs x i y h)

-- A change of the borrows of one variable, with the matching change of its counts.
pub Inv-update :
    (n k v : ℕ) (x : Variable) (vars : List Variable) (regions regions' : List BorrowRegion)
    (f : OwnershipInfo → OwnershipInfo)
    → Inv n vars regions
    → get_elem? vars v ≡ some x
    → IsTracked (shared_borrows v regions') (mut_borrows v regions') (f x.ownership)
    → ((j : ℕ)
        → v ≢ j
        → (shared_borrows j regions' ≡ shared_borrows j regions)
          × (mut_borrows j regions' ≡ mut_borrows j regions))
    → length regions' ≤ k
    → Inv k (update_info f v vars) regions'
Inv-update n k v x vars regions regions' f i e t others few = record {
  tracked = λ j y h. elim (eq_cases v j) [
    | inl same ↦ ground (arith, get_elem?-update_info_self f v vars x e, t)
    | inr apart ↦
        let ne : v ≢ j = ground arith in
        let o = others j ne in
        rw (o.0, o.1) (i.tracked j y (sym (get_elem?-update_info_ne f v j vars ne) ∙ h))
  ];
  no_stray = λ j h.
      let inside = get_elem?-lt vars v x e in
      let ne : v ≢ j = omega (arith, length-update_info f v vars) in
      let o = others j ne in
      rw (o.0, o.1) (i.no_stray j (omega (arith, length-update_info f v vars)));
  few = few;
}

-- A change that leaves the borrows alone.
pub Inv-same_regions :
    (n v : ℕ) (x : Variable) (vars : List Variable) (regions : List BorrowRegion)
    (f : OwnershipInfo → OwnershipInfo)
    → Inv n vars regions
    → get_elem? vars v ≡ some x
    → IsTracked (shared_borrows v regions) (mut_borrows v regions) (f x.ownership)
    → Inv n (update_info f v vars) regions
Inv-same_regions n v x vars regions f i e t =
    Inv-update n n v x vars regions regions f i e t (λ j ne. (refl, refl)) i.few

-- A new variable has no borrows.
pub Inv-new_var :
    (n : ℕ) (x : Variable) (vars : List Variable) (regions : List BorrowRegion)
    → Inv n vars regions
    → x.ownership.borrow_count ≡ 0
    → x.ownership.is_mut_borrowed ≡ false
    → x.ownership.state ≡ owned
    → Inv n (vars ++ x ∷ []) regions
Inv-new_var n x vars regions i c f o = record {
  tracked = λ v y h. ground (arith, i.tracked v y, i.no_stray v, get_elem?-snoc vars x v y h);
  no_stray = λ v h. i.no_stray v (omega (arith, length-append vars (x ∷ [])));
  few = i.few;
}
