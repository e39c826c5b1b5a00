-- ===== src/Ownership/Checker/Preserve.antt =====
-- Every operation of the borrow checker keeps the invariant.
use asteron.Prelude.{
  ℕ, ◌+◌, ◌<◌, ◌≡◌, refl, inl, inr, Option, none, some, [], arith, length, get_elem?, Option-cases,
  u32_mod, String, Bool-cases, ltb, get_elem?-lt, get_elem?-exists,
}
use asteron.Ownership.Types.{
  owned, moved, OwnershipInfo, Variable, BorrowChecker, MemoryLayout, LifetimeId,
}
use asteron.Ownership.Table.{
  borrow_checker_create, add_error, borrow_checker_add_var, get_ownership, update_info,
}
use asteron.Ownership.Lifetimes.{
  borrow_checker_enter_scope, borrow_checker_exit_scope, borrow_checker_new_lifetime,
}
use asteron.Ownership.Checker.{
  borrow_var, borrow_checker_borrow, borrow_mut_var, borrow_checker_borrow_mut, move_var,
  borrow_checker_move, drop_var, borrow_checker_drop, borrow_checker_unborrow, is_moved, is_dropped,
  is_borrowed,
}
use asteron.Ownership.Checker.Invariant.{
  shared_borrows, mut_borrows, shared_borrows-le, IsTracked, InvOf, Inv-mono, Inv-update,
  Inv-same_regions, Inv-new_var, length-update_info,
}
use asteron.Ownership.Checker.Release.{release_region-Inv}

pub create-Inv : InvOf 0 borrow_checker_create
unfolding borrow_checker_create shared_borrows mut_borrows
create-Inv = record {
  tracked = λ v x h. absurd (omega (arith, get_elem?-lt [] v x h));
  no_stray = λ v h. (refl, refl);
  few = omega arith;
}

pub add_var-Inv :
    (n : ℕ) (bc : BorrowChecker) (name : String) (layout : MemoryLayout)
    → InvOf n bc
    → InvOf n (borrow_checker_add_var bc name layout).0
unfolding borrow_checker_add_var
add_var-Inv n bc name layout i = Inv-new_var n _ bc.variables bc.active_borrows i refl refl refl

borrow_var-Inv :
    (n : ℕ) (bc : BorrowChecker) (v : ℕ) (lt : LifetimeId) (x : Variable)
    → InvOf n bc
    → n + 1 < u32_mod
    → get_elem? bc.variables v ≡ some x
    → InvOf (n + 1) (borrow_var bc v lt x).0
unfolding borrow_var add_error
borrow_var-Inv n bc v lt x i h e =
    let t = i.tracked v x e in
    let kept = Inv-mono n (n + 1) bc.variables bc.active_borrows (omega arith) i in
    elim (Bool-cases (is_moved x.ownership.state)) [
      | inl q ↦ rw q kept
      | inr q ↦ rw q (elim (Bool-cases (is_dropped x.ownership.state)) [
        | inl d ↦ rw d kept
        | inr d ↦ rw d (elim (Bool-cases x.ownership.is_mut_borrowed) [
          | inl f ↦ rw f kept
          | inr f ↦ rw f (
              Inv-update n (n + 1) v x bc.variables bc.active_borrows _ _ i e
                (unfold shared_borrows mut_borrows in
                  (ground (arith, t, shared_borrows-le v bc.active_borrows, i.few)))
                (λ j ne. unfold shared_borrows mut_borrows in (ground arith))
                (omega (arith, i.few)))
        ])
      ])
    ]

borrow_mut_var-Inv :
    (n : ℕ) (bc : BorrowChecker) (v : ℕ) (lt : LifetimeId) (x : Variable)
    → InvOf n bc
    → get_elem? bc.variables v ≡ some x
    → InvOf (n + 1) (borrow_mut_var bc v lt x).0
unfolding borrow_mut_var add_error
borrow_mut_var-Inv n bc v lt x i e =
    let t = i.tracked v x e in
    let kept = Inv-mono n (n + 1) bc.variables bc.active_borrows (omega arith) i in
    elim (Bool-cases (is_moved x.ownership.state)) [
      | inl q ↦ rw q kept
      | inr q ↦ rw q (elim (Bool-cases (is_dropped x.ownership.state)) [
        | inl d ↦ rw d kept
        | inr d ↦ rw d (elim (Bool-cases (ltb 0 x.ownership.borrow_count)) [
          | inl c ↦ rw c kept
          | inr c ↦ rw c (elim (Bool-cases x.ownership.is_mut_borrowed) [
            | inl f ↦ rw f kept
            | inr f ↦ rw f (
                Inv-update n (n + 1) v x bc.variables bc.active_borrows _ _ i e
                  (unfold shared_borrows mut_borrows in (ground (arith, t)))
                  (λ j ne. unfold shared_borrows mut_borrows in (ground arith))
                  (omega (arith, i.few)))
          ])
        ])
      ])
    ]

move_into-IsTracked :
    (s m : ℕ) (o : OwnershipInfo) (owner line : ℕ)
    → IsTracked s m o
    → IsTracked s m (record o { state = owned; owner_id = owner; def_line = line })
move_into-IsTracked s m o owner line t = ground arith

move_var-Inv :
    (n : ℕ) (bc : BorrowChecker) (a b : ℕ) (x : Variable)
    → InvOf n bc
    → get_elem? bc.variables a ≡ some x
    → b < length bc.variables
    → InvOf n (move_var bc a b x).0
unfolding move_var add_error
move_var-Inv n bc a b x i e w =
    let t = i.tracked a x e in
    elim (Bool-cases (is_borrowed x.ownership)) [
      | inl q ↦ rw q i
      | inr q ↦ rw q (elim (Bool-cases (is_moved x.ownership.state)) [
        | inl d ↦ rw d i
        | inr d ↦
            let line = bc.current_line in
            let given = λ (o : OwnershipInfo). record o {
              state = moved;
              moved_to = b;
              last_use_line = line;
            } in
            let left =
              Inv-same_regions n a x bc.variables bc.active_borrows given i e (ground (arith, t)) in
            let (z, at_b) =
              get_elem?-exists (update_info given a bc.variables) b
                (omega (arith, length-update_info given a bc.variables)) in
            rw d (
              Inv-same_regions n b z _ _ _ left at_b
                (move_into-IsTracked _ _ z.ownership _ line (left.tracked b z at_b)))
      ])
    ]

drop_var-Inv :
    (n : ℕ) (bc : BorrowChecker) (v : ℕ) (x : Variable)
    → InvOf n bc
    → get_elem? bc.variables v ≡ some x
    → InvOf n (drop_var bc v x).0
unfolding drop_var add_error
drop_var-Inv n bc v x i e =
    let t = i.tracked v x e in
    elim (Bool-cases (is_borrowed x.ownership)) [
      | inl q ↦ rw q i
      | inr q ↦ rw q (elim (Bool-cases (is_dropped x.ownership.state)) [
        | inl d ↦ rw d i
        | inr d ↦ rw d (elim (Bool-cases (is_moved x.ownership.state)) [
          | inl m ↦ rw m i
          | inr m ↦
              rw m (Inv-same_regions n v x bc.variables bc.active_borrows _ i e (ground (arith, t)))
        ])
      ])
    ]

-- A split on the variable that a call names.
with_var {ℓ} :
    {P : Type ℓ} (bc : BorrowChecker) (v : ℕ)
    → (get_elem? bc.variables v ≡ none → P)
    → ((x : Variable) → get_elem? bc.variables v ≡ some x → P)
    → P
with_var bc v missing found = elim (Option-cases (get_elem? bc.variables v)) [
  | inl e ↦ missing e
  | inr (x, e) ↦ found x e
]

module _ (n : ℕ) (bc : BorrowChecker) (i : InvOf n bc) where
  kept : InvOf (n + 1) bc
  kept = Inv-mono n (n + 1) bc.variables bc.active_borrows (omega arith) i

  pub borrow-Inv :
      (v : ℕ) (lt : LifetimeId) → n + 1 < u32_mod → InvOf (n + 1) (borrow_checker_borrow bc v lt).0
  unfolding borrow_checker_borrow get_ownership
  borrow-Inv v lt h =
      with_var bc v (λ e. rw (e, borrow_checker_borrow) kept)
        (λ x e. rw (e, borrow_checker_borrow) (borrow_var-Inv n bc v lt x i h e))

  pub borrow_mut-Inv :
      (v : ℕ) (lt : LifetimeId) → InvOf (n + 1) (borrow_checker_borrow_mut bc v lt).0
  unfolding borrow_checker_borrow_mut get_ownership
  borrow_mut-Inv v lt =
      with_var bc v (λ e. rw (e, borrow_checker_borrow_mut) kept)
        (λ x e. rw (e, borrow_checker_borrow_mut) (borrow_mut_var-Inv n bc v lt x i e))

  pub move-Inv : (a b : ℕ) → InvOf n (borrow_checker_move bc a b).0
  unfolding borrow_checker_move get_ownership
  move-Inv a b =
      with_var bc a (λ e. rw (e, borrow_checker_move) i)
        (λ x e.
          with_var bc b (λ f. rw (e, f, borrow_checker_move) i)
            (λ y f.
              rw (e, f, borrow_checker_move)
                (move_var-Inv n bc a b x i e (get_elem?-lt bc.variables b y f))))

  pub drop-Inv : (v : ℕ) → InvOf n (borrow_checker_drop bc v).0
  unfolding borrow_checker_drop get_ownership
  drop-Inv v =
      with_var bc v (λ e. rw (e, borrow_checker_drop) i)
        (λ x e. rw (e, borrow_checker_drop) (drop_var-Inv n bc v x i e))

  pub unborrow-Inv : (v : ℕ) → InvOf n (borrow_checker_unborrow bc v)
  unfolding borrow_checker_unborrow get_ownership
  unborrow-Inv v =
      with_var bc v (λ e. rw (e, borrow_checker_unborrow) i)
        (λ x e. rw (e, borrow_checker_unborrow) (release_region-Inv n bc v x i e))

  pub enter_scope-Inv : InvOf n (borrow_checker_enter_scope bc)
  unfolding borrow_checker_enter_scope
  enter_scope-Inv = i

  pub exit_scope-Inv : InvOf n (borrow_checker_exit_scope bc)
  unfolding borrow_checker_exit_scope
  exit_scope-Inv = elim (Bool-cases (ltb 0 bc.current_scope)) [
    | inl e ↦ rw (e, borrow_checker_exit_scope) i
    | inr e ↦ rw (e, borrow_checker_exit_scope) i
  ]

  pub new_lifetime-Inv : (name : Option String) → InvOf n (borrow_checker_new_lifetime bc name).0
  unfolding borrow_checker_new_lifetime
  new_lifetime-Inv name = i
