-- ===== src/Sandbox/Manager/Leak.antt =====
-- src/core/sandbox/sandbox.c: how many contexts the destruction of the manager reaches.
use asteron.Prelude.{
  ℕ, zero, suc, ◌+◌, ◌-◌, ◌/◌, ◌≤◌, ◌≡◌, refl, ap, ◌∙◌, false, none, some, List, [], ◌∷◌, arith,
  length, length-set, take, set, get_or, get_elem?, get_elem?-lt, Option-cases, inl, inr, ◌==◌,
  eq→==, Bool-cases,
}
use asteron.Sandbox.Types.{SandboxManager}
use asteron.Sandbox.Manager.{
  find_index, remove_at, sandbox_destroy, destroy_from, sandbox_manager_destroy,
}

length-take {ℓ} : {A : Type ℓ} (n : ℕ) (xs : List A) → n ≤ length xs → length (take n xs) ≡ n
length-take zero xs h = refl
length-take (suc n) [] h = absurd (omega arith)
length-take (suc n) (x ∷ xs) h = ap suc (length-take n xs (omega arith))

-- A pointer of the table is found.
get_elem?-none : (cs : List ℕ) (i : ℕ) → get_elem? cs i ≡ none → length cs ≤ i
get_elem?-none [] i h = omega arith
get_elem?-none (c ∷ cs) zero h = ground arith
get_elem?-none (c ∷ cs) (suc i) h = omega (arith, get_elem?-none cs i h)

later :
    (c : ℕ) (cs : List ℕ) (i ctx : ℕ)
    → (c == ctx) ≡ false
    → get_elem? (c ∷ cs) i ≡ some ctx
    → get_elem? cs (i - 1) ≡ some ctx
later c cs zero ctx e h = ground (arith, eq→== c ctx)
later c cs (suc i) ctx e h = ap (get_elem? cs) (omega arith) ∙ h

find_index-exists :
    (cs : List ℕ) (i ctx : ℕ) → get_elem? cs i ≡ some ctx → (j : ℕ) × (find_index ctx cs ≡ some j)
unfolding find_index
find_index-exists [] i ctx h = ground arith
find_index-exists (c ∷ cs) i ctx h = elim (Bool-cases (c == ctx)) [
  | inl e ↦ (0, rw (e, find_index) refl)
  | inr e ↦
      (let (j, at) = find_index-exists cs (i - 1) ctx (later c cs i ctx e h) in
        (suc j, rw (e, at, find_index) refl))
]

length-sandbox_destroy :
    (mgr : SandboxManager) (i ctx : ℕ)
    → get_elem? mgr.sandboxes i ≡ some ctx
    → length (sandbox_destroy mgr ctx).sandboxes + 1 ≡ length mgr.sandboxes
unfolding sandbox_destroy remove_at
length-sandbox_destroy mgr i ctx h =
    let cs = mgr.sandboxes in
    let (j, found) = find_index-exists cs i ctx h in
    let few =
      length-take (length cs - 1) (set cs j (get_or cs (length cs - 1) 0))
        (omega (arith, length-set cs j (get_or cs (length cs - 1) 0))) in
    rw found (omega (arith, few, get_elem?-lt cs i ctx h))

-- From the index `i` on, the loop destroys every other context of the rest.
destroy_from-counts :
    (fuel i : ℕ) (mgr : SandboxManager)
    → i ≤ length mgr.sandboxes + 1
    → length mgr.sandboxes + 1 ≤ fuel + i
    → let (freed, left) = destroy_from fuel i mgr in
      (length freed + length left.sandboxes ≡ length mgr.sandboxes)
      × (length left.sandboxes ≡ (length mgr.sandboxes + i) / 2)
unfolding destroy_from
destroy_from-counts zero i mgr h f = (omega arith, omega arith)
destroy_from-counts (suc fuel) i mgr h f = elim (Option-cases (get_elem? mgr.sandboxes i)) [
  | inl e ↦
      let past : length mgr.sandboxes ≤ i = get_elem?-none mgr.sandboxes i e in
      rw (e, destroy_from) (omega arith, omega arith)
  | inr (ctx, e) ↦
      let fewer = length-sandbox_destroy mgr i ctx e in
      let inside = get_elem?-lt mgr.sandboxes i ctx e in
      let rest =
        destroy_from-counts fuel (suc i) (sandbox_destroy mgr ctx) (omega arith) (omega arith) in
      rw (e, destroy_from) (omega (arith, rest, fewer), omega (arith, rest, fewer))
]

-- The destruction of a manager destroys only half of its contexts, rounded up: those that are left in
-- the table when the loop ends are never freed.
pub sandbox_manager_destroy-half :
    (mgr : SandboxManager)
    → let (freed, left) = sandbox_manager_destroy mgr in
      (length left.sandboxes ≡ length mgr.sandboxes / 2)
      × (length freed ≡ length mgr.sandboxes - length mgr.sandboxes / 2)
unfolding sandbox_manager_destroy
sandbox_manager_destroy-half mgr =
    let counts = destroy_from-counts (length mgr.sandboxes + 1) 0 mgr (omega arith) (omega arith) in
    (omega (arith, counts), omega (arith, counts))
