-- ===== src/Sandbox/Context/Check.antt =====
-- src/core/sandbox/sandbox.c: what `sandbox_check_permission` grants.
use asteron.Prelude.{
  ℕ, zero, suc, get_elem?, ◌≡◌, ◌⊎◌, inl, inr, refl, ap, Bool, true, false, Option, some, List, [],
  ◌∷◌, arith, bytes_eq, bytes_eq→eq, bytes_eq_refl, length, ◌==◌, Bool-cases,
}
use asteron.Sandbox.Types.{SandboxContext}
use asteron.Sandbox.Context.{
  sandbox_check_permission, sandbox_log_violation, is_allowed, read_global, sandbox_enter,
  sandbox_exit,
}

-- The name stands at some place of the list.
abbrev pub IsListed : List ℕ → List (List ℕ) → Type 0
IsListed v vs = (i : ℕ) × (get_elem? vs i ≡ some v)

is_allowed→IsListed : (vs : List (List ℕ)) (v : List ℕ) → is_allowed vs v ≡ true → IsListed v vs
unfolding is_allowed
is_allowed→IsListed [] v h = ground arith
is_allowed→IsListed (u ∷ vs) v h = elim (Bool-cases (bytes_eq u v)) [
  | inl e ↦ (0, ap some (bytes_eq→eq u v e))
  | inr e ↦ (let (i, at) = is_allowed→IsListed vs v (ground arith) in (suc i, at))
]

IsListed→is_allowed :
    (vs : List (List ℕ)) (v : List ℕ) (i : ℕ) → get_elem? vs i ≡ some v → is_allowed vs v ≡ true
unfolding is_allowed
IsListed→is_allowed [] v i h = ground arith
IsListed→is_allowed (u ∷ vs) v zero h =
    let e : bytes_eq u v ≡ true = ground (arith, bytes_eq_refl u) in rw (e, is_allowed) refl
IsListed→is_allowed (u ∷ vs) v (suc i) h = ground (arith, IsListed→is_allowed vs v i h)

data WhiteList (vs : List (List ℕ)) (v : List ℕ) : Type 0 where
  empty : vs ≡ [] → WhiteList vs v
  found : IsListed v vs → (length vs == 0) ≡ false → is_allowed vs v ≡ true → WhiteList vs v
  missing :
      ¬ (vs ≡ [])
      → ¬ IsListed v vs
      → (length vs == 0) ≡ false
      → is_allowed vs v ≡ false
      → WhiteList vs v

white_list : (vs : List (List ℕ)) (v : List ℕ) → WhiteList vs v
white_list [] v = empty refl
white_list (u ∷ vs) v = elim (Bool-cases (is_allowed (u ∷ vs) v)) [
  | inl e ↦ found (is_allowed→IsListed (u ∷ vs) v e) (ground arith) e
  | inr e ↦
      missing (λ h. ground arith) (λ (i, at). ground (arith, IsListed→is_allowed (u ∷ vs) v i at))
        (ground arith) e
]

-- A read of the global variable `resource` is permitted.
abbrev pub IsPermitted : SandboxContext → List ℕ → Type 0
IsPermitted ctx resource =
    (ctx.perms.can_read_globals ≡ true)
    × ((ctx.perms.allowed_variables ≡ []) ⊎ IsListed resource ctx.perms.allowed_variables)

abbrev pub Answer : SandboxContext → List ℕ → SandboxContext × Bool → Type 0
Answer ctx resource answer =
    (IsPermitted ctx resource × (answer ≡ (ctx, true)))
    ⊎ ((¬ IsPermitted ctx resource)
        × (answer ≡ (sandbox_log_violation ctx read_global resource, false)))

-- In an active sandbox a read of a global variable is granted, and changes nothing, exactly if the
-- flag allows it and the white list of variables is empty or has the name; otherwise it is refused
-- and logged as a violation.
pub check_permission-read :
    (ctx : SandboxContext) (resource : List ℕ)
    → ctx.is_active ≡ true
    → Answer ctx resource (sandbox_check_permission ctx read_global resource)
unfolding sandbox_check_permission
check_permission-read ctx resource active = elim (Bool-cases ctx.perms.can_read_globals) [
  | inr denied ↦ inr (λ p. ground (arith, p.0, denied), rw (active, denied) refl)
  | inl reads ↦ elim (white_list ctx.perms.allowed_variables resource) [
    | empty e ↦ inl ((reads, inl e), rw (active, reads, e) refl)
    | found at some_names e ↦ inl ((reads, inr at), rw (active, reads, some_names, e) refl)
    | missing not_empty not_listed some_names e ↦ inr (
      λ p. elim p.1 [ inl h ↦ not_empty h | inr h ↦ not_listed h ],
      rw (active, reads, some_names, e) refl,
    )
  ]
]

-- A sandbox that is entered once keeps the environment of its machine: a second entry is refused and
-- changes nothing, and the exit gives back the environment of the entry, whatever the machine has
-- then, and leaves a context that can be entered again; a second exit is refused.
pub exit-enter :
    (ctx : SandboxContext) (original : ℕ) (env : Option ℕ)
    → ctx.is_active ≡ false
    → let inside = (sandbox_enter ctx (some original)).0 in
      let left = sandbox_exit inside env in
      (sandbox_enter inside env ≡ (inside, false))
      × (left.1 ≡ some original)
      × ((sandbox_enter left.0 env).1 ≡ true)
      × (sandbox_exit left.0 env ≡ (left.0, env, false))
unfolding sandbox_enter sandbox_exit
exit-enter ctx original env idle = rw idle (refl, refl, refl, refl)
