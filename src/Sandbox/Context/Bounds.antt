-- ===== src/Sandbox/Context/Bounds.antt =====
-- src/core/sandbox/sandbox.c: the arrays of a context over runs of its operations.
use asteron.Prelude.{
  ℕ, zero, suc, ◌≤◌, ◌<◌, ◌≡◌, refl, sym, subst, ◌⊎◌, Option, List, [], ◌∷◌, ◌++◌, arith, length,
  length-append, take, All, inl, inr,
}
use asteron.Sandbox.Types.{
  SandboxContext, SandboxLevel, sandbox_none, sandbox_read_only, sandbox_isolated, sandbox_strict,
}
use asteron.Sandbox.Context.{
  sandbox_enter, sandbox_exit, sandbox_allow_variable, sandbox_allow_function,
  sandbox_log_violation, sandbox_check_permission, sandbox_clear_violations, new_context,
  level_permissions, doubled, log_entry,
}

pub data ContextOp : Type 0 where
  enter exit : Option ℕ → ContextOp
  allow_variable allow_function : List ℕ → ContextOp
  check_permission : List ℕ → List ℕ → ContextOp
  clear_violations : ContextOp

unfoldable pub step : SandboxContext → ContextOp → SandboxContext
step ctx (enter env) = (sandbox_enter ctx env).0
step ctx (exit env) = (sandbox_exit ctx env).0
step ctx (allow_variable name) = sandbox_allow_variable ctx name
step ctx (allow_function name) = sandbox_allow_function ctx name
step ctx (check_permission operation resource) = (sandbox_check_permission ctx operation resource).0
step ctx clear_violations = sandbox_clear_violations ctx

unfoldable pub run : SandboxContext → List ContextOp → SandboxContext
run ctx [] = ctx
run ctx (op ∷ ops) = run (step ctx op) ops

abbrev IsEntry : List ℕ → Type 0
IsEntry entry = length entry ≤ 255

-- An array of `count` names has room for them.
abbrev pub HasRoom : ℕ → ℕ → Type 0
HasRoom count capacity = (count ≤ capacity) × (0 < capacity)

pub record Inv (ctx : SandboxContext) : Type 0 where
  pub variables : HasRoom (length ctx.perms.allowed_variables) ctx.perms.allowed_capacity
  pub functions : HasRoom (length ctx.perms.allowed_functions) ctx.perms.allowed_func_capacity
  pub log : HasRoom (length ctx.tracking.violation_log) ctx.tracking.log_capacity
  pub counted : ctx.tracking.violations ≡ length ctx.tracking.violation_log
  pub entries : All IsEntry ctx.tracking.violation_log

length-take-le : (n : ℕ) (xs : List ℕ) → length (take n xs) ≤ n
length-take-le zero xs = omega arith
length-take-le (suc n) [] = omega arith
length-take-le (suc n) (x ∷ xs) = omega (arith, length-take-le n xs)

All-append :
    (xs : List (List ℕ)) (x : List ℕ) → All IsEntry xs → IsEntry x → All IsEntry (xs ++ x ∷ [])
All-append [] x a h = (h, tt)
All-append (y ∷ xs) x (p, a) h = (p, All-append xs x a h)

-- The capacity is doubled before the write, so the write is within it.
doubled-HasRoom :
    (xs : List (List ℕ)) (x : List ℕ) (capacity : ℕ)
    → HasRoom (length xs) capacity
    → HasRoom (length (xs ++ x ∷ [])) (doubled (length xs) capacity)
unfolding doubled
doubled-HasRoom xs x capacity h =
    let more = length-append xs (x ∷ []) in (ground (arith, more), ground arith)

log_violation-Inv :
    (ctx : SandboxContext) (operation resource : List ℕ)
    → Inv ctx
    → Inv (sandbox_log_violation ctx operation resource)
unfolding sandbox_log_violation log_entry
log_violation-Inv ctx operation resource i = record {
  variables = i.variables;
  functions = i.functions;
  log = doubled-HasRoom ctx.tracking.violation_log _ ctx.tracking.log_capacity i.log;
  counted = omega (arith, i.counted, length-append ctx.tracking.violation_log (_ ∷ []));
  entries = All-append ctx.tracking.violation_log _ i.entries (length-take-le 255 _);
}

-- A check leaves the context or logs a violation.
check_cases :
    (ctx : SandboxContext) (operation resource : List ℕ)
    → ((sandbox_check_permission ctx operation resource).0 ≡ ctx)
      ⊎ ((sandbox_check_permission ctx operation resource).0
          ≡ sandbox_log_violation ctx operation resource)
unfolding sandbox_check_permission
check_cases ctx operation resource = ground arith

-- The state of the activity plays no part in the invariant.
Inv-same :
    (ctx after : SandboxContext)
    → after.perms ≡ ctx.perms
    → after.tracking ≡ ctx.tracking
    → Inv ctx
    → Inv after
Inv-same ctx after p t i = record {
  variables = rw p i.variables;
  functions = rw p i.functions;
  log = rw t i.log;
  counted = rw t i.counted;
  entries = rw t i.entries;
}

module _ (ctx : SandboxContext) (env : Option ℕ) where
  enter-perms : (sandbox_enter ctx env).0.perms ≡ ctx.perms
  unfolding sandbox_enter
  enter-perms = ground arith

  enter-tracking : (sandbox_enter ctx env).0.tracking ≡ ctx.tracking
  unfolding sandbox_enter
  enter-tracking = ground arith

  exit-perms : (sandbox_exit ctx env).0.perms ≡ ctx.perms
  unfolding sandbox_exit
  exit-perms = ground arith

  exit-tracking : (sandbox_exit ctx env).0.tracking ≡ ctx.tracking
  unfolding sandbox_exit
  exit-tracking = ground arith

step-Inv : (ctx : SandboxContext) (op : ContextOp) → Inv ctx → Inv (step ctx op)
unfolding step sandbox_enter sandbox_exit sandbox_allow_variable sandbox_allow_function
    sandbox_clear_violations
step-Inv ctx (enter env) i = Inv-same ctx _ (enter-perms ctx env) (enter-tracking ctx env) i
step-Inv ctx (exit env) i = Inv-same ctx _ (exit-perms ctx env) (exit-tracking ctx env) i
step-Inv ctx (allow_variable name) i = record {
  variables = doubled-HasRoom ctx.perms.allowed_variables name _ i.variables;
  functions = i.functions;
  log = i.log;
  counted = i.counted;
  entries = i.entries;
}
step-Inv ctx (allow_function name) i = record {
  variables = i.variables;
  functions = doubled-HasRoom ctx.perms.allowed_functions name _ i.functions;
  log = i.log;
  counted = i.counted;
  entries = i.entries;
}
step-Inv ctx (check_permission operation resource) i = elim (check_cases ctx operation resource) [
  | inl e ↦ subst Inv (sym e) i
  | inr e ↦ subst Inv (sym e) (log_violation-Inv ctx operation resource i)
]
step-Inv ctx clear_violations i = record {
  variables = i.variables;
  functions = i.functions;
  log = (omega arith, i.log.1);
  counted = refl;
  entries = tt;
}

run-Inv : (ctx : SandboxContext) (ops : List ContextOp) → Inv ctx → Inv (run ctx ops)
unfolding run
run-Inv ctx [] i = i
run-Inv ctx (op ∷ ops) i = run-Inv (step ctx op) ops (step-Inv ctx op i)

level_variables :
    (level : SandboxLevel)
    → HasRoom
        (length (level_permissions level).allowed_variables)
        (level_permissions level).allowed_capacity
unfolding level_permissions
level_variables sandbox_none = (omega arith, omega arith)
level_variables sandbox_read_only = (omega arith, omega arith)
level_variables sandbox_isolated = (omega arith, omega arith)
level_variables sandbox_strict = (omega arith, omega arith)

level_functions :
    (level : SandboxLevel)
    → HasRoom
        (length (level_permissions level).allowed_functions)
        (level_permissions level).allowed_func_capacity
unfolding level_permissions
level_functions sandbox_none = (omega arith, omega arith)
level_functions sandbox_read_only = (omega arith, omega arith)
level_functions sandbox_isolated = (omega arith, omega arith)
level_functions sandbox_strict = (omega arith, omega arith)

new_context-Inv :
    (name : Option (List ℕ)) (level : SandboxLevel) (vm : ℕ) → Inv (new_context name level vm)
unfolding new_context
new_context-Inv name level vm = record {
  variables = level_variables level;
  functions = level_functions level;
  log = (omega arith, omega arith);
  counted = refl;
  entries = tt;
}

-- Over any run of entries, exits, additions to the white lists, checks and clearings of a new
-- sandbox of any level: each of the three arrays has room for its entries; the number of violations
-- is the number of entries of the log since the last clearing, and no entry is longer than the 255
-- bytes that its 256 hold.
pub run-HasRoom :
    (name : Option (List ℕ)) (level : SandboxLevel) (vm : ℕ) (ops : List ContextOp)
    → Inv (run (new_context name level vm) ops)
run-HasRoom name level vm ops =
    run-Inv (new_context name level vm) ops (new_context-Inv name level vm)
