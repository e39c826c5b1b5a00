-- ===== src/Sandbox/Context.antt =====
-- src/core/sandbox/sandbox.c: one sandbox, from its creation to the check of a permission.
pub mod Check
pub mod Bounds
use asteron.Prelude.{
  ℕ, ◌+◌, ◌*◌, Bool, true, false, Option, none, some, List, [], ◌∷◌, ◌++◌, not, leb, ◌==◌,
  if◌then◌else◌, length, take, codes, bytes_eq,
}
use asteron.Sandbox.Types.{
  SandboxLevel, sandbox_none, sandbox_read_only, sandbox_isolated, sandbox_strict,
  SandboxPermissions, SandboxContext,
}

-- All flags zero, and the two lists with room for eight names each.
abbrev pub no_permissions : SandboxPermissions
no_permissions = record {
  can_read_globals = false;
  can_write_globals = false;
  can_read_locals = false;
  can_write_locals = false;
  can_call_functions = false;
  can_do_io = false;
  can_do_network = false;
  can_allocate_memory = false;
  allowed_variables = [];
  allowed_capacity = 8;
  allowed_functions = [];
  allowed_func_capacity = 8;
}

-- The `switch` on the level.
unfoldable pub level_permissions : SandboxLevel → SandboxPermissions
level_permissions sandbox_none = record no_permissions {
  can_read_globals = true;
  can_write_globals = true;
  can_read_locals = true;
  can_write_locals = true;
  can_call_functions = true;
  can_do_io = true;
  can_do_network = true;
  can_allocate_memory = true;
}
level_permissions sandbox_read_only = record no_permissions {
  can_read_globals = true;
  can_read_locals = true;
  can_call_functions = true;
}
level_permissions sandbox_isolated = record no_permissions {
  can_read_locals = true;
  can_write_locals = true;
  can_call_functions = true;
}
level_permissions sandbox_strict = no_permissions

abbrev pub name_or_unnamed : Option (List ℕ) → List ℕ
name_or_unnamed none = codes "unnamed"
name_or_unnamed (some name) = name

-- The context that `sandbox_create` makes.
unfoldable pub new_context : Option (List ℕ) → SandboxLevel → ℕ → SandboxContext
new_context name level vm = record {
  level = level;
  perms = level_permissions level;
  original_vm = vm;
  original_env = none;
  tracking = record { violations = 0; violation_log = []; log_capacity = 16 };
  name = name_or_unnamed name;
  is_active = false;
}

-- `env` is the environment of the original machine; the result is that of the call.
unfoldable pub sandbox_enter : SandboxContext → Option ℕ → SandboxContext × Bool
sandbox_enter ctx env =
    if ctx.is_active
    then (ctx, false)
    else (record ctx { original_env = env; is_active = true }, true)

abbrev pub restored : Option ℕ → Option ℕ → Option ℕ
restored none env = env
restored (some original) env = some original

-- The new environment of the original machine stands in the middle.
unfoldable pub sandbox_exit : SandboxContext → Option ℕ → SandboxContext × Option ℕ × Bool
sandbox_exit ctx env =
    if ctx.is_active
    then (record ctx { is_active = false }, restored ctx.original_env env, true)
    else (ctx, env, false)

unfoldable pub sandbox_set_permissions : SandboxContext → SandboxPermissions → SandboxContext
sandbox_set_permissions ctx perms = record ctx { perms = perms }

-- `if (count >= capacity) capacity *= 2;`
unfoldable pub doubled : ℕ → ℕ → ℕ
doubled count capacity = if leb capacity count then capacity * 2 else capacity

unfoldable pub sandbox_allow_variable : SandboxContext → List ℕ → SandboxContext
sandbox_allow_variable ctx var_name = record ctx {
  perms = record ctx.perms {
    allowed_variables = ctx.perms.allowed_variables ++ var_name ∷ [];
    allowed_capacity = doubled (length ctx.perms.allowed_variables) ctx.perms.allowed_capacity;
  };
}

unfoldable pub sandbox_allow_function : SandboxContext → List ℕ → SandboxContext
sandbox_allow_function ctx func_name = record ctx {
  perms = record ctx.perms {
    allowed_functions = ctx.perms.allowed_functions ++ func_name ∷ [];
    allowed_func_capacity =
        doubled (length ctx.perms.allowed_functions) ctx.perms.allowed_func_capacity;
  };
}

-- `snprintf(entry, 256, "%s: %s on %s", …)` keeps 255 bytes.
unfoldable pub log_entry : List ℕ → List ℕ → List ℕ → List ℕ
log_entry name operation resource =
    take 255 (name ++ (codes ": " ++ (operation ++ (codes " on " ++ resource))))

unfoldable pub sandbox_log_violation : SandboxContext → List ℕ → List ℕ → SandboxContext
sandbox_log_violation ctx operation resource = record ctx {
  tracking = record {
    violations = ctx.tracking.violations + 1;
    violation_log = ctx.tracking.violation_log ++ log_entry ctx.name operation resource ∷ [];
    log_capacity = doubled (length ctx.tracking.violation_log) ctx.tracking.log_capacity;
  };
}

-- The loop over the white list.
unfoldable pub is_allowed : List (List ℕ) → List ℕ → Bool
is_allowed [] resource = false
is_allowed (v ∷ vs) resource =
    let rest = is_allowed vs resource in if bytes_eq v resource then true else rest

abbrev pub read_global : List ℕ
read_global = codes "read_global"

unfoldable pub sandbox_check_permission : SandboxContext → List ℕ → List ℕ → SandboxContext × Bool
sandbox_check_permission ctx operation resource =
    if not ctx.is_active
    then (ctx, false)
    else if bytes_eq operation read_global
    then (if not ctx.perms.can_read_globals
        then (sandbox_log_violation ctx operation resource, false)
        else if not (length ctx.perms.allowed_variables == 0)
        then (if is_allowed ctx.perms.allowed_variables resource
            then (ctx, true)
            else (sandbox_log_violation ctx operation resource, false))
        else (ctx, true))
    else (ctx, true)

-- The log and its count.
unfoldable pub sandbox_get_violations : SandboxContext → List (List ℕ) × ℕ
sandbox_get_violations ctx = (ctx.tracking.violation_log, length ctx.tracking.violation_log)

unfoldable pub sandbox_clear_violations : SandboxContext → SandboxContext
sandbox_clear_violations ctx = record ctx {
  tracking = record ctx.tracking { violations = 0; violation_log = [] };
}
