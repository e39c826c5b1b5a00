-- ===== src/Sandbox/Types.antt =====
-- src/core/sandbox/sandbox.h: the data of the sandboxes. A text is the list of its bytes.
use asteron.Prelude.{ℕ, Bool, Option, List}

pub data SandboxLevel : Type 0 where
  sandbox_none sandbox_read_only sandbox_isolated sandbox_strict : SandboxLevel

-- The flags, and the two white lists; the counts are the lengths of the lists.
pub record SandboxPermissions : Type 0 where
  pub can_read_globals : Bool
  pub can_write_globals : Bool
  pub can_read_locals : Bool
  pub can_write_locals : Bool
  pub can_call_functions : Bool
  pub can_do_io : Bool
  pub can_do_network : Bool
  pub can_allocate_memory : Bool
  pub allowed_variables : List (List ℕ)
  pub allowed_capacity : ℕ
  pub allowed_functions : List (List ℕ)
  pub allowed_func_capacity : ℕ

-- The unnamed struct `tracking`.
pub record Tracking : Type 0 where
  pub violations : ℕ
  pub violation_log : List (List ℕ)
  pub log_capacity : ℕ

-- A pointer to a machine or to an environment is a number. The isolated machine and environment,
-- which no code sets, are left out.
pub record SandboxContext : Type 0 where
  pub level : SandboxLevel
  pub perms : SandboxPermissions
  pub original_vm : ℕ
  pub original_env : Option ℕ
  pub tracking : Tracking
  pub name : List ℕ
  pub is_active : Bool

-- The table of pointers to the contexts; a pointer is a number.
pub record SandboxManager : Type 0 where
  pub sandboxes : List ℕ
  pub sandbox_capacity : ℕ
  pub default_level : SandboxLevel
  pub enforce_globally : Bool
  pub total_sandboxes : ℕ
