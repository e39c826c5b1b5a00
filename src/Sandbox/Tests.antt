-- ===== src/Sandbox/Tests.antt =====
-- Tests of the sandboxes, and their theorems at concrete data.
use asteron.Prelude.{
  ℕ, ◌-◌, ◌/◌, ◌≡◌, refl, true, false, Option, some, List, [], ◌∷◌, codes, length,
}
use asteron.Sandbox.Types.{
  SandboxContext, SandboxManager, sandbox_read_only, sandbox_isolated, sandbox_strict,
}
use asteron.Sandbox.Context.{
  new_context, level_permissions, sandbox_enter, sandbox_exit, sandbox_allow_variable,
  sandbox_check_permission, read_global, doubled,
}
use asteron.Sandbox.Context.Check.{check_permission-read, exit-enter, Answer}
use asteron.Sandbox.Context.Bounds
use asteron.Sandbox.Manager.{
  sandbox_manager_destroy, destroy_from, sandbox_destroy, find_index, remove_at,
}
use asteron.Sandbox.Manager.Leak.{sandbox_manager_destroy-half}

abbrev worker : Option (List ℕ)
worker = some (codes "worker")

-- A sandbox that only reads, entered, with one name on its white list.
abbrev reader : SandboxContext
reader = record {
  level = sandbox_read_only;
  perms = record {
    can_read_globals = true;
    can_write_globals = false;
    can_read_locals = true;
    can_write_locals = false;
    can_call_functions = true;
    can_do_io = false;
    can_do_network = false;
    can_allocate_memory = false;
    allowed_variables = codes "total" ∷ [];
    allowed_capacity = 8;
    allowed_functions = [];
    allowed_func_capacity = 8;
  };
  original_vm = 1;
  original_env = some 2;
  tracking = record { violations = 0; violation_log = []; log_capacity = 16 };
  name = codes "worker";
  is_active = true;
}

reader_is_made :
    sandbox_allow_variable
      (sandbox_enter (new_context worker sandbox_read_only 1) (some 2)).0
      (codes "total")
    ≡ reader
unfolding sandbox_allow_variable sandbox_enter new_context level_permissions doubled
reader_is_made = refl

read_example :
    Answer reader (codes "total") (sandbox_check_permission reader read_global (codes "total"))
read_example = check_permission-read reader (codes "total") refl

-- A context of the strict level, and one that permits writes, input and output, and the network.
abbrev strict_context : SandboxContext
strict_context = (sandbox_enter (new_context worker sandbox_strict 1) (some 2)).0

abbrev open_context : SandboxContext
open_context = record strict_context {
  perms = record strict_context.perms {
    can_write_globals = true;
    can_do_io = true;
    can_do_network = true;
  };
}

-- The strict level grants a write.
strict_write :
    (sandbox_check_permission strict_context (codes "write_global") (codes "total")).1 ≡ true
unfolding sandbox_check_permission sandbox_enter new_context
strict_write = refl

exit_example :
    let inside = (sandbox_enter (record reader { is_active = false }) (some 5)).0 in
    let left = sandbox_exit inside (some 7) in
    (sandbox_enter inside (some 7) ≡ (inside, false))
    × (left.1 ≡ some 5)
    × ((sandbox_enter left.0 (some 7)).1 ≡ true)
    × (sandbox_exit left.0 (some 7) ≡ (left.0, some 7, false))
exit_example = exit-enter (record reader { is_active = false }) 5 (some 7) refl

room_example : Bounds.Inv (
    Bounds.run (new_context worker sandbox_isolated 1) (
      Bounds.enter (some 2)
      ∷ Bounds.check_permission read_global (codes "total")
      ∷ Bounds.allow_variable (codes "total")
      ∷ []))
room_example = Bounds.run-HasRoom worker sandbox_isolated 1 (
    Bounds.enter (some 2)
    ∷ Bounds.check_permission read_global (codes "total")
    ∷ Bounds.allow_variable (codes "total")
    ∷ [])

-- A manager of three contexts.
abbrev three : SandboxManager
three = record {
  sandboxes = 10 ∷ 20 ∷ 30 ∷ [];
  sandbox_capacity = 16;
  default_level = sandbox_isolated;
  enforce_globally = false;
  total_sandboxes = 3;
}

three_freed : (sandbox_manager_destroy three).0 ≡ 10 ∷ 20 ∷ []
unfolding sandbox_manager_destroy destroy_from sandbox_destroy find_index remove_at
three_freed = refl

half_example :
    let (freed, left) = sandbox_manager_destroy three in
    (length left.sandboxes ≡ 3 / 2) × (length freed ≡ 3 - 3 / 2)
half_example = sandbox_manager_destroy-half three
