-- ===== src/Sandbox/Manager.antt =====
-- src/core/sandbox/sandbox.c: the table of the sandboxes. The pointer that `calloc` gives for a new
-- context is an argument.
pub mod Leak
use asteron.Prelude.{
  ℕ, zero, suc, ◌+◌, ◌-◌, false, Option, none, some, List, [], ◌∷◌, ◌++◌, ◌==◌, if◌then◌else◌,
  length, take, set, get_or, get_elem?,
}
use asteron.Sandbox.Types.{SandboxLevel, sandbox_isolated, SandboxContext, SandboxManager}
use asteron.Sandbox.Context.{doubled, new_context}

unfoldable pub sandbox_manager_create : SandboxManager
sandbox_manager_create = record {
  sandboxes = [];
  sandbox_capacity = 16;
  default_level = sandbox_isolated;
  enforce_globally = false;
  total_sandboxes = 0;
}

-- The manager and the context at the pointer `ctx`.
unfoldable pub sandbox_create :
    SandboxManager → Option (List ℕ) → SandboxLevel → ℕ → ℕ → SandboxManager × SandboxContext
sandbox_create mgr name level vm ctx = (
  record mgr {
    sandboxes = mgr.sandboxes ++ ctx ∷ [];
    sandbox_capacity = doubled (length mgr.sandboxes) mgr.sandbox_capacity;
    total_sandboxes = mgr.total_sandboxes + 1;
  },
  new_context name level vm,
)

-- The place of the first pointer that is `ctx`.
unfoldable pub find_index : ℕ → List ℕ → Option ℕ
find_index ctx [] = none
find_index ctx (c ∷ cs) =
    let rest = find_index ctx cs in
    if c == ctx then some 0 else elim rest [ none ↦ none | some i ↦ some (suc i) ]

-- The last entry takes the place `i`, and the count goes down.
unfoldable pub remove_at : ℕ → List ℕ → List ℕ
remove_at i cs = take (length cs - 1) (set cs i (get_or cs (length cs - 1) 0))

abbrev pub remove_found : List ℕ → Option ℕ → List ℕ
remove_found cs none = cs
remove_found cs (some i) = remove_at i cs

-- The table after the call; the context itself is freed.
unfoldable pub sandbox_destroy : SandboxManager → ℕ → SandboxManager
sandbox_destroy mgr ctx = record mgr {
  sandboxes = remove_found mgr.sandboxes (find_index ctx mgr.sandboxes);
}

-- The loop of `sandbox_manager_destroy` from the index `i` on: the pointers that are destroyed, and
-- the manager at its end. The condition reads the count that `sandbox_destroy` lowers.
unfoldable pub destroy_from : ℕ → ℕ → SandboxManager → List ℕ × SandboxManager
destroy_from zero i mgr = ([], mgr)
destroy_from (suc fuel) i mgr = elim (get_elem? mgr.sandboxes i) [
  | none ↦ ([], mgr)
  | some ctx ↦
      (let (freed, left) = destroy_from fuel (suc i) (sandbox_destroy mgr ctx) in
        (ctx ∷ freed, left))
]

-- Each round destroys a context, so there are at most as many as contexts.
unfoldable pub sandbox_manager_destroy : SandboxManager → List ℕ × SandboxManager
sandbox_manager_destroy mgr = destroy_from (length mgr.sandboxes + 1) 0 mgr
