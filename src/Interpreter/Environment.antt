-- ===== src/Interpreter/Environment.antt =====
-- src/core/interpreter/interpreter.c: the chain of scopes. A scope is the used part of its table, and
-- the chain is a list, the innermost scope first; the empty list is the null pointer.
use asteron.Prelude.{
  ℕ, Bool, true, false, Option, none, some, List, [], ◌∷◌, ◌++◌, if◌then◌else◌, ltb, length,
  bytes_eq,
}
use asteron.Interpreter.Values.{Numbers, Value, nil}

abbrev pub Text : Type 0
Text = List ℕ

abbrev pub env_table_max : ℕ
env_table_max = 256

module _ (n : Numbers) where
  abbrev pub Entry : Type 0
  Entry = Text × Value n

  abbrev pub Scope : Type 0
  Scope = List Entry

  abbrev pub Environment : Type 0
  Environment = List Scope

module _ {n : Numbers} where
  -- The loop over one table.
  unfoldable pub find_entry : Scope n → Text → Option (Value n)
  find_entry [] name = none
  find_entry ((key, value) ∷ es) name =
      let rest = find_entry es name in if bytes_eq key name then some value else rest

  unfoldable pub replace_entry : Scope n → Text → Value n → Option (Scope n)
  replace_entry [] name value = none
  replace_entry ((key, old) ∷ es) name value =
      let rest = replace_entry es name value in
      if bytes_eq key name
      then some ((key, value) ∷ es)
      else elim rest [ none ↦ none | some es' ↦ some ((key, old) ∷ es') ]

  unfoldable pub environment_create : Environment n → Environment n
  environment_create parent = [] ∷ parent

  abbrev pub has_entry : Option (Value n) → Bool → Bool
  has_entry (some v) above = true
  has_entry none above = above

  unfoldable pub environment_has : Environment n → Text → Bool
  environment_has [] name = false
  environment_has (scope ∷ parents) name =
      has_entry (find_entry scope name) (environment_has parents name)

  abbrev pub set_new : Scope n → Environment n → Text → Value n → Environment n → Environment n
  set_new scope parents name value above =
      if environment_has parents name
      then scope ∷ above
      else if ltb (length scope) env_table_max
      then (scope ++ (name, value) ∷ []) ∷ parents
      else scope ∷ parents

  -- A name of an outer scope is set there; a new name is set in the innermost scope, if there is room.
  unfoldable pub environment_set : Environment n → Text → Value n → Environment n
  unfolding environment_has
  environment_set [] name value = []
  environment_set (scope ∷ parents) name value =
      let above = environment_set parents name value in
      elim (replace_entry scope name value) [
        | some scope' ↦ scope' ∷ parents
        | none ↦ set_new scope parents name value above
      ]

  abbrev pub found_or : Option (Value n) → Value n → Value n
  found_or (some v) above = v
  found_or none above = above

  unfoldable pub environment_get : Environment n → Text → Value n
  environment_get [] name = nil
  environment_get (scope ∷ parents) name =
      found_or (find_entry scope name) (environment_get parents name)

  -- The last entry before the others.
  unfoldable pub last_first : Scope n → Scope n
  last_first [] = []
  last_first (e ∷ []) = e ∷ []
  last_first (e ∷ d ∷ es) = elim (last_first (d ∷ es)) [ [] ↦ [] | l ∷ ds ↦ l ∷ e ∷ ds ]

  -- The last entry takes the place of the one that is removed.
  unfoldable pub remove_entry : Scope n → Text → Option (Scope n)
  unfolding last_first
  remove_entry [] name = none
  remove_entry ((key, value) ∷ es) name =
      let rest = remove_entry es name in
      if bytes_eq key name
      then some (last_first es)
      else elim rest [ none ↦ none | some es' ↦ some ((key, value) ∷ es') ]

  unfoldable pub environment_remove : Environment n → Text → Environment n
  environment_remove [] name = []
  environment_remove (scope ∷ parents) name =
      let above = environment_remove parents name in
      elim (remove_entry scope name) [ some scope' ↦ scope' ∷ parents | none ↦ scope ∷ above ]

  unfoldable pub frame_push : Environment n → Environment n
  frame_push current = environment_create current

  unfoldable pub frame_pop : Environment n → Environment n
  frame_pop [] = []
  frame_pop (scope ∷ parents) = parents
