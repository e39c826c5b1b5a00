-- ===== src/Interpreter/Functions.antt =====
-- The functions that a call can name: the function table of src/core/interpreter/interpreter.c, and the
-- native functions that are registered in src/core/vm/vm.c. A native function gives a value for its
-- arguments; what else it does is left out.
use asteron.Prelude.{
  ℕ, suc, Option, none, some, List, [], ◌∷◌, ◌++◌, if◌then◌else◌, ltb, length, bytes_eq,
}
use asteron.Ast.{Node}
use asteron.Interpreter.Values.{Numbers, Value, string, function, nil, c_string}
use asteron.Interpreter.Environment.{Text}

pub record Function : Type 0 where
  pub name : Text
  pub parameters : List Text
  pub body : Node

abbrev pub FunctionTable : Type 0
FunctionTable = List (Text × Function)

abbrev pub function_table_max : ℕ
function_table_max = 64

-- The entry of a name, by its place in the table.
unfoldable pub function_table_get : FunctionTable → Text → Option ℕ
function_table_get [] name = none
function_table_get ((key, func) ∷ es) name =
    let rest = function_table_get es name in
    if bytes_eq key name then some 0 else elim rest [ none ↦ none | some i ↦ some (suc i) ]

unfoldable pub replace_function : FunctionTable → Text → Function → Option FunctionTable
replace_function [] name func = none
replace_function ((key, old) ∷ es) name func =
    let rest = replace_function es name func in
    if bytes_eq key name
    then some ((key, func) ∷ es)
    else elim rest [ none ↦ none | some es' ↦ some ((key, old) ∷ es') ]

abbrev new_function : FunctionTable → Text → Function → FunctionTable
new_function table name func =
    if ltb (length table) function_table_max then table ++ (name, func) ∷ [] else table

-- A function that is new to a full table is dropped.
unfoldable pub function_table_set : FunctionTable → Text → Function → FunctionTable
unfolding replace_function
function_table_set table name func = elim (replace_function table name func) [
  | some table' ↦ table'
  | none ↦ new_function table name func
]

-- The most arguments are none for a negative number, as `print` is registered with.
pub record NativeFuncEntry (n : Numbers) : Type 0 where
  pub name : Text
  pub fn : List (Value n) → Value n
  pub min_args : ℕ
  pub max_args : Option ℕ

abbrev pub max_native_funcs : ℕ
max_native_funcs = 256

module _ {n : Numbers} where
  unfoldable pub vm_register_native :
      List (NativeFuncEntry n) → NativeFuncEntry n → List (NativeFuncEntry n)
  vm_register_native funcs entry =
      if ltb (length funcs) max_native_funcs then funcs ++ entry ∷ [] else funcs

  unfoldable pub vm_find_native : List (NativeFuncEntry n) → Text → Option (NativeFuncEntry n)
  vm_find_native [] name = none
  vm_find_native (e ∷ es) name =
      let rest = vm_find_native es name in if bytes_eq e.name name then some e else rest

  -- A function is no value of a native function.
  unfoldable pub value_to_asteron_value : Value n → Value n
  value_to_asteron_value (function i) = nil
  value_to_asteron_value v = v

  unfoldable pub asteron_value_to_value : Value n → Value n
  asteron_value_to_value (string s) = string (c_string s)
  asteron_value_to_value (function i) = nil
  asteron_value_to_value v = v
