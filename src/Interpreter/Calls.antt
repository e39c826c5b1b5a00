-- ===== src/Interpreter/Calls.antt =====
-- src/core/interpreter/interpreter.c: the calls of functions and the expressions as a whole, over the
-- evaluation of an expression and the execution of a statement.
use asteron.Prelude.{
  ℕ, suc, Option, none, some, List, [], ◌∷◌, ◌==◌, if◌then◌else◌, length, map, get_elem?,
}
use asteron.Ast.{
  Node, Nodes, null, literal, identifier, unary_expression, binary_expression, function_call,
  return_statement, block, no_nodes, node, is_null,
}
use asteron.Outcome.{done, fault, null_dereference, ◌>>=◌, ◌>>◌, return}
use asteron.Interpreter.Values.{Numbers, Value, function, nil}
use asteron.Interpreter.Environment.{
  Text, Environment, environment_has, environment_get, environment_set, frame_push, frame_pop,
}
use asteron.Interpreter.Functions.{
  Function, FunctionTable, NativeFuncEntry, function_table_get, vm_find_native,
  value_to_asteron_value, asteron_value_to_value,
}
use asteron.Interpreter.Evaluate.{
  undefined_name, undefined_function, wrong_arguments, unknown_expression, Interpreter, Interp,
  report, literal_value, unary_value, binary_value,
}

unfoldable pub count_nodes : Nodes → ℕ
count_nodes no_nodes = 0
count_nodes (node x xs) = suc (count_nodes xs)

-- The entry that a pointer into the table points to.
abbrev pub function_at : FunctionTable → Option ℕ → Option Function
function_at table none = none
function_at table (some i) = elim (get_elem? table i) [ none ↦ none | some e ↦ some e.1 ]

module _ {n : Numbers} where
  -- The parameters in their order; the counts agree.
  unfoldable pub set_parameters : List Text → List (Value n) → Environment n → Environment n
  set_parameters (x ∷ xs) (v ∷ vs) env = set_parameters xs vs (environment_set env x v)
  set_parameters _ _ env = env

  unfoldable pub push_parameters : List Text → List (Value n) → Interp n (Unit {0})
  unfolding frame_push set_parameters
  push_parameters xs vs p = done tt (record p { env = set_parameters xs vs (frame_push p.env) })

  abbrev pub pop_frame : Interp n (Unit {0})
  pop_frame p = done tt (record p { env = frame_pop p.env })

  unfoldable pub evaluate_all : (Node → Interp n (Value n)) → Nodes → Interp n (List (Value n))
  evaluate_all evaluate no_nodes = return []
  evaluate_all evaluate (node e es) = do
    v ← evaluate e
    vs ← evaluate_all evaluate es
    return (v ∷ vs)

  unfoldable pub return_expression : (Node → Interp n (Value n)) → Node → Interp n (Value n)
  return_expression evaluate e = if is_null e then return nil else evaluate e

  -- The statements of a body, up to the first `return` that is one of them.
  unfoldable pub body_statements :
      (Node → Interp n (Value n)) → (Node → Interp n (Unit {0})) → Nodes → Interp n (Value n)
  unfolding return_expression
  body_statements evaluate execute no_nodes = return nil
  body_statements evaluate execute (node s ss) =
      let rest = body_statements evaluate execute ss in
      elim s [
        | null ↦ λ p. fault null_dereference
        | return_statement e ↦ return_expression evaluate e
        | other ↦ execute other >> rest
      ]

  unfoldable pub function_body :
      (Node → Interp n (Value n)) → (Node → Interp n (Unit {0})) → Node → Interp n (Value n)
  unfolding body_statements return_expression
  function_body evaluate execute null = λ p. fault null_dereference
  function_body evaluate execute (block ss) = body_statements evaluate execute ss
  function_body evaluate execute (return_statement e) = return_expression evaluate e
  function_body evaluate execute s = execute s >> return nil

  -- A call of the function at place `i` of the table, with its new scope.
  unfoldable pub call_function :
      (Node → Interp n (Value n))
      → (Node → Interp n (Unit {0}))
      → Text
      → Nodes
      → Function
      → Interp n (Value n)
  call_function evaluate execute name args func =
      let call : Interp n (Value n) = do
        vs ← evaluate_all evaluate args
        push_parameters func.parameters vs
        v ← function_body evaluate execute func.body
        pop_frame
        return v
      in if count_nodes args == length func.parameters
        then call
        else report (wrong_arguments name) nil

  unfoldable pub call_native :
      (Node → Interp n (Value n)) → Nodes → NativeFuncEntry n → Interp n (Value n)
  unfolding value_to_asteron_value asteron_value_to_value
  call_native evaluate args entry = do
    vs ← evaluate_all evaluate args
    return (asteron_value_to_value (entry.fn (map value_to_asteron_value vs)))

  abbrev pub function_value : Value n → Option ℕ
  function_value (function i) = some i
  function_value _ = none

  -- A function of the table comes before a function in a variable.
  unfoldable pub callee : Interpreter n → Text → Option Function
  callee p name = elim (function_table_get p.function_table name) [
    | some i ↦ function_at p.function_table (some i)
    | none ↦ function_at p.function_table (function_value (environment_get p.env name))
  ]

  unfoldable pub identifier_value : List (NativeFuncEntry n) → Text → Interp n (Value n)
  identifier_value natives name p =
      let or_native : Interp n (Value n) = elim (vm_find_native natives name) [
        | some entry ↦ return nil
        | none ↦ report (undefined_name name) nil
      ] in
      if environment_has p.env name
      then done (environment_get p.env name) p
      else elim (function_table_get p.function_table name) [
        | some i ↦ done (function i) p
        | none ↦ or_native p
      ]

  unfoldable pub call_value :
      List (NativeFuncEntry n)
      → (Node → Interp n (Value n))
      → (Node → Interp n (Unit {0}))
      → Text
      → Nodes
      → Interp n (Value n)
  unfolding callee call_function
  call_value natives evaluate execute name args p =
      let or_native : Interp n (Value n) = elim (vm_find_native natives name) [
        | some entry ↦ call_native evaluate args entry
        | none ↦ report (undefined_function name) nil
      ] in
      elim (callee p name) [
        | some func ↦ call_function evaluate execute name args func p
        | none ↦ or_native p
      ]

  unfoldable pub expression_body :
      List (NativeFuncEntry n)
      → (Node → Interp n (Value n))
      → (Node → Interp n (Unit {0}))
      → Node
      → Interp n (Value n)
  expression_body natives evaluate execute null = return nil
  expression_body natives evaluate execute (literal v) = return (literal_value v)
  expression_body natives evaluate execute (identifier name last_use) =
      identifier_value natives name
  expression_body natives evaluate execute (function_call name args) =
      call_value natives evaluate execute name args
  expression_body natives evaluate execute (unary_expression op e) =
      evaluate e >>= λ v. return (unary_value op v)
  expression_body natives evaluate execute (binary_expression l op r) =
      evaluate l >>= λ a. (evaluate r >>= λ b. binary_value op a b)
  expression_body natives evaluate execute e = report unknown_expression nil
