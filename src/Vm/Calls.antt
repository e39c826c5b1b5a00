-- ===== src/Vm/Calls.antt =====
-- src/core/vm/vm.c: the case of `vm_step` that calls a function, native or of the function table.
use asteron.Prelude.{
  ℕ, zero, suc, false, none, some, List, [], ◌∷◌, ◌++◌, if◌then◌else◌, ltb, leb, length, map,
  get_elem?,
}
use asteron.Ast.{
  Node, Nodes, null, variable_declaration, assignment, return_statement, block, no_nodes, node,
}
use asteron.Outcome.{
  Outcome, done, fault, out_of_fuel, null_dereference, buffer_overflow, ◌>>=◌, ◌>>◌, return,
}
use asteron.Interpreter.Values.{Numbers, Value, nil}
use asteron.Interpreter.Environment.{Text, frame_pop}
use asteron.Interpreter.Functions.{
  Function, NativeFuncEntry, function_table_get, vm_find_native, value_to_asteron_value,
  asteron_value_to_value,
}
use asteron.Interpreter.Evaluate.{Interpreter, Interp}
use asteron.Interpreter.Calls.{push_parameters, return_expression, function_at}
use asteron.Interpreter.Execute.{
  set_variable, interpreter_evaluate_expression, interpreter_execute_statement,
}
use asteron.Vm.Machine.{Vm, StepCode, Stepping, push, pop, next}

abbrev pub max_call_args : ℕ
max_call_args = 16

module _ {n : Numbers} where
  -- The value of a return that a statement has set, which is cleared; else the rest.
  unfoldable pub if_returned : Interp n (Value n) → Interp n (Value n)
  if_returned rest p =
      if p.has_returned
      then done p.return_value (record p { has_returned = false; return_value = nil })
      else rest p

  -- The statements of a body, up to the first that returns.
  unfoldable pub vm_body_statements :
      (Node → Interp n (Value n)) → (Node → Interp n (Unit {0})) → Nodes → Interp n (Value n)
  unfolding if_returned return_expression set_variable
  vm_body_statements evaluate execute no_nodes = if_returned (return nil)
  vm_body_statements evaluate execute (node s ss) =
      let rest = vm_body_statements evaluate execute ss in
      elim s [
        | null ↦ λ p. fault null_dereference
        | return_statement e ↦ return_expression evaluate e
        | assignment name e ↦ (evaluate e >>= set_variable name) >> rest
        | variable_declaration name e type_info escapes annotations ↦
            (evaluate e >>= set_variable name) >> rest
        | other ↦ execute other >> if_returned rest
      ]

  unfoldable pub vm_function_body :
      (Node → Interp n (Value n)) → (Node → Interp n (Unit {0})) → Node → Interp n (Value n)
  unfolding vm_body_statements return_expression
  vm_function_body evaluate execute null = λ p. fault null_dereference
  vm_function_body evaluate execute (block ss) = vm_body_statements evaluate execute ss
  vm_function_body evaluate execute (return_statement e) = return_expression evaluate e
  vm_function_body evaluate execute e = evaluate e

  -- The arguments in their order; the last one lies on top of the stack.
  unfoldable pub pop_args : ℕ → Vm n → Vm n × List (Value n)
  unfolding pop
  pop_args zero vm = (vm, [])
  pop_args (suc k) vm =
      let (vm1, v) = pop vm in let (vm2, vs) = pop_args k vm1 in (vm2, vs ++ v ∷ [])

  -- As many values as the stack has, up to the most that the function takes, or none.
  unfoldable pub target_argc : NativeFuncEntry n → Vm n → ℕ
  target_argc entry vm =
      let size = length vm.stack in
      elim entry.max_args [
        | none ↦ 0
        | some most ↦
            let argc = if ltb most size then most else size in
            if leb entry.min_args argc then argc else 0
      ]

  unfoldable pub native_step : NativeFuncEntry n → Stepping n
  unfolding target_argc pop_args push value_to_asteron_value asteron_value_to_value
  native_step entry vm =
      let argc = target_argc entry vm in
      let (vm1, vs) = pop_args argc vm in
      if ltb max_call_args argc
      then fault buffer_overflow
      else next (push (asteron_value_to_value (entry.fn (map value_to_asteron_value vs))) vm1)

  -- The interpreter's variables while it runs a function of the machine.
  abbrev enter : Vm n → Interpreter n
  enter vm = record vm.interpreter { env = vm.env; function_table = vm.function_table }

  -- The machine keeps its scopes, and the interpreter gets its own back.
  abbrev leave : Vm n → Interpreter n → Vm n
  leave vm p = record vm {
    env = frame_pop p.env;
    function_table = p.function_table;
    interpreter = record p {
      env = vm.interpreter.env;
      function_table = vm.interpreter.function_table;
    };
  }

  abbrev after_body : Vm n → Outcome (Interpreter n) (Value n) → Outcome (Vm n) StepCode
  after_body vm o = elim o [
    | done v p ↦ next (push v (leave vm p))
    | fault e ↦ fault e
    | out_of_fuel ↦ out_of_fuel
  ]

  unfoldable pub function_step : List (NativeFuncEntry n) → ℕ → Function → Stepping n
  unfolding push pop_args push_parameters vm_function_body
  function_step natives f func vm =
      let argc = length func.parameters in
      let (vm1, vs) = pop_args argc vm in
      let body : Interp n (Value n) =
        push_parameters func.parameters vs
        >> vm_function_body (interpreter_evaluate_expression natives f)
            (interpreter_execute_statement natives f) func.body in
      if ltb (length vm.stack) argc then next (push nil vm) else after_body vm1 (body (enter vm1))

  -- A name that no function has gives nil.
  unfoldable pub named_call : List (NativeFuncEntry n) → ℕ → Text → Stepping n
  unfolding push native_step function_step
  named_call natives f name vm =
      let or_function : Stepping n = λ m.
        elim (function_at m.function_table (function_table_get m.function_table name)) [
          | some func ↦ function_step natives f func m
          | none ↦ next (push nil m)
        ] in
      elim (vm_find_native natives name) [
        | some entry ↦ native_step entry vm
        | none ↦ or_function vm
      ]

  unfoldable pub call_step : List (NativeFuncEntry n) → ℕ → ℕ → Stepping n
  unfolding push named_call
  call_step natives f i vm = elim (get_elem? vm.program.variable_names i) [
    | none ↦ next (push nil vm)
    | some name ↦ named_call natives f name vm
  ]
