-- ===== src/Interpreter/Execute.antt =====
-- src/core/interpreter/interpreter.c: the statements, up to `interpreter_execute`.
use asteron.Prelude.{ℕ, zero, suc, true, List, [], ◌∷◌, ◌++◌, if◌then◌else◌}
use asteron.Ast.{
  Node, Nodes, null, variable_declaration, print_statement, if_statement, while_statement,
  for_statement, function_declaration, return_statement, block, no_nodes, node, is_null,
}
use asteron.Outcome.{done, out_of_fuel, ◌>>=◌, ◌>>◌, return}
use asteron.Interpreter.Values.{Numbers, Value, is_true, value_print}
use asteron.Interpreter.Environment.{Text, environment_create, environment_set}
use asteron.Interpreter.Functions.{Function, NativeFuncEntry, function_table_set}
use asteron.Interpreter.Evaluate.{unknown_statement, Interp, report}
use asteron.Interpreter.Calls.{return_expression, expression_body}

module _ {n : Numbers} where
  unfoldable pub set_variable : Text → Value n → Interp n (Unit {0})
  set_variable name v p = done tt (record p { env = environment_set p.env name v })

  unfoldable pub declare_function : Text → List Text → Node → Interp n (Unit {0})
  declare_function name params body p =
      let func : Function = record { name = name; parameters = params; body = body } in
      done tt (record p { function_table = function_table_set p.function_table name func })

  abbrev pub set_return : Value n → Interp n (Unit {0})
  set_return v p = done tt (record p { return_value = v; has_returned = true })

  -- `value_print` and a line feed.
  unfoldable pub print_value : Value n → Interp n (Unit {0})
  unfolding value_print
  print_value v p = done tt (record p { output = p.output ++ (value_print v ++ 10 ∷ []) ∷ [] })

  -- Nothing, if there was a return.
  unfoldable pub unless_returned : Interp n (Unit {0}) → Interp n (Unit {0})
  unless_returned k p = if p.has_returned then done tt p else k p

  unfoldable pub if_body :
      (Node → Interp n (Value n))
      → (Node → Interp n (Unit {0}))
      → Node
      → Node
      → Node
      → Interp n (Unit {0})
  if_body evaluate execute condition then_branch else_branch =
      evaluate condition >>= λ c. if is_true c then execute then_branch else execute else_branch

  unfoldable pub while_loop :
      ℕ
      → (Node → Interp n (Value n))
      → (Node → Interp n (Unit {0}))
      → Node
      → Node
      → Interp n (Unit {0})
  unfolding unless_returned
  while_loop zero evaluate execute condition body p = out_of_fuel
  while_loop (suc f) evaluate execute condition body p =
      let again : Interp n (Unit {0}) = while_loop f evaluate execute condition body in
      unless_returned
        (evaluate condition >>= λ c.
          if is_true c then execute body >> unless_returned again else return tt)
        p

  unfoldable pub increment_body :
      (Node → Interp n (Value n)) → (Node → Interp n (Unit {0})) → Node → Interp n (Unit {0})
  increment_body evaluate execute null = return tt
  increment_body evaluate execute (variable_declaration name value type_info escapes annotations) =
      execute (variable_declaration name value type_info escapes annotations)
  increment_body evaluate execute e = evaluate e >> return tt

  -- The loop does not look for a return.
  unfoldable pub for_loop :
      ℕ
      → (Node → Interp n (Value n))
      → (Node → Interp n (Unit {0}))
      → Node
      → Node
      → Node
      → Interp n (Unit {0})
  unfolding increment_body
  for_loop zero evaluate execute condition increment body p = out_of_fuel
  for_loop (suc f) evaluate execute condition increment body p =
      let again : Interp n (Unit {0}) = for_loop f evaluate execute condition increment body in
      let round : Interp n (Unit {0}) =
        execute body >> increment_body evaluate execute increment >> again in
      if is_null condition
      then round p
      else (evaluate condition >>= λ c. if is_true c then round else return tt) p

  unfoldable pub block_statements : (Node → Interp n (Unit {0})) → Nodes → Interp n (Unit {0})
  unfolding unless_returned
  block_statements execute no_nodes = return tt
  block_statements execute (node s ss) = unless_returned (execute s >> block_statements execute ss)

  unfoldable pub statement_body :
      ℕ → (Node → Interp n (Value n)) → (Node → Interp n (Unit {0})) → Node → Interp n (Unit {0})
  unfolding return_expression
  statement_body f evaluate execute null = return tt
  statement_body f evaluate execute
        (variable_declaration name value type_info escapes annotations) =
      evaluate value >>= set_variable name
  statement_body f evaluate execute (function_declaration name params body) =
      declare_function name params body
  statement_body f evaluate execute (return_statement e) =
      return_expression evaluate e >>= set_return
  statement_body f evaluate execute (print_statement e annotations) = evaluate e >>= print_value
  statement_body f evaluate execute (if_statement condition then_branch else_branch) =
      unless_returned (if_body evaluate execute condition then_branch else_branch)
  statement_body f evaluate execute (while_statement condition body) =
      while_loop f evaluate execute condition body
  statement_body f evaluate execute (for_statement init condition increment body) =
      execute init >> for_loop f evaluate execute condition increment body
  statement_body f evaluate execute (block ss) = block_statements execute ss
  statement_body f evaluate execute s = report unknown_statement tt

module _ {n : Numbers} (natives : List (NativeFuncEntry n)) where
  unfoldable mutual
    pub interpreter_evaluate_expression : ℕ → Node → Interp n (Value n)
    interpreter_evaluate_expression zero e p = out_of_fuel
    interpreter_evaluate_expression (suc f) e p =
        expression_body natives (interpreter_evaluate_expression f)
          (interpreter_execute_statement f) e p

    pub interpreter_execute_statement : ℕ → Node → Interp n (Unit {0})
    interpreter_execute_statement zero s p = out_of_fuel
    interpreter_execute_statement (suc f) s p =
        statement_body f (interpreter_evaluate_expression f) (interpreter_execute_statement f) s p

  unfoldable pub top_statements : ℕ → Nodes → Interp n (Unit {0})
  top_statements f no_nodes = return tt
  top_statements f (node s ss) = interpreter_execute_statement f s >> top_statements f ss

  -- The tables are new, and freed at the end; the statements of the program do not look for a return.
  unfoldable pub interpreter_execute : ℕ → Node → Interp n ℕ
  interpreter_execute f null = return 1
  interpreter_execute f ast = λ p.
      let start = record p { env = environment_create []; function_table = [] } in
      let statements : Interp n (Unit {0}) = elim ast [
        | block ss ↦ top_statements f ss
        | other ↦ interpreter_execute_statement f other
      ] in
      (statements >> λ q. done 0 (record q { env = []; function_table = [] })) start
