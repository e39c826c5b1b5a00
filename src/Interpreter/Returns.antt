-- ===== src/Interpreter/Returns.antt =====
-- src/core/interpreter/interpreter.c: what a call gives whose body returns only inside a statement.
use asteron.Prelude.{
  ℕ, suc, ◌≡◌, refl, sym, subst, Bool, true, false, some, List, ◌==◌, length, if◌then◌else◌,
}
use asteron.Ast.{Node, Nodes, null, function_call, return_statement, block, no_nodes, node}
use asteron.Outcome.{null_dereference, Always, returns, faulted, Always-bind, Always-chain}
use asteron.Interpreter.Values.{Numbers, Value, nil}
use asteron.Interpreter.Environment.{Text}
use asteron.Interpreter.Functions.{Function, NativeFuncEntry}
use asteron.Interpreter.Evaluate.{Interpreter, Interp}
use asteron.Interpreter.Calls.{
  count_nodes, evaluate_all, push_parameters, pop_frame, body_statements, function_body,
  call_function, callee, call_value, expression_body,
}
use asteron.Interpreter.Execute.{interpreter_evaluate_expression, interpreter_execute_statement}

abbrev pub is_return : Node → Bool
is_return (return_statement e) = true
is_return _ = false

-- None of the statements is itself a return.
abbrev pub NoReturn : Nodes → Type 0
NoReturn no_nodes = Unit
NoReturn (node s ss) = (is_return s ≡ false) × NoReturn ss

module _ {n : Numbers} where
  abbrev pub IsNil : Value n → Interpreter n → Type 0
  IsNil v p = v ≡ nil

  body_statements-IsNil :
      (evaluate : Node → Interp n (Value n)) (execute : Node → Interp n (Unit {0})) (ss : Nodes)
      (p : Interpreter n)
      → NoReturn ss
      → Always IsNil (body_statements evaluate execute ss p)
  unfolding body_statements
  body_statements-IsNil evaluate execute no_nodes p h = returns nil p refl
  body_statements-IsNil evaluate execute (node null ss) p h = faulted null_dereference
  body_statements-IsNil evaluate execute (node (return_statement e) ss) p (h, hs) = absurd cc
  body_statements-IsNil evaluate execute (node s ss) p (h, hs) =
      Always-bind (execute s) _ p λ u q. body_statements-IsNil evaluate execute ss q hs

  if-IsNil :
      (b : Bool) (k m : Interp n (Value n)) (p : Interpreter n)
      → Always IsNil (k p)
      → Always IsNil (m p)
      → Always IsNil ((if b then k else m) p)
  if-IsNil true k m p hk hm = hk
  if-IsNil false k m p hk hm = hm

  body-IsNil :
      (evaluate : Node → Interp n (Value n)) (execute : Node → Interp n (Unit {0})) (body : Node)
      (ss : Nodes) (p : Interpreter n)
      → body ≡ block ss
      → NoReturn ss
      → Always IsNil (function_body evaluate execute body p)
  unfolding function_body
  body-IsNil evaluate execute body ss p e h =
      subst (λ b. Always IsNil (function_body evaluate execute b p)) (sym e)
        (body_statements-IsNil evaluate execute ss p h)

  call_function-IsNil :
      (evaluate : Node → Interp n (Value n)) (execute : Node → Interp n (Unit {0})) (x : Text)
      (args : Nodes) (func : Function) (ss : Nodes) (p : Interpreter n)
      → func.body ≡ block ss
      → NoReturn ss
      → Always IsNil (call_function evaluate execute x args func p)
  unfolding call_function
  call_function-IsNil evaluate execute x args func ss p body h =
      if-IsNil (count_nodes args == length func.parameters) _ _ p
        (Always-bind (evaluate_all evaluate args) _ p λ vs q.
          Always-bind (push_parameters func.parameters vs) _ q λ u r.
            Always-chain (function_body evaluate execute func.body) _ r
              (body-IsNil evaluate execute func.body ss r body h)
              λ v t e. Always-bind pop_frame _ t λ u z. returns v z e)
        (returns nil _ refl)

  call_value-IsNil :
      (natives : List (NativeFuncEntry n)) (evaluate : Node → Interp n (Value n))
      (execute : Node → Interp n (Unit {0})) (x : Text) (args : Nodes) (func : Function)
      (ss : Nodes) (p : Interpreter n)
      → callee p x ≡ some func
      → func.body ≡ block ss
      → NoReturn ss
      → Always IsNil (call_value natives evaluate execute x args p)
  unfolding call_value
  call_value-IsNil natives evaluate execute x args func ss p e body h =
      rw (call_value, e) (call_function-IsNil evaluate execute x args func ss p body h)

  -- A call of a function whose body is a block gives nil, if none of the block's own statements is a
  -- return: a return inside an `if`, a loop or a block of the body gives no value.
  pub interpreter_evaluate-IsNil :
      (natives : List (NativeFuncEntry n)) (f : ℕ) (x : Text) (args : Nodes) (func : Function)
      (ss : Nodes) (p : Interpreter n)
      → callee p x ≡ some func
      → func.body ≡ block ss
      → NoReturn ss
      → Always IsNil (interpreter_evaluate_expression natives (suc f) (function_call x args) p)
  unfolding interpreter_evaluate_expression expression_body
  interpreter_evaluate-IsNil natives f x args func ss p e body h =
      call_value-IsNil natives (interpreter_evaluate_expression natives f)
        (interpreter_execute_statement natives f) x args func ss p e body h
