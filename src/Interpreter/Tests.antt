-- ===== src/Interpreter/Tests.antt =====
-- Tests of the interpreter with whole numbers in place of floating point, and its theorems at concrete
-- data.
use asteron.Prelude.{
  ℕ, ◌+◌, ◌-◌, ◌*◌, ◌/◌, ◌≤◌, ◌≡◌, refl, true, false, some, List, [], ◌∷◌, arith, inr, codes,
  String, ltb, leb, ◌==◌,
}
use asteron.Lexer.Token.{plus, multiply}
use asteron.Ast.{
  Node, Literal, null, literal, identifier, binary_expression, function_call, if_statement,
  return_statement, block, no_nodes, node,
}
use asteron.Outcome.{Always, done}
use asteron.Interpreter.Values.{Numbers, number, nil}
use asteron.Interpreter.Environment.{
  Environment, find_entry, environment_has, environment_get, environment_set,
}
use asteron.Interpreter.Functions.{Function, function_table_get}
use asteron.Interpreter.Evaluate.{Interpreter, literal_value}
use asteron.Interpreter.Calls.{callee}
use asteron.Interpreter.Execute.{interpreter_evaluate_expression}
use asteron.Interpreter.Meaning.{meaning, depth, operation_meaning, number_meaning}
use asteron.Interpreter.Silent.{interpreter_evaluate-meaning}
use asteron.Interpreter.Scopes.{Stored, environment_get-environment_set}
use asteron.Interpreter.Returns.{IsNil, interpreter_evaluate-IsNil}

abbrev decimal : ℕ → List ℕ → ℕ
decimal acc [] = acc
decimal acc (c ∷ cs) = decimal (10 * acc + (c - b'0')) cs

abbrev pub whole : Numbers
whole = record {
  Num = ℕ;
  of_text = decimal 0;
  of_length = λ k. k;
  add = ◌+◌;
  sub = ◌-◌;
  mul = ◌*◌;
  div = ◌/◌;
  neg = λ x. 0;
  same = ◌==◌;
  less = ltb;
  at_most = leb;
  show = λ x. x ∷ [];
  unset = 0;
}

abbrev pub idle_interpreter : Environment whole → Interpreter whole
idle_interpreter env = record {
  env = env;
  function_table = [];
  has_returned = false;
  return_value = nil;
  output = [];
  reports = [];
}

abbrev pub one_scope : Environment whole
one_scope = ((codes "x", number 3) ∷ []) ∷ []

abbrev two_scopes : Environment whole
two_scopes = [] ∷ one_scope

-- The name of the outer scope is set there.
set_outer :
    environment_set two_scopes (codes "x") (number 4) ≡ [] ∷ ((codes "x", number 4) ∷ []) ∷ []
unfolding environment_set asteron.Interpreter.Environment.replace_entry environment_has find_entry
set_outer = refl

lookup_example :
    Stored two_scopes (codes "y") (number 5) (environment_set two_scopes (codes "y") (number 5))
lookup_example =
    environment_get-environment_set two_scopes (codes "y") (number 5) (inr (omega arith))

abbrev pub number_node : String → Node
number_node s = literal (Literal.number (codes s))

abbrev pub sum : Node
sum =
    binary_expression (number_node "1") plus
      (binary_expression (number_node "2") multiply (identifier (codes "x") false))

pub sum-meaning : meaning one_scope sum ≡ some (number 7)
unfolding meaning operation_meaning number_meaning environment_has environment_get find_entry
    literal_value
sum-meaning = refl

sum-depth : depth sum ≤ 6
unfolding depth
sum-depth = omega arith

meaning_example :
    interpreter_evaluate_expression [] 6 sum (idle_interpreter one_scope)
    ≡ done (number 7) (idle_interpreter one_scope)
meaning_example =
    interpreter_evaluate-meaning [] sum 6 (number 7) (idle_interpreter one_scope) sum-depth
      sum-meaning

-- `function f() { if (true) { return 1; } }`
abbrev inner_return : Function
inner_return = record {
  name = codes "f";
  parameters = [];
  body = block (
      node (if_statement (literal (Literal.boolean true)) (return_statement (number_node "1")) null)
        no_nodes);
}

abbrev with_function : Interpreter whole
with_function = record (idle_interpreter []) { function_table = (codes "f", inner_return) ∷ [] }

callee_f : callee with_function (codes "f") ≡ some inner_return
unfolding callee function_table_get
callee_f = refl

inner_return_example :
    Always IsNil
      (interpreter_evaluate_expression [] 9 (function_call (codes "f") no_nodes) with_function)
inner_return_example =
    interpreter_evaluate-IsNil [] 8 (codes "f") no_nodes inner_return _ with_function callee_f refl
      (refl, tt)
