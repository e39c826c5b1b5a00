-- ===== src/Interpreter/Meaning.antt =====
-- The values of the expressions that every back end computes: a specification that is written apart from
-- src/core/interpreter/interpreter.c and src/core/vm.
use asteron.Prelude.{ℕ, zero, suc, ◌+◌, Option, none, some, List, ◌++◌, ◌&&◌, ◌||◌, if◌then◌else◌}
use asteron.Prelude as Prelude
use asteron.Lexer.Token.{
  TokenType, plus, minus, multiply, divide, gt, lt, gte, lte, eq, ne, and, or, not,
}
use asteron.Ast.{Node, literal, identifier, unary_expression, binary_expression}
use asteron.Interpreter.Values.{Numbers, Value, number, string, bool, value_string, is_true}
use asteron.Interpreter.Environment.{Environment, environment_has, environment_get}
use asteron.Interpreter.Evaluate.{literal_value}

-- The levels of an expression.
unfoldable pub depth : Node → ℕ
depth (unary_expression op e) = suc (depth e)
depth (binary_expression l op r) = suc (depth l + depth r)
depth _ = 1

module _ {n : Numbers} where
  open n use {Num, of_length, add, sub, mul, div, same, less, at_most, show}

  -- Of two numbers; there is no quotient by zero.
  unfoldable pub number_meaning : TokenType → Num → Num → Option (Value n)
  number_meaning plus a b = some (number (add a b))
  number_meaning minus a b = some (number (sub a b))
  number_meaning multiply a b = some (number (mul a b))
  number_meaning divide a b = if same b (of_length 0) then none else some (number (div a b))
  number_meaning gt a b = some (bool (less b a))
  number_meaning lt a b = some (bool (less a b))
  number_meaning gte a b = some (bool (at_most b a))
  number_meaning lte a b = some (bool (at_most a b))
  number_meaning eq a b = some (bool (same a b))
  number_meaning ne a b = some (bool (Prelude.not (same a b)))
  number_meaning and a b =
      some (bool (Prelude.not (same a (of_length 0)) && Prelude.not (same b (of_length 0))))
  number_meaning or a b =
      some (bool (Prelude.not (same a (of_length 0)) || Prelude.not (same b (of_length 0))))
  number_meaning _ a b = none

  abbrev pub if_plus : TokenType → List ℕ → Option (Value n)
  if_plus plus s = some (value_string s)
  if_plus _ s = none

  -- Texts, or a text and a number, are joined; any other operation is one of two numbers.
  unfoldable pub operation_meaning : TokenType → Value n → Value n → Option (Value n)
  unfolding number_meaning
  operation_meaning op (number a) (number b) = number_meaning op a b
  operation_meaning op (string a) (string b) = if_plus op (a ++ b)
  operation_meaning op (string a) (number b) = if_plus op (a ++ show b)
  operation_meaning op (number a) (string b) = if_plus op (show a ++ b)
  operation_meaning op l r = none

  abbrev pub not_meaning : TokenType → Option (Value n) → Option (Value n)
  not_meaning not (some v) = some (bool (Prelude.not (is_true v)))
  not_meaning op o = none

  abbrev pub operate : TokenType → Option (Value n) → Option (Value n) → Option (Value n)
  operate op (some a) (some b) = operation_meaning op a b
  operate op _ _ = none

  -- The value of an expression in scopes that have its variables.
  unfoldable pub meaning : Environment n → Node → Option (Value n)
  unfolding operation_meaning
  meaning env (literal v) = some (literal_value v)
  meaning env (identifier name is_last_use) =
      if environment_has env name then some (environment_get env name) else none
  meaning env (unary_expression op e) = not_meaning op (meaning env e)
  meaning env (binary_expression l op r) = operate op (meaning env l) (meaning env r)
  meaning env _ = none
