-- ===== src/Interpreter/Evaluate.antt =====
-- src/core/interpreter/interpreter.c: `interpreter_evaluate_expression`, one function for each kind of
-- node, over the evaluation of the inner nodes.
use asteron.Prelude.{ℕ, Bool, false, List, [], ◌∷◌, ◌++◌, ◌&&◌, ◌||◌, not, if◌then◌else◌}
use asteron.Lexer.Token.{
  TokenType, plus, minus, multiply, divide, gt, lt, gte, lte, eq, ne, and, or,
}
use asteron.Lexer.Token as Token
use asteron.Ast.{Literal}
use asteron.Outcome.{Run, done, return}
use asteron.Parser.Source.{same_type}
use asteron.Interpreter.Values.{
  Numbers, Value, number, string, bool, nil, same_text, value_string, value_is_string,
  value_to_chars, is_number, as_number, is_true,
}
use asteron.Interpreter.Environment.{Text, Environment}
use asteron.Interpreter.Functions.{FunctionTable}

-- The messages on the error stream.
pub data Report : Type 0 where
  undefined_name undefined_function wrong_arguments : Text → Report
  needs_numbers division_by_zero unknown_operator unknown_expression unknown_statement : Report

-- The interpreter's global variables, what it has printed, and its messages, the last one first.
pub record Interpreter (n : Numbers) : Type 0 where
  pub env : Environment n
  pub function_table : FunctionTable
  pub has_returned : Bool
  pub return_value : Value n
  pub output : List Text
  pub reports : List Report

module _ (n : Numbers) where
  abbrev pub Interp : Type 0 → Type 0
  Interp A = Run (Interpreter n) A

module _ {n : Numbers} where
  open n use {of_text, of_length, add, sub, mul, div, same, less, at_most, show}

  abbrev pub report : {A : Type 0} → Report → A → Interp n A
  report r a p = done a (record p { reports = r ∷ p.reports })

  unfoldable pub literal_value : Literal → Value n
  literal_value (Literal.number t) = number (of_text t)
  literal_value (Literal.text s) = value_string s
  literal_value (Literal.boolean b) = bool b

  unfoldable pub unary_value : TokenType → Value n → Value n
  unfolding same_type is_true
  unary_value op v = if same_type op Token.not then bool (not (is_true v)) else nil

  -- A number or a text as a text; any other value as the empty text.
  unfoldable pub text_of : Value n → List ℕ
  text_of (number x) = show x
  text_of (string s) = s
  text_of _ = []

  unfoldable pub plus_value : Value n → Value n → Value n
  unfolding value_is_string text_of as_number
  plus_value l r =
      if value_is_string l || value_is_string r
      then value_string (text_of l ++ text_of r)
      else number (add (as_number l) (as_number r))

  unfoldable pub equal_values : Value n → Value n → Bool
  unfolding is_number as_number value_is_string value_to_chars
  equal_values l r =
      if is_number l && is_number r
      then same (as_number l) (as_number r)
      else if value_is_string l && value_is_string r
      then same_text (value_to_chars l) (value_to_chars r)
      else false

  -- The switch on the operator.
  unfoldable pub operation_value : TokenType → Value n → Value n → Interp n (Value n)
  unfolding as_number is_true equal_values
  operation_value minus l r = return (number (sub (as_number l) (as_number r)))
  operation_value multiply l r = return (number (mul (as_number l) (as_number r)))
  operation_value divide l r =
      if same (as_number r) (of_length 0)
      then report division_by_zero nil
      else return (number (div (as_number l) (as_number r)))
  operation_value gt l r = return (bool (less (as_number r) (as_number l)))
  operation_value lt l r = return (bool (less (as_number l) (as_number r)))
  operation_value gte l r = return (bool (at_most (as_number r) (as_number l)))
  operation_value lte l r = return (bool (at_most (as_number l) (as_number r)))
  operation_value eq l r = return (bool (equal_values l r))
  operation_value ne l r = return (bool (not (equal_values l r)))
  operation_value and l r = return (bool (is_true l && is_true r))
  operation_value or l r = return (bool (is_true l || is_true r))
  operation_value _ l r = report unknown_operator nil

  -- Every operation but the sum asks for two numbers first.
  unfoldable pub binary_value : TokenType → Value n → Value n → Interp n (Value n)
  unfolding same_type is_number
  binary_value op l r =
      if same_type op plus
      then return (plus_value l r)
      else if is_number l && is_number r
      then operation_value op l r
      else report needs_numbers nil
