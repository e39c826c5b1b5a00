-- ===== src/Typechecker/Infer.antt =====
-- src/core/typechecker/typechecker.c: the type of an expression that no pass has noted a type on.
use asteron.Prelude.{ℕ, Bool, ◌&&◌, ◌||◌, List, if◌then◌else◌}
use asteron.Lexer.Token.{TokenType, plus, minus, not}
use asteron.Ast.{
  TypeName, int, float, bool, string, unknown, Literal, number, text, boolean, Node, literal,
  unary_expression, binary_expression,
}
use asteron.Parser.Source.{same_type}
use asteron.Typechecker.Types.{is, is_arithmetic, is_comparison, is_logical}

-- Of an arithmetic operator; with neither a text nor a float, and not two ints, the other tests
-- follow, which an arithmetic operator does not pass.
unfoldable pub infer_arithmetic : TokenType → TypeName → TypeName → TypeName
unfolding same_type
infer_arithmetic op l r =
    if same_type op plus && (is l string || is r string)
    then string
    else if is l int && is r int
    then int
    else if is l float || is r float
    then float
    else unknown

unfoldable pub infer_binary : TokenType → TypeName → TypeName → TypeName
unfolding infer_arithmetic is_arithmetic is_comparison is_logical
infer_binary op l r =
    if is_arithmetic op
    then infer_arithmetic op l r
    else if is_comparison op
    then bool
    else if is_logical op
    then bool
    else unknown

-- Of a minus the two tests return the operand's type, as the last line does.
unfoldable pub infer_unary : TokenType → TypeName → TypeName
unfolding same_type
infer_unary op t =
    if same_type op not
    then bool
    else if same_type op minus
    then if is t int then int else if is t float then float else t
    else t

-- `is_whole`: whether the number that a text spells is its own conversion to `int`.
module _ (is_whole : List ℕ → Bool) where
  unfoldable pub infer_type_from_literal : Literal → TypeName
  infer_type_from_literal (number t) = if is_whole t then int else float
  infer_type_from_literal (text s) = string
  infer_type_from_literal (boolean b) = bool

  unfoldable pub infer_type_from_expression : Node → TypeName
  unfolding infer_type_from_literal infer_binary infer_unary
  infer_type_from_expression (literal v) = infer_type_from_literal v
  infer_type_from_expression (binary_expression l op r) =
      infer_binary op (infer_type_from_expression l) (infer_type_from_expression r)
  infer_type_from_expression (unary_expression op e) = infer_unary op (infer_type_from_expression e)
  infer_type_from_expression _ = unknown
