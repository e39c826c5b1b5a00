-- ===== src/Typechecker/Types.antt =====
-- src/core/typechecker/typechecker.c: which types go together, and the groups of operators.
use asteron.Prelude.{ℕ, Bool, true, ◌==◌, ◌&&◌, ◌||◌, if◌then◌else◌}
use asteron.Lexer.Token.{
  TokenType, plus, minus, multiply, divide, gt, lt, gte, lte, eq, ne, and, or,
}
use asteron.Ast.{TypeName, int, float, bool, string, void, unknown, error}
use asteron.Parser.Source.{same_type}

-- The enumeration's numbers.
abbrev pub type_number : TypeName → ℕ
type_number int = 0
type_number float = 1
type_number bool = 2
type_number string = 3
type_number void = 4
type_number unknown = 5
type_number error = 6

-- `a == b`
abbrev pub is : TypeName → TypeName → Bool
is a b = type_number a == type_number b

-- An unknown type goes with any other, and an `int` where a `float` is expected.
unfoldable pub types_compatible : TypeName → TypeName → Bool
types_compatible expected actual =
    if is expected unknown || is actual unknown
    then true
    else if is expected actual
    then true
    else is expected float && is actual int

-- The numbers, and the unknown type.
unfoldable pub is_numeric : TypeName → Bool
is_numeric t = is t int || is t float || is t unknown

unfoldable pub is_arithmetic : TokenType → Bool
unfolding same_type
is_arithmetic op =
    same_type op plus || same_type op minus || same_type op multiply || same_type op divide

unfoldable pub is_comparison : TokenType → Bool
unfolding same_type
is_comparison op =
    same_type op eq
    || same_type op ne
    || same_type op gt
    || same_type op lt
    || same_type op gte
    || same_type op lte

unfoldable pub is_logical : TokenType → Bool
unfolding same_type
is_logical op = same_type op and || same_type op or
