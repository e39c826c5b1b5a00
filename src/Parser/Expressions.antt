-- ===== src/Parser/Expressions.antt =====
-- src/core/parser/parser.c: the expressions, from `parse_factor` up to `parse_expression`.
pub mod Total
use asteron.Prelude.{ℕ, zero, suc, ◌+◌, true, false, List, [], ◌∷◌, if◌then◌else◌}
use asteron.Lexer.Token.{
  TokenType, number, string, true_kw, false_kw, identifier, lparen, rparen, comma, not, plus, minus,
  multiply, divide, gt, lt, gte, lte, eq, ne, and, or,
}
use asteron.Utils.Unescape.{string_unescape}
use asteron.Ast.{
  Node, Nodes, Literal, null, literal, unary_expression, binary_expression, function_call, no_nodes,
  node, is_null, ast_identifier,
}
use asteron.Parser.Source.{TokenSource}
use asteron.Outcome.{done, out_of_fuel, ◌>>=◌, ◌>>◌, return}
use asteron.Parser.Moves.{Parsing, advance, check, check_any, consume, rest}

module _ (s : TokenSource) where
  open s use {State}

  -- `while (match(COMMA)) args[count++] = parse_expression(parser);`
  unfoldable pub more_arguments : ℕ → Parsing s Node → Parsing s Nodes
  more_arguments zero expression p = out_of_fuel
  more_arguments (suc f) expression p =
      let more : Parsing s Nodes = do
        a ← expression
        as' ← more_arguments f expression
        return (node a as')
      in if check s comma p then more (advance s p) else done no_nodes p

  abbrev pub all_more : Parsing s Node → Parsing s Nodes
  all_more expression p = more_arguments (rest s p + 1) expression p

  unfoldable pub arguments : Parsing s Node → Parsing s Nodes
  arguments expression p =
      let some_arguments : Parsing s Nodes = do
        a ← expression
        as' ← all_more expression
        return (node a as')
      in if check s rparen p then done no_nodes p else some_arguments p

  unfoldable pub call : List ℕ → Parsing s Node → Parsing s Node
  call name expression = do
    as' ← arguments expression
    consume s rparen
    return (function_call name as')

  unfoldable pub name_factor : List ℕ → Parsing s Node → Parsing s Node
  name_factor name expression p =
      if check s lparen p then call name expression (advance s p) else done (ast_identifier name) p

  unfoldable pub not_factor : Parsing s Node → Parsing s Node
  not_factor factor = do
    operand ← factor
    return (if is_null operand then null else unary_expression not operand)

  unfoldable pub group : Parsing s Node → Parsing s Node
  group expression = do e ← expression; consume s rparen; return e

  unfoldable pub factor_body : Parsing s Node → Parsing s Node → Parsing s Node
  factor_body factor expression p =
      let text = p.current.text in
      if check s not p
      then not_factor factor (advance s p)
      else if check s number p
      then return (literal (Literal.number text)) (advance s p)
      else if check s string p
      then return (literal (Literal.text (string_unescape text))) (advance s p)
      else if check s true_kw p
      then return (literal (Literal.boolean true)) (advance s p)
      else if check s false_kw p
      then return (literal (Literal.boolean false)) (advance s p)
      else if check s identifier p
      then name_factor text expression (advance s p)
      else if check s lparen p
      then group expression (advance s p)
      else return null p

  -- The loop of one level: `expr` is what stands to the left.
  unfoldable pub operators : ℕ → List TokenType → Parsing s Node → Node → Parsing s Node
  operators zero ops operand expr p = out_of_fuel
  operators (suc f) ops operand expr p =
      let more : Parsing s Node = operand >>= λ right.
      operators f ops operand (binary_expression expr p.current.kind right) in
      if check_any s ops p then more (advance s p) else done expr p

  abbrev pub all_operators : List TokenType → Parsing s Node → Node → Parsing s Node
  all_operators ops operand expr p = operators (rest s p + 1) ops operand expr p

  unfoldable pub level : List TokenType → Parsing s Node → Parsing s Node
  level ops operand =
      operand >>= λ expr p. if is_null expr then done null p else all_operators ops operand expr p

  abbrev pub parse_term : Parsing s Node → Parsing s Node
  parse_term factor = level (multiply ∷ divide ∷ []) factor

  abbrev pub parse_additive : Parsing s Node → Parsing s Node
  parse_additive factor = level (plus ∷ minus ∷ []) (parse_term factor)

  abbrev pub parse_comparison : Parsing s Node → Parsing s Node
  parse_comparison factor = level (gt ∷ lt ∷ gte ∷ lte ∷ []) (parse_additive factor)

  abbrev pub parse_equality : Parsing s Node → Parsing s Node
  parse_equality factor = level (eq ∷ ne ∷ []) (parse_comparison factor)

  abbrev pub parse_logical_and : Parsing s Node → Parsing s Node
  parse_logical_and factor = level (and ∷ []) (parse_equality factor)

  abbrev pub parse_logical_or : Parsing s Node → Parsing s Node
  parse_logical_or factor = level (or ∷ []) (parse_logical_and factor)

  -- Each call stands behind a token that is passed, so the depth is at most the tokens that are left.
  unfoldable pub parse_factor : ℕ → Parsing s Node
  parse_factor zero p = out_of_fuel
  parse_factor (suc f) p = factor_body (parse_factor f) (parse_logical_or (parse_factor f)) p

  unfoldable pub parse_expression : Parsing s Node
  parse_expression p = parse_logical_or (parse_factor (rest s p + 1)) p
