-- ===== src/Parser/Statements.antt =====
-- src/core/parser/parser.c: the statements, up to `parser_parse`.
pub mod Total
pub mod Blocks
use asteron.Prelude.{
  ℕ, zero, suc, ◌+◌, ◌*◌, Bool, false, Option, none, some, List, ◌||◌, ◌&&◌, not, if◌then◌else◌,
  ltb, length,
}
use asteron.Lexer.Token.{
  lparen, rparen, assign, semicolon, let_kw, colon, else_kw, rbrace, eof, int, float, bool,
  string_type, void,
}
use asteron.Lexer.Token
use asteron.Ast.{
  Node, Nodes, null, no_nodes, append_node, is_null, TypeName, Annotation,
  ast_variable_declaration_with_type, function_declaration, return_statement, print_statement,
  if_statement, while_statement, for_statement, block,
}
use asteron.Parser.Source.{TokenSource}
use asteron.Outcome.{done, fault, out_of_fuel, buffer_overflow, ◌>>=◌, ◌>>◌, return}
use asteron.Parser.Moves.{Parser, Parsing, advance, check, match, consume, rest}
use asteron.Parser.Expressions.{parse_expression}
use asteron.Parser.Annotations.{Text, expect_name, name_list}

module _ (s : TokenSource) where
  open s use {State}

  abbrev read_type : TypeName → Parsing s (Option TypeName)
  read_type t p = done (some t) (advance s p)

  unfoldable pub parse_type : Parsing s (Option TypeName)
  parse_type p =
      if check s int p
      then read_type TypeName.int p
      else if check s float p
      then read_type TypeName.float p
      else if check s bool p
      then read_type TypeName.bool p
      else if check s string_type p
      then read_type TypeName.string p
      else if check s void p
      then read_type TypeName.void p
      else done none p

  -- The array of parameters has four places.
  unfoldable pub store_parameters : List Text → Parsing s (Unit {0})
  store_parameters params p = if ltb 4 (length params) then fault buffer_overflow else done tt p

  unfoldable pub function_statement : Parsing s Node → Parsing s Node
  function_statement statement = do
    name ← expect_name s
    consume s lparen
    params ← name_list s
    store_parameters params
    consume s rparen
    body ← statement
    return (function_declaration name params body)

  -- A value, unless the statement ends here.
  unfoldable pub return_value : Parsing s Node
  return_value p =
      if check s semicolon p || check s rbrace p || check s eof p
      then done null p
      else parse_expression s p

  unfoldable pub return_rest : Parsing s Node
  return_rest = do value ← return_value; match s semicolon; return (return_statement value)

  unfoldable pub optional_type : Parsing s (Option TypeName)
  optional_type p = if check s colon p then parse_type (advance s p) else done none p

  unfoldable pub let_statement : List Annotation → Parsing s Node
  let_statement annotations = do
    name ← expect_name s
    type_info ← optional_type
    consume s assign
    value ← parse_expression s
    match s semicolon
    return (ast_variable_declaration_with_type name value type_info annotations)

  unfoldable pub parenthesized : Parsing s Node
  parenthesized = do consume s lparen; e ← parse_expression s; consume s rparen; return e

  unfoldable pub print_rest : List Annotation → Parsing s Node
  print_rest annotations = do
    e ← parenthesized
    match s semicolon
    return (print_statement e annotations)

  unfoldable pub else_branch : Parsing s Node → Parsing s Node
  else_branch statement p = if check s else_kw p then statement (advance s p) else done null p

  unfoldable pub if_rest : Parsing s Node → Parsing s Node
  if_rest statement = do
    condition ← parenthesized
    then_branch ← statement
    otherwise ← else_branch statement
    return (if_statement condition then_branch otherwise)

  unfoldable pub while_rest : Parsing s Node → Parsing s Node
  while_rest statement = do
    condition ← parenthesized
    body ← statement
    return (while_statement condition body)

  unfoldable pub for_init : Parsing s Node → Parsing s Node
  for_init statement p = if check s semicolon p then done null p else statement p

  unfoldable pub skip_if_null : Node → Parsing s (Unit {0})
  skip_if_null init p =
      if is_null init && check s semicolon p then done tt (advance s p) else done tt p

  unfoldable pub for_condition : Parsing s Node
  for_condition p = if check s semicolon p then done null p else parse_expression s p

  unfoldable pub for_increment : Parsing s Node → Parsing s Node
  for_increment statement p =
      if check s rparen p
      then done null p
      else if check s let_kw p
      then statement p
      else parse_expression s p

  unfoldable pub for_rest : Parsing s Node → Parsing s Node
  for_rest statement = do
    consume s lparen
    init ← for_init statement
    skip_if_null init
    condition ← for_condition
    consume s semicolon
    increment ← for_increment statement
    consume s rparen
    body ← statement
    return (for_statement init condition increment body)

  unfoldable pub is_recovery_point : Parser State → Bool
  is_recovery_point p = check s rbrace p || check s eof p || check s semicolon p

  unfoldable pub skip_tokens : ℕ → Parsing s (Unit {0})
  skip_tokens zero p = out_of_fuel
  skip_tokens (suc f) p =
      let more : Parsing s (Unit {0}) = skip_tokens f in
      if is_recovery_point p then done tt p else more (advance s p)

  abbrev pub skip_all : Parsing s (Unit {0})
  skip_all p = skip_tokens (rest s p + 1) p

  unfoldable pub recover : Parsing s (Unit {0})
  recover = skip_all >>= λ u q.
      if check s semicolon q
      then done tt (record (advance s q) { had_error = false })
      else done tt (record q { had_error = false })

  -- The loop of a block, after the statements `ns`.
  unfoldable pub block_loop : ℕ → Parsing s Node → Nodes → Parsing s Nodes
  block_loop zero statement ns p = out_of_fuel
  block_loop (suc f) statement ns p =
      let again : Nodes → Parsing s Nodes = block_loop f statement in
      let after : Node → Parsing s Nodes = λ n q.
        if not (is_null n)
        then again (append_node ns n) q
        else if q.had_error
        then (recover >> again ns) q
        else done ns q in
      if check s rbrace p || check s eof p
      then done ns p
      else if check s semicolon p
      then again ns (advance s p)
      else (statement >>= after) p

  abbrev pub block_nodes : Parsing s Node → Parsing s Nodes
  block_nodes statement p = block_loop (2 * rest s p + 2) statement no_nodes p

  unfoldable pub block_rest : Parsing s Node → Parsing s Node
  block_rest statement = do ns ← block_nodes statement; consume s rbrace; return (block ns)
