-- ===== src/Parser/Program.antt =====
-- src/core/parser/parser.c: `parse_statement` as a whole, the imports, and `parser_parse`.
pub mod Total
pub mod Errors
use asteron.Prelude.{ℕ, zero, suc, ◌+◌, Option, none, some, List, [], ◌∷◌, if◌then◌else◌}
use asteron.Lexer.Token.{
  identifier, comma, assign, semicolon, function, let_kw, print, if_kw, while, for, lbrace, import,
  from, as_kw, dot, eof,
}
use asteron.Lexer.Token as Token
use asteron.Ast.{
  Node, Nodes, null, no_nodes, append_node, is_null, Annotation, assignment, block,
  import_statement,
}
use asteron.Parser.Source.{TokenSource}
use asteron.Outcome.{done, out_of_fuel, ◌>>=◌, ◌>>◌, return}
use asteron.Parser.Moves.{Parsing, advance, check, match, consume, rest}
use asteron.Parser.Expressions.{parse_expression}
use asteron.Parser.Annotations.{Text, fail, expect_name, parse_annotations}
use asteron.Parser.Statements.{
  function_statement, return_rest, let_statement, print_rest, if_rest, while_rest, for_rest,
  block_rest,
}

abbrev pub Symbol : Type 0
Symbol = Text × Option Text

module _ (s : TokenSource) where
  open s use {State}

  -- `import math.sin`: one symbol behind a dot.
  unfoldable pub dotted : Parsing s (List Symbol)
  dotted p =
      let symbol : Parsing s (List Symbol) = do name ← expect_name s; return ((name, none) ∷ [])
      in if check s dot p then symbol (advance s p) else done [] p

  unfoldable pub import_rest : Parsing s Node
  import_rest = do
    name ← expect_name s
    symbols ← dotted
    match s semicolon
    return (import_statement name symbols)

  unfoldable pub alias : Parsing s (Option Text)
  alias p =
      let name : Parsing s (Option Text) = do name ← expect_name s; return (some name)
      in if check s as_kw p then name (advance s p) else done none p

  -- The `do … while (match(COMMA))` loop.
  unfoldable pub import_symbols : ℕ → Parsing s (List Symbol)
  import_symbols zero p = out_of_fuel
  import_symbols (suc f) p =
      let more : Symbol → Parsing s (List Symbol) =
        λ symbol. (do symbols ← import_symbols f; return (symbol ∷ symbols)) in
      (do
        name ← expect_name s
        other ← alias
        λ q.
            if check s comma q
            then more (name, other) (advance s q)
            else done ((name, other) ∷ []) q)
        p

  abbrev pub all_symbols : Parsing s (List Symbol)
  all_symbols p = import_symbols (rest s p + 1) p

  unfoldable pub from_rest : Parsing s Node
  from_rest = do
    name ← expect_name s
    consume s import
    symbols ← all_symbols
    match s semicolon
    return (import_statement name symbols)

  unfoldable pub expression_statement : Parsing s Node
  expression_statement = parse_expression s >>= λ e q.
      if is_null e then fail s null q else (match s semicolon >> return e) q

  unfoldable pub keyword_statement : Parsing s Node → List Annotation → Parsing s Node
  keyword_statement statement annotations p =
      if check s function p
      then function_statement s statement (advance s p)
      else if check s Token.return p
      then return_rest s (advance s p)
      else if check s let_kw p
      then let_statement s annotations (advance s p)
      else if check s print p
      then print_rest s annotations (advance s p)
      else if check s if_kw p
      then if_rest s statement (advance s p)
      else if check s while p
      then while_rest s statement (advance s p)
      else if check s for p
      then for_rest s statement (advance s p)
      else if check s lbrace p
      then block_rest s statement (advance s p)
      else if check s import p
      then import_rest (advance s p)
      else if check s from p
      then from_rest (advance s p)
      else expression_statement p

  unfoldable pub assigned : Text → Parsing s Node
  assigned name = do value ← parse_expression s; match s semicolon; return (assignment name value)

  -- An identifier may begin an assignment: else the lexer and the current token are put back, but
  -- not the previous token.
  unfoldable pub identifier_statement : Parsing s Node → List Annotation → Parsing s Node
  identifier_statement statement annotations p =
      let q = advance s p in
      if check s assign q
      then assigned p.current.text (advance s q)
      else keyword_statement statement annotations
          (record q { lexer = p.lexer; current = p.current })

  unfoldable pub annotated_statement : Parsing s Node → List Annotation → Parsing s Node
  annotated_statement statement annotations p =
      if check s identifier p
      then identifier_statement statement annotations p
      else keyword_statement statement annotations p

  -- Each inner statement stands behind a token that is passed.
  unfoldable pub statement_on : ℕ → Parsing s Node
  statement_on zero p = out_of_fuel
  statement_on (suc f) p = (parse_annotations s >>= annotated_statement (statement_on f)) p

  unfoldable pub parse_statement : Parsing s Node
  parse_statement p = statement_on (rest s p + 1) p

  unfoldable pub program_loop : ℕ → Nodes → Parsing s Nodes
  program_loop zero ns p = out_of_fuel
  program_loop (suc f) ns p =
      let again : Nodes → Parsing s Nodes = program_loop f in
      let after : Node → Parsing s Nodes =
        λ n q. if is_null n then done ns q else again (append_node ns n) q in
      if check s eof p then done ns p else (parse_statement >>= after) p

  unfoldable pub parser_parse : Parsing s Node
  parser_parse p = (program_loop (rest s p + 1) no_nodes >>= λ ns. return (block ns)) p
