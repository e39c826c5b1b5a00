-- ===== src/Parser/Lexing/Total.antt =====
-- src/core/parser/parser.c on the tokens of src/core/lexer/lexer.c: the parse of a text.
use asteron.Prelude.{ℕ, ◌≤◌, ◌≡◌, ◌⊎◌, true, List, length, arith}
use asteron.Lexer.Token.{Lexer, eof}
use asteron.Lexer.Scanner.{lexer_create}
use asteron.Ast.{Node}
use asteron.Parser.Source.{Lexeme}
use asteron.Outcome.{Ends, Ends-map, Ends-Always}
use asteron.Parser.Moves.{Parser, rest, parser_create}
use asteron.Parser.Program.Total.{parser_parse-Spends}
use asteron.Parser.Program.Errors.{parser_parse-IsRead}
use asteron.Parser.Lexing.{lexing, parse_source, next_lexeme-IsInside}

-- The lexer stands inside the text, and the current token is the end token unless the error flag is
-- set.
abbrev pub IsParsed : Node → Parser Lexer → Type 0
IsParsed tree p =
    (p.lexer.current ≤ length p.lexer.source) × ((p.current.kind ≡ eof) ⊎ (p.had_error ≡ true))

-- The parse of any text ends in the fuel that it is given: with a tree or with an access that the
-- language leaves undefined. With a tree, the lexer stands inside the text, and the text is read to
-- its end unless the error flag is set.
pub parse_source-IsParsed :
    (source : List ℕ) (junk : Lexeme) → Ends IsParsed (parse_source source junk)
unfolding parse_source parser_create lexer_create
parse_source-IsParsed source junk =
    let p = parser_create lexing (lexer_create source) junk in
    let inside = next_lexeme-IsInside (lexer_create source) (omega arith) in
    Ends-map (λ tree q ((g, le), read). (g, read))
      (Ends-Always (parser_parse-Spends lexing (rest lexing p) p inside (omega arith))
        (parser_parse-IsRead lexing p))
