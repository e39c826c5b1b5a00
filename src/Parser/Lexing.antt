-- ===== src/Parser/Lexing.antt =====
-- The lexer of src/core/lexer/lexer.c as the parser's source of tokens.
pub mod Total
use asteron.Prelude.{ℕ, ◌+◌, ◌-◌, ◌≤◌, ◌≡◌, refl, ap, ◌∙◌, List, [], length, arith, inl, inr}
use asteron.Lexer.Token.{Lexer, Token, TokenText, in_source, before_source, message, eof}
use asteron.Lexer.Cursor.{unread}
use asteron.Lexer.Scanner.{lexer_next_token, lexer_create, slice}
use asteron.Lexer.Scanner.Advance.{lexer_next_token-NextToken}
use asteron.Ast.{Node}
use asteron.Parser.Source.{Lexeme, TokenSource, weight, weight-le}
use asteron.Outcome.{Outcome}
use asteron.Parser.Moves.{Parser, parser_create}
use asteron.Parser.Program.{parser_parse}

-- The bytes of a token, `string_copy(token.start, token.length)`. The byte before the source, which
-- only an end token points to, is not read by the parser.
unfoldable pub token_bytes : List ℕ → TokenText → ℕ → List ℕ
token_bytes source (in_source i) n = slice source i n
token_bytes source before_source n = []
token_bytes source (message text) n = text

abbrev pub lexeme_of : Lexer → Token → Lexeme
lexeme_of l t = record {
  kind = t.kind;
  text = token_bytes l.source t.start t.length;
  line = t.line;
}

abbrev pub next_lexeme : Lexer → Lexer × Lexeme
next_lexeme l = let (m, t) = lexer_next_token l in (m, lexeme_of l t)

abbrev pub IsInside : Lexer → Type 0
IsInside l = l.current ≤ length l.source

pub next_lexeme-IsInside : (l : Lexer) → IsInside l → IsInside (next_lexeme l).0
next_lexeme-IsInside l g = (lexer_next_token-NextToken l g).within

no_weight : weight eof ≡ 0
unfolding weight
no_weight = refl

pub next_lexeme-unread :
    (l : Lexer) → IsInside l → unread (next_lexeme l).0 + weight (next_lexeme l).1.kind ≤ unread l
unfolding unread
next_lexeme-unread l g =
    let (m, t) = lexer_next_token l in
    let n = lexer_next_token-NextToken l g in
    elim n.token [
      | inl (kind, ends, zero_byte) ↦
          omega (arith, ap weight kind ∙ no_weight, ap length n.same_source, n.starts, n.within)
      | inr (kind, moved, token) ↦
          omega (arith, weight-le t.kind, ap length n.same_source, n.starts, n.within)
    ]

abbrev pub lexing : TokenSource
lexing = record {
  State = Lexer;
  next = next_lexeme;
  left = unread;
  IsGood = IsInside;
  next-IsGood = next_lexeme-IsInside;
  next-left = next_lexeme-unread;
}

-- The parser on the text of a file, from `lexer_create` to `parser_parse`.
unfoldable pub parse_source : List ℕ → Lexeme → Outcome (Parser Lexer) Node
parse_source source junk = parser_parse lexing (parser_create lexing (lexer_create source) junk)
