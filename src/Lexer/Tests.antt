-- ===== src/Lexer/Tests.antt =====
-- Tests of the scanner, and its theorems at concrete sources.
use mathlib.Core.Option
use asteron.Prelude.{ℕ, ◌+◌, ◌≡◌, refl, Option, some, List, [], ◌∷◌, map, arith, length, codes}
use asteron.Lexer.Token.{
  Lexer, Token, before_source, TokenType, let_kw, export, identifier, number, assign, semicolon,
  eof, ne, annot_hot, at,
}
use asteron.Lexer.Keywords.{identifier_type, is_alpha, is_alphanumeric}
use asteron.Lexer.Keywords.Table.{identifier_type-keyword_table}
use asteron.Lexer.Cursor.{
  peek, peek_next, advance, advance_while, skip_whitespace, string_body, string_step,
}
use asteron.Lexer.Scanner.{
  make_token, make_token_length, error_token, scan_identifier, scan_number, string_token,
  annotation_type, annotation, single, double_or, punctuation, lexeme, dispatch, lexer_next_token,
  lexer_create,
}
use asteron.Lexer.Scanner.Advance.{NextToken, lexer_next_token-NextToken}
use asteron.Lexer.Scanner.Lines.{
  lines_before, no_backslash, IsOnLine, lexer_next_token-IsOnLine, string_step-escaped_newline,
}
use asteron.Lexer.Scanner.Words.{lexer_next_token-word, word_token}
use asteron.Lexer.Stream.{list_tokens, list_tokens-total, Listing, is_last}

abbrev sample : List ℕ
sample = codes "let x = 10; // end"

-- The types and lengths of the tokens of a source.
listing : List ℕ → Option (List (TokenType × ℕ))
unfolding list_tokens is_last lexer_next_token lexer_create skip_whitespace peek advance dispatch
    punctuation single scan_identifier scan_number string_token annotation annotation_type double_or
    make_token make_token_length error_token advance_while string_body lexeme identifier_type
    is_alphanumeric
listing source =
    Option.map (map (λ t. (t.kind, t.length)))
      (list_tokens (length source + 1) (lexer_create source))

listing-sample :
    listing sample
    ≡ some
        ((let_kw, 3) ∷ (identifier, 1) ∷ (assign, 1) ∷ (number, 2) ∷ (semicolon, 1) ∷ (eof, 1) ∷ [])
unfolding listing
listing-sample = refl

listing_mixed :
    listing (codes "@hot a1 != 2.5 @x")
    ≡ some (
        (annot_hot, 4)
        ∷ (identifier, 2)
        ∷ (ne, 2)
        ∷ (number, 3)
        ∷ (at, 1)
        ∷ (identifier, 1)
        ∷ (eof, 1)
        ∷ [])
unfolding listing
listing_mixed = refl

-- The end token of an empty source points before it.
eof_of_empty : (lexer_next_token (lexer_create [])).1.start ≡ before_source
unfolding listing
eof_of_empty = refl

identifier_type_example : identifier_type (codes "export") ≡ export
identifier_type_example = identifier_type-keyword_table (codes "export")

lexer_next_token-NextToken_example :
    NextToken
      (lexer_create sample)
      (lexer_next_token (lexer_create sample)).0
      (lexer_next_token (lexer_create sample)).1
unfolding lexer_create
lexer_next_token-NextToken_example = lexer_next_token-NextToken (lexer_create sample) (omega arith)

word_example :
    lexer_next_token (lexer_create sample) ≡ word_token (lexer_create sample) (codes "let")
unfolding lexer_create is_alpha is_alphanumeric
word_example =
    lexer_next_token-word (lexer_create sample) b'l' (codes "et") (codes " x = 10; // end") refl
      refl (refl, (refl, tt)) refl

abbrev two_lines : List ℕ
two_lines = 10 ∷ codes "a"

line_example : IsOnLine two_lines (lexer_next_token (lexer_create two_lines)).0
unfolding lexer_create lines_before
line_example =
    lexer_next_token-IsOnLine (lexer_create two_lines) (no_backslash two_lines (omega arith))
      (omega arith) (record { same_source = refl; right_line = refl })

-- A string of an escaped line feed, its quote read.
abbrev escaped : Lexer
escaped = record { source = 34 ∷ 92 ∷ 10 ∷ 34 ∷ []; start = 0; current = 1; line = 1 }

escaped_newline_example :
    (string_step escaped ≡ some (advance (advance escaped)))
    × ((advance (advance escaped)).line + 1
        ≡ 1 + lines_before escaped.source (advance (advance escaped)).current)
unfolding lines_before peek peek_next
escaped_newline_example =
    string_step-escaped_newline escaped (record { same_source = refl; right_line = refl }) refl refl

list_tokens_example :
    (t : Token) × (ts : List Token) × (list_tokens (length sample + 1) (lexer_create sample)
      ≡ some (t ∷ ts))
    × Listing 0 (length sample) (t ∷ ts)
list_tokens_example = list_tokens-total sample
