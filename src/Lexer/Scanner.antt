-- ===== src/Lexer/Scanner.antt =====
-- src/core/lexer/lexer.c: the tokens, from `make_token` to `lexer_next_token`.
pub mod Advance
pub mod Words
pub mod Cases
pub mod Lines
use asteron.Prelude.{
  ℕ, zero, suc, ◌+◌, ◌-◌, List, [], ◌∷◌, ◌++◌, Option, none, some, ◌&&◌, leb, ◌==◌, if◌then◌else◌,
  length, codes, bytes_eq,
}
use asteron.Lexer.Token.{
  Lexer, Token, TokenText, in_source, before_source, message, TokenType, number, string, plus,
  minus, multiply, divide, assign, gt, lt, gte, lte, eq, ne, and, or, not, lbrace, rbrace, lparen,
  rparen, semicolon, comma, colon, dot, at, eof, error, annot_pure, annot_parallel, annot_async,
  annot_memoize, annot_lazy, annot_hot, annot_inline, annot_noopt,
}
use asteron.Lexer.Keywords.{is_alpha, is_digit, is_alphanumeric, identifier_type}
use asteron.Lexer.Cursor.{peek, peek_next, advance, advance_while, skip_whitespace, string_body}

-- `current - k` as a pointer.
unfoldable pub back : ℕ → ℕ → TokenText
back current k = if leb k current then in_source (current - k) else before_source

unfoldable pub make_token : Lexer → TokenType → Token
unfolding back
make_token l t = record { kind = t; start = back l.current 1; length = 1; line = l.line }

unfoldable pub make_token_length : Lexer → TokenType → ℕ → Token
unfolding back
make_token_length l t n = record { kind = t; start = back l.current n; length = n; line = l.line }

unfoldable pub error_token : Lexer → List ℕ → Token
error_token l text = record {
  kind = error;
  start = message text;
  length = length text;
  line = l.line;
}

-- The messages, in UTF-8.
abbrev pub unterminated_string : List ℕ
unterminated_string = codes "String n" ++ 0xc3 ∷ 0xa3 ∷ codes "o terminada"

abbrev pub expected_after : ℕ → List ℕ
expected_after c =
    codes "Esperado '" ++ c ∷ (codes "' ap" ++ 0xc3 ∷ 0xb3 ∷ (codes "s '" ++ c ∷ codes "'"))

abbrev pub unexpected_character : List ℕ
unexpected_character = codes "Caractere inesperado"

-- The `n` bytes from offset `i`.
unfoldable pub slice : List ℕ → ℕ → ℕ → List ℕ
slice xs i zero = []
slice [] i (suc n) = []
slice (x ∷ xs) zero (suc n) = x ∷ slice xs 0 n
slice (x ∷ xs) (suc i) (suc n) = slice xs i (suc n)

-- The bytes from `start` to `current`.
unfoldable pub lexeme : Lexer → List ℕ
unfolding slice
lexeme l = slice l.source l.start (l.current - l.start)

unfoldable pub scan_identifier : Lexer → Lexer × Token
scan_identifier l =
    let m = advance_while is_alphanumeric l in
    (m, make_token_length m (identifier_type (lexeme m)) (m.current - m.start))

-- The digits of the fraction, if a digit follows the point.
unfoldable pub scan_fraction : Lexer → Lexer
scan_fraction l =
    if peek l == b'.' && is_digit (peek_next l) then advance_while is_digit (advance l) else l

unfoldable pub scan_number : Lexer → Lexer × Token
unfolding scan_fraction
scan_number l =
    let m = scan_fraction (advance_while is_digit l) in
    (m, make_token_length m number (m.current - m.start))

unfoldable pub string_token : Lexer → Lexer × Token
string_token l =
    let m = string_body l in
    if peek m == 0
    then (m, error_token m unterminated_string)
    else (let n = advance m in (n, make_token_length n string (n.current - n.start)))

-- The names of the known annotations.
unfoldable pub annotation_type : List ℕ → Option TokenType
annotation_type w =
    if bytes_eq w (codes "pure")
    then some annot_pure
    else if bytes_eq w (codes "parallel")
    then some annot_parallel
    else if bytes_eq w (codes "async")
    then some annot_async
    else if bytes_eq w (codes "memoize")
    then some annot_memoize
    else if bytes_eq w (codes "lazy")
    then some annot_lazy
    else if bytes_eq w (codes "hot")
    then some annot_hot
    else if bytes_eq w (codes "inline")
    then some annot_inline
    else if bytes_eq w (codes "noopt")
    then some annot_noopt
    else none

-- The case of `@`; a name that is not known is left unread.
unfoldable pub annotation : Lexer → Lexer × Token
annotation l =
    let m = advance_while is_alphanumeric l in
    let len = m.current - l.current in
    elim (annotation_type (slice l.source l.current len)) [
      | some t ↦ (m, make_token_length m t (len + 1))
      | none ↦ (l, make_token l at)
    ]

unfoldable pub single : Lexer → TokenType → Lexer × Token
single l t = (l, make_token l t)

-- `match(lexer, expected)` and the token on either side.
unfoldable pub double_or : Lexer → ℕ → TokenType → Token → Lexer × Token
double_or l expected t otherwise =
    if peek l == expected
    then (let m = advance l in (m, make_token_length m t 2))
    else (l, otherwise)

-- The `switch` of `lexer_next_token` on the byte just read.
unfoldable pub punctuation : ℕ → Lexer → Lexer × Token
unfolding single
punctuation c l =
    if c == b'('
    then single l lparen
    else if c == b')'
    then single l rparen
    else if c == b'{'
    then single l lbrace
    else if c == b'}'
    then single l rbrace
    else if c == b';'
    then single l semicolon
    else if c == b','
    then single l comma
    else if c == b':'
    then single l colon
    else if c == b'.'
    then single l dot
    else if c == b'@'
    then annotation l
    else if c == b'+'
    then single l plus
    else if c == b'-'
    then single l minus
    else if c == b'*'
    then single l multiply
    else if c == b'/'
    then single l divide
    else if c == b'!'
    then double_or l b'=' ne (make_token l not)
    else if c == b'='
    then double_or l b'=' eq (make_token l assign)
    else if c == b'>'
    then double_or l b'=' gte (make_token l gt)
    else if c == b'<'
    then double_or l b'=' lte (make_token l lt)
    else if c == b'&'
    then double_or l b'&' and (error_token l (expected_after b'&'))
    else if c == b'|'
    then double_or l b'|' or (error_token l (expected_after b'|'))
    else if c == 34
    then string_token l
    else (l, error_token l unexpected_character)

unfoldable pub lexer_create : List ℕ → Lexer
lexer_create source = record { source = source; start = 0; current = 0; line = 1 }

-- What follows the first byte `c`, at `l` behind it.
unfoldable pub dispatch : ℕ → Lexer → Lexer × Token
dispatch c l =
    if is_alpha c then scan_identifier l else if is_digit c then scan_number l else punctuation c l

unfoldable pub lexer_next_token : Lexer → Lexer × Token
lexer_next_token l =
    let skipped = skip_whitespace l in
    let m = record skipped { start = skipped.current } in
    let c = peek m in if c == 0 then (m, make_token m eof) else dispatch c (advance m)
