-- ===== src/Lexer/Scanner/Advance.antt =====
-- Each call of `lexer_next_token` moves forward within the source, and its token spells what it read.
use asteron.Prelude.{
  ℕ, ◌+◌, ◌-◌, ◌≤◌, ◌<◌, ◌≡◌, ◌≢◌, refl, inl, inr, ◌⊎◌, false, some, List, arith, ◌==◌, ◌&&◌,
  length, Bool-cases, Option-cases, eq_cases,
}
use asteron.Lexer.Token.{Lexer, Token, in_source, TokenType, number, string, eof, error, at}
use asteron.Lexer.Keywords.{is_alpha, is_digit, is_alphanumeric}
use asteron.Lexer.Keywords.Table.{identifier_type-ne-eof}
use asteron.Lexer.Cursor.{peek, peek_next, advance, advance_while, skip_whitespace, string_body}
use asteron.Lexer.Cursor.Moves.{
  Moves, Moves-refl, Moves-trans, peek-ne-zero, advance_while-Ends, skip_whitespace-Ends,
  string_body-Ends,
}
use asteron.Lexer.Scanner.Cases.{if_case, punctuation_cases}
use asteron.Lexer.Scanner.{
  back, make_token, make_token_length, error_token, slice, scan_identifier, scan_fraction,
  scan_number, string_token, annotation_type, annotation, double_or, punctuation, dispatch,
  lexer_next_token, unterminated_string,
}

-- The scanner stands behind the first byte of a token.
pub record InToken (l : Lexer) : Type 0 where
  pub one_read : l.start + 1 ≡ l.current
  pub inside : l.current ≤ length l.source

-- The token read from `l` on spells the bytes from `start` to `current`, or is an error.
pub record Covers (l : Lexer) (r : Lexer × Token) : Type 0 where
  pub moves : Moves l r.0
  pub at_line : r.1.line ≡ r.0.line
  pub not_eof : r.1.kind ≢ eof
  pub spells :
      ((r.1.start ≡ in_source r.0.start) × (r.0.start + r.1.length ≡ r.0.current))
      ⊎ (r.1.kind ≡ error)

alphanumeric_end : is_alphanumeric 0 ≡ false
unfolding is_alphanumeric
alphanumeric_end = refl

digit_end : is_digit 0 ≡ false
unfolding is_digit
digit_end = refl

make_token-Covers : (l : Lexer) (t : TokenType) → InToken l → t ≢ eof → Covers l (l, make_token l t)
unfolding make_token
make_token-Covers l t i n = ground (arith, Moves-refl l)

make_token_length-Covers :
    (l m : Lexer) (t : TokenType) (n : ℕ)
    → Moves l m
    → m.start + n ≡ m.current
    → t ≢ eof
    → Covers l (m, make_token_length m t n)
unfolding make_token_length
make_token_length-Covers l m t n v h e = ground arith

error_token-Covers : (l m : Lexer) (text : List ℕ) → Moves l m → Covers l (m, error_token m text)
unfolding error_token
error_token-Covers l m text v = ground arith

advance-Moves : (l : Lexer) → l.current < length l.source → Moves l (advance l)
unfolding advance
advance-Moves l h = ground arith

scan_identifier-Covers : (l : Lexer) → InToken l → Covers l (scan_identifier l)
unfolding scan_identifier
scan_identifier-Covers l i =
    let v = (advance_while-Ends is_alphanumeric l alphanumeric_end i.inside).0 in
    make_token_length-Covers l _ _ _ v (ground arith) (identifier_type-ne-eof _)

scan_fraction-Moves : (l : Lexer) → l.current ≤ length l.source → Moves l (scan_fraction l)
unfolding scan_fraction
scan_fraction-Moves l w = elim (Bool-cases (peek l == b'.' && is_digit (peek_next l))) [
  | inl h ↦
      let one = advance-Moves l (peek-ne-zero l (ground arith)) in
      rw (h, scan_fraction)
        (Moves-trans l (advance l) _ one
          (advance_while-Ends is_digit (advance l) digit_end one.within).0)
  | inr h ↦ rw (h, scan_fraction) (Moves-refl l w)
]

scan_number-Covers : (l : Lexer) → InToken l → Covers l (scan_number l)
unfolding scan_number
scan_number-Covers l i =
    let digits = (advance_while-Ends is_digit l digit_end i.inside).0 in
    let v =
      Moves-trans l _ _ digits (scan_fraction-Moves (advance_while is_digit l) digits.within) in
    make_token_length-Covers l _ number _ v (ground arith) (λ e. cc)

string_token-Covers : (l : Lexer) → InToken l → Covers l (string_token l)
unfolding string_token
string_token-Covers l i =
    let v = (string_body-Ends l i.inside).0 in
    elim (eq_cases (peek (string_body l)) 0) [
      | inl h ↦ rw (h, string_token) (error_token-Covers l _ unterminated_string v)
      | inr h ↦
          let past = advance-Moves (string_body l) (peek-ne-zero (string_body l) (ground arith)) in
          rw (h, string_token)
            (make_token_length-Covers l _ string _ (Moves-trans l _ _ v past) (ground arith)
              (λ e. cc))
    ]

annotation_type-ne-eof : (w : List ℕ) (t : TokenType) → annotation_type w ≡ some t → t ≢ eof
unfolding annotation_type
annotation_type-ne-eof w t e h = ground arith

annotation-Covers : (l : Lexer) → InToken l → Covers l (annotation l)
unfolding annotation
annotation-Covers l i =
    let m = advance_while is_alphanumeric l in
    let v = (advance_while-Ends is_alphanumeric l alphanumeric_end i.inside).0 in
    let w = slice l.source l.current (m.current - l.current) in
    elim (Option-cases (annotation_type w)) [
      | inl e ↦ rw (e, annotation) (make_token-Covers l at i (λ h. cc))
      | inr (t, e) ↦
          rw (e, annotation)
            (make_token_length-Covers l m t _ v (ground arith) (annotation_type-ne-eof w t e))
    ]

double_or-Covers :
    (l : Lexer) (c : ℕ) (t : TokenType) (other : Token)
    → InToken l
    → c ≢ 0
    → t ≢ eof
    → Covers l (l, other)
    → Covers l (double_or l c t other)
unfolding double_or
double_or-Covers l c t other i z n o = elim (Bool-cases (peek l == c)) [
  | inl h ↦
      let v = advance-Moves l (peek-ne-zero l (ground arith)) in
      rw (h, double_or) (make_token_length-Covers l _ t 2 v (unfold advance in (ground arith)) n)
  | inr h ↦ rw (h, double_or) o
]

punctuation-Covers : (c : ℕ) (l : Lexer) → InToken l → Covers l (punctuation c l)
punctuation-Covers c l i =
    punctuation_cases (Covers l) c l (λ t n. make_token-Covers l t i n) (annotation-Covers l i)
      (λ k t o z _ n h. double_or-Covers l k t o i z n h)
      (λ text. error_token-Covers l l text (Moves-refl l i.inside)) (string_token-Covers l i)

dispatch-Covers : (c : ℕ) (l : Lexer) → InToken l → Covers l (dispatch c l)
unfolding dispatch
dispatch-Covers c l i =
    if_case (Covers l) (is_alpha c) _ _ (scan_identifier-Covers l i)
      (if_case (Covers l) (is_digit c) _ _ (scan_number-Covers l i) (punctuation-Covers c l i))

-- What a call leaves: at the end of the source only the end token, and else a token that covers at
-- least one byte.
pub record NextToken (l m : Lexer) (t : Token) : Type 0 where
  pub same_source : m.source ≡ l.source
  pub starts : l.current ≤ m.start
  pub covered : m.start ≤ m.current
  pub within : m.current ≤ length m.source
  pub at_line : t.line ≡ m.line
  pub line_forward : l.line ≤ m.line
  pub line_bound : m.line + l.current ≤ l.line + m.current
  pub token :
      ((t.kind ≡ eof) × (m.current ≡ m.start) × (peek m ≡ 0))
      ⊎ ((t.kind ≢ eof)
          × (m.start < m.current)
          × (((t.start ≡ in_source m.start) × (m.start + t.length ≡ m.current)) ⊎ (t.kind ≡ error)))

-- A token is begun at `s`, behind the white space.
abbrev begin : Lexer → Lexer
begin s = record s { start = s.current }

end_NextToken :
    (l s : Lexer)
    → Moves l s
    → peek (begin s) ≡ 0
    → NextToken l (begin s) (make_token (begin s) eof)
unfolding make_token
end_NextToken l s v e = ground arith

Covers-NextToken :
    (l s : Lexer) (r : Lexer × Token)
    → Moves l s
    → Covers (advance (begin s)) r
    → NextToken l r.0 r.1
unfolding advance
Covers-NextToken l s r v c = ground (arith, c.moves, c.spells)

-- From any position inside the source, one call leaves the source as it was and stops inside it,
-- and the line number goes forward by at most the bytes read; the end token comes exactly at a
-- terminator and reads nothing; every other token reads at least one byte, and is an error or spells
-- exactly the bytes from `start` to `current`, on the line where the scanner then stands.
pub lexer_next_token-NextToken :
    (l : Lexer)
    → l.current ≤ length l.source
    → NextToken l (lexer_next_token l).0 (lexer_next_token l).1
unfolding lexer_next_token
lexer_next_token-NextToken l w =
    let s = skip_whitespace l in
    let v = (skip_whitespace-Ends l w).0 in
    elim (eq_cases (peek (begin s)) 0) [
      | inl e ↦ rw (e, lexer_next_token) (end_NextToken l s v e)
      | inr e ↦
          let inside = peek-ne-zero (begin s) (ground arith) in
          rw (e, lexer_next_token)
            (Covers-NextToken l s _ v
              (dispatch-Covers _ (advance (begin s)) (unfold advance in (ground arith))))
    ]

-- Where the end token stands: it has one byte, the one before the position of the scanner.
pub lexer_next_token-end :
    (l : Lexer)
    → l.current ≤ length l.source
    → let (m, t) = lexer_next_token l in
      t.kind ≡ eof → (t.start ≡ back m.current 1) × (t.length ≡ 1)
unfolding lexer_next_token make_token
lexer_next_token-end l w =
    let s = skip_whitespace l in
    let v = (skip_whitespace-Ends l w).0 in
    elim (eq_cases (peek (begin s)) 0) [
      | inl e ↦ rw (e, lexer_next_token) λ h. (refl, refl)
      | inr e ↦
          let inside = peek-ne-zero (begin s) (ground arith) in
          let c = dispatch-Covers _ (advance (begin s)) (unfold advance in (ground arith)) in
          rw (e, lexer_next_token) λ h. absurd (c.not_eof h)
    ]
