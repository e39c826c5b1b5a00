-- ===== src/Lexer/Scanner/Lines.antt =====
-- The line number of the scanner, against the line feeds of the source.
use native.Mathlib.Numerals.{unary_clauses}
use asteron.Prelude.{
  ℕ, zero, suc, ◌+◌, ◌-◌, ◌≤◌, ◌≡◌, ◌≢◌, refl, inl, inr, Bool, false, none, some, List, [], ◌∷◌,
  arith, ◌==◌, if◌then◌else◌, length, get_or, All, Option-cases, eq_cases,
}
use asteron.Lexer.Token.{Lexer, Token, TokenType}
use asteron.Lexer.Keywords.{is_alpha, is_digit, is_alphanumeric}
use asteron.Lexer.Cursor.{
  peek, peek_next, advance, while_step, advance_while, is_in_comment, whitespace_step,
  skip_whitespace, string_step, string_body,
}
use asteron.Lexer.Cursor.Moves.{run_loop_inv, skip_whitespace-Ends, string_body-Ends, peek-ne-zero}
use asteron.Lexer.Scanner.{
  slice, scan_identifier, scan_fraction, scan_number, string_token, annotation_type, annotation,
  double_or, punctuation, dispatch, lexer_next_token,
}
use asteron.Lexer.Scanner.Cases.{if_case, punctuation_cases}

-- The line feeds among the first `i` bytes.
unfoldable pub lines_before : List ℕ → ℕ → ℕ
lines_before xs zero = 0
lines_before [] (suc i) = 0
lines_before (x ∷ xs) (suc i) = (if x == 10 then 1 else 0) + lines_before xs i

lines_before-suc :
    (xs : List ℕ) (i : ℕ)
    → lines_before xs (suc i) ≡ lines_before xs i + (if get_or xs i 0 == 10 then 1 else 0)
unfolding lines_before
lines_before-suc [] zero = refl
lines_before-suc [] (suc i) = refl
lines_before-suc (x ∷ xs) zero = ground arith
lines_before-suc (x ∷ xs) (suc i) = omega (arith, lines_before-suc xs i)

-- No backslash stands directly before a line feed.
abbrev pub NoEscapedNewline : List ℕ → Type 0
NoEscapedNewline xs = (i : ℕ) → get_or xs i 0 ≡ 92 → get_or xs (i + 1) 0 ≢ 10

pub no_backslash : (xs : List ℕ) → All (λ b. b ≢ 92) xs → NoEscapedNewline xs
no_backslash [] h i e = ground arith
no_backslash (x ∷ xs) h zero e = absurd (h.0 e)
no_backslash (x ∷ xs) h (suc i) e =
    simp unary_clauses (simp unary_clauses at (no_backslash xs h.1 i e))

-- The line number is right: one more than the line feeds behind the scanner.
pub record IsOnLine (source : List ℕ) (l : Lexer) : Type 0 where
  pub same_source : l.source ≡ source
  pub right_line : l.line ≡ 1 + lines_before source l.current

string_step_end : (s : Lexer) → string_step s ≡ none → peek s ≢ 10
unfolding string_step
string_step_end s e h = ground arith

module _ (source : List ℕ) where
  -- A byte that is no line feed leaves the line as it is.
  advance-IsOnLine : (l : Lexer) → IsOnLine source l → peek l ≢ 10 → IsOnLine source (advance l)
  unfolding advance peek
  advance-IsOnLine l h n = ground (arith, lines_before-suc source l.current)

  newline-IsOnLine :
      (l : Lexer)
      → IsOnLine source l
      → peek l ≡ 10
      → IsOnLine source (advance (record l { line = l.line + 1 }))
  unfolding advance peek
  newline-IsOnLine l h n = ground (arith, lines_before-suc source l.current)

  advance_while-IsOnLine :
      (test : ℕ → Bool) (l : Lexer)
      → test 10 ≡ false
      → IsOnLine source l
      → IsOnLine source (advance_while test l)
  unfolding advance_while while_step
  advance_while-IsOnLine test l t h =
      run_loop_inv (IsOnLine source) (while_step test)
        (λ a b o e. ground (arith, advance-IsOnLine a)) l h

  whitespace_step-IsOnLine :
      (l m : Lexer) → IsOnLine source l → whitespace_step l ≡ some m → IsOnLine source m
  unfolding whitespace_step
  whitespace_step-IsOnLine l m h e =
      ground (arith, advance-IsOnLine l, newline-IsOnLine l, advance_while-IsOnLine is_in_comment l)

  skip_whitespace-IsOnLine : (l : Lexer) → IsOnLine source l → IsOnLine source (skip_whitespace l)
  unfolding skip_whitespace
  skip_whitespace-IsOnLine l h =
      run_loop_inv (IsOnLine source) whitespace_step whitespace_step-IsOnLine l h

  alphanumeric-IsOnLine :
      (l : Lexer) → IsOnLine source l → IsOnLine source (advance_while is_alphanumeric l)
  alphanumeric-IsOnLine l h =
      advance_while-IsOnLine is_alphanumeric l (unfold is_alphanumeric in refl) h

  digits-IsOnLine : (l : Lexer) → IsOnLine source l → IsOnLine source (advance_while is_digit l)
  digits-IsOnLine l h = advance_while-IsOnLine is_digit l (unfold is_digit in refl) h

  fraction-IsOnLine : (l : Lexer) → IsOnLine source l → IsOnLine source (scan_fraction l)
  unfolding scan_fraction
  fraction-IsOnLine l h = ground (arith, advance-IsOnLine l, digits-IsOnLine (advance l))

  annotation-IsOnLine : (l : Lexer) → IsOnLine source l → IsOnLine source (annotation l).0
  unfolding annotation
  annotation-IsOnLine l h =
      let m = advance_while is_alphanumeric l in
      elim (Option-cases (annotation_type (slice l.source l.current (m.current - l.current)))) [
        | inl e ↦ rw (e, annotation) h
        | inr (t, e) ↦ rw (e, annotation) (alphanumeric-IsOnLine l h)
      ]

  double_or-IsOnLine :
      (l : Lexer) (k : ℕ) (t : TokenType) (o : Token)
      → k ≢ 10
      → IsOnLine source l
      → IsOnLine source (double_or l k t o).0
  unfolding double_or
  double_or-IsOnLine l k t o n h = ground (arith, advance-IsOnLine l)

  -- The first of two bytes is no line feed, and the second is none behind a backslash.
  escaped-IsOnLine :
      NoEscapedNewline source
      → (l : Lexer) → IsOnLine source l
      → peek l ≡ 92
      → peek_next l ≢ 0
      → IsOnLine source (advance (advance l))
  unfolding peek_next peek advance
  escaped-IsOnLine ok l h b n =
      ground (arith, advance-IsOnLine l, advance-IsOnLine (advance l), ok l.current)

  string_step-IsOnLine :
      NoEscapedNewline source
      → (l m : Lexer) → IsOnLine source l
      → string_step l ≡ some m
      → IsOnLine source m
  unfolding string_step
  string_step-IsOnLine ok l m h e =
      ground (arith, advance-IsOnLine l, newline-IsOnLine l, escaped-IsOnLine ok l)

  string_body-IsOnLine :
      NoEscapedNewline source → (l : Lexer) → IsOnLine source l → IsOnLine source (string_body l)
  unfolding string_body
  string_body-IsOnLine ok l h =
      run_loop_inv (IsOnLine source) string_step (string_step-IsOnLine ok) l h

  string_token-IsOnLine :
      NoEscapedNewline source
      → (l : Lexer) → l.current ≤ length l.source
      → IsOnLine source l
      → IsOnLine source (string_token l).0
  unfolding string_token
  string_token-IsOnLine ok l w h =
      let closed = string_step_end (string_body l) (string_body-Ends l w).1 in
      let body = string_body-IsOnLine ok l h in
      if_case (λ (r : Lexer × Token). IsOnLine source r.0) (peek (string_body l) == 0) _ _ body
        (advance-IsOnLine (string_body l) body closed)

  punctuation-IsOnLine :
      NoEscapedNewline source
      → (c : ℕ) (l : Lexer) → l.current ≤ length l.source
      → IsOnLine source l
      → IsOnLine source (punctuation c l).0
  punctuation-IsOnLine ok c l w h =
      punctuation_cases (λ r. IsOnLine source r.0) c l (λ t n. h) (annotation-IsOnLine l h)
        (λ k t o z n m g. double_or-IsOnLine l k t o n h) (λ text. h)
        (string_token-IsOnLine ok l w h)

  dispatch-IsOnLine :
      NoEscapedNewline source
      → (c : ℕ) (l : Lexer) → l.current ≤ length l.source
      → IsOnLine source l
      → IsOnLine source (dispatch c l).0
  unfolding dispatch scan_identifier scan_number
  dispatch-IsOnLine ok c l w h =
      if_case (λ (r : Lexer × Token). IsOnLine source r.0) (is_alpha c) _ _
        (alphanumeric-IsOnLine l h)
        (if_case (λ (r : Lexer × Token). IsOnLine source r.0) (is_digit c) _ _
          (fraction-IsOnLine (advance_while is_digit l) (digits-IsOnLine l h))
          (punctuation-IsOnLine ok c l w h))

whitespace_step_end : (s : Lexer) → whitespace_step s ≡ none → peek s ≢ 10
unfolding whitespace_step
whitespace_step_end s e h = ground arith

-- The first byte of a token is no line feed.
first-IsOnLine :
    (source : List ℕ) (s : Lexer)
    → IsOnLine source s
    → peek s ≢ 10
    → IsOnLine source (advance (record s { start = s.current }))
unfolding peek
first-IsOnLine source s h n = advance-IsOnLine source _ (ground arith) n

read : (m : Lexer) → (peek m == 0) ≡ false → (advance m).current ≤ length (advance m).source
unfolding advance
read m e = ground (arith, peek-ne-zero m)

-- If no backslash stands before a line feed, each call keeps the line number right: it is one more
-- than the number of line feeds behind the scanner.
pub lexer_next_token-IsOnLine :
    (l : Lexer)
    → NoEscapedNewline l.source
    → l.current ≤ length l.source
    → IsOnLine l.source l
    → IsOnLine l.source (lexer_next_token l).0
unfolding lexer_next_token
lexer_next_token-IsOnLine l ok w h =
    let s = skip_whitespace l in
    let m = record s { start = s.current } in
    let skip = skip_whitespace-IsOnLine l.source l h in
    let ends = skip_whitespace-Ends l w in
    let first = first-IsOnLine l.source s skip (whitespace_step_end s ends.1) in
    elim (eq_cases (peek m) 0) [
      | inl e ↦ rw (e, lexer_next_token) (ground (arith, skip))
      | inr e ↦
          rw (e, lexer_next_token) (dispatch-IsOnLine l.source ok _ (advance m) (read m e) first)
    ]

-- In a string, a line feed behind a backslash is passed over and not counted: from a right line
-- number, the round of the loop leaves the scanner behind the line feed with a number that is one
-- too low.
pub string_step-escaped_newline :
    (l : Lexer)
    → IsOnLine l.source l
    → peek l ≡ 92
    → peek_next l ≡ 10
    → (string_step l ≡ some (advance (advance l)))
      × ((advance (advance l)).line + 1 ≡ 1 + lines_before l.source (advance (advance l)).current)
unfolding string_step
string_step-escaped_newline l h a b = (
  ground arith,
  unfold peek_next peek advance in
      (ground
        (arith, lines_before-suc l.source l.current, lines_before-suc l.source (l.current + 1))),
)
