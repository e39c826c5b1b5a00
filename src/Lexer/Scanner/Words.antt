-- ===== src/Lexer/Scanner/Words.antt =====
-- What the scanner makes of a word: the loops stop at the end of the longest run of word bytes.
use native.Mathlib.Numerals.{add-one}
use asteron.Prelude.{
  ℕ, zero, suc, ◌+◌, ◌-◌, ◌<◌, ◌≡◌, refl, ap, ◌∙◌, Bool, true, false, Option, none, List, [], ◌∷◌,
  ◌++◌, arith, length, get_or, All, take, drop, length-drop, length-append, drop_head, drop_tail,
  take-append_length,
}
use asteron.Lexer.Token.{Lexer, Token, in_source}
use asteron.Lexer.Keywords.{is_alpha, is_alphanumeric, identifier_type}
use asteron.Lexer.Cursor.{
  peek, advance, unread, loop, run_loop, while_step, advance_while, whitespace_step,
  skip_whitespace,
}
use asteron.Lexer.Scanner.{
  make_token_length, slice, lexeme, scan_identifier, dispatch, lexer_next_token,
}

-- The bytes still to be read.
abbrev pub Reads : Lexer → List ℕ → Type 0
Reads l xs = drop l.current l.source ≡ xs

peek-Reads : (l : Lexer) (xs : List ℕ) → Reads l xs → peek l ≡ get_or xs 0 0
unfolding peek
peek-Reads l xs h = drop_head l.current l.source 0 ∙ ap (λ ys. get_or ys 0 0) h

slice-drop : (xs : List ℕ) (i n : ℕ) → slice xs i n ≡ take n (drop i xs)
unfolding slice
slice-drop xs zero zero = refl
slice-drop xs (suc i) zero = refl
slice-drop [] zero (suc n) = refl
slice-drop [] (suc i) (suc n) = refl
slice-drop (x ∷ xs) zero (suc n) = ap (◌∷◌ x) (slice-drop xs 0 n)
slice-drop (x ∷ xs) (suc i) (suc n) = slice-drop xs i (suc n)

loop_run :
    (test : ℕ → Bool) (w rest : List ℕ) (fuel : ℕ) (l : Lexer)
    → Reads l (w ++ rest)
    → All (λ b. test b ≡ true) w
    → test (get_or rest 0 0) ≡ false
    → length w < fuel
    → loop fuel (while_step test) l ≡ record l { current = l.current + length w }
unfolding loop while_step advance
loop_run test w rest zero l r a e f = absurd (omega arith)
loop_run test [] rest (suc fuel) l r a e f = ground (arith, peek-Reads l rest r)
loop_run test (x ∷ w) rest (suc fuel) l r a e f = ground (
  arith,
  peek-Reads l (x ∷ (w ++ rest)) r,
  drop_tail l.current l.source x (w ++ rest) r,
  loop_run test w rest fuel (record l { current = l.current + 1 }),
)

-- The loop reads exactly the longest run of bytes that pass the test.
pub advance_while_run :
    (test : ℕ → Bool) (w rest : List ℕ) (l : Lexer)
    → Reads l (w ++ rest)
    → All (λ b. test b ≡ true) w
    → test (get_or rest 0 0) ≡ false
    → advance_while test l ≡ record l { current = l.current + length w }
unfolding advance_while run_loop unread
advance_while_run test w rest l r a e =
    loop_run test w rest _ l r a e
      (omega (arith, ap length r, length-drop l.current l.source, length-append w rest))

loop_stopped :
    (step : Lexer → Option Lexer) (fuel : ℕ) (l : Lexer) → step l ≡ none → loop fuel step l ≡ l
unfolding loop
loop_stopped step zero l e = refl
loop_stopped step (suc fuel) l e = rw (e, loop)

whitespace_step-alpha : (l : Lexer) → is_alpha (peek l) ≡ true → whitespace_step l ≡ none
unfolding whitespace_step is_alpha
whitespace_step-alpha l h = ground arith

-- A letter is no white space.
skip_whitespace-alpha : (l : Lexer) → is_alpha (peek l) ≡ true → skip_whitespace l ≡ l
unfolding skip_whitespace run_loop
skip_whitespace-alpha l h = loop_stopped whitespace_step _ l (whitespace_step-alpha l h)

next_token-alpha :
    (l : Lexer)
    → is_alpha (peek l) ≡ true
    → lexer_next_token l ≡ scan_identifier (advance (record l { start = l.current }))
unfolding lexer_next_token
next_token-alpha l h =
    rw (skip_whitespace-alpha l h) (unfold dispatch is_alpha peek in (ground (arith, h)))

-- The token of a word.
abbrev pub word_token : Lexer → List ℕ → Lexer × Token
word_token l w = (
  record l { start = l.current; current = l.current + length w },
  record {
    kind = identifier_type w;
    start = in_source l.current;
    length = length w;
    line = l.line;
  },
)

drop_tail_at :
    (l : Lexer) (c : ℕ) (xs : List ℕ) → Reads l (c ∷ xs) → drop (l.current + 1) l.source ≡ xs
drop_tail_at l c xs r = rw add-one (drop_tail l.current l.source c xs r)

spelled :
    (l : Lexer) (c : ℕ) (w rest : List ℕ)
    → Reads l (c ∷ (w ++ rest))
    → slice l.source l.current (suc (length w)) ≡ c ∷ w
spelled l c w rest r =
    slice-drop l.source l.current (suc (length w))
    ∙ ap (take (suc (length w))) r
    ∙ ap (◌∷◌ c) (take-append_length w rest)

scan_word :
    (l : Lexer) (c : ℕ) (w rest : List ℕ)
    → Reads l (c ∷ (w ++ rest))
    → All (λ b. is_alphanumeric b ≡ true) w
    → is_alphanumeric (get_or rest 0 0) ≡ false
    → scan_identifier (record l { start = l.current; current = l.current + 1 })
      ≡ word_token l (c ∷ w)
unfolding scan_identifier make_token_length lexeme
scan_word l c w rest r a e =
    let n : l.current + 1 + length w - l.current ≡ suc (length w) = omega arith in
    rw
      (
        advance_while_run is_alphanumeric w rest
            (record l { start = l.current; current = l.current + 1 })
            (drop_tail_at l c (w ++ rest) r) a e,
        n,
        spelled l c w rest r,
      )
      (ground arith)

-- A word, begun by a letter or `_` and followed by no further word byte, is read as one token: its
-- type is that of the table of keywords, and it spells exactly the word.
pub lexer_next_token-word :
    (l : Lexer) (c : ℕ) (w rest : List ℕ)
    → Reads l (c ∷ (w ++ rest))
    → is_alpha c ≡ true
    → All (λ b. is_alphanumeric b ≡ true) w
    → is_alphanumeric (get_or rest 0 0) ≡ false
    → lexer_next_token l ≡ word_token l (c ∷ w)
lexer_next_token-word l c w rest r h a e =
    next_token-alpha l (ap is_alpha (peek-Reads l (c ∷ (w ++ rest)) r) ∙ h)
    ∙ unfold advance in (scan_word l c w rest r a e)
