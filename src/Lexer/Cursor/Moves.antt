-- ===== src/Lexer/Cursor/Moves.antt =====
-- Every loop of the scanner ends by its own test, and moves forward within the source.
use mathlib.Core.Path.{ap₂}
use native.Mathlib.Decide.{dec_lt}
use asteron.Prelude.{
  ℕ, zero, suc, ◌+◌, ◌-◌, ◌≤◌, ◌<◌, ◌≡◌, ◌≢◌, refl, ap, ◌∙◌, inl, inr, Bool, false, Option, none,
  some, List, [], ◌∷◌, arith, length, get_or, Bool-cases, Option-cases,
}
use asteron.Lexer.Token.{Lexer}
use asteron.Lexer.Cursor.{
  peek, peek_next, advance, unread, loop, run_loop, while_step, advance_while, is_in_comment,
  whitespace_step, skip_whitespace, string_step, string_body,
}

-- `m` is `l` moved forward within the source, by at least one byte for each line counted.
pub record Moves (l m : Lexer) : Type 0 where
  pub same_source : m.source ≡ l.source
  pub same_start : m.start ≡ l.start
  pub forward : l.current ≤ m.current
  pub within : m.current ≤ length m.source
  pub line_forward : l.line ≤ m.line
  pub line_bound : m.line + l.current ≤ l.line + m.current

pub Moves-refl : (l : Lexer) → l.current ≤ length l.source → Moves l l
Moves-refl l h = ground arith

pub Moves-trans : (l m n : Lexer) → Moves l m → Moves m n → Moves l n
Moves-trans l m n p q = ground arith

get_or_past : (xs : List ℕ) (i : ℕ) → get_or xs i 0 ≢ 0 → i < length xs
get_or_past [] i h = absurd (h refl)
get_or_past (x ∷ xs) zero h = omega arith
get_or_past (x ∷ xs) (suc i) h = omega (arith, get_or_past xs i h)

-- Only the terminator reads as zero past the end.
pub peek-ne-zero : (l : Lexer) → peek l ≢ 0 → l.current < length l.source
unfolding peek
peek-ne-zero l h = get_or_past l.source l.current h

pub peek_next-ne-zero : (l : Lexer) → peek_next l ≢ 0 → l.current + 1 < length l.source
unfolding peek_next peek
peek_next-ne-zero l h = ground (arith, get_or_past l.source (l.current + 1))

-- A round that goes on moves by one byte at least.
abbrev pub Steps : (Lexer → Option Lexer) → Type 0
Steps step =
    (l m : Lexer)
    → l.current ≤ length l.source
    → step l ≡ some m
    → Moves l m × (l.current < m.current)

abbrev pub Ends : (Lexer → Option Lexer) → Lexer → Lexer → Type 0
Ends step l m = Moves l m × (step m ≡ none)

loop-Ends :
    (step : Lexer → Option Lexer)
    → Steps step
    → (fuel : ℕ) (l : Lexer) → length l.source - l.current < fuel
    → l.current ≤ length l.source
    → Ends step l (loop fuel step l)
unfolding loop
loop-Ends step ok zero l h w = absurd (omega arith)
loop-Ends step ok (suc fuel) l h w = elim (Option-cases (step l)) [
  | inl e ↦ rw (e, loop) (Moves-refl l w, e)
  | inr (m, e) ↦
      let moved = ok l m w e in
      let rest = loop-Ends step ok fuel m (ground arith) moved.0.within in
      rw (e, loop) (Moves-trans l m (loop fuel step m) moved.0 rest.0, rest.1)
]

pub run_loop-Ends :
    (step : Lexer → Option Lexer)
    → Steps step
    → (l : Lexer) → l.current ≤ length l.source
    → Ends step l (run_loop step l)
unfolding run_loop unread
run_loop-Ends step ok l w = loop-Ends step ok _ l (omega arith) w

while_step-Steps : (test : ℕ → Bool) → test 0 ≡ false → Steps (while_step test)
unfolding while_step advance
while_step-Steps test t l m w e = elim (Bool-cases (test (peek l))) [
  | inl h ↦ ground (arith, peek-ne-zero l)
  | inr h ↦ ground arith
]

pub advance_while-Ends :
    (test : ℕ → Bool) (l : Lexer)
    → test 0 ≡ false
    → l.current ≤ length l.source
    → Ends (while_step test) l (advance_while test l)
unfolding advance_while
advance_while-Ends test l t w = run_loop-Ends (while_step test) (while_step-Steps test t) l w

-- The loop leaves `current` at the first byte that fails the test.
pub advance_while_stops :
    (test : ℕ → Bool) (l : Lexer)
    → test 0 ≡ false
    → l.current ≤ length l.source
    → test (peek (advance_while test l)) ≡ false
unfolding while_step
advance_while_stops test l t w = ground (arith, (advance_while-Ends test l t w).1)

-- A comment is one round of `skip_whitespace`, and takes in its first slash at least.
comment-Moves :
    (l : Lexer)
    → peek l ≡ b'/'
    → l.current ≤ length l.source
    → Moves l (advance_while is_in_comment l)
      × (l.current < (advance_while is_in_comment l).current)
unfolding is_in_comment peek
comment-Moves l e w =
    let m = advance_while is_in_comment l in
    let ends = advance_while-Ends is_in_comment l refl w in
    (
      ends.0,
      elim (dec_lt l.current m.current) [
        | yes h ↦ h
        | no h ↦ absurd (stuck l m ends.0 e h (advance_while_stops is_in_comment l refl w))
      ],
    )
  where
    stuck :
        (l m : Lexer)
        → Moves l m
        → peek l ≡ b'/'
        → ¬ (l.current < m.current)
        → is_in_comment (peek m) ≡ false
        → ⊥
    stuck l m moved e h f =
        let same : peek m ≡ peek l = ap₂ (λ s i. get_or s i 0) moved.same_source (omega arith) in
        cc (ap is_in_comment (same ∙ e), f)

whitespace_step-Steps : Steps whitespace_step
unfolding whitespace_step advance
whitespace_step-Steps l m w e = ground (arith, peek-ne-zero l, comment-Moves l)

pub skip_whitespace-Ends :
    (l : Lexer) → l.current ≤ length l.source → Ends whitespace_step l (skip_whitespace l)
unfolding skip_whitespace
skip_whitespace-Ends l w = run_loop-Ends whitespace_step whitespace_step-Steps l w

string_step-Steps : Steps string_step
unfolding string_step advance
string_step-Steps l m w e =
    ground (
      arith,
      peek-ne-zero l,
      peek_next-ne-zero l,
      peek_next-ne-zero (record l { line = l.line + 1 }),
    )

pub string_body-Ends :
    (l : Lexer) → l.current ≤ length l.source → Ends string_step l (string_body l)
unfolding string_body
string_body-Ends l w = run_loop-Ends string_step string_step-Steps l w

-- An invariant of a round is one of the loop.
loop_inv {ℓ} :
    (P : Lexer → Type ℓ) (step : Lexer → Option Lexer)
    → ((l m : Lexer) → P l → step l ≡ some m → P m)
    → (fuel : ℕ) (l : Lexer) → P l
    → P (loop fuel step l)
unfolding loop
loop_inv P step keep zero l h = h
loop_inv P step keep (suc fuel) l h = elim (Option-cases (step l)) [
  | inl e ↦ rw (e, loop) h
  | inr (m, e) ↦ rw (e, loop) (loop_inv P step keep fuel m (keep l m h e))
]

pub run_loop_inv {ℓ} :
    (P : Lexer → Type ℓ) (step : Lexer → Option Lexer)
    → ((l m : Lexer) → P l → step l ≡ some m → P m)
    → (l : Lexer) → P l
    → P (run_loop step l)
unfolding run_loop
run_loop_inv P step keep l h = loop_inv P step keep _ l h
