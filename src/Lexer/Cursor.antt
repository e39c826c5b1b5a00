-- ===== src/Lexer/Cursor.antt =====
-- src/core/lexer/lexer.c: the reading primitives, and the loops that move `current` forward.
pub mod Moves
use asteron.Prelude.{
  ℕ, zero, suc, ◌+◌, ◌-◌, Bool, Option, none, some, not, ◌&&◌, ◌||◌, ◌==◌, if◌then◌else◌, length,
  get_or,
}
use asteron.Lexer.Token.{Lexer}

-- `*lexer->current`: the terminator stands behind the bytes of the source.
unfoldable pub peek : Lexer → ℕ
peek l = get_or l.source l.current 0

unfoldable pub peek_next : Lexer → ℕ
unfolding peek
peek_next l = if peek l == 0 then 0 else get_or l.source (l.current + 1) 0

-- The byte that `advance` returns is read by `peek` before the call.
unfoldable pub advance : Lexer → Lexer
advance l = record l { current = l.current + 1 }

unfoldable pub unread : Lexer → ℕ
unread l = length l.source - l.current

-- A `for (;;)` or `while` loop: `step` is one round, and `none` leaves the loop.
unfoldable pub loop : ℕ → (Lexer → Option Lexer) → Lexer → Lexer
loop zero step l = l
loop (suc fuel) step l = elim (step l) [ none ↦ l | some m ↦ loop fuel step m ]

-- No round leaves `current` where it is, so there are at most as many as unread bytes.
unfoldable pub run_loop : (Lexer → Option Lexer) → Lexer → Lexer
unfolding loop unread
run_loop step l = loop (unread l + 1) step l

-- `while (test(peek(lexer))) advance(lexer);`
unfoldable pub while_step : (ℕ → Bool) → Lexer → Option Lexer
unfolding peek advance
while_step test l = if test (peek l) then some (advance l) else none

unfoldable pub advance_while : (ℕ → Bool) → Lexer → Lexer
unfolding run_loop while_step
advance_while test = run_loop (while_step test)

-- Neither a line feed nor the terminator.
unfoldable pub is_in_comment : ℕ → Bool
is_in_comment c = not (c == 10) && not (c == 0)

-- The `switch` of `skip_whitespace`: blank, carriage return and tab; line feed; slash.
unfoldable pub whitespace_step : Lexer → Option Lexer
unfolding peek peek_next advance advance_while is_in_comment
whitespace_step l =
    let c = peek l in
    if c == 32 || c == 13 || c == 9
    then some (advance l)
    else if c == 10
    then some (advance (record l { line = l.line + 1 }))
    else if c == b'/'
    then (if peek_next l == b'/' then some (advance_while is_in_comment l) else none)
    else none

unfoldable pub skip_whitespace : Lexer → Lexer
unfolding run_loop whitespace_step
skip_whitespace = run_loop whitespace_step

-- One round of the loop of `string_token`; 34 is the quote and 92 the backslash.
unfoldable pub string_step : Lexer → Option Lexer
unfolding peek peek_next advance
string_step l =
    if peek l == 34 || peek l == 0
    then none
    else (let m = if peek l == 10 then record l { line = l.line + 1 } else l in
        if peek m == 92 && not (peek_next m == 0)
        then some (advance (advance m))
        else some (advance m))

unfoldable pub string_body : Lexer → Lexer
unfolding run_loop string_step
string_body = run_loop string_step
