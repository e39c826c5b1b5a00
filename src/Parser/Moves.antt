-- ===== src/Parser/Moves.antt =====
-- src/core/parser/parser.c: the parser's state, and the functions that look at a token and pass it.
pub mod Spends
use asteron.Prelude.{ℕ, ◌+◌, Bool, true, false, List, [], ◌∷◌, ◌||◌, if◌then◌else◌}
use asteron.Lexer.Token.{TokenType, error}
use asteron.Parser.Source.{Lexeme, TokenSource, same_type, weight}
use asteron.Outcome.{Run, done}

-- The struct `Parser` over the lexer's state.
pub record Parser (S : Type 0) : Type 0 where
  pub lexer : S
  pub current : Lexeme
  pub previous : Lexeme
  pub had_error : Bool

module _ (s : TokenSource) where
  open s use {State, next, left}

  abbrev pub Parsing : Type 0 → Type 0
  Parsing A = Run (Parser State) A

  unfoldable pub advance : Parser State → Parser State
  unfolding same_type
  advance p =
      let (l, t) = next p.lexer in
      record {
        lexer = l;
        current = t;
        previous = p.current;
        had_error = p.had_error || same_type t.kind error;
      }

  unfoldable pub check : TokenType → Parser State → Bool
  unfolding same_type
  check t p = same_type p.current.kind t

  -- `match(A) || match(B) || …`, before it passes the token.
  unfoldable pub check_any : List TokenType → Parser State → Bool
  unfolding check
  check_any [] p = false
  check_any (t ∷ ts) p = check t p || check_any ts p

  unfoldable pub match : TokenType → Parsing Bool
  unfolding check advance
  match t p = if check t p then done true (advance p) else done false p

  -- An expected token that is missing is reported, and nothing is passed.
  unfoldable pub consume : TokenType → Parsing (Unit {0})
  unfolding check advance
  consume t p = if check t p then done tt (advance p) else done tt (record p { had_error = true })

  -- Tokens that are left, with the current one.
  unfoldable pub rest : Parser State → ℕ
  rest p = left p.lexer + weight p.current.kind

  -- What the memory of the new struct holds is the token before the first.
  unfoldable pub parser_create : State → Lexeme → Parser State
  unfolding advance
  parser_create l junk =
      advance (record { lexer = l; current = junk; previous = junk; had_error = false })
