-- ===== src/Lexer/Scanner/Cases.antt =====
-- The cases of the `switch` of `lexer_next_token`.
use asteron.Prelude.{ℕ, ◌≢◌, Bool, true, false, List, arith, ◌==◌, if◌then◌else◌}
use asteron.Lexer.Token.{
  Lexer, Token, TokenType, eof, lparen, rparen, lbrace, rbrace, semicolon, comma, colon, dot, plus,
  minus, multiply, divide, not, assign, gt, lt, gte, lte, eq, ne, and, or,
}
use asteron.Lexer.Scanner.{
  make_token, error_token, string_token, annotation, single, double_or, punctuation, expected_after,
  unexpected_character,
}

-- One test of the `switch`.
pub if_case {ℓ κ} :
    {A : Type ℓ} (P : A → Type κ) (b : Bool) (x y : A) → P x → P y → P (if b then x else y)
if_case P true x y h k = h
if_case P false x y h k = k

-- What holds of each kind of case holds of the whole `switch`.
pub punctuation_cases {ℓ} :
    (P : Lexer × Token → Type ℓ) (c : ℕ) (l : Lexer)
    → ((t : TokenType) → t ≢ eof → P (l, make_token l t))
    → P (annotation l)
    → ((k : ℕ) (t : TokenType) (o : Token)
        → k ≢ 0
        → k ≢ 10
        → t ≢ eof
        → P (l, o)
        → P (double_or l k t o))
    → ((text : List ℕ) → P (l, error_token l text))
    → P (string_token l)
    → P (punctuation c l)
unfolding punctuation single
punctuation_cases P c l one annotated two fail quoted =
    if_case P (c == b'(') _ _ (one lparen (λ e. cc)) (
      if_case P (c == b')') _ _ (one rparen (λ e. cc)) (
        if_case P (c == b'{') _ _ (one lbrace (λ e. cc)) (
          if_case P (c == b'}') _ _ (one rbrace (λ e. cc)) (
            if_case P (c == b';') _ _ (one semicolon (λ e. cc)) (
              if_case P (c == b',') _ _ (one comma (λ e. cc)) (
                if_case P (c == b':') _ _ (one colon (λ e. cc)) (
                  if_case P (c == b'.') _ _ (one dot (λ e. cc)) (
                    if_case P (c == b'@') _ _ (annotated) (
                      if_case P (c == b'+') _ _ (one plus (λ e. cc)) (
                        if_case P (c == b'-') _ _ (one minus (λ e. cc)) (
                          if_case P (c == b'*') _ _ (one multiply (λ e. cc)) (
                            if_case P (c == b'/') _ _ (one divide (λ e. cc)) (
                              if_case P (c == b'!') _ _
                                (two b'=' ne _ (omega arith) (omega arith) (λ e. cc)
                                  (one not (λ e. cc)))
                                (if_case P (c == b'=') _ _
                                  (two b'=' eq _ (omega arith) (omega arith) (λ e. cc)
                                    (one assign (λ e. cc)))
                                  (if_case P (c == b'>') _ _
                                    (two b'=' gte _ (omega arith) (omega arith) (λ e. cc)
                                      (one gt (λ e. cc)))
                                    (if_case P (c == b'<') _ _
                                      (two b'=' lte _ (omega arith) (omega arith) (λ e. cc)
                                        (one lt (λ e. cc)))
                                      (if_case P (c == b'&') _ _
                                        (two b'&' and _ (omega arith) (omega arith) (λ e. cc)
                                          (fail (expected_after b'&')))
                                        (if_case P (c == b'|') _ _
                                          (two b'|' or _ (omega arith) (omega arith) (λ e. cc)
                                            (fail (expected_after b'|')))
                                          (if_case P (c == 34) _ _ (quoted)
                                            (fail unexpected_character))))))))))))))))))))
