-- ===== src/Parser/Statements/Total.antt =====
-- src/core/parser/parser.c: the statements end if the statements inside them do.
use asteron.Prelude.{
  ℕ, ◌-◌, ◌≤◌, ◌<◌, refl, none, List, ◌||◌, ◌&&◌, if◌then◌else◌, arith, ltb, length,
}
use asteron.Lexer.Token.{
  TokenType, lparen, rparen, semicolon, rbrace, assign, colon, else_kw, let_kw, int, float, bool,
  string_type, void, eof,
}
use asteron.Ast.{Node, null, is_null, Annotation}
use asteron.Parser.Source.{TokenSource, weight}
use asteron.Outcome.{Outcome, done, return, Ends, ends, faults, Ends-if}
use asteron.Parser.Moves.{Parser, Parsing, advance, check, rest}
use asteron.Parser.Moves.Spends.{
  Spent, Ending, nothing, Spends-done, Spends-weaken, Spends-pass, Spends-then, Spends-mono,
  consume-Spends, match-Spends, check-weight, advance-rest,
}
use asteron.Parser.Expressions.{parse_expression}
use asteron.Parser.Expressions.Total.{parse_expression-Spends, size}
use asteron.Parser.Annotations.{Text}
use asteron.Parser.Annotations.Total.{expect_name-Spends, name_list-Spends}
use asteron.Parser.Statements.{
  parse_type, store_parameters, function_statement, return_value, return_rest, optional_type,
  let_statement, parenthesized, print_rest, else_branch, if_rest, while_rest, for_init,
  skip_if_null, for_condition, for_increment, for_rest,
}

module _ (s : TokenSource) where
  open s use {State, IsGood}

  pub expression-Ending : (n : ℕ) → Ending s n (parse_expression s)
  expression-Ending n =
      Spends-weaken s n _ size nothing (λ a. omega arith) (parse_expression-Spends s n)

  -- One token, and then a value.
  pub read_one :
      {A : Type 0} (n : ℕ) (t : TokenType) (a : A) (p : Parser State)
      → 0 < weight t
      → IsGood p.lexer
      → rest s p ≤ n
      → (other : Outcome (Parser State) A) → Ends (Spent s nothing p) other
      → Ends (Spent s nothing p) (if check s t p then done a (advance s p) else other)
  read_one n t a p pos g le other ho =
      Ends-if (check s t p) _ _
        (λ found.
          Spends-pass s n nothing (return a) p (λ x. omega arith)
            (λ h. Spends-done s (n - 1) a nothing refl) g le (check-weight s t pos p found))
        (λ missing. ho)

  parse_type-Spends : (n : ℕ) → Ending s n (parse_type s)
  unfolding parse_type weight
  parse_type-Spends n p g le = read_one n int _ p (omega arith) g le _ (
      read_one n float _ p (omega arith) g le _ (
        read_one n bool _ p (omega arith) g le _ (
          read_one n string_type _ p (omega arith) g le _
            (read_one n void _ p (omega arith) g le _ (ends none p (g, omega arith))))))

  store_parameters-Spends : (n : ℕ) (params : List Text) → Ending s n (store_parameters s params)
  unfolding store_parameters
  store_parameters-Spends n params p g le =
      Ends-if (ltb 4 (length params)) _ _ (λ h. faults _) (λ h. ends tt p (g, omega arith))

  return_value-Spends : (n : ℕ) → Ending s n (return_value s)
  unfolding return_value
  return_value-Spends n p g le =
      Ends-if (check s semicolon p || check s rbrace p || check s eof p) _ _
        (λ h. ends null p (g, omega arith)) (λ h. expression-Ending n p g le)

  pub return_rest-Spends : (n : ℕ) → Ending s n (return_rest s)
  unfolding return_rest
  return_rest-Spends n = Spends-then s n _ _ nothing (return_value-Spends n) (λ value.
      Spends-then s n _ _ nothing (match-Spends s n semicolon)
        (λ b. Spends-done s n _ nothing refl))

  -- A call behind a token, or nothing.
  pub behind :
      {A : Type 0} (n : ℕ) (t : TokenType) (a : A) (body : Parsing s A) (p : Parser State)
      → 0 < weight t
      → (0 < n → Ending s (n - 1) body)
      → IsGood p.lexer
      → rest s p ≤ n
      → Ends (Spent s nothing p) (if check s t p then body (advance s p) else done a p)
  behind n t a body p pos e g le =
      Ends-if (check s t p) _ _
        (λ found.
          Spends-pass s n nothing body p (λ x. omega arith) e g le (check-weight s t pos p found))
        (λ missing. ends a p (g, omega arith))

  optional_type-Spends : (n : ℕ) → Ending s n (optional_type s)
  unfolding optional_type
  optional_type-Spends n p g le =
      behind n colon none (parse_type s) p (unfold weight in omega arith)
        (λ pos. parse_type-Spends (n - 1)) g le

  pub let_statement-Spends : (n : ℕ) (as' : List Annotation) → Ending s n (let_statement s as')
  unfolding let_statement
  let_statement-Spends n as' = Spends-then s n _ _ nothing (expect_name-Spends s n) (λ name.
      Spends-then s n _ _ nothing (optional_type-Spends n) (λ type_info.
        Spends-then s n _ _ nothing (consume-Spends s n assign) (λ u.
          Spends-then s n _ _ nothing (expression-Ending n) (λ value.
            Spends-then s n _ _ nothing (match-Spends s n semicolon)
              (λ b. Spends-done s n _ nothing refl)))))

  parenthesized-Spends : (n : ℕ) → Ending s n (parenthesized s)
  unfolding parenthesized
  parenthesized-Spends n = Spends-then s n _ _ nothing (consume-Spends s n lparen) (λ u.
      Spends-then s n _ _ nothing (expression-Ending n) (λ e.
        Spends-then s n _ _ nothing (consume-Spends s n rparen)
          (λ v. Spends-done s n e nothing refl)))

  pub print_rest-Spends : (n : ℕ) (as' : List Annotation) → Ending s n (print_rest s as')
  unfolding print_rest
  print_rest-Spends n as' = Spends-then s n _ _ nothing (parenthesized-Spends n) (λ e.
      Spends-then s n _ _ nothing (match-Spends s n semicolon)
        (λ b. Spends-done s n _ nothing refl))

  module _ (n : ℕ) (statement : Parsing s Node) (inner : Ending s n statement) where
    pub function_statement-Spends : Ending s n (function_statement s statement)
    unfolding function_statement
    function_statement-Spends = Spends-then s n _ _ nothing (expect_name-Spends s n) (λ name.
        Spends-then s n _ _ nothing (consume-Spends s n lparen) (λ u.
          Spends-then s n _ _ nothing (name_list-Spends s n) (λ params.
            Spends-then s n _ _ nothing (store_parameters-Spends n params) (λ v.
              Spends-then s n _ _ nothing (consume-Spends s n rparen) (λ w.
                Spends-then s n statement _ nothing inner
                  (λ body. Spends-done s n _ nothing refl))))))

    else_branch-Spends : Ending s n (else_branch s statement)
    unfolding else_branch
    else_branch-Spends p g le =
        behind n else_kw null statement p (unfold weight in omega arith)
          (λ pos. Spends-mono s (n - 1) n statement nothing (omega arith) inner) g le

    pub if_rest-Spends : Ending s n (if_rest s statement)
    unfolding if_rest
    if_rest-Spends = Spends-then s n _ _ nothing (parenthesized-Spends n) (λ condition.
        Spends-then s n statement _ nothing inner (λ then_branch.
          Spends-then s n _ _ nothing else_branch-Spends
            (λ otherwise. Spends-done s n _ nothing refl)))

    pub while_rest-Spends : Ending s n (while_rest s statement)
    unfolding while_rest
    while_rest-Spends = Spends-then s n _ _ nothing (parenthesized-Spends n) (λ condition.
        Spends-then s n statement _ nothing inner (λ body. Spends-done s n _ nothing refl))

    for_init-Spends : Ending s n (for_init s statement)
    unfolding for_init
    for_init-Spends p g le =
        Ends-if (check s semicolon p) _ _ (λ h. ends null p (g, omega arith)) (λ h. inner p g le)

    for_increment-Spends : Ending s n (for_increment s statement)
    unfolding for_increment
    for_increment-Spends p g le =
        Ends-if (check s rparen p) _ _ (λ h. ends null p (g, omega arith))
          (λ h.
            Ends-if (check s let_kw p) _ _ (λ k. inner p g le) (λ k. expression-Ending n p g le))

  skip_if_null-Spends : (n : ℕ) (init : Node) → Ending s n (skip_if_null s init)
  unfolding skip_if_null
  skip_if_null-Spends n init p g le =
      Ends-if (is_null init && check s semicolon p) _ _
        (λ found. let (ga, spent) = advance-rest s p g in ends tt (advance s p) (ga, omega arith))
        (λ missing. ends tt p (g, omega arith))

  for_condition-Spends : (n : ℕ) → Ending s n (for_condition s)
  unfolding for_condition
  for_condition-Spends n p g le =
      Ends-if (check s semicolon p) _ _ (λ h. ends null p (g, omega arith))
        (λ h. expression-Ending n p g le)

  pub for_rest-Spends :
      (n : ℕ) (statement : Parsing s Node)
      → Ending s n statement
      → Ending s n (for_rest s statement)
  unfolding for_rest
  for_rest-Spends n statement inner = Spends-then s n _ _ nothing (consume-Spends s n lparen) (λ u.
      Spends-then s n _ _ nothing (for_init-Spends n statement inner) (λ init.
        Spends-then s n _ _ nothing (skip_if_null-Spends n init) (λ v.
          Spends-then s n _ _ nothing (for_condition-Spends n) (λ condition.
            Spends-then s n _ _ nothing (consume-Spends s n semicolon) (λ w.
              Spends-then s n _ _ nothing (for_increment-Spends n statement inner) (λ increment.
                Spends-then s n _ _ nothing (consume-Spends s n rparen) (λ x.
                  Spends-then s n statement _ nothing inner
                    (λ body. Spends-done s n _ nothing refl))))))))
