-- ===== src/Parser/Expressions/Total.antt =====
-- src/core/parser/parser.c: the expressions end, with the fuel that is given.
use asteron.Prelude.{
  ℕ, zero, suc, ◌+◌, ◌-◌, ◌≤◌, ◌<◌, ◌≡◌, refl, false, List, if◌then◌else◌, arith, All,
}
use asteron.Lexer.Token.{
  TokenType, number, string, true_kw, false_kw, identifier, lparen, rparen, comma, not,
}
use asteron.Ast.{Node, node, null, binary_expression, no_nodes, is_null, ast_identifier}
use asteron.Parser.Source.{TokenSource, weight}
use asteron.Outcome.{Outcome, Ends, ends, Ends-map, Ends-if, return}
use asteron.Parser.Moves.{Parser, Parsing, advance, check, check_any, rest}
use asteron.Parser.Moves.Spends.{
  Spends, Spent, Ending, nothing, Spends-done, Spends-weaken, Spends-bind, Spends-pass, Spends-then,
  Spends-mono, consume-Spends, check_any-weight, check-weight,
}
use asteron.Parser.Expressions.{
  more_arguments, all_more, arguments, call, name_factor, not_factor, group, factor_body, operators,
  level, parse_factor, parse_logical_or, parse_expression,
}

-- A node stands for one token at least.
abbrev pub size : Node → ℕ
size n = if is_null n then 0 else 1

pub size-le : (n : Node) → size n ≤ 1
size-le n = ground arith

module _ (s : TokenSource) where
  open s use {State, IsGood}

  more_arguments-Spends :
      (f n : ℕ) (expression : Parsing s Node)
      → n < f
      → Ending s n expression
      → Ending s n (more_arguments s f expression)
  unfolding more_arguments
  more_arguments-Spends zero n expression h e p g le = absurd (omega arith)
  more_arguments-Spends (suc f) n expression h e p g le =
      Ends-if (check s comma p) _ _
        (λ found.
          Spends-pass s n nothing _ p (λ a. omega arith)
            (λ pos.
              let fewer = Spends-mono s (n - 1) n expression nothing (omega arith) e in
              Spends-then s (n - 1) expression _ nothing fewer (λ a.
                Spends-then s (n - 1) (more_arguments s f expression) _ nothing
                  (more_arguments-Spends f (n - 1) expression (omega arith) fewer)
                  (λ as'. Spends-done s (n - 1) (node a as') nothing refl)))
            g le (check-weight s comma (unfold weight in omega arith) p found))
        (λ missing. ends no_nodes p (g, omega arith))

  all_more-Spends :
      (n : ℕ) (expression : Parsing s Node)
      → Ending s n expression
      → Ending s n (all_more s expression)
  all_more-Spends n expression e p g h =
      more_arguments-Spends (rest s p + 1) (rest s p) expression (omega arith)
        (Spends-mono s (rest s p) n expression nothing h e) p g (omega arith)

  arguments-Spends :
      (n : ℕ) (expression : Parsing s Node)
      → Ending s n expression
      → Ending s n (arguments s expression)
  unfolding arguments
  arguments-Spends n expression e p g le =
      Ends-if (check s rparen p) _ _ (λ found. ends no_nodes p (g, omega arith))
        (λ missing.
          Spends-then s n expression _ nothing e
            (λ a.
              Spends-then s n _ _ nothing (all_more-Spends n expression e)
                (λ as'. Spends-done s n (node a as') nothing refl))
            p g le)

  call-Spends :
      (n : ℕ) (name : List ℕ) (expression : Parsing s Node)
      → Ending s n expression
      → Ending s n (call s name expression)
  unfolding call
  call-Spends n name expression e =
      Spends-then s n _ _ nothing (arguments-Spends n expression e) (λ as'.
        Spends-then s n _ _ nothing (consume-Spends s n rparen)
          (λ u. Spends-done s n _ nothing refl))

  name_factor-Spends :
      (n : ℕ) (name : List ℕ) (expression : Parsing s Node)
      → Ending s n expression
      → Ending s n (name_factor s name expression)
  unfolding name_factor
  name_factor-Spends n name expression e p g le =
      Ends-if (check s lparen p) _ _
        (λ found.
          Spends-pass s n nothing (call s name expression) p (λ a. omega arith)
            (λ pos.
              call-Spends (n - 1) name expression
                (Spends-mono s (n - 1) n expression nothing (omega arith) e))
            g le (check-weight s lparen (unfold weight in omega arith) p found))
        (λ missing. ends (ast_identifier name) p (g, omega arith))

  not_factor-Spends :
      (n : ℕ) (factor : Parsing s Node) → Ending s n factor → Ending s n (not_factor s factor)
  unfolding not_factor
  not_factor-Spends n factor e =
      Spends-then s n factor _ nothing e (λ a. Spends-done s n _ nothing refl)

  group-Spends :
      (n : ℕ) (expression : Parsing s Node)
      → Ending s n expression
      → Ending s n (group s expression)
  unfolding group
  group-Spends n expression e = Spends-then s n expression _ nothing e (λ a.
      Spends-then s n _ _ nothing (consume-Spends s n rparen) (λ u. Spends-done s n _ nothing refl))

  -- One alternative of `parse_factor`.
  pub alternative :
      (n : ℕ) (t : TokenType) (body : Parsing s Node) (p : Parser State)
      → 0 < weight t
      → IsGood p.lexer
      → rest s p ≤ n
      → (0 < n → Ending s (n - 1) body)
      → (other : Outcome (Parser State) Node) → Ends (Spent s size p) other
      → Ends (Spent s size p) (if check s t p then body (advance s p) else other)
  alternative n t body p pos g le e other ho =
      Ends-if (check s t p) _ _
        (λ found. Spends-pass s n size body p size-le e g le (check-weight s t pos p found))
        (λ missing. ho)

  factor_body-Spends :
      (n : ℕ) (factor expression : Parsing s Node)
      → (0 < n → Ending s (n - 1) factor)
      → (0 < n → Ending s (n - 1) expression)
      → Spends s n (factor_body s factor expression) size
  unfolding factor_body is_null weight
  factor_body-Spends n factor expression hf he p g le =
      let one_token : (a : Node) → 0 < n → Ending s (n - 1) (return a) =
        λ a pos. Spends-done s (n - 1) a nothing refl in
      alternative n not (not_factor s factor) p (omega arith) g le
        (λ pos. not_factor-Spends (n - 1) factor (hf pos)) _
        (alternative n number (return _) p (omega arith) g le (one_token _) _ (
          alternative n string (return _) p (omega arith) g le (one_token _) _ (
            alternative n true_kw (return _) p (omega arith) g le (one_token _) _ (
              alternative n false_kw (return _) p (omega arith) g le (one_token _) _ (
                alternative n identifier (name_factor s p.current.text expression) p (omega arith) g
                  le (λ pos. name_factor-Spends (n - 1) p.current.text expression (he pos)) _
                  (alternative n lparen (group s expression) p (omega arith) g le
                    (λ pos. group-Spends (n - 1) expression (he pos)) _
                    (ends null p (g, omega arith))))))))

  AllHeavy : List TokenType → Type 0
  AllHeavy ops = All (λ (t : TokenType). 0 < weight t) ops

  operators-Spends :
      (f n : ℕ) (ops : List TokenType) (operand : Parsing s Node) (expr : Node)
      → AllHeavy ops
      → n < f
      → is_null expr ≡ false
      → Ending s n operand
      → Spends s n (operators s f ops operand expr) (λ e. size e - 1)
  unfolding operators is_null AllHeavy
  operators-Spends zero n ops operand expr a h some_expr e p g le = absurd (omega arith)
  operators-Spends (suc f) n ops operand expr a h some_expr e p g le =
      Ends-if (check_any s ops p) _ _
        (λ found.
          Spends-pass s n (λ e'. size e' - 1) _ p (λ e'. omega (arith, size-le e'))
            (λ pos.
              let fewer = Spends-mono s (n - 1) n operand nothing (omega arith) e in
              Spends-then s (n - 1) operand _ nothing fewer (λ right.
                Spends-weaken s (n - 1) _ _ nothing (λ e'. omega arith)
                  (operators-Spends f (n - 1) ops operand
                    (binary_expression expr p.current.kind right) a (omega arith) refl fewer)))
            g le (check_any-weight s ops p a found))
        (λ missing. ends expr p (g, omega (arith, size-le expr)))

  level-Spends :
      (n : ℕ) (ops : List TokenType) (operand : Parsing s Node)
      → AllHeavy ops
      → Spends s n operand size
      → Spends s n (level s ops operand) size
  unfolding level is_null
  level-Spends n ops operand a e = Spends-bind s n operand _ size size e (λ expr p g le.
      Ends-if (is_null expr) _ _ (λ found. ends null p (g, omega arith))
        (λ present.
          let ended =
            operators-Spends (rest s p + 1) (rest s p) ops operand expr a (omega arith) present
              (Spends-mono s (rest s p) n operand nothing le
                (λ q gq lq. Ends-map (λ x r (gr, lr). (gr, omega arith)) (e q gq lq)))
              p g (omega arith) in
          Ends-map (λ x q (gq, lq). (gq, rw present (omega arith))) ended))

  module _ (n : ℕ) (factor : Parsing s Node) (e : Spends s n factor size) where
    parse_logical_or-Spends : Spends s n (parse_logical_or s factor) size
    unfolding weight AllHeavy
    parse_logical_or-Spends = level-Spends n _ _ (omega arith) (
        level-Spends n _ _ (omega arith) (
          level-Spends n _ _ (omega arith) (
            level-Spends n _ _ (omega arith)
              (level-Spends n _ _ (omega arith) (level-Spends n _ _ (omega arith) e)))))

  parse_factor-Spends : (f n : ℕ) → n < f → Spends s n (parse_factor s f) size
  unfolding parse_factor
  parse_factor-Spends zero n h p g le = absurd (omega arith)
  parse_factor-Spends (suc f) n h p g le =
      factor_body-Spends n (parse_factor s f) (parse_logical_or s (parse_factor s f))
        (λ pos.
          Spends-weaken s (n - 1) _ size nothing (λ a. omega arith)
            (parse_factor-Spends f (n - 1) (omega arith)))
        (λ pos.
          Spends-weaken s (n - 1) _ size nothing (λ a. omega arith)
            (parse_logical_or-Spends (n - 1) (parse_factor s f)
              (parse_factor-Spends f (n - 1) (omega arith))))
        p g le

  -- From any state an expression ends, and one that is not null passes a token.
  pub parse_expression-Spends : (n : ℕ) → Spends s n (parse_expression s) size
  unfolding parse_expression
  parse_expression-Spends n p g le =
      parse_logical_or-Spends (rest s p) (parse_factor s (rest s p + 1))
        (parse_factor-Spends (rest s p + 1) (rest s p) (omega arith)) p g (omega arith)
