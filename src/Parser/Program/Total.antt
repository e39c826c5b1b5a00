-- ===== src/Parser/Program/Total.antt =====
-- src/core/parser/parser.c: every source is parsed in the fuel that is given.
use asteron.Prelude.{
  ℕ, zero, suc, ◌+◌, ◌-◌, ◌≤◌, ◌<◌, ◌≡◌, refl, true, none, some, List, [], ◌∷◌, arith,
}
use asteron.Lexer.Token.{
  identifier, comma, assign, semicolon, function, let_kw, print, if_kw, while, for, lbrace, import,
  from, as_kw, dot, eof,
}
use asteron.Lexer.Token as Token
use asteron.Ast.{Node, Nodes, null, no_nodes, append_node, is_null, Annotation, block}
use asteron.Parser.Source.{TokenSource, weight}
use asteron.Outcome.{Ends, ends, Ends-map, Ends-if, Ends-bind}
use asteron.Parser.Moves.{Parser, Parsing, advance, check, match, rest}
use asteron.Parser.Moves.Spends.{
  Spends, Spent, Ending, nothing, Spends-done, Spends-weaken, Spends-then, Spends-bind,
  consume-Spends, match-Spends, check-weight, advance-rest,
}
use asteron.Parser.Expressions.{parse_expression}
use asteron.Parser.Expressions.Total.{parse_expression-Spends, size, size-le, alternative}
use asteron.Parser.Annotations.{Text, expect_name}
use asteron.Parser.Annotations.Total.{expect_name-Spends, parse_annotations-Spends}
use asteron.Parser.Statements.Total.{
  expression-Ending, behind, return_rest-Spends, let_statement-Spends, print_rest-Spends,
  function_statement-Spends, if_rest-Spends, while_rest-Spends, for_rest-Spends,
}
use asteron.Parser.Statements.Blocks.{block_rest-Spends}
use asteron.Parser.Program.{
  dotted, import_rest, alias, import_symbols, all_symbols, from_rest, expression_statement,
  keyword_statement, assigned, identifier_statement, annotated_statement, statement_on,
  parse_statement, program_loop, parser_parse,
}

module _ (s : TokenSource) where
  open s use {State, IsGood}

  dotted-Spends : (n : ℕ) → Ending s n (dotted s)
  unfolding dotted
  dotted-Spends n p g le =
      behind s n dot [] _ p (unfold weight in omega arith)
        (λ pos.
          Spends-then s (n - 1) (expect_name s) _ nothing (expect_name-Spends s (n - 1))
            (λ name. Spends-done s (n - 1) ((name, none) ∷ []) nothing refl))
        g le

  import_rest-Spends : (n : ℕ) → Ending s n (import_rest s)
  unfolding import_rest
  import_rest-Spends n = Spends-then s n _ _ nothing (expect_name-Spends s n) (λ name.
      Spends-then s n _ _ nothing (dotted-Spends n) (λ symbols.
        Spends-then s n _ _ nothing (match-Spends s n semicolon)
          (λ b. Spends-done s n _ nothing refl)))

  alias-Spends : (n : ℕ) → Ending s n (alias s)
  unfolding alias
  alias-Spends n p g le =
      behind s n as_kw none _ p (unfold weight in omega arith)
        (λ pos.
          Spends-then s (n - 1) (expect_name s) _ nothing (expect_name-Spends s (n - 1))
            (λ name. Spends-done s (n - 1) (some name) nothing refl))
        g le

  import_symbols-Spends : (f n : ℕ) → n < f → Ending s n (import_symbols s f)
  unfolding import_symbols
  import_symbols-Spends zero n h p g le = absurd (omega arith)
  import_symbols-Spends (suc f) n h p g le =
      Spends-then s n _ _ nothing (expect_name-Spends s n)
        (λ name. Spends-then s n _ _ nothing (alias-Spends n) (λ other q gq lq.
          behind s n comma ((name, other) ∷ []) _ q (unfold weight in omega arith)
            (λ pos.
              Spends-then s (n - 1) (import_symbols s f) _ nothing
                (import_symbols-Spends f (n - 1) (omega arith))
                (λ symbols. Spends-done s (n - 1) ((name, other) ∷ symbols) nothing refl))
            gq lq))
        p g le

  from_rest-Spends : (n : ℕ) → Ending s n (from_rest s)
  unfolding from_rest
  from_rest-Spends n = Spends-then s n _ _ nothing (expect_name-Spends s n) (λ name.
      Spends-then s n _ _ nothing (consume-Spends s n import) (λ u.
        Spends-then s n (all_symbols s) _ nothing
          (λ p g le.
            import_symbols-Spends (rest s p + 1) (rest s p) (omega arith) p g (omega arith))
          (λ symbols.
            Spends-then s n _ _ nothing (match-Spends s n semicolon)
              (λ b. Spends-done s n _ nothing refl))))

  expression_statement-Spends : (n : ℕ) → Spends s n (expression_statement s) size
  unfolding expression_statement is_null rest
  expression_statement-Spends n =
      Spends-bind s n (parse_expression s) _ size size (parse_expression-Spends s n) (λ e q g le.
        Ends-if (is_null e) _ _
          (λ absent. ends null (record q { had_error = true }) (g, omega arith))
          (λ present.
            Spends-then s n (match s semicolon) _ (λ b. size b - size e)
              (match-Spends s n semicolon)
              (λ b. Spends-done s n e (λ b. size b - size e) (omega arith)) q g le))

  module _ (n : ℕ) (statement : Parsing s Node)
      (inner : 0 < n → Spends s (n - 1) statement size) where
    inner-Ending : 0 < n → Ending s (n - 1) statement
    inner-Ending pos = Spends-weaken s (n - 1) statement size nothing (λ a. omega arith) (inner pos)

    keyword_statement-Spends :
        (as' : List Annotation) → Spends s n (keyword_statement s statement as') size
    unfolding keyword_statement weight
    keyword_statement-Spends as' p g le =
        alternative s n function _ p (omega arith) g le
          (λ pos. function_statement-Spends s (n - 1) statement (inner-Ending pos)) _
          (alternative s n Token.return _ p (omega arith) g le (λ pos. return_rest-Spends s (n - 1))
            _
            (alternative s n let_kw _ p (omega arith) g le
              (λ pos. let_statement-Spends s (n - 1) as') _
              (alternative s n print _ p (omega arith) g le (λ pos. print_rest-Spends s (n - 1) as')
                _
                (alternative s n if_kw _ p (omega arith) g le
                  (λ pos. if_rest-Spends s (n - 1) statement (inner-Ending pos)) _
                  (alternative s n while _ p (omega arith) g le
                    (λ pos. while_rest-Spends s (n - 1) statement (inner-Ending pos)) _
                    (alternative s n for _ p (omega arith) g le
                      (λ pos. for_rest-Spends s (n - 1) statement (inner-Ending pos)) _
                      (alternative s n lbrace _ p (omega arith) g le
                        (λ pos. block_rest-Spends s (n - 1) statement (inner pos)) _
                        (alternative s n import _ p (omega arith) g le
                          (λ pos. import_rest-Spends (n - 1)) _
                          (alternative s n from _ p (omega arith) g le
                            (λ pos. from_rest-Spends (n - 1)) _
                            (expression_statement-Spends n p g le))))))))))

    assigned-Spends : (name : Text) (k : ℕ) → Ending s k (assigned s name)
    unfolding assigned
    assigned-Spends name k = Spends-then s k _ _ nothing (expression-Ending s k) (λ value.
        Spends-then s k _ _ nothing (match-Spends s k semicolon)
          (λ b. Spends-done s k _ nothing refl))

    -- Behind an identifier that is put back the state has as many tokens left as before.
    identifier_statement-Spends :
        (as' : List Annotation) (p : Parser State)
        → IsGood p.lexer
        → rest s p ≤ n
        → check s identifier p ≡ true
        → Ends (Spent s size p) (identifier_statement s statement as' p)
    unfolding identifier_statement rest
    identifier_statement-Spends as' p g le named =
        let q = advance s p in
        let (ga, spent) = advance-rest s p g in
        let heavy = check-weight s identifier (unfold weight in omega arith) p named in
        Ends-if (check s assign q) _ _
          (λ found.
            let (gb, spent') = advance-rest s q ga in
            Ends-map (λ a r (gr, lr). (gr, omega (arith, size-le a)))
              (assigned-Spends p.current.text (rest s q) (advance s q) gb (omega arith)))
          (λ missing.
            keyword_statement-Spends as' (record q { lexer = p.lexer; current = p.current }) g le)

    annotated_statement-Spends :
        (as' : List Annotation) → Spends s n (annotated_statement s statement as') size
    unfolding annotated_statement
    annotated_statement-Spends as' p g le =
        Ends-if (check s identifier p) _ _ (identifier_statement-Spends as' p g le)
          (λ other. keyword_statement-Spends as' p g le)

  statement_on-Spends : (f n : ℕ) → n < f → Spends s n (statement_on s f) size
  unfolding statement_on
  statement_on-Spends zero n h p g le = absurd (omega arith)
  statement_on-Spends (suc f) n h p g le =
      Spends-then s n _ _ size (parse_annotations-Spends s n)
        (annotated_statement-Spends n (statement_on s f)
          (λ pos. statement_on-Spends f (n - 1) (omega arith)))
        p g le

  pub parse_statement-Spends : (n : ℕ) → Spends s n (parse_statement s) size
  unfolding parse_statement
  parse_statement-Spends n p g le =
      statement_on-Spends (rest s p + 1) (rest s p) (omega arith) p g (omega arith)

  program_loop-Spends : (f n : ℕ) (ns : Nodes) → n < f → Ending s n (program_loop s f ns)
  unfolding program_loop
  program_loop-Spends zero n ns h p g le = absurd (omega arith)
  program_loop-Spends (suc f) n ns h p g le =
      Ends-if (check s eof p) _ _ (λ over. ends ns p (g, omega arith))
        (λ more.
          Ends-bind (parse_statement s) _ p (parse_statement-Spends n p g le) (λ a q (gq, lq).
            Ends-if (is_null a) _ _ (λ absent. ends ns q (gq, omega arith))
              (λ present.
                let passed : rest s q + 1 ≤ rest s p = ground arith in
                Ends-map (λ x r (gr, lr). (gr, omega arith))
                  (program_loop-Spends f (n - 1) (append_node ns a) (omega arith) q gq
                    (omega arith)))))

  -- The parse of the text behind any state of the lexer ends.
  pub parser_parse-Spends : (n : ℕ) → Ending s n (parser_parse s)
  unfolding parser_parse
  parser_parse-Spends n p g le =
      Ends-bind (program_loop s (rest s p + 1) no_nodes) _ p
        (program_loop-Spends (rest s p + 1) (rest s p) no_nodes (omega arith) p g (omega arith))
        (λ ns q (gq, lq). ends (block ns) q (gq, omega arith))
