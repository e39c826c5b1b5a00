-- ===== src/Parser/Program/Errors.antt =====
-- src/core/parser/parser.c: a null statement comes with the error flag, so a parse that stops early
-- has it set.
use asteron.Prelude.{ℕ, zero, suc, ◌+◌, ◌≡◌, ◌⊎◌, inl, inr, refl, true, false, List}
use asteron.Lexer.Token.{
  identifier, lparen, rparen, rbrace, assign, semicolon, function, let_kw, print, if_kw, while, for,
  lbrace, import, from, eof,
}
use asteron.Lexer.Token as Token
use asteron.Ast.{
  ast_variable_declaration_with_type, Node, Nodes, append_node, is_null, no_nodes, block,
  Annotation,
}
use asteron.Parser.Source.{TokenSource, same_type-eof}
use asteron.Outcome.{Always, Always-bind, Always-if, returns, unfinished, Always-chain}
use asteron.Parser.Moves.{Parser, Parsing, advance, check, match, consume, rest}
use asteron.Parser.Expressions.{parse_expression}
use asteron.Parser.Annotations.{Text, parse_annotations, expect_name, name_list}
use asteron.Parser.Statements.{
  function_statement, return_rest, let_statement, print_rest, if_rest, while_rest, for_rest,
  block_rest, store_parameters, return_value, optional_type, parenthesized, else_branch, for_init,
  skip_if_null, for_condition, for_increment, block_nodes,
}
use asteron.Parser.Program.{
  import_rest, from_rest, dotted, all_symbols, expression_statement, keyword_statement, assigned,
  identifier_statement, annotated_statement, statement_on, parse_statement, program_loop,
  parser_parse,
}

module _ (s : TokenSource) where
  open s use {State}

  abbrev Flagged : Node → Parser State → Type 0
  Flagged n p = (is_null n ≡ false) ⊎ (p.had_error ≡ true)

  -- The chains of calls that build a node at their end.
  function_statement-Flagged :
      (st : Parsing s Node) (p : Parser State) → Always Flagged (function_statement s st p)
  unfolding function_statement is_null
  function_statement-Flagged st p = Always-bind (expect_name s) _ p (λ x0 q0.
      Always-bind (consume s lparen) _ q0 (λ x1 q1. Always-bind (name_list s) _ q1 (λ x2 q2.
        Always-bind (store_parameters s x2) _ q2 (λ x3 q3.
          Always-bind (consume s rparen) _ q3
            (λ x4 q4. Always-bind (st) _ q4 (λ x5 q5. returns _ q5 (inl refl)))))))

  return_rest-Flagged : (p : Parser State) → Always Flagged (return_rest s p)
  unfolding return_rest is_null
  return_rest-Flagged p =
      Always-bind (return_value s) _ p
        (λ x0 q0. Always-bind (match s semicolon) _ q0 (λ x1 q1. returns _ q1 (inl refl)))

  let_statement-Flagged :
      (as' : List Annotation) (p : Parser State) → Always Flagged (let_statement s as' p)
  unfolding let_statement is_null ast_variable_declaration_with_type
  let_statement-Flagged as' p = Always-bind (expect_name s) _ p (λ x0 q0.
      Always-bind (optional_type s) _ q0 (λ x1 q1. Always-bind (consume s assign) _ q1 (λ x2 q2.
        Always-bind (parse_expression s) _ q2
          (λ x3 q3. Always-bind (match s semicolon) _ q3 (λ x4 q4. returns _ q4 (inl refl))))))

  print_rest-Flagged :
      (as' : List Annotation) (p : Parser State) → Always Flagged (print_rest s as' p)
  unfolding print_rest is_null
  print_rest-Flagged as' p =
      Always-bind (parenthesized s) _ p
        (λ x0 q0. Always-bind (match s semicolon) _ q0 (λ x1 q1. returns _ q1 (inl refl)))

  if_rest-Flagged : (st : Parsing s Node) (p : Parser State) → Always Flagged (if_rest s st p)
  unfolding if_rest is_null
  if_rest-Flagged st p = Always-bind (parenthesized s) _ p (λ x0 q0.
      Always-bind (st) _ q0
        (λ x1 q1. Always-bind (else_branch s st) _ q1 (λ x2 q2. returns _ q2 (inl refl))))

  while_rest-Flagged : (st : Parsing s Node) (p : Parser State) → Always Flagged (while_rest s st p)
  unfolding while_rest is_null
  while_rest-Flagged st p =
      Always-bind (parenthesized s) _ p
        (λ x0 q0. Always-bind (st) _ q0 (λ x1 q1. returns _ q1 (inl refl)))

  for_rest-Flagged : (st : Parsing s Node) (p : Parser State) → Always Flagged (for_rest s st p)
  unfolding for_rest is_null
  for_rest-Flagged st p = Always-bind (consume s lparen) _ p (λ x0 q0.
      Always-bind (for_init s st) _ q0 (λ x1 q1. Always-bind (skip_if_null s x1) _ q1 (λ x2 q2.
        Always-bind (for_condition s) _ q2 (λ x3 q3.
          Always-bind (consume s semicolon) _ q3 (λ x4 q4.
            Always-bind (for_increment s st) _ q4 (λ x5 q5.
              Always-bind (consume s rparen) _ q5
                (λ x6 q6. Always-bind (st) _ q6 (λ x7 q7. returns _ q7 (inl refl)))))))))

  block_rest-Flagged : (st : Parsing s Node) (p : Parser State) → Always Flagged (block_rest s st p)
  unfolding block_rest is_null
  block_rest-Flagged st p =
      Always-bind (block_nodes s st) _ p
        (λ x0 q0. Always-bind (consume s rbrace) _ q0 (λ x1 q1. returns _ q1 (inl refl)))

  import_rest-Flagged : (p : Parser State) → Always Flagged (import_rest s p)
  unfolding import_rest is_null
  import_rest-Flagged p = Always-bind (expect_name s) _ p (λ x0 q0.
      Always-bind (dotted s) _ q0
        (λ x1 q1. Always-bind (match s semicolon) _ q1 (λ x2 q2. returns _ q2 (inl refl))))

  from_rest-Flagged : (p : Parser State) → Always Flagged (from_rest s p)
  unfolding from_rest is_null
  from_rest-Flagged p = Always-bind (expect_name s) _ p (λ x0 q0.
      Always-bind (consume s import) _ q0 (λ x1 q1.
        Always-bind (all_symbols s) _ q1
          (λ x2 q2. Always-bind (match s semicolon) _ q2 (λ x3 q3. returns _ q3 (inl refl)))))

  assigned-Flagged : (name : Text) (p : Parser State) → Always Flagged (assigned s name p)
  unfolding assigned is_null
  assigned-Flagged name p =
      Always-bind (parse_expression s) _ p
        (λ x0 q0. Always-bind (match s semicolon) _ q0 (λ x1 q1. returns _ q1 (inl refl)))

  expression_statement-Flagged : (p : Parser State) → Always Flagged (expression_statement s p)
  unfolding expression_statement is_null
  expression_statement-Flagged p = Always-bind (parse_expression s) _ p (λ e q.
      Always-if (is_null e) _ _ (λ absent. returns _ _ (inr refl))
        (λ present. Always-bind (match s semicolon) _ q (λ b r. returns e r (inl present))))

  keyword_statement-Flagged :
      (st : Parsing s Node) (as' : List Annotation) (p : Parser State)
      → Always Flagged (keyword_statement s st as' p)
  unfolding keyword_statement
  keyword_statement-Flagged st as' p =
      Always-if (check s function p) _ _ (λ h. function_statement-Flagged st (advance s p))
        (λ h.
          Always-if (check s Token.return p) _ _ (λ h. return_rest-Flagged (advance s p))
            (λ h.
              Always-if (check s let_kw p) _ _ (λ h. let_statement-Flagged as' (advance s p))
                (λ h.
                  Always-if (check s print p) _ _ (λ h. print_rest-Flagged as' (advance s p))
                    (λ h.
                      Always-if (check s if_kw p) _ _ (λ h. if_rest-Flagged st (advance s p))
                        (λ h.
                          Always-if (check s while p) _ _ (λ h. while_rest-Flagged st (advance s p))
                            (λ h.
                              Always-if (check s for p) _ _ (λ h. for_rest-Flagged st (advance s p))
                                (λ h.
                                  Always-if (check s lbrace p) _ _
                                    (λ h. block_rest-Flagged st (advance s p))
                                    (λ h.
                                      Always-if (check s import p) _ _
                                        (λ h. import_rest-Flagged (advance s p))
                                        (λ h.
                                          Always-if (check s from p) _ _
                                            (λ h. from_rest-Flagged (advance s p))
                                            (λ h. expression_statement-Flagged p))))))))))

  annotated_statement-Flagged :
      (st : Parsing s Node) (as' : List Annotation) (p : Parser State)
      → Always Flagged (annotated_statement s st as' p)
  unfolding annotated_statement identifier_statement
  annotated_statement-Flagged st as' p =
      Always-if (check s identifier p) _ _
        (λ named.
          Always-if (check s assign (advance s p)) _ _
            (λ h. assigned-Flagged p.current.text (advance s (advance s p)))
            (λ h. keyword_statement-Flagged st as' _))
        (λ other. keyword_statement-Flagged st as' p)

  statement_on-Flagged : (f : ℕ) (p : Parser State) → Always Flagged (statement_on s f p)
  unfolding statement_on
  statement_on-Flagged zero p = unfinished
  statement_on-Flagged (suc f) p =
      Always-bind (parse_annotations s) _ p (annotated_statement-Flagged (statement_on s f))

  -- The text is read to its end, or the flag is set.
  abbrev pub IsRead : {A : Type 0} → A → Parser State → Type 0
  IsRead a p = (p.current.kind ≡ eof) ⊎ (p.had_error ≡ true)

  null-Flagged : (a : Node) (p : Parser State) → Flagged a p → is_null a ≡ true → p.had_error ≡ true
  null-Flagged a p (inl h) absent = cc (h, absent)
  null-Flagged a p (inr h) absent = h

  program_loop-IsRead :
      (f : ℕ) (ns : Nodes) (p : Parser State) → Always IsRead (program_loop s f ns p)
  unfolding program_loop check parse_statement
  program_loop-IsRead zero ns p = unfinished
  program_loop-IsRead (suc f) ns p =
      Always-if (check s eof p) _ _ (λ over. returns ns p (inl (same_type-eof p.current.kind over)))
        (λ more.
          Always-chain (parse_statement s) _ p (statement_on-Flagged (rest s p + 1) p) (λ a q flag.
            Always-if (is_null a) _ _ (λ absent. returns ns q (inr (null-Flagged a q flag absent)))
              (λ present. program_loop-IsRead f (append_node ns a) q)))

  pub parser_parse-IsRead : (p : Parser State) → Always IsRead (parser_parse s p)
  unfolding parser_parse
  parser_parse-IsRead p =
      Always-chain (program_loop s (rest s p + 1) no_nodes) _ p
        (program_loop-IsRead (rest s p + 1) no_nodes p) (λ ns q read. returns (block ns) q read)
