-- ===== src/Parser/Statements/Blocks.antt =====
-- src/core/parser/parser.c: a block ends, also where its statements are wrong.
use asteron.Prelude.{
  ℕ, zero, suc, ◌+◌, ◌-◌, ◌*◌, ◌≤◌, ◌<◌, ◌≡◌, refl, true, false, ◌||◌, not, if◌then◌else◌, arith,
}
use asteron.Lexer.Token.{semicolon, rbrace, eof}
use asteron.Ast.{Node, Nodes, no_nodes, append_node, is_null}
use asteron.Parser.Source.{TokenSource, weight, weight-other}
use asteron.Outcome.{done, Ends, ends, Ends-map, Ends-if, Ends-bind}
use asteron.Parser.Moves.{Parser, Parsing, advance, check, rest}
use asteron.Parser.Moves.Spends.{
  Spends, Spent, Ending, nothing, Spends-done, Spends-then, consume-Spends, check-weight,
  advance-rest,
}
use asteron.Parser.Expressions.Total.{size}
use asteron.Parser.Statements.{
  is_recovery_point, skip_tokens, skip_all, recover, block_loop, block_nodes, block_rest,
}

module _ (s : TokenSource) where
  open s use {State, IsGood}

  abbrev Skipped : Parser State → Unit {0} → Parser State → Type 0
  Skipped p u q = IsGood q.lexer × (rest s q ≤ rest s p) × (is_recovery_point s q ≡ true)

  not_at_end : (p : Parser State) → is_recovery_point s p ≡ false → weight p.current.kind ≡ 1
  unfolding is_recovery_point check
  not_at_end p h = weight-other p.current.kind (ground (arith, h))

  skip_tokens-Skipped :
      (f n : ℕ) (p : Parser State)
      → IsGood p.lexer
      → rest s p ≤ n
      → n < f
      → Ends (Skipped p) (skip_tokens s f p)
  unfolding skip_tokens
  skip_tokens-Skipped zero n p g le h = absurd (omega arith)
  skip_tokens-Skipped (suc f) n p g le h =
      Ends-if (is_recovery_point s p) _ _ (λ found. ends tt p (g, omega arith, found))
        (λ missing.
          let (ga, spent) = advance-rest s p g in
          let heavy : weight p.current.kind ≡ 1 = not_at_end p missing in
          Ends-map (λ u q (gq, lq, point). (gq, omega arith, point))
            (skip_tokens-Skipped f (n - 1) (advance s p) ga (omega arith) (omega arith)))

  -- The rounds that a block has left: a state at a recovery point counts one less.
  abbrev rounds : Parser State → ℕ
  rounds p = 2 * rest s p + (if is_recovery_point s p then 0 else 1)

  abbrev Recovered : Parser State → Unit {0} → Parser State → Type 0
  Recovered p u q = IsGood q.lexer × (rest s q ≤ rest s p) × (rounds q ≤ 2 * rest s p)

  recovered :
      (p : Parser State) (u : Unit {0}) (q : Parser State)
      → Skipped p u q
      → Ends (Recovered p) (
          if check s semicolon q
          then done tt (record (advance s q) { had_error = false })
          else done tt (record q { had_error = false }))
  unfolding is_recovery_point check rest
  recovered p u q (g, le, point) =
      Ends-if (check s semicolon q) _ _
        (λ found.
          let (ga, spent) = advance-rest s q g in
          let heavy = check-weight s semicolon (unfold weight in omega arith) q found in
          ends tt _ (ga, omega arith, ground arith))
        (λ missing. ends tt _ (g, omega arith, ground (arith, missing, point)))

  recover-Recovered : (p : Parser State) → IsGood p.lexer → Ends (Recovered p) (recover s p)
  unfolding recover
  recover-Recovered p g =
      Ends-bind (skip_all s) _ p
        (skip_tokens-Skipped (rest s p + 1) (rest s p) p g (omega arith) (omega arith))
        (recovered p)

  rounds_bounds : (p : Parser State) → (2 * rest s p ≤ rounds p) × (rounds p ≤ 2 * rest s p + 1)
  rounds_bounds p = (ground arith, ground arith)

  full_rounds :
      (p : Parser State)
      → (check s rbrace p || check s eof p) ≡ false
      → check s semicolon p ≡ false
      → rounds p ≡ 2 * rest s p + 1
  unfolding is_recovery_point
  full_rounds p h k = ground arith

  block_loop-Spends :
      (f n : ℕ) (statement : Parsing s Node) (ns : Nodes)
      → Spends s n statement size
      → (p : Parser State) → IsGood p.lexer
      → rest s p ≤ n
      → rounds p < f
      → Ends (Spent s nothing p) (block_loop s f statement ns p)
  unfolding block_loop
  block_loop-Spends zero n statement ns inner p g le h = absurd (omega arith)
  block_loop-Spends (suc f) n statement ns inner p g le h =
      Ends-if (check s rbrace p || check s eof p) _ _ (λ over. ends ns p (g, omega arith))
        (λ inside.
          Ends-if (check s semicolon p) _ _
            (λ loose.
              let (ga, spent) = advance-rest s p g in
              let heavy = check-weight s semicolon (unfold weight in omega arith) p loose in
              Ends-map (λ x q (gq, lq). (gq, omega arith))
                (block_loop-Spends f n statement ns inner (advance s p) ga (omega arith)
                  (omega (arith, rounds_bounds p, rounds_bounds (advance s p)))))
            (λ other. Ends-bind statement _ p (inner p g le) (λ node' q (gq, lq).
              Ends-if (not (is_null node')) _ _
                (λ present.
                  Ends-map (λ x r (gr, lr). (gr, omega arith))
                    (block_loop-Spends f n statement (append_node ns node') inner q gq (omega arith)
                      (ground (arith, rounds_bounds p, rounds_bounds q))))
                (λ absent.
                  Ends-if q.had_error _ _
                    (λ wrong.
                      Ends-bind (recover s) _ q (recover-Recovered q gq) (λ u r (gr, lr, fewer).
                        Ends-map (λ x t (gt, lt'). (gt, omega arith))
                          (block_loop-Spends f n statement ns inner r gr (omega arith)
                            (omega (arith, full_rounds p inside other)))))
                    (λ right. ends ns q (gq, omega arith))))))

  pub block_rest-Spends :
      (n : ℕ) (statement : Parsing s Node)
      → Spends s n statement size
      → Ending s n (block_rest s statement)
  unfolding block_rest
  block_rest-Spends n statement inner =
      Spends-then s n (block_nodes s statement) _ nothing
        (λ p g le.
          block_loop-Spends (2 * rest s p + 2) n statement no_nodes inner p g le
            (omega (arith, rounds_bounds p)))
        (λ ns.
          Spends-then s n _ _ nothing (consume-Spends s n rbrace)
            (λ u. Spends-done s n _ nothing refl))
