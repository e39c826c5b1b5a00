-- ===== src/Parser/Annotations/Total.antt =====
-- src/core/parser/parser.c: the lists of names and the annotations end.
use asteron.Prelude.{
  ℕ, zero, suc, ◌+◌, ◌-◌, ◌≤◌, ◌<◌, ◌≡◌, refl, true, false, Option, none, some, [], ◌∷◌, ◌++◌,
  arith, bytes_eq, codes,
}
use asteron.Lexer.Token.{identifier, comma, at, lparen, rparen}
use asteron.Ast.{Annotation}
use asteron.Parser.Source.{TokenSource, weight}
use asteron.Outcome.{return, Ends, ends, faults, Ends-map, Ends-if, Ends-bind}
use asteron.Parser.Moves.{Parser, check, check_any, rest}
use asteron.Parser.Moves.Spends.{
  Spent, Ending, nothing, Spends-done, Spends-pass, Spends-then, consume-Spends, check-weight,
  check_any-weight,
}
use asteron.Parser.Annotations.{
  expect_name, more_names, all_names, name_list, dependencies, depends_annotation, named_annotation,
  parse_annotation, link_annotation, annotation_loop, parse_annotations, annotation_tokens, Chain,
  empty, linked, chain_list,
}

module _ (s : TokenSource) where
  open s use {State, IsGood}

  pub expect_name-Spends : (n : ℕ) → Ending s n (expect_name s)
  unfolding expect_name
  expect_name-Spends n =
      Spends-then s n _ _ nothing (consume-Spends s n identifier)
        (λ u p g le. ends p.previous.text p (g, omega arith))

  more_names-Spends : (f n : ℕ) → n < f → Ending s n (more_names s f)
  unfolding more_names
  more_names-Spends zero n h p g le = absurd (omega arith)
  more_names-Spends (suc f) n h p g le =
      Ends-if (check s comma p) _ _
        (λ found.
          Spends-pass s n nothing _ p (λ a. omega arith)
            (λ pos. Spends-then s (n - 1) _ _ nothing (expect_name-Spends (n - 1)) (λ name.
              Spends-then s (n - 1) (more_names s f) _ nothing
                (more_names-Spends f (n - 1) (omega arith))
                (λ names. Spends-done s (n - 1) (name ∷ names) nothing refl)))
            g le (check-weight s comma (unfold weight in omega arith) p found))
        (λ missing. ends [] p (g, omega arith))

  all_names-Spends : (n : ℕ) → Ending s n (all_names s)
  all_names-Spends n p g le =
      more_names-Spends (rest s p + 1) (rest s p) (omega arith) p g (omega arith)

  pub name_list-Spends : (n : ℕ) → Ending s n (name_list s)
  unfolding name_list
  name_list-Spends n p g le =
      Ends-if (check s rparen p) _ _ (λ found. ends [] p (g, omega arith))
        (λ missing.
          Spends-then s n _ _ nothing (expect_name-Spends n)
            (λ name.
              Spends-then s n _ _ nothing (all_names-Spends n)
                (λ others. Spends-done s n (name ∷ others) nothing refl))
            p g le)

  dependencies-Spends : (n : ℕ) → Ending s n (dependencies s)
  unfolding dependencies
  dependencies-Spends n = Spends-then s n _ _ nothing (name_list-Spends n) (λ names.
      Spends-then s n _ _ nothing (consume-Spends s n rparen) (λ u. Spends-done s n _ nothing refl))

  depends_annotation-Spends : (n : ℕ) → Ending s n (depends_annotation s)
  unfolding depends_annotation
  depends_annotation-Spends n p g le =
      Ends-if (check s lparen p) _ _
        (λ found.
          Spends-pass s n nothing (dependencies s) p (λ a. omega arith)
            (λ pos. dependencies-Spends (n - 1)) g le
            (check-weight s lparen (unfold weight in omega arith) p found))
        (λ missing. ends _ p (g, omega arith))

  named_annotation-Spends : (n : ℕ) → Ending s n (named_annotation s)
  unfolding named_annotation rest
  named_annotation-Spends n p g le =
      Ends-if (check s identifier p) _ _
        (λ found.
          let heavy = check-weight s identifier (unfold weight in omega arith) p found in
          Ends-if (bytes_eq p.current.text (codes "depends")) _ _
            (λ depends.
              Spends-pass s n nothing (depends_annotation s) p (λ a. omega arith)
                (λ pos. depends_annotation-Spends (n - 1)) g le heavy)
            (λ other.
              Spends-pass s n nothing (return _) p (λ a. omega arith)
                (λ pos. Spends-done s (n - 1) _ nothing refl) g le heavy))
        (λ missing. ends none (record p { had_error = true }) (g, omega arith))

  abbrev one : {A : Type 0} → A → ℕ
  one a = 1

  -- At the token of an annotation, the annotation passes it.
  parse_annotation-Spends :
      (n : ℕ) (p : Parser State)
      → IsGood p.lexer
      → rest s p ≤ n
      → check_any s annotation_tokens p ≡ true
      → Ends (Spent s one p) (parse_annotation s p)
  unfolding parse_annotation weight
  parse_annotation-Spends n p g le h =
      let heavy = check_any-weight s annotation_tokens p (omega arith) h in
      Ends-if (check s at p) _ _
        (λ found.
          Spends-pass s n one (named_annotation s) p (λ a. omega arith)
            (λ pos. named_annotation-Spends (n - 1)) g le heavy)
        (λ missing.
          Ends-if (check_any s annotation_tokens p) _ _
            (λ direct.
              Spends-pass s n one (return _) p (λ a. omega arith)
                (λ pos. Spends-done s (n - 1) _ nothing refl) g le heavy)
            (λ none_there. cc (h, none_there)))

  link_annotation-Spends :
      (n : ℕ) (c : Chain) (o : Option Annotation) → Ending s n (link_annotation s c o)
  unfolding link_annotation
  link_annotation-Spends n empty none p g le = ends empty p (g, omega arith)
  link_annotation-Spends n empty (some a) p g le = ends (linked (a ∷ []) true) p (g, omega arith)
  link_annotation-Spends n (linked as' true) (some a) p g le =
      ends (linked (as' ++ a ∷ []) true) p (g, omega arith)
  link_annotation-Spends n (linked as' true) none p g le =
      ends (linked as' false) p (g, omega arith)
  link_annotation-Spends n (linked as' false) o p g le = faults _

  annotation_loop-Spends : (f n : ℕ) (c : Chain) → n < f → Ending s n (annotation_loop s f c)
  unfolding annotation_loop
  annotation_loop-Spends zero n c h p g le = absurd (omega arith)
  annotation_loop-Spends (suc f) n c h p g le =
      Ends-if (check_any s annotation_tokens p) _ _
        (λ found.
          Ends-bind (parse_annotation s) _ p (parse_annotation-Spends n p g le found)
            (λ a q (gq, lq).
              Ends-map (λ x r (gr, lr). (gr, omega arith))
                (Spends-then s (n - 1) _ _ nothing (link_annotation-Spends (n - 1) c a)
                  (λ longer. annotation_loop-Spends f (n - 1) longer (omega arith)) q gq
                  (omega arith))))
        (λ missing. ends (chain_list c) p (g, omega arith))

  pub parse_annotations-Spends : (n : ℕ) → Ending s n (parse_annotations s)
  unfolding parse_annotations
  parse_annotations-Spends n p g le =
      annotation_loop-Spends (rest s p + 1) (rest s p) empty (omega arith) p g (omega arith)
