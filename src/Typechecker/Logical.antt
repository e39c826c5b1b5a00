-- ===== src/Typechecker/Logical.antt =====
-- src/core/typechecker/typechecker.c beside the interpreter's evaluation: what becomes of a checked `&&` or
-- `||`.
use asteron.Prelude.{
  ℕ, zero, suc, ◌≤◌, ◌≡◌, ◌∙◌, sym, refl, Bool, true, false, ◌&&◌, List, ◌∷◌, arith,
}
use asteron.Lexer.Token.{TokenType, plus}
use asteron.Ast.{TypeName, Node, literal, unary_expression, binary_expression}
use asteron.Outcome.{done}
use asteron.Parser.Source.{same_type, ordinal}
use asteron.Interpreter.Values.{Numbers, Value, nil}
use asteron.Interpreter.Functions.{NativeFuncEntry}
use asteron.Interpreter.Evaluate.{Report, Interpreter, literal_value, unary_value, binary_value}
use asteron.Interpreter.Calls.{expression_body}
use asteron.Interpreter.Execute.{interpreter_evaluate_expression}
use asteron.Interpreter.Meaning.{depth}
use asteron.Interpreter.Silent.{positive}
use asteron.Typechecker.Types.{is_logical}
use asteron.Typechecker.Check.{
  TypeChecker, typed, settle, check_node, binary_verdict, unary_verdict, logical_verdict,
  typechecker_check, typechecker_create,
}
use asteron.Typechecker.Errors.{IsConstant, settle-typed, check_node-had_error}
use asteron.Typechecker.Operators.{binary_verdict-logical}
use asteron.Typechecker.Numeric.{
  is_open, Fits, Reports, number-is_open, binary_value-Reports, unary-Fits, literal_fits,
}

logical-is_open :
    (l r t : TypeName) → logical_verdict l r ≡ typed t → (is_open l && is_open r) ≡ false
unfolding logical_verdict
logical-is_open l r t h = ground arith

logical-ne-plus : (op : TokenType) → is_logical op ≡ true → same_type op plus ≡ false
unfolding is_logical same_type ordinal
logical-ne-plus plus o = cc
logical-ne-plus op o = refl

module _ {n : Numbers} where
  -- Two operands that the checker passes to a logical operator are not both numbers.
  logical_value :
      (op : TokenType) (a b : Value n) (l r t : TypeName) (p : Interpreter n)
      → is_logical op ≡ true
      → Fits a l
      → Fits b r
      → binary_verdict op l r ≡ typed t
      → binary_value op a b p ≡ done nil (record p { reports = Report.needs_numbers ∷ p.reports })
  unfolding binary_value
  logical_value op a b l r t p o fa fb h = ground (
    arith,
    number-is_open a l fa,
    number-is_open b r fb,
    logical-is_open l r t (sym (binary_verdict-logical op l r o) ∙ h),
    logical-ne-plus op o,
  )

  module _ (w : List ℕ → Bool) (line : ℕ) (natives : List (NativeFuncEntry n)) where
    -- An expression of literals that the checker passes is evaluated to the end, and to a number only if
    -- its type is open.
    evaluate-Reports :
        (e : Node) (f : ℕ) (c : TypeChecker) (p : Interpreter n)
        → IsConstant e
        → depth e ≤ f
        → (check_node w e line c).1.had_error ≡ false
        → Reports
            (λ v. Fits v (check_node w e line c).0)
            p
            (interpreter_evaluate_expression natives f e p)
    unfolding interpreter_evaluate_expression expression_body depth check_node settle
    evaluate-Reports (literal v) (suc f) c p k le ok =
        (literal_value v, p.reports, refl, literal_fits n w v)
    evaluate-Reports (unary_expression op e) (suc f) c p k le ok =
        let after = check_node w e line c in
        let (accepted, ok_after) = settle-typed (unary_verdict op after.0) line after.1 ok in
        let (v, rs, evaluated, fits) = evaluate-Reports e f c p k (omega (arith, le)) ok_after in
        (unary_value op v, rs, rw evaluated refl, unary-Fits op v _)
    evaluate-Reports (binary_expression l op r) (suc f) c p (kl, kr) le ok =
        let left = check_node w l line c in
        let right = check_node w r line left.1 in
        let (accepted, ok_right) =
          settle-typed (binary_verdict op left.0 right.0) line right.1 ok in
        let ok_left = check_node-had_error w line r left.1 kr ok_right in
        let (a, rs, eval_l, fits_l) = evaluate-Reports l f c p kl (omega (arith, le)) ok_left in
        let q = record p { reports = rs } in
        let (b, ss, eval_r, fits_r) =
          evaluate-Reports r f left.1 q kr (omega (arith, le)) ok_right in
        let (v, ts, result, fits) =
          binary_value-Reports op a b left.0 right.0 _ (record p { reports = ss }) fits_l fits_r
            accepted in
        (v, ts, rw (eval_l, eval_r) result, fits)
    evaluate-Reports e zero c p k le ok = absurd (omega (arith, positive e, le))
    evaluate-Reports e (suc f) c p k le ok = absurd k

-- An `and` or an `or` of two expressions of literals and operators that the checker passes is evaluated to
-- nil, with fuel for its depth, and the last message of the interpreter is that it needs numbers; nothing
-- but the messages changes.
pub typechecker_check-logical :
    {n : Numbers} (w : List ℕ → Bool) (natives : List (NativeFuncEntry n)) (l : Node)
    (op : TokenType) (r : Node) (f : ℕ) (p : Interpreter n)
    → IsConstant l
    → IsConstant r
    → is_logical op ≡ true
    → typechecker_check w (binary_expression l op r) ≡ false
    → depth (binary_expression l op r) ≤ f
    → (rs : List Report) × (interpreter_evaluate_expression natives f (binary_expression l op r) p
        ≡ done nil (record p { reports = Report.needs_numbers ∷ rs }))
unfolding typechecker_check check_node interpreter_evaluate_expression expression_body depth
typechecker_check-logical w natives l op r zero p kl kr o ok le = absurd (omega (arith, le))
typechecker_check-logical w natives l op r (suc f) p kl kr o ok le =
    let left = check_node w l 1 typechecker_create in
    let right = check_node w r 1 left.1 in
    let (accepted, ok_right) = settle-typed (binary_verdict op left.0 right.0) 1 right.1 ok in
    let ok_left = check_node-had_error w 1 r left.1 kr ok_right in
    let (a, rs, eval_l, fits_l) =
      evaluate-Reports w 1 natives l f typechecker_create p kl (omega (arith, le)) ok_left in
    let q = record p { reports = rs } in
    let (b, ss, eval_r, fits_r) =
      evaluate-Reports w 1 natives r f left.1 q kr (omega (arith, le)) ok_right in
    (
      ss,
      rw (eval_l, eval_r)
          (logical_value op a b left.0 right.0 _ (record p { reports = ss }) o fits_l fits_r
            accepted),
    )
