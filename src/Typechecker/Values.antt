-- ===== src/Typechecker/Values.antt =====
-- src/core/typechecker/typechecker.c beside the values that the interpreter gives expressions.
use asteron.Prelude.{
  ℕ, ◌≡◌, refl, ap, Bool, true, false, Option, some, none, List, subst, if◌then◌else◌,
}
use asteron.Lexer.Token.{TokenType, not}
use asteron.Ast.{
  TypeName, int, float, bool, Literal, Node, literal, unary_expression, binary_expression,
}
use asteron.Interpreter.Values.{Numbers, Value, value_string}
use asteron.Interpreter.Values as Values
use asteron.Interpreter.Environment.{Environment}
use asteron.Interpreter.Evaluate.{literal_value}
use asteron.Interpreter.Meaning.{meaning, not_meaning}
use asteron.Interpreter.Silent.{or_nil, operate-some}
use asteron.Typechecker.Infer.{infer_type_from_literal}
use asteron.Typechecker.Check.{
  TypeChecker, typed, settle, check_node, binary_verdict, unary_verdict, typechecker_check,
  typechecker_create,
}
use asteron.Typechecker.Errors.{IsConstant, settle-typed, check_node-had_error}
use asteron.Typechecker.Operators.{not_type}
use asteron.Typechecker.Results.{HasType, HasType-typed, HasType-IsKnown, operation-HasType}

number_literal :
    (n : Numbers) (x : Numbers.Num n) (b : Bool)
    → HasType {n = n} (Values.number x) (if b then int else float)
number_literal n x true = tt
number_literal n x false = tt

literal-HasType :
    (n : Numbers) (w : List ℕ → Bool) (v : Literal)
    → HasType {n = n} (literal_value v) (infer_type_from_literal w v)
unfolding literal_value infer_type_from_literal value_string
literal-HasType n w (Literal.number t) = number_literal n (n.of_text t) (w t)
literal-HasType n w (Literal.text s) = tt
literal-HasType n w (Literal.boolean b) = tt

module _ {n : Numbers} (w : List ℕ → Bool) where
  open n use {show}

  not-HasType :
      (op : TokenType) (o : Option (Value n)) (v : Value n) (t u : TypeName)
      → ((a : Value n) → o ≡ some a → HasType a t)
      → not_meaning op o ≡ some v
      → unary_verdict op t ≡ typed u
      → HasType v u
  not-HasType not (some a) v t u k h e =
      subst (λ (x : Value n). HasType x u) (ap or_nil h)
        (HasType-typed (or_nil (not_meaning not (some a))) bool u
          (not_type t u (HasType-IsKnown a t (k a refl)) e) tt)
  not-HasType not none v t u k h e = cc
  not-HasType op o v t u k h e = cc

  check_node-HasType :
      (env : Environment n) (e : Node) (line : ℕ) (c : TypeChecker) (v : Value n)
      → IsConstant e
      → (check_node w e line c).1.had_error ≡ false
      → meaning env e ≡ some v
      → HasType v (check_node w e line c).0
  unfolding check_node meaning settle
  check_node-HasType env (literal x) line c v k ok h =
      subst (λ (u : Value n). HasType u (infer_type_from_literal w x)) (ap or_nil h)
        (literal-HasType n w x)
  check_node-HasType env (unary_expression op e) line c v k ok h =
      let after = check_node w e line c in
      let (accepted, ok_after) = settle-typed (unary_verdict op after.0) line after.1 ok in
      not-HasType op (meaning env e) v after.0 _
        (λ a ha. check_node-HasType env e line c a k ok_after ha) h accepted
  check_node-HasType env (binary_expression l op r) line c v (kl, kr) ok h =
      let left = check_node w l line c in
      let right = check_node w r line left.1 in
      let (accepted, ok_right) = settle-typed (binary_verdict op left.0 right.0) line right.1 ok in
      let ok_left = check_node-had_error w line r left.1 kr ok_right in
      let (a, b, ha, hb, h_op) = operate-some op (meaning env l) (meaning env r) v h in
      operation-HasType op a b v left.0 right.0 _ h_op
        (check_node-HasType env l line c a kl ok_left ha)
        (check_node-HasType env r line left.1 b kr ok_right hb) accepted
  check_node-HasType env e line c v k ok h = absurd k

  -- An expression of literals that the checker passes, and that has a value, has a value of the type
  -- that the checker gives it.
  pub typechecker_check-HasType :
      (env : Environment n) (e : Node) (v : Value n)
      → IsConstant e
      → typechecker_check w e ≡ false
      → meaning env e ≡ some v
      → HasType v (check_node w e 1 typechecker_create).0
  unfolding typechecker_check
  typechecker_check-HasType env e v k ok h = check_node-HasType env e 1 typechecker_create v k ok h
