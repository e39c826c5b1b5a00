-- ===== src/Typechecker/Errors.antt =====
-- src/core/typechecker/typechecker.c: an error is never taken back.
use asteron.Prelude.{ℕ, ◌≡◌, refl, Bool, false, List}
use asteron.Ast.{Node, literal, unary_expression, binary_expression}
use asteron.Typechecker.Check.{
  TypeChecker, Verdict, typed, refused, settle, type_error, check_node, binary_verdict,
  unary_verdict,
}

-- An expression of literals and operators only.
abbrev pub IsConstant : Node → Type 0
IsConstant (literal v) = Unit
IsConstant (unary_expression op e) = IsConstant e
IsConstant (binary_expression l op r) = IsConstant l × IsConstant r
IsConstant _ = ⊥

pub settle-typed :
    (v : Verdict) (line : ℕ) (c : TypeChecker)
    → (settle v line c).1.had_error ≡ false
    → (v ≡ typed (settle v line c).0) × (c.had_error ≡ false)
unfolding settle type_error
settle-typed (typed t) line c h = (refl, h)
settle-typed (refused m) line c h = cc

module _ (w : List ℕ → Bool) (line : ℕ) where
  pub check_node-had_error :
      (e : Node) (c : TypeChecker)
      → IsConstant e
      → (check_node w e line c).1.had_error ≡ false
      → c.had_error ≡ false
  unfolding check_node
  check_node-had_error (literal v) c k h = (settle-typed _ line c h).1
  check_node-had_error (unary_expression op e) c k h =
      let after = check_node w e line c in
      check_node-had_error e c k (settle-typed (unary_verdict op after.0) line after.1 h).1
  check_node-had_error (binary_expression l op r) c (kl, kr) h =
      let left = check_node w l line c in
      let right = check_node w r line left.1 in
      let h_right = (settle-typed (binary_verdict op left.0 right.0) line right.1 h).1 in
      check_node-had_error l c kl (check_node-had_error r left.1 kr h_right)
  check_node-had_error e c k h = absurd k
