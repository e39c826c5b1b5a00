-- ===== src/Typechecker/Inferred.antt =====
-- src/core/typechecker/typechecker.c: `infer_type_from_expression` beside `check_node`.
use asteron.Prelude.{ℕ, ◌≡◌, arith, refl, ◌∙◌, ap, Bool, true, false, ◌||◌, List}
use asteron.Lexer.Token.{TokenType}
use asteron.Ast.{
  TypeName, int, float, bool, string, void, unknown, error, Literal, Node, literal,
  unary_expression, binary_expression,
}
use asteron.Typechecker.Types.{is, is_numeric, is_arithmetic, is_comparison, is_logical}
use asteron.Typechecker.Infer.{
  infer_type_from_literal, infer_arithmetic, infer_binary, infer_unary, infer_type_from_expression,
}
use asteron.Typechecker.Check.{
  TypeChecker, Verdict, typed, refused, settle, check_node, binary_verdict, unary_verdict,
  is_joined, arithmetic_verdict, comparison_verdict, logical_verdict, typechecker_check,
  typechecker_create,
}
use asteron.Typechecker.Errors.{IsConstant, settle-typed, check_node-had_error}

-- A type other than those of a statement, of a name and of an error.
abbrev is_known : TypeName → Bool
is_known void = false
is_known unknown = false
is_known error = false
is_known _ = true

-- The operators of the expressions that the parser builds.
abbrev is_operator : TokenType → Bool
is_operator op = is_arithmetic op || is_comparison op || is_logical op

-- An expression whose operators of two operands are those.
abbrev pub HasOperators : Node → Type 0
HasOperators (unary_expression op e) = HasOperators e
HasOperators (binary_expression l op r) = (is_operator op ≡ true) × HasOperators l × HasOperators r
HasOperators _ = Unit

abbrev type_of : Verdict → TypeName
type_of (typed t) = t
type_of (refused m) = error

arithmetic_verdict-infer :
    (op : TokenType) (l r t : TypeName)
    → is_known l ≡ true
    → is_known r ≡ true
    → arithmetic_verdict op l r ≡ typed t
    → (typed t ≡ typed (infer_arithmetic op l r)) × (is_known t ≡ true)
unfolding arithmetic_verdict is_joined is_numeric infer_arithmetic
arithmetic_verdict-infer op int int t hl hr h = ground arith
arithmetic_verdict-infer op int float t hl hr h = ground arith
arithmetic_verdict-infer op int bool t hl hr h = ground arith
arithmetic_verdict-infer op int string t hl hr h = ground arith
arithmetic_verdict-infer op float int t hl hr h = ground arith
arithmetic_verdict-infer op float float t hl hr h = ground arith
arithmetic_verdict-infer op float bool t hl hr h = ground arith
arithmetic_verdict-infer op float string t hl hr h = ground arith
arithmetic_verdict-infer op bool int t hl hr h = ground arith
arithmetic_verdict-infer op bool float t hl hr h = ground arith
arithmetic_verdict-infer op bool bool t hl hr h = ground arith
arithmetic_verdict-infer op bool string t hl hr h = ground arith
arithmetic_verdict-infer op string int t hl hr h = ground arith
arithmetic_verdict-infer op string float t hl hr h = ground arith
arithmetic_verdict-infer op string bool t hl hr h = ground arith
arithmetic_verdict-infer op string string t hl hr h = ground arith
arithmetic_verdict-infer op void r t hl hr h = cc
arithmetic_verdict-infer op unknown r t hl hr h = cc
arithmetic_verdict-infer op error r t hl hr h = cc
arithmetic_verdict-infer op l r t hl hr h = cc

is_unknown : (t : TypeName) → is_known t ≡ true → is t unknown ≡ false
is_unknown unknown h = cc
is_unknown t h = refl

comparison_verdict-bool :
    (l r t : TypeName)
    → is_known l ≡ true
    → is_known r ≡ true
    → comparison_verdict l r ≡ typed t
    → typed t ≡ typed bool
unfolding comparison_verdict
comparison_verdict-bool l r t hl hr h = ground (arith, is_unknown l hl, is_unknown r hr)

logical_verdict-bool :
    (l r t : TypeName)
    → is_known l ≡ true
    → is_known r ≡ true
    → logical_verdict l r ≡ typed t
    → typed t ≡ typed bool
unfolding logical_verdict
logical_verdict-bool l r t hl hr h = ground (arith, is_unknown l hl, is_unknown r hr)

bool-is_known : (t : TypeName) → typed t ≡ typed bool → is_known t ≡ true
bool-is_known t h = ap (λ v. is_known (type_of v)) h

binary_verdict-infer :
    (op : TokenType) (l r t : TypeName)
    → is_operator op ≡ true
    → is_known l ≡ true
    → is_known r ≡ true
    → binary_verdict op l r ≡ typed t
    → (typed t ≡ typed (infer_binary op l r)) × (is_known t ≡ true)
unfolding binary_verdict infer_binary
binary_verdict-infer op l r t o hl hr h = ground (
  arith,
  arithmetic_verdict-infer op l r t hl hr,
  comparison_verdict-bool l r t hl hr,
  logical_verdict-bool l r t hl hr,
  bool-is_known t,
)

unary_verdict-infer :
    (op : TokenType) (t u : TypeName)
    → is_known t ≡ true
    → unary_verdict op t ≡ typed u
    → (typed u ≡ typed (infer_unary op t)) × (is_known u ≡ true)
unfolding unary_verdict infer_unary is_numeric
unary_verdict-infer op int u k h = ground arith
unary_verdict-infer op float u k h = ground arith
unary_verdict-infer op bool u k h = ground arith
unary_verdict-infer op string u k h = ground arith
unary_verdict-infer op t u k h = cc

module _ (w : List ℕ → Bool) (line : ℕ) where
  literal-is_known : (v : Literal) → is_known (infer_type_from_literal w v) ≡ true
  unfolding infer_type_from_literal
  literal-is_known v = ground arith

  check_node-infer :
      (e : Node) (c : TypeChecker)
      → IsConstant e
      → HasOperators e
      → (check_node w e line c).1.had_error ≡ false
      → ((check_node w e line c).0 ≡ infer_type_from_expression w e)
        × (is_known (check_node w e line c).0 ≡ true)
  unfolding check_node infer_type_from_expression settle
  check_node-infer (literal v) c k o ok = (refl, literal-is_known v)
  check_node-infer (unary_expression op e) c k o ok =
      let after = check_node w e line c in
      let (accepted, ok_after) = settle-typed (unary_verdict op after.0) line after.1 ok in
      let (same, known) = check_node-infer e c k o ok_after in
      let (t, u) = unary_verdict-infer op after.0 _ known accepted in
      (ap type_of t ∙ ap (infer_unary op) same, u)
  check_node-infer (binary_expression l op r) c (kl, kr) (o, ol, or) ok =
      let left = check_node w l line c in
      let right = check_node w r line left.1 in
      let (accepted, ok_right) = settle-typed (binary_verdict op left.0 right.0) line right.1 ok in
      let ok_left = check_node-had_error w line r left.1 kr ok_right in
      let (same_left, known_left) = check_node-infer l c kl ol ok_left in
      let (same_right, known_right) = check_node-infer r left.1 kr or ok_right in
      let (t, u) = binary_verdict-infer op left.0 right.0 _ o known_left known_right accepted in
      (ap type_of t ∙ cc (same_left, same_right), u)
  check_node-infer e c k o ok = absurd k

-- Of an expression of literals and the operators that the parser reads, which the checker passes, the
-- checker and the inference give the same type.
pub typechecker_check-infer :
    (w : List ℕ → Bool) (e : Node)
    → IsConstant e
    → HasOperators e
    → typechecker_check w e ≡ false
    → (check_node w e 1 typechecker_create).0 ≡ infer_type_from_expression w e
unfolding typechecker_check
typechecker_check-infer w e k o ok = (check_node-infer w 1 e typechecker_create k o ok).0
