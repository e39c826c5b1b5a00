-- ===== src/Typechecker/Operators.antt =====
-- src/core/typechecker/typechecker.c: the types of the operators' results on numbers.
use asteron.Prelude.{◌≡◌, refl, arith, ◌⊎◌, true, false, ◌||◌}
use asteron.Lexer.Token.{TokenType, not, and, or}
use asteron.Ast.{TypeName, int, float, bool, string}
use asteron.Parser.Source.{same_type, ordinal}
use asteron.Typechecker.Types.{
  types_compatible, is_numeric, is_arithmetic, is_comparison, is_logical,
}
use asteron.Typechecker.Check.{
  typed, unary_verdict, binary_verdict, is_joined, arithmetic_verdict, comparison_verdict,
  logical_verdict,
}

abbrev pub IsNumberType : TypeName → Type 0
IsNumberType int = Unit
IsNumberType float = Unit
IsNumberType _ = ⊥

pub arithmetic_type :
    (op : TokenType) (l r t : TypeName)
    → IsNumberType l
    → IsNumberType r
    → is_arithmetic op ≡ true
    → binary_verdict op l r ≡ typed t
    → (typed t ≡ typed int) ⊎ (typed t ≡ typed float)
unfolding binary_verdict arithmetic_verdict is_joined is_numeric
arithmetic_type op int int t hl hr a h = ground arith
arithmetic_type op int float t hl hr a h = ground arith
arithmetic_type op float int t hl hr a h = ground arith
arithmetic_type op float float t hl hr a h = ground arith
arithmetic_type op int r t hl hr a h = absurd hr
arithmetic_type op float r t hl hr a h = absurd hr
arithmetic_type op l r t hl hr a h = absurd hl

pub boolean_type :
    (op : TokenType) (l r t : TypeName)
    → IsNumberType l
    → IsNumberType r
    → is_arithmetic op ≡ false
    → (is_comparison op || is_logical op) ≡ true
    → binary_verdict op l r ≡ typed t
    → typed t ≡ typed bool
unfolding binary_verdict comparison_verdict logical_verdict types_compatible
boolean_type op int int t hl hr a b h = ground arith
boolean_type op int float t hl hr a b h = ground arith
boolean_type op float int t hl hr a b h = ground arith
boolean_type op float float t hl hr a b h = ground arith
boolean_type op int r t hl hr a b h = absurd hr
boolean_type op float r t hl hr a b h = absurd hr
boolean_type op l r t hl hr a b h = absurd hl

abbrev pub IsKnown : TypeName → Type 0
IsKnown int = Unit
IsKnown float = Unit
IsKnown string = Unit
IsKnown bool = Unit
IsKnown _ = ⊥

-- The checker lets `!` be used on a `bool` only.
pub not_type : (t u : TypeName) → IsKnown t → unary_verdict not t ≡ typed u → typed u ≡ typed bool
unfolding unary_verdict is_numeric same_type ordinal
not_type bool u k h = cc
not_type int u k h = cc
not_type float u k h = cc
not_type string u k h = cc
not_type t u k h = absurd k

pub binary_verdict-logical :
    (op : TokenType) (l r : TypeName)
    → is_logical op ≡ true
    → binary_verdict op l r ≡ logical_verdict l r
unfolding binary_verdict is_arithmetic is_comparison is_logical same_type ordinal
binary_verdict-logical and l r o = refl
binary_verdict-logical or l r o = refl
binary_verdict-logical op l r o = cc
