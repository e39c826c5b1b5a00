-- ===== src/Typechecker/Results.antt =====
-- src/core/typechecker/typechecker.c: the types of the operators beside their values.
use asteron.Prelude.{
  ℕ, ◌≡◌, arith, ◌⊎◌, inl, inr, refl, sym, ap, Bool, true, false, ◌||◌, Option, some, List, ◌++◌,
  subst,
}
use asteron.Lexer.Token.{
  TokenType, plus, minus, multiply, divide, gt, lt, gte, lte, eq, ne, and, or,
}
use asteron.Ast.{TypeName, int, float, bool, string}
use asteron.Ast as Ast
use asteron.Parser.Source.{same_type, ordinal}
use asteron.Interpreter.Values.{Numbers, Value, value_string}
use asteron.Interpreter.Values as Values
use asteron.Interpreter.Meaning.{if_plus, number_meaning, operation_meaning}
use asteron.Typechecker.Operators.{IsNumberType, IsKnown, arithmetic_type, boolean_type}
use asteron.Interpreter.Silent.{or_nil}
use asteron.Typechecker.Types.{is_numeric, is_arithmetic, is_comparison, is_logical}
use asteron.Typechecker.Check.{
  Verdict, typed, refused, binary_verdict, is_joined, arithmetic_verdict,
}

-- What values a type has: `int` and `float` have the numbers.
abbrev pub HasType : {n : Numbers} → Value n → TypeName → Type 0
HasType (Values.number x) int = Unit
HasType (Values.number x) float = Unit
HasType (Values.string s) string = Unit
HasType (Values.bool b) bool = Unit
HasType _ _ = ⊥

abbrev type_of : Verdict → TypeName
type_of (typed t) = t
type_of (refused m) = Ast.error

pub HasType-IsNumberType :
    (n : Numbers) (x : Numbers.Num n) (t : TypeName)
    → HasType {n = n} (Values.number x) t
    → IsNumberType t
HasType-IsNumberType n x int k = tt
HasType-IsNumberType n x float k = tt
HasType-IsNumberType n x t k = absurd k

module _ {n : Numbers} where
  open n use {Num, of_length, same, div, show}

  -- What the operators make of two numbers.
  abbrev IsResult : TokenType → Value n → Type 0
  IsResult op v =
      ((is_arithmetic op ≡ true) × HasType v int)
      ⊎ ((is_arithmetic op ≡ false) × ((is_comparison op || is_logical op) ≡ true) × HasType v bool)

  gives_number :
      (op : TokenType) (x : Num) (v : Value n)
      → is_arithmetic op ≡ true
      → ◌≡◌ {A = Option (Value n)} (some (Values.number x)) (some v)
      → IsResult op v
  gives_number op x v a h = inl (a, subst (λ (u : Value n). HasType u int) (ap or_nil h) tt)

  gives_bool :
      (op : TokenType) (x : Bool) (v : Value n)
      → is_arithmetic op ≡ false
      → (is_comparison op || is_logical op) ≡ true
      → ◌≡◌ {A = Option (Value n)} (some (Values.bool x)) (some v)
      → IsResult op v
  gives_bool op x v a b h = inr (a, b, subst (λ (u : Value n). HasType u bool) (ap or_nil h) tt)

  number_meaning-IsResult :
      (op : TokenType) (x y : Num) (v : Value n) → number_meaning op x y ≡ some v → IsResult op v
  unfolding number_meaning is_arithmetic is_comparison is_logical same_type ordinal
  number_meaning-IsResult plus x y v h = gives_number plus _ v refl h
  number_meaning-IsResult minus x y v h = gives_number minus _ v refl h
  number_meaning-IsResult multiply x y v h = gives_number multiply _ v refl h
  number_meaning-IsResult divide x y v h = ground arith
  number_meaning-IsResult gt x y v h = gives_bool gt _ v refl refl h
  number_meaning-IsResult lt x y v h = gives_bool lt _ v refl refl h
  number_meaning-IsResult gte x y v h = gives_bool gte _ v refl refl h
  number_meaning-IsResult lte x y v h = gives_bool lte _ v refl refl h
  number_meaning-IsResult eq x y v h = gives_bool eq _ v refl refl h
  number_meaning-IsResult ne x y v h = gives_bool ne _ v refl refl h
  number_meaning-IsResult and x y v h = gives_bool and _ v refl refl h
  number_meaning-IsResult or x y v h = gives_bool or _ v refl refl h
  number_meaning-IsResult op x y v h = cc

  pub HasType-typed : (v : Value n) (t u : TypeName) → typed u ≡ typed t → HasType v t → HasType v u
  HasType-typed v t u h k = subst (λ (s : TypeName). HasType v s) (sym (ap type_of h)) k

  HasType-float : (v : Value n) → HasType v int → HasType v float
  HasType-float (Values.number x) k = tt
  HasType-float v k = absurd k

  pub HasType-IsKnown : (v : Value n) (t : TypeName) → HasType v t → IsKnown t
  HasType-IsKnown v int k = tt
  HasType-IsKnown v float k = tt
  HasType-IsKnown v string k = tt
  HasType-IsKnown v bool k = tt
  HasType-IsKnown (Values.number x) t k = absurd k
  HasType-IsKnown (Values.string s) t k = absurd k
  HasType-IsKnown (Values.bool b) t k = absurd k
  HasType-IsKnown v t k = absurd k

  number-HasType :
      (op : TokenType) (l r t : TypeName) (v : Value n)
      → IsNumberType l
      → IsNumberType r
      → IsResult op v
      → binary_verdict op l r ≡ typed t
      → HasType v t
  number-HasType op l r t v hl hr (inl (a, k)) h = elim (arithmetic_type op l r t hl hr a h) [
    | inl e ↦ HasType-typed v int t e k
    | inr e ↦ HasType-typed v float t e (HasType-float v k)
  ]
  number-HasType op l r t v hl hr (inr (a, b, k)) h =
      HasType-typed v bool t (boolean_type op l r t hl hr a b h) k

  -- A sum with a text.
  joined-HasType :
      (op : TokenType) (l r t : TypeName) (s : List ℕ) (v : Value n)
      → if_plus op s ≡ some v
      → is_joined l r ≡ true
      → binary_verdict op l r ≡ typed t
      → HasType v t
  unfolding binary_verdict arithmetic_verdict is_arithmetic same_type ordinal value_string
  joined-HasType plus l r t s v h j e =
      subst (λ (u : Value n). HasType u t) (ap or_nil h)
        (HasType-typed (value_string s) string t (cc (e, j)) tt)
  joined-HasType op l r t s v h j e = cc

  pub operation-HasType :
      (op : TokenType) (a b v : Value n) (l r t : TypeName)
      → operation_meaning op a b ≡ some v
      → HasType a l
      → HasType b r
      → binary_verdict op l r ≡ typed t
      → HasType v t
  unfolding operation_meaning is_joined is_numeric
  operation-HasType op (Values.number x) (Values.number y) v l r t h ka kb e =
      number-HasType op l r t v (HasType-IsNumberType n x l ka) (HasType-IsNumberType n y r kb)
        (number_meaning-IsResult op x y v h) e
  operation-HasType op (Values.string x) (Values.string y) v string string t h ka kb e =
      joined-HasType op string string t (x ++ y) v h refl e
  operation-HasType op (Values.string x) (Values.number y) v string int t h ka kb e =
      joined-HasType op string int t (x ++ show y) v h refl e
  operation-HasType op (Values.string x) (Values.number y) v string float t h ka kb e =
      joined-HasType op string float t (x ++ show y) v h refl e
  operation-HasType op (Values.number x) (Values.string y) v int string t h ka kb e =
      joined-HasType op int string t (show x ++ y) v h refl e
  operation-HasType op (Values.number x) (Values.string y) v float string t h ka kb e =
      joined-HasType op float string t (show x ++ y) v h refl e
  operation-HasType op a b v l r t h ka kb e = ground arith
