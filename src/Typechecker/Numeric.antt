-- ===== src/Typechecker/Numeric.antt =====
-- src/core/typechecker/typechecker.c beside the interpreter's operators: which checked operations never
-- give a number.
use asteron.Prelude.{
  ℕ, ◌≡◌, inl, inr, refl, Bool, Bool-cases, true, false, ◌||◌, ◌&&◌, List, ◌∷◌, arith,
}
use asteron.Prelude as Prelude
use asteron.Lexer.Token.{
  TokenType, plus, minus, multiply, divide, gt, lt, gte, lte, eq, ne, and, or,
}
use asteron.Ast.{TypeName, int, float, string, unknown, Literal}
use asteron.Outcome.{Outcome, done}
use asteron.Parser.Source.{same_type, ordinal}
use asteron.Interpreter.Values.{Numbers, Value, value_string, is_number, as_number, nil}
use asteron.Interpreter.Evaluate.{
  Report, Interpreter, literal_value, unary_value, plus_value, operation_value, binary_value,
}
use asteron.Typechecker.Types.{is, is_numeric, is_arithmetic}
use asteron.Typechecker.Infer.{infer_type_from_literal}
use asteron.Typechecker.Check.{typed, binary_verdict, is_joined, arithmetic_verdict}

-- A type whose expressions may give a number: `string` is the type of a sum with an unknown operand.
abbrev pub is_open : TypeName → Bool
is_open int = true
is_open float = true
is_open string = true
is_open _ = false

is_open-unknown : (t : TypeName) → is_open t ≡ true → is t unknown ≡ false
is_open-unknown unknown h = cc
is_open-unknown t h = refl

plus-is_open :
    (op : TokenType) (l r t : TypeName)
    → same_type op plus ≡ true
    → binary_verdict op l r ≡ typed t
    → is_open t ≡ true
unfolding binary_verdict arithmetic_verdict is_arithmetic is_joined is_numeric
plus-is_open op l r t o h = ground arith

arithmetic-is_open :
    (op : TokenType) (l r t : TypeName)
    → is_open l ≡ true
    → is_open r ≡ true
    → is_arithmetic op ≡ true
    → binary_verdict op l r ≡ typed t
    → is_open t ≡ true
unfolding binary_verdict arithmetic_verdict is_joined is_numeric
arithmetic-is_open op l r t hl hr o h = ground (arith, is_open-unknown l hl, is_open-unknown r hr)

nil_fits : (t : TypeName) → (is_open t || true) ≡ true
nil_fits t = ground arith

pub literal_fits :
    (n : Numbers) (w : List ℕ → Bool) (v : Literal)
    → (is_open (infer_type_from_literal w v) || Prelude.not (is_number {n = n} (literal_value v)))
      ≡ true
unfolding literal_value infer_type_from_literal is_number value_string
literal_fits n w (Literal.number t) = ground arith
literal_fits n w (Literal.text s) = refl
literal_fits n w (Literal.boolean b) = refl

module _ {n : Numbers} where
  open n use {of_length, same, div}

  -- A value that is a number has a type that may give one.
  abbrev pub Fits : Value n → TypeName → Type 0
  Fits v t = (is_open t || Prelude.not (is_number v)) ≡ true

  -- A call that gives a value with the property `Q` and changes nothing but the messages.
  abbrev pub Reports :
      (Value n → Type 0) → Interpreter n → Outcome (Interpreter n) (Value n) → Type 0
  Reports Q p o =
      (v : Value n) × (rs : List Report) × (o ≡ done v (record p { reports = rs })) × Q v

  -- Only an arithmetic operator gives a number.
  operation_value-Reports :
      (op : TokenType) (a b : Value n) (p : Interpreter n)
      → Reports
          (λ v. (is_arithmetic op || Prelude.not (is_number v)) ≡ true)
          p
          (operation_value op a b p)
  unfolding operation_value is_arithmetic same_type ordinal is_number
  operation_value-Reports minus a b p = (_, p.reports, refl, refl)
  operation_value-Reports multiply a b p = (_, p.reports, refl, refl)
  operation_value-Reports divide a b p = elim (Bool-cases (same (as_number b) (of_length 0))) [
    | inl e ↦ (nil, Report.division_by_zero ∷ p.reports, rw e refl, refl)
    | inr e ↦ (Value.number (div (as_number a) (as_number b)), p.reports, rw e refl, refl)
  ]
  operation_value-Reports gt a b p = (_, p.reports, refl, refl)
  operation_value-Reports lt a b p = (_, p.reports, refl, refl)
  operation_value-Reports gte a b p = (_, p.reports, refl, refl)
  operation_value-Reports lte a b p = (_, p.reports, refl, refl)
  operation_value-Reports eq a b p = (_, p.reports, refl, refl)
  operation_value-Reports ne a b p = (_, p.reports, refl, refl)
  operation_value-Reports and a b p = (_, p.reports, refl, refl)
  operation_value-Reports or a b p = (_, p.reports, refl, refl)
  operation_value-Reports plus a b p = (nil, Report.unknown_operator ∷ p.reports, refl, refl)
  operation_value-Reports op a b p = (nil, Report.unknown_operator ∷ p.reports, refl, refl)

  pub number-is_open :
      (v : Value n) (t : TypeName) → Fits v t → is_number v ≡ true → is_open t ≡ true
  number-is_open v t f h = ground arith

  operation-Fits :
      (op : TokenType) (a b : Value n) (l r t : TypeName) (v : Value n)
      → Fits a l
      → Fits b r
      → (is_number a && is_number b) ≡ true
      → binary_verdict op l r ≡ typed t
      → (is_arithmetic op || Prelude.not (is_number v)) ≡ true
      → Fits v t
  operation-Fits op a b l r t v fa fb both h only =
      ground (arith, number-is_open a l fa, number-is_open b r fb, arithmetic-is_open op l r t)

  pub binary_value-Reports :
      (op : TokenType) (a b : Value n) (l r t : TypeName) (p : Interpreter n)
      → Fits a l
      → Fits b r
      → binary_verdict op l r ≡ typed t
      → Reports (λ v. Fits v t) p (binary_value op a b p)
  unfolding binary_value
  binary_value-Reports op a b l r t p fa fb h = elim (Bool-cases (same_type op plus)) [
    | inl e ↦
        (plus_value a b, p.reports, rw (e, binary_value) refl, rw (plus-is_open op l r t e h) refl)
    | inr e ↦ elim (Bool-cases (is_number a && is_number b)) [
      | inl both ↦
          let (v, rs, same_outcome, only) = operation_value-Reports op a b p in
          (
            v,
            rs,
            rw (e, both, binary_value) same_outcome,
            operation-Fits op a b l r t v fa fb both h only,
          )
      | inr k ↦ (nil, Report.needs_numbers ∷ p.reports, rw (e, k, binary_value) refl, nil_fits t)
    ]
  ]

  pub unary-Fits : (op : TokenType) (v : Value n) (t : TypeName) → Fits (unary_value op v) t
  unfolding unary_value is_number
  unary-Fits op v t = ground arith
