-- ===== src/Interpreter/Silent.antt =====
-- src/core/interpreter/interpreter.c: an expression that has a meaning is evaluated to it, and nothing is
-- reported.
use asteron.Prelude.{
  ℕ, zero, suc, ◌≤◌, ◌≡◌, refl, ap, true, Option, none, some, List, ◌++◌, ◌||◌, arith,
}
use asteron.Lexer.Token.{
  TokenType, plus, minus, multiply, divide, gt, lt, gte, lte, eq, ne, and, or, not,
}
use asteron.Ast.{Node, literal, identifier, unary_expression, binary_expression}
use asteron.Outcome.{done}
use asteron.Parser.Source.{ordinal, same_type}
use asteron.Interpreter.Values.{
  Numbers, Value, number, string, nil, value_is_string, is_number, as_number, is_true,
}
use asteron.Interpreter.Functions.{NativeFuncEntry}
use asteron.Interpreter.Evaluate.{
  Interpreter, unary_value, text_of, plus_value, equal_values, operation_value, binary_value,
}
use asteron.Interpreter.Calls.{identifier_value, expression_body}
use asteron.Interpreter.Execute.{interpreter_evaluate_expression}
use asteron.Interpreter.Meaning.{
  number_meaning, operation_meaning, if_plus, meaning, depth, operate, not_meaning,
}

-- No expression has depth zero.
pub positive : (e : Node) → 1 ≤ depth e
unfolding depth
positive (unary_expression op e) = omega arith
positive (binary_expression l op r) = omega arith
positive _ = omega arith

module _ {n : Numbers} where
  open n use {Num, of_length, add, sub, mul, div, same, less, at_most, show}

  abbrev Silent : TokenType → Value n → Value n → Value n → Type 0
  Silent op l r v = (p : Interpreter n) → binary_value op l r p ≡ done v p

  number-Silent :
      (op : TokenType) (a b : Num) (v : Value n)
      → number_meaning op a b ≡ some v
      → Silent op (number a) (number b) v
  unfolding number_meaning binary_value same_type ordinal plus_value value_is_string as_number
      is_number operation_value equal_values is_true text_of
  number-Silent plus a b v h p = ground arith
  number-Silent minus a b v h p = ground arith
  number-Silent multiply a b v h p = ground arith
  number-Silent divide a b v h p = ground arith
  number-Silent gt a b v h p = ground arith
  number-Silent lt a b v h p = ground arith
  number-Silent gte a b v h p = ground arith
  number-Silent lte a b v h p = ground arith
  number-Silent eq a b v h p = ground arith
  number-Silent ne a b v h p = ground arith
  number-Silent and a b v h p = ground arith
  number-Silent or a b v h p = ground arith
  number-Silent _ a b v h p = cc

  abbrev pub or_nil : Option (Value n) → Value n
  or_nil none = nil
  or_nil (some v) = v

  joined-Silent :
      (op : TokenType) (l r v : Value n)
      → (value_is_string l || value_is_string r) ≡ true
      → if_plus op (text_of l ++ text_of r) ≡ some v
      → Silent op l r v
  unfolding binary_value plus_value same_type ordinal
  joined-Silent plus l r v t h p = rw t (ap (λ o. done (or_nil o) p) h)
  joined-Silent op l r v t h p = cc

  operation-Silent :
      (op : TokenType) (a b v : Value n) → operation_meaning op a b ≡ some v → Silent op a b v
  unfolding operation_meaning value_is_string text_of
  operation-Silent op (number a) (number b) v h p = number-Silent op a b v h p
  operation-Silent op (string a) (string b) v h p =
      joined-Silent op (string a) (string b) v refl h p
  operation-Silent op (string a) (number b) v h p =
      joined-Silent op (string a) (number b) v refl h p
  operation-Silent op (number a) (string b) v h p =
      joined-Silent op (number a) (string b) v refl h p
  operation-Silent op l r v h p = cc

  -- The operands of an operation that has a meaning.
  pub operate-some :
      (op : TokenType) (x y : Option (Value n)) (v : Value n)
      → operate op x y ≡ some v
      → (a : Value n) × (b : Value n) × (x ≡ some a)
        × (y ≡ some b)
        × (operation_meaning op a b ≡ some v)
  operate-some op (some a) (some b) v h = (a, b, refl, refl, h)
  operate-some op (some a) none v h = cc
  operate-some op none y v h = cc

  pub not_meaning-some :
      (op : TokenType) (x : Option (Value n)) (v : Value n)
      → not_meaning op x ≡ some v
      → (a : Value n) × (x ≡ some a) × (unary_value op a ≡ v)
  unfolding unary_value same_type ordinal
  not_meaning-some not (some a) v h = (a, refl, ap or_nil h)
  not_meaning-some not none v h = cc
  not_meaning-some op o v h = cc

  module _ (natives : List (NativeFuncEntry n)) where
    -- An expression that has a meaning is evaluated to it by fuel for its depth; nothing else changes,
    -- and nothing is reported.
    pub interpreter_evaluate-meaning :
        (e : Node) (f : ℕ) (v : Value n) (p : Interpreter n)
        → depth e ≤ f
        → meaning p.env e ≡ some v
        → interpreter_evaluate_expression natives f e p ≡ done v p
    unfolding interpreter_evaluate_expression expression_body meaning depth identifier_value
    interpreter_evaluate-meaning e zero v p le h = absurd (omega (arith, positive e, le))
    interpreter_evaluate-meaning (literal x) (suc f) v p le h = ap (λ o. done (or_nil o) p) h
    interpreter_evaluate-meaning (identifier name last) (suc f) v p le h = ground arith
    interpreter_evaluate-meaning (unary_expression op e) (suc f) v p le h =
        let (a, ha, same_value) = not_meaning-some op (meaning p.env e) v h in
        rw (interpreter_evaluate-meaning e f a p (omega (arith, le)) ha)
          (ap (λ w. done w p) same_value)
    interpreter_evaluate-meaning (binary_expression l op r) (suc f) v p le h =
        let (a, b, ha, hb, same_value) = operate-some op (meaning p.env l) (meaning p.env r) v h in
        rw
          (
            interpreter_evaluate-meaning l f a p (omega (arith, le)) ha,
            interpreter_evaluate-meaning r f b p (omega (arith, le)) hb,
          )
          (operation-Silent op a b v same_value p)
    interpreter_evaluate-meaning e (suc f) v p le h = cc
