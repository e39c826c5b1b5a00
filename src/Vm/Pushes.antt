-- ===== src/Vm/Pushes.antt =====
-- src/core/vm/vm.c: the operations of the machine give the values of the operators.
use asteron.Prelude.{
  ℕ, suc, ◌+◌, ◌≡◌, refl, ap, ◌∙◌, false, Option, none, some, List, ◌∷◌, ◌++◌, length, arith, ltb,
  ltb→lt, Bool-cases, inl, inr,
}
use asteron.Lexer.Token.{
  TokenType, plus, minus, multiply, divide, gt, lt, gte, lte, eq, ne, and, or, not,
}
use asteron.Outcome.{done}
use asteron.Interpreter.Values.{
  Numbers, Value, number, string, is_true, value_string, value_is_string,
}
use asteron.Interpreter.Stack.{stack_push, stack_pop}
use asteron.Interpreter.Meaning.{number_meaning, operation_meaning, if_plus, not_meaning}
use asteron.Vm.Bytecode.{OpCode}
use asteron.Vm.Symbols.{binary_op, unary_op}
use asteron.Vm.Machine.{
  Vm, Stepping, went_on, push, pop, pop_two, push_result, binary_step, unary_step,
}
use asteron.Vm.Operations.{
  add_values, sub_values, mul_values, div_values, equal_operands, ordered, ordered_number,
  joined_text,
}
use asteron.Vm.Steps.{op_step, add_step, equality}

not_short : (k : ℕ) → ltb (suc (suc k)) 2 ≡ false
not_short k = elim (Bool-cases (ltb (suc (suc k)) 2)) [
  | inl h ↦ absurd (omega (arith, ltb→lt (suc (suc k)) 2 h))
  | inr h ↦ h
]

module _ {n : Numbers} where
  open n use {Num}

  -- The operation replaces two values on the stack by one.
  abbrev pub Pushes : OpCode → Value n → Value n → Value n → Type 0
  Pushes o a b v =
      (call : ℕ → Stepping n) (vm : Vm n) (st : List (Value n))
      → op_step call o 0 (record vm { stack = b ∷ a ∷ st })
        ≡ done went_on (record vm { pc = vm.pc + 1; stack = v ∷ st })

  abbrev pub Computes : TokenType → Value n → Value n → Value n → Type 0
  Computes op a b v = (o : OpCode) × (binary_op op ≡ some o) × Pushes o a b v

  pub pushed :
      (vm : Vm n) (st : List (Value n)) (o : Option (Value n)) (v : Value n)
      → o ≡ some v
      → push_result o (record vm { stack = st })
        ≡ done went_on (record vm { pc = vm.pc + 1; stack = v ∷ st })
  unfolding push_result push stack_push
  pushed vm st o v h = ap (λ x. push_result x (record vm { stack = st })) h

  -- The sum first asks for two values.
  add_op-pushed :
      (call : ℕ → Stepping n) (vm : Vm n) (st : List (Value n)) (a b v : Value n)
      → add_values a b ≡ some v
      → op_step call OpCode.add 0 (record vm { stack = b ∷ a ∷ st })
        ≡ done went_on (record vm { pc = vm.pc + 1; stack = v ∷ st })
  unfolding op_step add_step binary_step pop_two pop stack_pop
  add_op-pushed call vm st a b v h = rw (not_short (length st)) (pushed vm st (add_values a b) v h)

  number-Computes :
      (op : TokenType) (a b : Num) (v : Value n)
      → number_meaning op a b ≡ some v
      → Computes op (number a) (number b) v
  unfolding number_meaning binary_op op_step add_step binary_step pop_two pop stack_pop add_values
      sub_values mul_values div_values equality equal_operands ordered ordered_number is_true
  number-Computes plus a b v h =
      (OpCode.add, refl, λ call vm st. add_op-pushed call vm st (number a) (number b) v h)
  number-Computes minus a b v h = (OpCode.sub, refl, λ call vm st. pushed vm st _ v h)
  number-Computes multiply a b v h = (OpCode.mul, refl, λ call vm st. pushed vm st _ v h)
  number-Computes divide a b v h = (OpCode.div, refl, λ call vm st. pushed vm st _ v h)
  number-Computes gt a b v h = (OpCode.gt, refl, λ call vm st. pushed vm st _ v h)
  number-Computes lt a b v h = (OpCode.lt, refl, λ call vm st. pushed vm st _ v h)
  number-Computes gte a b v h = (OpCode.gte, refl, λ call vm st. pushed vm st _ v h)
  number-Computes lte a b v h = (OpCode.lte, refl, λ call vm st. pushed vm st _ v h)
  number-Computes eq a b v h = (OpCode.eq, refl, λ call vm st. pushed vm st _ v h)
  number-Computes ne a b v h = (OpCode.ne, refl, λ call vm st. pushed vm st _ v h)
  number-Computes and a b v h = (OpCode.and, refl, λ call vm st. pushed vm st _ v h)
  number-Computes or a b v h = (OpCode.or, refl, λ call vm st. pushed vm st _ v h)
  number-Computes _ a b v h = absurd cc

  joined-Computes :
      (op : TokenType) (a b v : Value n) (s : List ℕ)
      → add_values a b ≡ some (value_string s)
      → if_plus op s ≡ some v
      → Computes op a b v
  unfolding binary_op
  joined-Computes plus a b v s e h =
      (OpCode.add, refl, λ call vm st. add_op-pushed call vm st a b v (e ∙ h))
  joined-Computes op a b v s e h = absurd cc

  pub operation-Computes :
      (op : TokenType) (a b v : Value n) → operation_meaning op a b ≡ some v → Computes op a b v
  unfolding operation_meaning add_values value_is_string joined_text
  operation-Computes op (number a) (number b) v h = number-Computes op a b v h
  operation-Computes op (string a) (string b) v h =
      joined-Computes op (string a) (string b) v (a ++ b) refl h
  operation-Computes op (string a) (number b) v h =
      joined-Computes op (string a) (number b) v (a ++ n.show b) refl h
  operation-Computes op (number a) (string b) v h =
      joined-Computes op (number a) (string b) v (n.show a ++ b) refl h
  operation-Computes op l r v h = absurd cc

  abbrev pub PushesOne : OpCode → Value n → Value n → Type 0
  PushesOne o a v =
      (call : ℕ → Stepping n) (vm : Vm n) (st : List (Value n))
      → op_step call o 0 (record vm { stack = a ∷ st })
        ≡ done went_on (record vm { pc = vm.pc + 1; stack = v ∷ st })

  -- The operand of a negation that has a meaning, and its operation.
  pub not_meaning-PushesOne :
      (op : TokenType) (x : Option (Value n)) (v : Value n)
      → not_meaning op x ≡ some v
      → (a : Value n) × (x ≡ some a) × (o : OpCode) × (unary_op op ≡ some o) × PushesOne o a v
  unfolding unary_op op_step unary_step pop stack_pop
  not_meaning-PushesOne not (some a) v h =
      (a, refl, OpCode.not, refl, λ call vm st. pushed vm st _ v h)
  not_meaning-PushesOne not none v h = absurd cc
  not_meaning-PushesOne op x v h = absurd cc
