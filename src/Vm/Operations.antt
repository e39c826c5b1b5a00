-- ===== src/Vm/Operations.antt =====
-- src/core/vm/vm.c: the values that the operations of `vm_step` give; none is a failed step.
use asteron.Prelude.{
  ℕ, Bool, true, false, Option, none, some, List, [], ◌++◌, ◌||◌, if◌then◌else◌, length,
}
use asteron.Interpreter.Values.{
  Numbers, Value, number, string, function, bool, nil, same_text, value_string, value_is_string,
}
use asteron.Vm.Bytecode.{Constant, same_bool}

module _ {n : Numbers} where
  open n use {of_length, add, sub, mul, div, neg, same, show}

  unfoldable pub constant_value : Constant n → Value n
  unfolding value_string
  constant_value (Constant.number x) = number x
  constant_value (Constant.string s) = value_string s
  constant_value (Constant.bool b) = bool b
  constant_value Constant.nil = nil

  -- A text or a number as a text, to join it with another.
  unfoldable pub joined_text : Value n → Option (List ℕ)
  joined_text (string s) = some s
  joined_text (number x) = some (show x)
  joined_text _ = none

  abbrev join : Option (List ℕ) → Option (List ℕ) → Option (Value n)
  join (some a) (some b) = some (value_string (a ++ b))
  join _ _ = none

  unfoldable pub add_values : Value n → Value n → Option (Value n)
  unfolding value_is_string joined_text value_string
  add_values (number a) (number b) = some (number (add a b))
  add_values l r =
      if value_is_string l || value_is_string r then join (joined_text l) (joined_text r) else none

  unfoldable pub sub_values : Value n → Value n → Option (Value n)
  sub_values (number a) (number b) = some (number (sub a b))
  sub_values _ _ = none

  unfoldable pub mul_values : Value n → Value n → Option (Value n)
  mul_values (number a) (number b) = some (number (mul a b))
  mul_values _ _ = none

  unfoldable pub div_values : Value n → Value n → Option (Value n)
  div_values (number a) (number b) = if same b (of_length 0) then none else some (number (div a b))
  div_values _ _ = none

  -- A text and a function are both objects; a function reads as the empty text.
  unfoldable pub equal_operands : Value n → Value n → Bool
  equal_operands (number a) (number b) = same a b
  equal_operands (string a) (string b) = same_text a b
  equal_operands (string a) (function i) = same_text a []
  equal_operands (bool a) (bool b) = same_bool a b
  equal_operands nil nil = true
  equal_operands _ _ = false

  -- The number that a value is compared as.
  unfoldable pub ordered_number : Value n → Option (Numbers.Num n)
  ordered_number (number x) = some x
  ordered_number nil = some (of_length 0)
  ordered_number (string s) = some (of_length (length s))
  ordered_number (bool b) = some (of_length (if b then 1 else 0))
  ordered_number (function i) = none

  abbrev compare :
      (Numbers.Num n → Numbers.Num n → Bool)
      → Option (Numbers.Num n)
      → Option (Numbers.Num n)
      → Option (Value n)
  compare f (some a) (some b) = some (bool (f a b))
  compare f _ _ = none

  unfoldable pub ordered :
      (Numbers.Num n → Numbers.Num n → Bool) → Value n → Value n → Option (Value n)
  unfolding ordered_number
  ordered f l r = compare f (ordered_number l) (ordered_number r)

  unfoldable pub neg_value : Value n → Option (Value n)
  neg_value (number x) = some (number (neg x))
  neg_value _ = none
