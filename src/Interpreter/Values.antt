-- ===== src/Interpreter/Values.antt =====
-- src/core/interpreter/interpreter.h and interpreter.c: the values. An object is its content: the
-- counts of references, and the failure to allocate an object, are left out.
use asteron.Prelude.{
  ℕ, Bool, true, false, List, [], ◌∷◌, ◌==◌, not, if◌then◌else◌, length, codes, bytes_eq,
}

-- What the code uses of `double`, and of the library's functions that read and write it. `unset` is
-- what the bytes of a value that is no number read as.
pub record Numbers : Type 1 where
  pub Num : Type 0
  pub of_text : List ℕ → Num
  pub of_length : ℕ → Num
  pub add : Num → Num → Num
  pub sub : Num → Num → Num
  pub mul : Num → Num → Num
  pub div : Num → Num → Num
  pub neg : Num → Num
  pub same : Num → Num → Bool
  pub less : Num → Num → Bool
  pub at_most : Num → Num → Bool
  pub show : Num → List ℕ
  pub unset : Num

-- The bytes of a text up to its terminator, which `strlen` counts.
unfoldable pub c_string : List ℕ → List ℕ
c_string [] = []
c_string (c ∷ cs) = let rest = c_string cs in if c == 0 then [] else c ∷ rest

-- `strcmp(a, b) == 0`
abbrev pub same_text : List ℕ → List ℕ → Bool
same_text a b = bytes_eq (c_string a) (c_string b)

-- A function object holds a pointer to an entry of the function table: its index.
pub data Value (n : Numbers) : Type 0 where
  number : Numbers.Num n → Value n
  string : List ℕ → Value n
  function : ℕ → Value n
  bool : Bool → Value n
  nil : Value n

module _ {n : Numbers} where
  open n use {Num, of_length, same, show, unset}

  unfoldable pub value_string : List ℕ → Value n
  value_string s = string (c_string s)

  unfoldable pub value_is_string : Value n → Bool
  value_is_string (string s) = true
  value_is_string _ = false

  unfoldable pub value_to_chars : Value n → List ℕ
  value_to_chars (string s) = s
  value_to_chars _ = []

  unfoldable pub is_number : Value n → Bool
  is_number (number x) = true
  is_number _ = false

  -- `value.as.number`, whatever the type of the value is.
  unfoldable pub as_number : Value n → Num
  as_number (number x) = x
  as_number nil = of_length 0
  as_number _ = unset

  -- The test of `if`, `while`, `!`, `&&` and `||`.
  unfoldable pub is_true : Value n → Bool
  is_true (bool b) = b
  is_true (number x) = not (same x (of_length 0))
  is_true (string s) = not (length s == 0)
  is_true _ = false

  -- The text that `value_print` writes.
  unfoldable pub value_print : Value n → List ℕ
  value_print (number x) = show x
  value_print (string s) = s
  value_print (function i) = codes "<function>"
  value_print (bool b) = if b then codes "true" else codes "false"
  value_print nil = codes "nil"
