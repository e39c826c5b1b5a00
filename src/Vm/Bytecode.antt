-- ===== src/Vm/Bytecode.antt =====
-- src/core/vm/vm.h and compiler.c: the instructions, and the tables of a program. A table with its count
-- is a list; its capacity, which the code doubles, is left out.
use asteron.Prelude.{
  ℕ, zero, suc, Bool, true, false, Option, none, some, List, [], ◌∷◌, ◌++◌, if◌then◌else◌, length,
  bytes_eq,
}
use asteron.Interpreter.Values.{Numbers, same_text}
use asteron.Interpreter.Environment.{Text}

pub data OpCode : Type 0 where
  load_const load_var store_var : OpCode
  add sub mul div : OpCode
  eq ne gt lt gte lte : OpCode
  and or not neg : OpCode
  jump jump_if_false jump_if_true : OpCode
  call return : OpCode
  print pop release store_local load_local halt : OpCode

pub data Constant (n : Numbers) : Type 0 where
  number : Numbers.Num n → Constant n
  string : List ℕ → Constant n
  bool : Bool → Constant n
  nil : Constant n

-- The operand is a union of indices: one number.
pub record Instruction : Type 0 where
  pub op : OpCode
  pub operand : ℕ

pub record BytecodeProgram (n : Numbers) : Type 0 where
  pub instructions : List Instruction
  pub constants : List (Constant n)
  pub variable_names : List Text

abbrev pub same_bool : Bool → Bool → Bool
same_bool true b = b
same_bool false true = false
same_bool false false = true

-- The place of a name in a table.
unfoldable pub find_name : List Text → Text → Option ℕ
find_name [] name = none
find_name (x ∷ xs) name =
    let rest = find_name xs name in
    if bytes_eq x name then some 0 else elim rest [ none ↦ none | some i ↦ some (suc i) ]

-- The operand of one instruction is set: the target of a jump.
unfoldable pub set_target : List Instruction → ℕ → ℕ → List Instruction
set_target [] pos target = []
set_target (i ∷ is') zero target = record i { operand = target } ∷ is'
set_target (i ∷ is') (suc pos) target = i ∷ set_target is' pos target

module _ {n : Numbers} where
  open n use {same}

  unfoldable pub same_constant : Constant n → Constant n → Bool
  same_constant (number a) (number b) = same a b
  same_constant (string a) (string b) = same_text a b
  same_constant (bool a) (bool b) = same_bool a b
  same_constant nil nil = true
  same_constant _ _ = false

  unfoldable pub find_constant : List (Constant n) → Constant n → Option ℕ
  unfolding same_constant
  find_constant [] constant = none
  find_constant (c ∷ cs) constant =
      let rest = find_constant cs constant in
      if same_constant c constant then some 0 else elim rest [ none ↦ none | some i ↦ some (suc i) ]

  -- The program, and the place of the constant, which is new only if no other is the same.
  unfoldable pub add_constant : BytecodeProgram n → Constant n → BytecodeProgram n × ℕ
  unfolding find_constant
  add_constant program constant = elim (find_constant program.constants constant) [
    | some i ↦ (program, i)
    | none ↦ (
      record program { constants = program.constants ++ constant ∷ [] },
      length program.constants,
    )
  ]

  unfoldable pub add_variable : BytecodeProgram n → Text → BytecodeProgram n × ℕ
  unfolding find_name
  add_variable program name = elim (find_name program.variable_names name) [
    | some i ↦ (program, i)
    | none ↦ (
      record program { variable_names = program.variable_names ++ name ∷ [] },
      length program.variable_names,
    )
  ]

  unfoldable pub emit_instruction : BytecodeProgram n → OpCode → ℕ → BytecodeProgram n
  emit_instruction program op operand = record program {
    instructions = program.instructions ++ record { op = op; operand = operand } ∷ [];
  }

  abbrev pub count : BytecodeProgram n → ℕ
  count program = length program.instructions

  unfoldable pub patch_target : BytecodeProgram n → ℕ → BytecodeProgram n
  unfolding set_target
  patch_target program pos = record program {
    instructions = set_target program.instructions pos (count program);
  }
