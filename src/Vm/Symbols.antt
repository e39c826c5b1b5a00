-- ===== src/Vm/Symbols.antt =====
-- src/core/vm/compiler.c: the table of symbols, and the operations of the operators.
use asteron.Prelude.{
  ℕ, Bool, false, Option, none, some, List, [], ◌∷◌, ◌++◌, if◌then◌else◌, ltb, length, bytes_eq,
}
use asteron.Lexer.Token.{
  TokenType, plus, minus, multiply, divide, gt, lt, gte, lte, eq, ne, and, or, not,
}
use asteron.Interpreter.Environment.{Text}
use asteron.Vm.Bytecode.{OpCode}

pub record CompilerSymbol : Type 0 where
  pub name : Text
  pub is_local : Bool

abbrev pub max_compiler_symbols : ℕ
max_compiler_symbols = 100

unfoldable pub replace_symbol : List CompilerSymbol → Text → Bool → Option (List CompilerSymbol)
replace_symbol [] name is_local = none
replace_symbol (s ∷ ss) name is_local =
    let rest = replace_symbol ss name is_local in
    if bytes_eq s.name name
    then some (record s { is_local = is_local } ∷ ss)
    else elim rest [ none ↦ none | some ss' ↦ some (s ∷ ss') ]

abbrev new_symbol : List CompilerSymbol → Text → Bool → List CompilerSymbol
new_symbol symbols name is_local =
    if ltb (length symbols) max_compiler_symbols
    then symbols ++ record { name = name; is_local = is_local } ∷ []
    else symbols

-- A symbol that is new to a full table is dropped.
unfoldable pub compiler_add_symbol : List CompilerSymbol → Text → Bool → List CompilerSymbol
unfolding replace_symbol
compiler_add_symbol symbols name is_local = elim (replace_symbol symbols name is_local) [
  | some symbols' ↦ symbols'
  | none ↦ new_symbol symbols name is_local
]

unfoldable pub compiler_is_local : List CompilerSymbol → Text → Bool
compiler_is_local [] name = false
compiler_is_local (s ∷ ss) name =
    let rest = compiler_is_local ss name in if bytes_eq s.name name then s.is_local else rest

-- The operation of an operator; the others have none.
unfoldable pub binary_op : TokenType → Option OpCode
binary_op plus = some OpCode.add
binary_op minus = some OpCode.sub
binary_op multiply = some OpCode.mul
binary_op divide = some OpCode.div
binary_op eq = some OpCode.eq
binary_op ne = some OpCode.ne
binary_op gt = some OpCode.gt
binary_op lt = some OpCode.lt
binary_op gte = some OpCode.gte
binary_op lte = some OpCode.lte
binary_op and = some OpCode.and
binary_op or = some OpCode.or
binary_op _ = none

unfoldable pub unary_op : TokenType → Option OpCode
unary_op not = some OpCode.not
unary_op minus = some OpCode.neg
unary_op _ = none
