-- ===== src/Parser/Source.antt =====
-- The tokens that the parser reads: src/core/lexer/lexer.h gives the values of `TokenType`, and a
-- source of tokens is what src/core/parser/parser.c asks of its lexer.
use asteron.Prelude.{ℕ, ◌+◌, ◌≤◌, ◌<◌, ◌≡◌, refl, Bool, true, false, List, ◌==◌, arith}
use asteron.Lexer.Token.{
  TokenType, let_kw, if_kw, else_kw, print, while, for, function, return, true_kw, false_kw, import,
  from, as_kw, export, module_kw, reactive, when, context, derive, on, emit, watch, int, float,
  bool, string_type, void, identifier, number, string, plus, minus, multiply, divide, assign, gt,
  lt, gte, lte, eq, ne, and, or, not, lbrace, rbrace, lparen, rparen, semicolon, comma, colon, dot,
  at, newline, eof, error, annot_pure, annot_parallel, annot_async, annot_memoize, annot_lazy,
  annot_hot, annot_inline, annot_noopt,
}

-- The value of the constant in the enumeration.
unfoldable pub ordinal : TokenType → ℕ
ordinal let_kw = 0
ordinal if_kw = 1
ordinal else_kw = 2
ordinal print = 3
ordinal while = 4
ordinal for = 5
ordinal function = 6
ordinal return = 7
ordinal true_kw = 8
ordinal false_kw = 9
ordinal import = 10
ordinal from = 11
ordinal as_kw = 12
ordinal export = 13
ordinal module_kw = 14
ordinal reactive = 15
ordinal when = 16
ordinal context = 17
ordinal derive = 18
ordinal on = 19
ordinal emit = 20
ordinal watch = 21
ordinal int = 22
ordinal float = 23
ordinal bool = 24
ordinal string_type = 25
ordinal void = 26
ordinal identifier = 27
ordinal number = 28
ordinal string = 29
ordinal plus = 30
ordinal minus = 31
ordinal multiply = 32
ordinal divide = 33
ordinal assign = 34
ordinal gt = 35
ordinal lt = 36
ordinal gte = 37
ordinal lte = 38
ordinal eq = 39
ordinal ne = 40
ordinal and = 41
ordinal or = 42
ordinal not = 43
ordinal lbrace = 44
ordinal rbrace = 45
ordinal lparen = 46
ordinal rparen = 47
ordinal semicolon = 48
ordinal comma = 49
ordinal colon = 50
ordinal dot = 51
ordinal at = 52
ordinal newline = 53
ordinal eof = 54
ordinal error = 55
ordinal annot_pure = 56
ordinal annot_parallel = 57
ordinal annot_async = 58
ordinal annot_memoize = 59
ordinal annot_lazy = 60
ordinal annot_hot = 61
ordinal annot_inline = 62
ordinal annot_noopt = 63

unfoldable pub same_type : TokenType → TokenType → Bool
unfolding ordinal
same_type a b = ordinal a == ordinal b

-- What is left behind a token: nothing behind the end token.
unfoldable pub weight : TokenType → ℕ
weight eof = 0
weight _ = 1

pub weight-le : (t : TokenType) → weight t ≤ 1
unfolding weight
weight-le eof = omega arith
weight-le t = omega arith

pub weight-same_type : (k t : TokenType) → same_type k t ≡ true → 0 < weight t → weight k ≡ 1
unfolding same_type weight
weight-same_type eof eof h p = absurd (omega arith)
weight-same_type eof t h p = ground (arith, h)
weight-same_type k t h p = refl

pub same_type-eof : (k : TokenType) → same_type k eof ≡ true → k ≡ eof
unfolding same_type
same_type-eof eof h = refl
same_type-eof k h = cc

pub weight-other : (k : TokenType) → same_type k eof ≡ false → weight k ≡ 1
unfolding same_type weight
weight-other eof h = cc
weight-other k h = refl

-- A token with its text, and its line.
pub record Lexeme : Type 0 where
  pub kind : TokenType
  pub text : List ℕ
  pub line : ℕ

-- A lexer: its state, the call that reads a token, and a bound on the tokens that are left, which
-- every token but the end token lowers.
pub record TokenSource : Type 1 where
  pub State : Type 0
  pub next : State → State × Lexeme
  pub left : State → ℕ
  pub IsGood : State → Type 0
  pub next-IsGood : (s : State) → IsGood s → IsGood (next s).0
  pub next-left : (s : State) → IsGood s → left (next s).0 + weight (next s).1.kind ≤ left s
