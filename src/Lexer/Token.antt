-- ===== src/Lexer/Token.antt =====
-- src/core/lexer/lexer.h: the token types, the token and the lexer's state; and
-- `token_type_to_string` of src/core/lexer/lexer.c.
use Prim.Native.String.{String}
use asteron.Prelude.{ℕ, List}

pub data TokenType : Type 0 where
  let_kw if_kw else_kw print while for function return true_kw false_kw : TokenType
  import from as_kw export module_kw : TokenType
  reactive when context derive on emit watch : TokenType
  int float bool string_type void : TokenType
  identifier number string : TokenType
  plus minus multiply divide assign gt lt gte lte eq ne and or not : TokenType
  lbrace rbrace lparen rparen : TokenType
  semicolon comma colon dot at newline eof error : TokenType
  annot_pure annot_parallel annot_async annot_memoize : TokenType
  annot_lazy annot_hot annot_inline annot_noopt : TokenType

-- Where the `start` pointer of a token points: into the source, to the byte before it, or to the
-- text of an error message.
pub data TokenText : Type 0 where
  in_source : ℕ → TokenText
  before_source : TokenText
  message : List ℕ → TokenText

-- The struct `Token`; its `type` field is `kind`.
pub record Token : Type 0 where
  pub kind : TokenType
  pub start : TokenText
  pub length : ℕ
  pub line : ℕ

-- The struct `Lexer`: its pointers are offsets into the bytes of the source.
pub record Lexer : Type 0 where
  pub source : List ℕ
  pub start : ℕ
  pub current : ℕ
  pub line : ℕ

unfoldable pub token_type_to_string : TokenType → String
token_type_to_string let_kw = "LET"
token_type_to_string if_kw = "IF"
token_type_to_string else_kw = "ELSE"
token_type_to_string print = "PRINT"
token_type_to_string while = "WHILE"
token_type_to_string for = "FOR"
token_type_to_string function = "FUNCTION"
token_type_to_string return = "RETURN"
token_type_to_string true_kw = "TRUE"
token_type_to_string false_kw = "FALSE"
token_type_to_string import = "IMPORT"
token_type_to_string from = "FROM"
token_type_to_string as_kw = "AS"
token_type_to_string export = "EXPORT"
token_type_to_string module_kw = "MODULE"
token_type_to_string int = "INT"
token_type_to_string float = "FLOAT"
token_type_to_string bool = "BOOL"
token_type_to_string string_type = "STRING_TYPE"
token_type_to_string void = "VOID"
token_type_to_string identifier = "IDENTIFIER"
token_type_to_string number = "NUMBER"
token_type_to_string string = "STRING"
token_type_to_string plus = "PLUS"
token_type_to_string minus = "MINUS"
token_type_to_string multiply = "MULTIPLY"
token_type_to_string divide = "DIVIDE"
token_type_to_string assign = "ASSIGN"
token_type_to_string gt = "GT"
token_type_to_string lt = "LT"
token_type_to_string gte = "GTE"
token_type_to_string lte = "LTE"
token_type_to_string eq = "EQ"
token_type_to_string ne = "NE"
token_type_to_string and = "AND"
token_type_to_string or = "OR"
token_type_to_string not = "NOT"
token_type_to_string lbrace = "LBRACE"
token_type_to_string rbrace = "RBRACE"
token_type_to_string lparen = "LPAREN"
token_type_to_string rparen = "RPAREN"
token_type_to_string semicolon = "SEMICOLON"
token_type_to_string comma = "COMMA"
token_type_to_string colon = "COLON"
token_type_to_string dot = "DOT"
token_type_to_string at = "AT"
token_type_to_string newline = "NEWLINE"
token_type_to_string eof = "EOF"
token_type_to_string error = "ERROR"
token_type_to_string annot_pure = "@pure"
token_type_to_string annot_parallel = "@parallel"
token_type_to_string annot_async = "@async"
token_type_to_string annot_memoize = "@memoize"
token_type_to_string annot_lazy = "@lazy"
token_type_to_string annot_hot = "@hot"
token_type_to_string annot_inline = "@inline"
token_type_to_string annot_noopt = "@noopt"
-- The seven reactive keywords have no case in the source and reach its `default`.
token_type_to_string _ = "UNKNOWN"
