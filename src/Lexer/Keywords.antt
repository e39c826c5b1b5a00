-- ===== src/Lexer/Keywords.antt =====
-- src/core/lexer/lexer.c: the character classes and `identifier_type`, over the bytes of a word.
pub mod Table
use asteron.Prelude.{ℕ, Bool, List, [], ◌∷◌, ◌&&◌, ◌||◌, leb, ◌==◌, if◌then◌else◌, codes, bytes_eq}
use asteron.Lexer.Token.{
  TokenType, let_kw, if_kw, else_kw, print, while, for, function, return, true_kw, false_kw, import,
  from, as_kw, export, module_kw, reactive, when, context, derive, on, emit, watch, int, float,
  bool, string_type, void, identifier,
}

-- A `char` above 127 is negative in the source and fails the same comparisons.
unfoldable pub is_alpha : ℕ → Bool
is_alpha c = (leb b'a' c && leb c b'z') || (leb b'A' c && leb c b'Z') || c == b'_'

unfoldable pub is_digit : ℕ → Bool
is_digit c = leb b'0' c && leb c b'9'

unfoldable pub is_alphanumeric : ℕ → Bool
unfolding is_alpha is_digit
is_alphanumeric c = is_alpha c || is_digit c

-- The `switch` on the first byte `c`; `w` holds the bytes behind it, and a test of the length with
-- a `memcmp` of the rest is a comparison of `w`.
word_type : ℕ → List ℕ → TokenType
word_type c w =
    if c == b'l'
    then (if bytes_eq w (codes "et") then let_kw else identifier)
    else if c == b'i'
    then (if bytes_eq w (codes "f")
        then if_kw
        else if bytes_eq w (codes "nt")
        then int
        else if bytes_eq w (codes "mport")
        then import
        else identifier)
    else if c == b'e'
    then (if bytes_eq w (codes "lse")
        then else_kw
        else if bytes_eq w (codes "xport")
        then export
        else if bytes_eq w (codes "mit")
        then emit
        else identifier)
    else if c == b'c'
    then (if bytes_eq w (codes "ontext") then context else identifier)
    else if c == b'd'
    then (if bytes_eq w (codes "erive") then derive else identifier)
    else if c == b'o'
    then (if bytes_eq w (codes "n") then on else identifier)
    else if c == b'm'
    then (if bytes_eq w (codes "odule") then module_kw else identifier)
    else if c == b'p'
    then (if bytes_eq w (codes "rint") then print else identifier)
    else if c == b'w'
    then (if bytes_eq w (codes "hile")
        then while
        else if bytes_eq w (codes "hen")
        then when
        else if bytes_eq w (codes "atch")
        then watch
        else identifier)
    else if c == b'f'
    then (if bytes_eq w (codes "n")
        then function
        else if bytes_eq w (codes "or")
        then for
        else if bytes_eq w (codes "unction")
        then function
        else if bytes_eq w (codes "alse")
        then false_kw
        else if bytes_eq w (codes "loat")
        then float
        else if bytes_eq w (codes "rom")
        then from
        else identifier)
    else if c == b'a'
    then (if bytes_eq w (codes "s") then as_kw else identifier)
    else if c == b'r'
    then (if bytes_eq w (codes "eturn")
        then return
        else if bytes_eq w (codes "eactive")
        then reactive
        else identifier)
    else if c == b't'
    then (if bytes_eq w (codes "rue") then true_kw else identifier)
    else if c == b'b'
    then (if bytes_eq w (codes "ool") then bool else identifier)
    else if c == b's'
    then (if bytes_eq w (codes "tring") then string_type else identifier)
    else if c == b'v'
    then (if bytes_eq w (codes "oid") then void else identifier)
    else identifier

-- The word is never empty where the source calls this; the terminator would reach `default`.
unfoldable pub identifier_type : List ℕ → TokenType
unfolding word_type
identifier_type [] = identifier
identifier_type (c ∷ w) = word_type c w
