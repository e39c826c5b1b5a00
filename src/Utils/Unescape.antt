-- ===== src/Utils/Unescape.antt =====
-- src/utils/utils.c: `string_unescape`, which turns the text of a string literal into its bytes.
use asteron.Prelude.{
  ℕ, ◌+◌, ◌-◌, ◌*◌, ◌%◌, Bool, Option, none, some, List, [], ◌∷◌, ◌&&◌, ◌||◌, leb, ◌==◌,
  if◌then◌else◌,
}

-- `isspace`, which `strtol` skips.
unfoldable pub is_space : ℕ → Bool
is_space c = c == 32 || (leb 9 c && leb c 13)

unfoldable pub hex_digit : ℕ → Option ℕ
hex_digit c =
    if leb b'0' c && leb c b'9'
    then some (c - b'0')
    else if leb b'a' c && leb c b'f'
    then some (c - b'a' + 10)
    else if leb b'A' c && leb c b'F'
    then some (c - b'A' + 10)
    else none

abbrev or_zero : Option ℕ → ℕ
or_zero none = 0
or_zero (some d) = d

-- The digits `a` and `b` in this order.
abbrev two_digits : Option ℕ → Option ℕ → ℕ
two_digits none b = 0
two_digits (some a) none = a
two_digits (some a) (some b) = 16 * a + b

-- `(char)strtol(hex, NULL, 16)` on a text of two bytes, as a byte.
unfoldable pub hex_byte : ℕ → ℕ → ℕ
unfolding is_space hex_digit
hex_byte a b =
    if is_space a || a == b'+'
    then or_zero (hex_digit b)
    else if a == b'-'
    then (256 - or_zero (hex_digit b)) % 256
    else two_digits (hex_digit a) (hex_digit b)

-- The byte that the escape of one letter stands for.
unfoldable pub simple_escape : ℕ → Option ℕ
simple_escape c =
    if c == b'n'
    then some 10
    else if c == b'r'
    then some 13
    else if c == b't'
    then some 9
    else if c == 92
    then some 92
    else if c == 34
    then some 34
    else if c == 39
    then some 39
    else if c == b'0'
    then some 0
    else none

-- The loop, on the bytes from index `i` on. An `x` wants two more bytes; an unknown escape keeps the
-- backslash, and the letter is read in the next round.
unfoldable pub unescape : List ℕ → List ℕ
unescape [] = []
unescape (c ∷ []) = c ∷ []
unescape (c ∷ n ∷ []) =
    let rest = unescape (n ∷ []) in
    if c == 92 then elim (simple_escape n) [ some b ↦ b ∷ [] | none ↦ c ∷ rest ] else c ∷ rest
unescape (c ∷ n ∷ a ∷ []) =
    let rest = unescape (n ∷ a ∷ []) in
    let after = unescape (a ∷ []) in
    if c == 92 then elim (simple_escape n) [ some b ↦ b ∷ after | none ↦ c ∷ rest ] else c ∷ rest
unescape (c ∷ n ∷ a ∷ b ∷ cs) =
    let rest = unescape (n ∷ a ∷ b ∷ cs) in
    let after = unescape (a ∷ b ∷ cs) in
    let beyond = unescape cs in
    if c == 92
    then (if n == b'x'
        then hex_byte a b ∷ beyond
        else elim (simple_escape n) [ some e ↦ e ∷ after | none ↦ c ∷ rest ])
    else c ∷ rest

-- The text without its last byte, if that byte is a quote.
unfoldable pub without_quote : List ℕ → Option (List ℕ)
without_quote [] = none
without_quote (c ∷ []) = if c == 34 then some [] else none
without_quote (c ∷ d ∷ cs) = elim (without_quote (d ∷ cs)) [ none ↦ none | some r ↦ some (c ∷ r) ]

abbrev or_whole : List ℕ → Option (List ℕ) → List ℕ
or_whole cs none = cs
or_whole cs (some r) = r

-- The quotes around the text are removed if both are there.
unfoldable pub strip_quotes : List ℕ → List ℕ
unfolding without_quote
strip_quotes [] = []
strip_quotes (c ∷ cs) = if c == 34 then or_whole (c ∷ cs) (without_quote cs) else c ∷ cs

unfoldable pub string_unescape : List ℕ → List ℕ
string_unescape source = unescape (strip_quotes source)
