-- ===== src/Lexer/Keywords/Table.antt =====
-- The keywords as a table, and `identifier_type` as a search in it.
use asteron.Prelude.{
  ℕ, ◌≡◌, ◌≢◌, refl, sym, ap, ◌∙◌, arith, Bool, true, not, ◌&&◌, String, List, [], ◌∷◌, false, inl,
  inr, eq_cases, if◌then◌else◌, codes, bytes_eq, ◌==◌,
}
use asteron.Lexer.Token.{
  TokenType, let_kw, if_kw, else_kw, print, while, for, function, return, true_kw, false_kw, import,
  from, as_kw, export, module_kw, reactive, when, context, derive, on, emit, watch, int, float,
  bool, string_type, void, identifier, eof,
}
use asteron.Lexer.Keywords.{identifier_type, word_type}

abbrev pub keyword_table : List (String × TokenType)
keyword_table =
    ("let", let_kw)
    ∷ ("if", if_kw)
    ∷ ("int", int)
    ∷ ("import", import)
    ∷ ("else", else_kw)
    ∷ ("export", export)
    ∷ ("emit", emit)
    ∷ ("context", context)
    ∷ ("derive", derive)
    ∷ ("on", on)
    ∷ ("module", module_kw)
    ∷ ("print", print)
    ∷ ("while", while)
    ∷ ("when", when)
    ∷ ("watch", watch)
    ∷ ("fn", function)
    ∷ ("for", for)
    ∷ ("function", function)
    ∷ ("false", false_kw)
    ∷ ("float", float)
    ∷ ("from", from)
    ∷ ("as", as_kw)
    ∷ ("return", return)
    ∷ ("reactive", reactive)
    ∷ ("true", true_kw)
    ∷ ("bool", bool)
    ∷ ("string", string_type)
    ∷ ("void", void)
    ∷ []

-- The first entry that spells the word, or `identifier`.
abbrev pub find_keyword : List ℕ → List (String × TokenType) → TokenType
find_keyword w [] = identifier
find_keyword w ((k, t) ∷ table) = if bytes_eq w (codes k) then t else find_keyword w table

-- A split on one label of the `switch`.
on_label {ℓ} : {P : Type ℓ} (c k : ℕ) → (c ≡ k → P) → ((c == k) ≡ false → P) → P
on_label c k hit miss = elim (eq_cases c k) [ inl e ↦ hit e | inr n ↦ miss n ]

word_type-eq : (c : ℕ) (w : List ℕ) → word_type c w ≡ find_keyword (c ∷ w) keyword_table
unfolding word_type
word_type-eq c w =
    on_label c b'l' (λ e. rw e refl)
      λ nl. rw nl (
        on_label c b'i' (λ e. rw e refl)
          λ ni. rw ni (
            on_label c b'e' (λ e. rw e refl)
              λ ne. rw ne (
                on_label c b'c' (λ e. rw e refl)
                  λ nc. rw nc (
                    on_label c b'd' (λ e. rw e refl)
                      λ nd. rw nd (
                        on_label c b'o' (λ e. rw e refl)
                          λ no. rw no (
                            on_label c b'm' (λ e. rw e refl)
                              λ nm. rw nm (
                                on_label c b'p' (λ e. rw e refl)
                                  λ np. rw np (
                                    on_label c b'w' (λ e. rw e refl)
                                      λ nw. rw nw (
                                        on_label c b'f' (λ e. rw e refl)
                                          λ nf. rw nf (
                                            on_label c b'a' (λ e. rw e refl)
                                              λ na. rw na (
                                                on_label c b'r' (λ e. rw e refl)
                                                  λ nr. rw nr (
                                                    on_label c b't' (λ e. rw e refl)
                                                      λ nt. rw nt (
                                                        on_label c b'b' (λ e. rw e refl)
                                                          λ nb. rw nb (
                                                            on_label c b's' (λ e. rw e refl)
                                                            λ ns. rw ns (
                                                            on_label c b'v' (λ e. rw e refl)
                                                            λ nv. rw nv (refl))))))))))))))))

-- The `switch` on the first byte and the comparisons behind it find exactly the words of the table,
-- each with its token type, and take every other word for an identifier.
pub identifier_type-keyword_table : (w : List ℕ) → identifier_type w ≡ find_keyword w keyword_table
unfolding identifier_type
identifier_type-keyword_table [] = refl
identifier_type-keyword_table (c ∷ w) = word_type-eq c w

abbrev is_eof : TokenType → Bool
is_eof eof = true
is_eof _ = false

abbrev all_not_eof : List (String × TokenType) → Bool
all_not_eof [] = true
all_not_eof ((k, t) ∷ table) = not (is_eof t) && all_not_eof table

find_keyword_not :
    (w : List ℕ) (table : List (String × TokenType))
    → all_not_eof table ≡ true
    → is_eof (find_keyword w table) ≡ false
find_keyword_not w [] h = refl
find_keyword_not w ((k, t) ∷ table) h = ground (arith, find_keyword_not w table)

-- No word is taken for the end of the file.
pub identifier_type-ne-eof : (w : List ℕ) → identifier_type w ≢ eof
identifier_type-ne-eof w e =
    cc
      (ap is_eof (sym (identifier_type-keyword_table w) ∙ e), find_keyword_not w keyword_table refl)
