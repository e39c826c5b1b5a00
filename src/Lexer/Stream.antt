-- ===== src/Lexer/Stream.antt =====
-- src/main.c, the loop that lists the tokens of a file (`lexer_next_token` until the end token).
use asteron.Prelude.{
  ℕ, zero, suc, ◌+◌, ◌-◌, ◌≤◌, ◌<◌, ◌≡◌, sym, ap, subst, Bool-cases, inl, inr, Option, none, some,
  List, [], ◌∷◌, Bool, true, false, arith, length,
}
use mathlib.Core.Option
use asteron.Lexer.Token.{Lexer, Token, in_source, TokenType, eof, error}
use asteron.Lexer.Scanner.{back, lexer_next_token, lexer_create}
use asteron.Lexer.Scanner.Advance.{NextToken, lexer_next_token-NextToken, lexer_next_token-end}

-- `token.type == TOKEN_EOF || token.type == TOKEN_ERROR`
unfoldable pub is_last : TokenType → Bool
is_last eof = true
is_last error = true
is_last _ = false

-- The `do … while` loop: the tokens in order; `none` means that the fuel ran out.
unfoldable pub list_tokens : ℕ → Lexer → Option (List Token)
list_tokens zero l = none
list_tokens (suc fuel) l =
    let r = lexer_next_token l in
    elim (is_last r.1.kind) [
      | true ↦ some (r.1 ∷ [])
      | false ↦ Option.map (◌∷◌ r.1) (list_tokens fuel r.0)
    ]

-- Only the last token is the end token or an error, and the tokens before it, which spell a text, follow
-- one another without an overlap, from the offset `from` to the offset `to` at most. The end token has one
-- byte, the one before a position behind these tokens.
abbrev pub Listing : ℕ → ℕ → List Token → Type 0
Listing from to [] = ⊥
Listing from to (t ∷ []) =
    (is_last t.kind ≡ true)
    × (t.kind ≡ eof → (i : ℕ) × (from ≤ i) × (i ≤ to) × (t.start ≡ back i 1) × (t.length ≡ 1))
Listing from to (t ∷ u ∷ ts) =
    (i : ℕ) × (is_last t.kind ≡ false)
    × (t.start ≡ in_source i)
    × (from ≤ i)
    × (0 < t.length)
    × (i + t.length ≤ to)
    × Listing (i + t.length) to (u ∷ ts)

spelled :
    (l m : Lexer) (t : Token)
    → NextToken l m t
    → is_last t.kind ≡ false
    → (t.start ≡ in_source m.start) × (m.start + t.length ≡ m.current) × (m.start < m.current)
unfolding is_last
spelled l m t p e = ground (arith, p.token)

Listing-cons :
    (l m : Lexer) (t u : Token) (ts : List Token)
    → NextToken l m t
    → is_last t.kind ≡ false
    → Listing m.current (length m.source) (u ∷ ts)
    → Listing l.current (length l.source) (t ∷ u ∷ ts)
Listing-cons l m t u ts p e rest =
    let (at_start, ends, moved) = spelled l m t p e in
    (
      m.start,
      e,
      at_start,
      p.starts,
      omega arith,
      omega (arith, p.within, ap length p.same_source),
      subst (λ k. Listing k (length l.source) (u ∷ ts)) (sym ends)
          (subst (λ k. Listing m.current k (u ∷ ts)) (ap length p.same_source) rest),
    )

Listing-last :
    (l m : Lexer) (t : Token)
    → NextToken l m t
    → is_last t.kind ≡ true
    → (t.kind ≡ eof → (t.start ≡ back m.current 1) × (t.length ≡ 1))
    → Listing l.current (length l.source) (t ∷ [])
Listing-last l m t p e ends = (
  e,
  λ h. (
    m.current,
    omega (arith, p.starts, p.covered),
    omega (arith, p.within, ap length p.same_source),
    (ends h).0,
    (ends h).1,
  ),
)

abbrev Listed : (fuel : ℕ) → Lexer → Type 0
Listed fuel l =
    (t : Token) × (ts : List Token) × (list_tokens fuel l ≡ some (t ∷ ts))
    × Listing l.current (length l.source) (t ∷ ts)

list_tokens-Listing :
    (fuel : ℕ) (l : Lexer)
    → l.current ≤ length l.source
    → length l.source - l.current < fuel
    → Listed fuel l
unfolding list_tokens
list_tokens-Listing zero l w h = absurd (omega arith)
list_tokens-Listing (suc fuel) l w h =
    let (m, t) = lexer_next_token l in
    let p = lexer_next_token-NextToken l w in
    elim (Bool-cases (is_last t.kind)) [
      | inl e ↦ (t, [], rw (e, list_tokens), Listing-last l m t p e (lexer_next_token-end l w))
      | inr e ↦
          let moved = spelled l m t p e in
          let (u, us, q, rest) =
            list_tokens-Listing fuel m p.within
              (omega (arith, moved, p.starts, ap length p.same_source)) in
          (t, u ∷ us, rw (e, q, list_tokens), Listing-cons l m t u us p e rest)
    ]

-- The loop over the tokens of any source ends after at most as many calls as the source has bytes,
-- and one: the fuel is enough. Exactly the last token is the end token or an error. The tokens before it
-- are in order and do not overlap, and each lies in the source and is not empty. If the last one is the
-- end token, it has one byte, the one before a position from the end of those tokens to the end of the
-- source: it may overlap the token before it, and lies before the source if that position is its start.
pub list_tokens-total :
    (source : List ℕ)
    → (t : Token) × (ts : List Token) × (list_tokens (length source + 1) (lexer_create source)
        ≡ some (t ∷ ts))
      × Listing 0 (length source) (t ∷ ts)
unfolding lexer_create
list_tokens-total source =
    list_tokens-Listing (length source + 1) (lexer_create source) (omega arith) (omega arith)
