-- ===== src/Parser/Moves/Spends.antt =====
-- src/core/parser/parser.c: how many tokens a call passes, which bounds every loop and recursion.
use asteron.Prelude.{
  ℕ, ◌+◌, ◌-◌, ◌≤◌, ◌<◌, ◌≡◌, Bool, true, false, List, [], ◌∷◌, arith, All, Bool-cases, inl, inr,
}
use asteron.Lexer.Token.{TokenType}
use asteron.Parser.Source.{TokenSource, same_type, weight, weight-same_type}
use asteron.Outcome.{done, ◌>>=◌, Ends, ends, Ends-bind, Ends-map}
use asteron.Parser.Moves.{Parser, Parsing, advance, check, check_any, match, consume, rest}

abbrev pub nothing : {A : Type 0} → A → ℕ
nothing a = 0

module _ (s : TokenSource) where
  open s use {State, IsGood, next-left, next-IsGood}

  pub advance-rest :
      (p : Parser State)
      → IsGood p.lexer
      → IsGood (advance s p).lexer × (rest s (advance s p) + weight p.current.kind ≤ rest s p)
  unfolding advance rest
  advance-rest p g = (next-IsGood p.lexer g, omega (arith, next-left p.lexer g))

  abbrev pub Spent : {A : Type 0} → (A → ℕ) → Parser State → A → Parser State → Type 0
  Spent w p a q = IsGood q.lexer × (rest s q + w a ≤ rest s p)

  -- From a state with `n` tokens left at most, the call ends, and passes `w a` of them at least.
  abbrev pub Spends : {A : Type 0} → ℕ → Parsing s A → (A → ℕ) → Type 0
  Spends n m w = (p : Parser State) → IsGood p.lexer → rest s p ≤ n → Ends (Spent w p) (m p)

  abbrev pub Ending : {A : Type 0} → ℕ → Parsing s A → Type 0
  Ending n m = Spends n m nothing

  module _ {A : Type 0} where
    pub Spends-done : (n : ℕ) (a : A) (w : A → ℕ) → w a ≡ 0 → Spends n (done a) w
    Spends-done n a w z p g h = ends a p (g, omega (arith, z))

    pub Spends-weaken :
        (n : ℕ) (m : Parsing s A) (v w : A → ℕ)
        → ((a : A) → w a ≤ v a)
        → Spends n m v
        → Spends n m w
    Spends-weaken n m v w k f p g h = Ends-map (λ a q (gq, le). (gq, omega (arith, k a))) (f p g h)

    pub Spends-bind :
        {B : Type 0} (n : ℕ) (m : Parsing s A) (f : A → Parsing s B) (v : A → ℕ) (w : B → ℕ)
        → Spends n m v
        → ((a : A) → Spends n (f a) (λ b. w b - v a))
        → Spends n (m >>= f) w
    Spends-bind n m f v w hm hf p g h =
        Ends-bind m f p (hm p g h)
          (λ a q (gq, le). Ends-map (λ b r (gr, more). (gr, omega arith)) (hf a q gq (omega arith)))

    -- A call behind a token that is passed.
    pub Spends-pass :
        (n : ℕ) (w : A → ℕ) (body : Parsing s A) (p : Parser State)
        → ((a : A) → w a ≤ 1)
        → (0 < n → Spends (n - 1) body (λ a. 0))
        → IsGood p.lexer
        → rest s p ≤ n
        → weight p.current.kind ≡ 1
        → Ends (Spent w p) (body (advance s p))
    Spends-pass n w body p one e g h heavy =
        let (ga, spent) = advance-rest p g in
        Ends-map (λ a q (gq, le). (gq, omega (arith, one a)))
          (e (omega arith) (advance s p) ga (omega arith))

    pub Spends-mono : (k n : ℕ) (m : Parsing s A) (w : A → ℕ) → k ≤ n → Spends n m w → Spends k m w
    Spends-mono k n m w le f p g h = f p g (omega arith)

  pub Spends-then :
      {A B : Type 0} (n : ℕ) (m : Parsing s A) (f : A → Parsing s B) (w : B → ℕ)
      → Spends n m (λ a. 0)
      → ((a : A) → Spends n (f a) w)
      → Spends n (m >>= f) w
  Spends-then n m f w hm hf =
      Spends-bind n m f (λ a. 0) w hm
        (λ a. Spends-weaken n (f a) w (λ b. w b - 0) (λ b. omega arith) (hf a))

  pub check-weight :
      (t : TokenType)
      → 0 < weight t
      → (p : Parser State) → check s t p ≡ true
      → weight p.current.kind ≡ 1
  unfolding check
  check-weight t pos p h = weight-same_type p.current.kind t h pos

  pub consume-Spends : (n : ℕ) (t : TokenType) → Spends n (consume s t) (λ u. 0)
  unfolding consume check rest
  consume-Spends n t p g h = elim (Bool-cases (same_type p.current.kind t)) [
    | inl found ↦
        let (ga, spent) = advance-rest p g in rw found (ends tt (advance s p) (ga, omega arith))
    | inr missing ↦ rw missing (ends tt (record p { had_error = true }) (g, omega arith))
  ]

  pub match-Spends : (n : ℕ) (t : TokenType) → Spends n (match s t) (λ (b : Bool). 0)
  unfolding match check
  match-Spends n t p g h = elim (Bool-cases (same_type p.current.kind t)) [
    | inl found ↦
        let (ga, spent) = advance-rest p g in rw found (ends true (advance s p) (ga, omega arith))
    | inr missing ↦ rw missing (ends false p (g, omega arith))
  ]

  pub check_any-weight :
      (ts : List TokenType) (p : Parser State)
      → All (λ (t : TokenType). 0 < weight t) ts
      → check_any s ts p ≡ true
      → weight p.current.kind ≡ 1
  unfolding check_any check
  check_any-weight [] p a h = cc
  check_any-weight (t ∷ ts) p (pos, a) h = elim (Bool-cases (same_type p.current.kind t)) [
    | inl found ↦ weight-same_type p.current.kind t found pos
    | inr missing ↦ check_any-weight ts p a (rw missing at h)
  ]
