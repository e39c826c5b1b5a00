-- ===== src/Interpreter/Scopes.antt =====
-- src/core/interpreter/interpreter.c: what `environment_get` reads after `environment_set`.
use asteron.Prelude.{
  ℕ, ◌<◌, ◌≤◌, ◌≡◌, ◌≢◌, refl, ap, ◌∙◌, sym, Bool, true, false, Option, none, some, [], ◌∷◌, ◌++◌,
  length, arith, ◌⊎◌, inl, inr, Bool-cases, bytes_eq, bytes_eq→eq, bytes_eq_refl, if◌then◌else◌,
  ltb, lt→ltb, ltb→lt,
}
use asteron.Interpreter.Values.{Numbers, Value}
use asteron.Interpreter.Environment.{
  Text, Scope, Environment, env_table_max, find_entry, replace_entry, environment_has, has_entry,
  found_or, set_new, environment_set, environment_get,
}

bytes_eq-ne : (x y : Text) → x ≢ y → bytes_eq x y ≡ false
bytes_eq-ne x y h = elim (Bool-cases (bytes_eq x y)) [
  | inl e ↦ absurd (h (bytes_eq→eq x y e))
  | inr e ↦ e
]

not_below : (k m : ℕ) → m ≤ k → ltb k m ≡ false
not_below k m h = elim (Bool-cases (ltb k m)) [
  | inl e ↦ absurd (omega (arith, ltb→lt k m e, h))
  | inr e ↦ e
]

some-none {ℓ} : {A : Type ℓ} {a : A} → ¬ (some a ≡ none)
some-none e = cc

true-false : ¬ (true ≡ false)
true-false e = cc

module _ {n : Numbers} where
  -- The new table has the value, and every other name as before.
  abbrev Replaced : Scope n → Text → Value n → Option (Scope n) → Type 0
  Replaced s x v none = find_entry s x ≡ none
  Replaced s x v (some t) =
      (find_entry t x ≡ some v) × ((y : Text) → x ≢ y → find_entry t y ≡ find_entry s y)

  Replaced-cons :
      (key : Text) (old : Value n) (s : Scope n) (x : Text) (v : Value n) (o : Option (Scope n))
      → bytes_eq key x ≡ false
      → Replaced s x v o
      → Replaced
          ((key, old) ∷ s)
          x
          v
          (elim o as (λ z. Option (Scope n)) [ none ↦ none | some t ↦ some ((key, old) ∷ t) ])
  unfolding find_entry
  Replaced-cons key old s x v none b h = rw b h
  Replaced-cons key old s x v (some t) b (h, k) =
      (rw b h, λ y ne. ap (λ o. if bytes_eq key y then some old else o) (k y ne))

  replace_entry-Replaced :
      (s : Scope n) (x : Text) (v : Value n) → Replaced s x v (replace_entry s x v)
  unfolding replace_entry find_entry
  replace_entry-Replaced [] x v = refl
  replace_entry-Replaced ((key, old) ∷ s) x v = elim (Bool-cases (bytes_eq key x)) [
    | inl b ↦
        rw (replace_entry, b)
          (rw b refl, λ y ne. rw (bytes_eq-ne key y (λ e. ne (sym (bytes_eq→eq key x b) ∙ e))) refl)
    | inr b ↦
        rw (replace_entry, b)
          (Replaced-cons key old s x v (replace_entry s x v) b (replace_entry-Replaced s x v))
  ]

  find_entry-snoc :
      (s : Scope n) (x : Text) (v : Value n)
      → find_entry s x ≡ none
      → find_entry (s ++ (x, v) ∷ []) x ≡ some v
  unfolding find_entry
  find_entry-snoc [] x v h = rw (bytes_eq_refl x) refl
  find_entry-snoc ((key, old) ∷ s) x v h = elim (Bool-cases (bytes_eq key x)) [
    | inl b ↦ absurd (some-none (ap (λ c. if c then some old else find_entry s x) (sym b) ∙ h))
    | inr b ↦
        rw b (find_entry-snoc s x v (ap (λ c. if c then some old else find_entry s x) (sym b) ∙ h))
  ]

  find_entry-snoc_ne :
      (s : Scope n) (x y : Text) (v : Value n)
      → x ≢ y
      → find_entry (s ++ (x, v) ∷ []) y ≡ find_entry s y
  unfolding find_entry
  find_entry-snoc_ne [] x y v ne = rw (bytes_eq-ne x y ne) refl
  find_entry-snoc_ne ((key, old) ∷ s) x y v ne =
      ap (λ o. if bytes_eq key y then some old else o) (find_entry-snoc_ne s x y v ne)

  -- The name has the value, and every other name has what it had.
  abbrev pub Stored : Environment n → Text → Value n → Environment n → Type 0
  Stored env x v env' =
      (environment_get env' x ≡ v)
      × ((y : Text) → x ≢ y → environment_get env' y ≡ environment_get env y)

  abbrev set_cases : Scope n → Environment n → Text → Value n → Option (Scope n) → Environment n
  set_cases s ps x v (some t) = t ∷ ps
  set_cases s ps x v none = set_new s ps x v (environment_set ps x v)

  Replaced-Stored :
      (s t : Scope n) (ps : Environment n) (x : Text) (v : Value n)
      → Replaced s x v (some t)
      → Stored (s ∷ ps) x v (t ∷ ps)
  unfolding environment_get
  Replaced-Stored s t ps x v (h, k) = (
    ap (λ o. found_or o (environment_get ps x)) h,
    λ y ne. ap (λ o. found_or o (environment_get ps y)) (k y ne),
  )

  above-Stored :
      (s : Scope n) (ps qs : Environment n) (x : Text) (v : Value n)
      → find_entry s x ≡ none
      → Stored ps x v qs
      → Stored (s ∷ ps) x v (s ∷ qs)
  unfolding environment_get
  above-Stored s ps qs x v h (a, b) = (
    ap (λ o. found_or o (environment_get qs x)) h ∙ a,
    λ y ne. ap (found_or (find_entry s y)) (b y ne),
  )

  snoc-Stored :
      (s : Scope n) (ps : Environment n) (x : Text) (v : Value n)
      → find_entry s x ≡ none
      → Stored (s ∷ ps) x v ((s ++ (x, v) ∷ []) ∷ ps)
  unfolding environment_get
  snoc-Stored s ps x v h = (
    ap (λ o. found_or o (environment_get ps x)) (find_entry-snoc s x v h),
    λ y ne. ap (λ o. found_or o (environment_get ps y)) (find_entry-snoc_ne s x y v ne),
  )

  -- A name of some scope, or one that the innermost scope has room for.
  abbrev pub HasPlace : Environment n → Text → Type 0
  HasPlace [] x = ⊥
  HasPlace (s ∷ ps) x = (environment_has (s ∷ ps) x ≡ true) ⊎ (length s < env_table_max)

  new-Stored :
      (s : Scope n) (ps : Environment n) (x : Text) (v : Value n) (above : Bool)
      → environment_has ps x ≡ above
      → find_entry s x ≡ none
      → HasPlace (s ∷ ps) x
      → (above ≡ true → Stored ps x v (environment_set ps x v))
      → Stored (s ∷ ps) x v (set_new s ps x v (environment_set ps x v))
  unfolding environment_has
  new-Stored s ps x v true e h place k =
      rw e (above-Stored s ps (environment_set ps x v) x v h (k refl))
  new-Stored s ps x v false e h (inl has) k =
      absurd (true-false (sym has ∙ ap (λ o. has_entry o (environment_has ps x)) h ∙ e))
  new-Stored s ps x v false e h (inr room) k =
      rw (e, lt→ltb (length s) env_table_max room) (snoc-Stored s ps x v h)

  has-HasPlace : (env : Environment n) (x : Text) → environment_has env x ≡ true → HasPlace env x
  unfolding environment_has
  has-HasPlace [] x h = absurd (true-false (sym h))
  has-HasPlace (s ∷ ps) x h = inl h

  cases-Stored :
      (s : Scope n) (ps : Environment n) (x : Text) (v : Value n) (o : Option (Scope n))
      → Replaced s x v o
      → HasPlace (s ∷ ps) x
      → (environment_has ps x ≡ true → Stored ps x v (environment_set ps x v))
      → Stored (s ∷ ps) x v (set_cases s ps x v o)
  cases-Stored s ps x v (some t) r place k = Replaced-Stored s t ps x v r
  cases-Stored s ps x v none r place k = new-Stored s ps x v (environment_has ps x) refl r place k

  -- A name that is set is read back, in whatever scope it stands, and every other name is read as before.
  pub environment_get-environment_set :
      (env : Environment n) (x : Text) (v : Value n)
      → HasPlace env x
      → Stored env x v (environment_set env x v)
  unfolding environment_set
  environment_get-environment_set [] x v place = absurd place
  environment_get-environment_set (s ∷ ps) x v place =
      cases-Stored s ps x v (replace_entry s x v) (replace_entry-Replaced s x v) place
        λ has. environment_get-environment_set ps x v (has-HasPlace ps x has)

  replace_entry-none :
      (s : Scope n) (x : Text) (v : Value n) → find_entry s x ≡ none → replace_entry s x v ≡ none
  unfolding replace_entry find_entry
  replace_entry-none [] x v h = refl
  replace_entry-none ((key, old) ∷ s) x v h = elim (Bool-cases (bytes_eq key x)) [
    | inl b ↦ absurd (some-none (ap (λ c. if c then some old else find_entry s x) (sym b) ∙ h))
    | inr b ↦
        rw
          (
            b,
            replace_entry-none s x v (ap (λ c. if c then some old else find_entry s x) (sym b) ∙ h),
          )
          refl
  ]

  has_entry-false :
      (o : Option (Value n)) (b : Bool) → has_entry o b ≡ false → (o ≡ none) × (b ≡ false)
  has_entry-false (some v) b h = absurd (true-false h)
  has_entry-false none b h = (refl, h)

  -- A name that no scope has is dropped if the innermost scope is full.
  pub environment_set-full :
      (s : Scope n) (ps : Environment n) (x : Text) (v : Value n)
      → environment_has (s ∷ ps) x ≡ false
      → env_table_max ≤ length s
      → environment_set (s ∷ ps) x v ≡ s ∷ ps
  unfolding environment_set environment_has
  environment_set-full s ps x v h full =
      let (absent, above) = has_entry-false (find_entry s x) (environment_has ps x) h in
      rw
        (
          environment_set,
          replace_entry-none s x v absent,
          above,
          not_below (length s) env_table_max full,
        )
        refl
