-- ===== src/Outcome.antt =====
-- The result of functions that read and write one state, and may end in an access that the language
-- leaves undefined or run out of fuel: the parser's and the interpreter's.
use asteron.Prelude.{◌≡◌, refl, Bool, true, false, if◌then◌else◌}

-- What the language leaves undefined: a write through a null pointer, and one behind a buffer.
pub data Fault : Type 0 where
  null_dereference buffer_overflow : Fault

pub data Outcome (P A : Type 0) : Type 0 where
  done : A → P → Outcome P A
  fault : Fault → Outcome P A
  out_of_fuel : Outcome P A

abbrev pub Run : Type 0 → Type 0 → Type 0
Run P A = P → Outcome P A

infixl 5 ◌>>=◌ ◌>>◌
abbrev pub ◌>>=◌ : {P A B : Type 0} → Run P A → (A → Run P B) → Run P B
◌>>=◌ m f p = elim (m p) [ done a q ↦ f a q | fault e ↦ fault e | out_of_fuel ↦ out_of_fuel ]

abbrev pub ◌>>◌ : {P A B : Type 0} → Run P A → Run P B → Run P B
◌>>◌ m k = m >>= λ _. k

abbrev pub return : {P A : Type 0} → A → Run P A
return a p = done a p

-- The call has an end, and what it returns meets the condition.
pub data Ends {P A : Type 0} (Q : A → P → Type 0) : Outcome P A → Type 0 where
  ends : (a : A) (p : P) → Q a p → Ends Q (done a p)
  faults : (e : Fault) → Ends Q (fault e)

pub Ends-map :
    {P A : Type 0} {Q R : A → P → Type 0} {o : Outcome P A}
    → ((a : A) (p : P) → Q a p → R a p)
    → Ends Q o
    → Ends R o
Ends-map k (ends a p h) = ends a p (k a p h)
Ends-map k (faults e) = faults e

Ends-outcome :
    {P A B : Type 0} {Q : A → P → Type 0} {R : B → P → Type 0} (f : A → Run P B) (o : Outcome P A)
    → Ends Q o
    → ((a : A) (q : P) → Q a q → Ends R (f a q))
    → Ends R (elim o as (λ x. Outcome P B) [
      | done a q ↦ f a q
      | fault e ↦ fault e
      | out_of_fuel ↦ out_of_fuel
    ])
Ends-outcome f o (ends a p h) k = k a p h
Ends-outcome f o (faults e) k = faults e

pub Ends-bind :
    {P A B : Type 0} {Q : A → P → Type 0} {R : B → P → Type 0} (m : Run P A) (f : A → Run P B)
    (p : P)
    → Ends Q (m p)
    → ((a : A) (q : P) → Q a q → Ends R (f a q))
    → Ends R ((m >>= f) p)
Ends-bind m f p e k = Ends-outcome f (m p) e k

pub Ends-if :
    {P A : Type 0} {Q : A → P → Type 0} (b : Bool) (x y : Outcome P A)
    → (b ≡ true → Ends Q x)
    → (b ≡ false → Ends Q y)
    → Ends Q (if b then x else y)
Ends-if true x y hx hy = hx refl
Ends-if false x y hx hy = hy refl

-- What the call returns, if it returns, meets the condition.
pub data Always {P A : Type 0} (Q : A → P → Type 0) : Outcome P A → Type 0 where
  returns : (a : A) (p : P) → Q a p → Always Q (done a p)
  faulted : (e : Fault) → Always Q (fault e)
  unfinished : Always Q out_of_fuel

Always-outcome :
    {P A B : Type 0} {R : B → P → Type 0} (f : A → Run P B) (o : Outcome P A)
    → ((a : A) (q : P) → Always R (f a q))
    → Always R (elim o as (λ x. Outcome P B) [
      | done a q ↦ f a q
      | fault e ↦ fault e
      | out_of_fuel ↦ out_of_fuel
    ])
Always-outcome f (done a p) k = k a p
Always-outcome f (fault e) k = faulted e
Always-outcome f out_of_fuel k = unfinished

pub Always-bind :
    {P A B : Type 0} {R : B → P → Type 0} (m : Run P A) (f : A → Run P B) (p : P)
    → ((a : A) (q : P) → Always R (f a q))
    → Always R ((m >>= f) p)
Always-bind m f p k = Always-outcome f (m p) k

Always-outcome_chain :
    {P A B : Type 0} {Q : A → P → Type 0} {R : B → P → Type 0} (f : A → Run P B) (o : Outcome P A)
    → Always Q o
    → ((a : A) (q : P) → Q a q → Always R (f a q))
    → Always R (elim o as (λ x. Outcome P B) [
      | done a q ↦ f a q
      | fault e ↦ fault e
      | out_of_fuel ↦ out_of_fuel
    ])
Always-outcome_chain f o (returns a p h) k = k a p h
Always-outcome_chain f o (faulted e) k = faulted e
Always-outcome_chain f o unfinished k = unfinished

pub Always-chain :
    {P A B : Type 0} {Q : A → P → Type 0} {R : B → P → Type 0} (m : Run P A) (f : A → Run P B)
    (p : P)
    → Always Q (m p)
    → ((a : A) (q : P) → Q a q → Always R (f a q))
    → Always R ((m >>= f) p)
Always-chain m f p h k = Always-outcome_chain f (m p) h k

pub Always-if :
    {P A : Type 0} {Q : A → P → Type 0} (b : Bool) (x y : Outcome P A)
    → (b ≡ true → Always Q x)
    → (b ≡ false → Always Q y)
    → Always Q (if b then x else y)
Always-if true x y hx hy = hx refl
Always-if false x y hx hy = hy refl

-- The conditions on the end of a call and on what it returns, together.
pub Ends-Always :
    {P A : Type 0} {Q R : A → P → Type 0} {o : Outcome P A}
    → Ends Q o
    → Always R o
    → Ends (λ a p. Q a p × R a p) o
Ends-Always (ends a p h) (returns _ _ k) = ends a p (h, k)
Ends-Always (faults e) k = faults e
