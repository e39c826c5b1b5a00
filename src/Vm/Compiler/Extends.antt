-- ===== src/Vm/Compiler/Extends.antt =====
-- src/core/vm/compiler.c: the code of an expression is added behind the program, and its tables are kept.
use mathlib.Core.List.{append_assoc, append-nil}
use asteron.Prelude.{
  ℕ, zero, suc, ◌≡◌, refl, ap, ◌∙◌, sym, All, Bool, true, false, Option, none, some, List, [], ◌∷◌,
  ◌++◌, length, arith, ◌⊎◌, get_elem?, Option-cases, inl, inr, bytes_eq, bytes_eq→eq, if◌then◌else◌,
}
use asteron.Ast.{Literal}
use asteron.Interpreter.Values.{Numbers, number, string, bool, c_string, value_string}
use asteron.Interpreter.Evaluate.{literal_value}
use asteron.Interpreter.Environment.{Text}
use asteron.Vm.Bytecode.{
  OpCode, Constant, BytecodeProgram, find_name, same_constant, same_bool, add_variable,
  emit_instruction,
}
use asteron.Vm.Operations.{constant_value}
use asteron.Vm.Compiler.{literal_constant}

-- The second list begins with the first.
abbrev pub Prefix {ℓ} : {A : Type ℓ} → List A → List A → Type ℓ
Prefix {A = A} xs ys = (zs : List A) × (ys ≡ xs ++ zs)

module _ {ℓ} {A : Type ℓ} where
  pub Prefix-refl : (xs : List A) → Prefix xs xs
  Prefix-refl xs = ([], sym (append-nil xs))

  pub Prefix-trans : (xs ys zs : List A) → Prefix xs ys → Prefix ys zs → Prefix xs zs
  Prefix-trans xs ys zs (as', p) (bs, q) =
      (as' ++ bs, q ∙ ap (λ l. l ++ bs) p ∙ append_assoc xs as' bs)

  pub Prefix-snoc : (xs : List A) (x : A) → Prefix xs (xs ++ x ∷ [])
  Prefix-snoc xs x = (x ∷ [], refl)

  get_elem?-append :
      (xs zs : List A) (i : ℕ) (x : A) → get_elem? xs i ≡ some x → get_elem? (xs ++ zs) i ≡ some x
  get_elem?-append [] zs i x h = cc
  get_elem?-append (y ∷ ys) zs zero x h = h
  get_elem?-append (y ∷ ys) zs (suc i) x h = get_elem?-append ys zs i x h

  -- What a list has at a place, a longer list has there.
  pub get_elem?-Prefix :
      (xs ys : List A) (i : ℕ) (x : A)
      → Prefix xs ys
      → get_elem? xs i ≡ some x
      → get_elem? ys i ≡ some x
  get_elem?-Prefix xs ys i x (zs, p) h = ap (λ l. get_elem? l i) p ∙ get_elem?-append xs zs i x h

  pub get_elem?-last : (xs : List A) (x : A) → get_elem? (xs ++ x ∷ []) (length xs) ≡ some x
  get_elem?-last [] x = refl
  get_elem?-last (y ∷ ys) x = get_elem?-last ys x

-- The place of an element that a search finds at the head or behind it.
abbrev pub found : Bool → Option ℕ → Option ℕ
found b rest = if b then some 0 else elim rest [ none ↦ none | some i ↦ some (suc i) ]

pub found-cases :
    (b : Bool) (rest : Option ℕ) (i : ℕ)
    → found b rest ≡ some i
    → ((b ≡ true) × (i ≡ 0)) ⊎ ((j : ℕ) × (rest ≡ some j) × (i ≡ suc j))
found-cases true rest i h = inl (refl, ground arith)
found-cases false none i h = cc
found-cases false (some j) i h = inr (j, refl, ground arith)

find_name-get_elem? :
    (xs : List Text) (x : Text) (i : ℕ) → find_name xs x ≡ some i → get_elem? xs i ≡ some x
unfolding find_name
find_name-get_elem? [] x i h = cc
find_name-get_elem? (y ∷ ys) x i h = elim (found-cases (bytes_eq y x) (find_name ys x) i h) [
  | inl (b, e) ↦ rw e (ap some (bytes_eq→eq y x b))
  | inr (j, o, e) ↦ rw e (find_name-get_elem? ys x j o)
]

module _ {n : Numbers} where
  pub record Extends (p q : BytecodeProgram n) : Type 0 where
    pub code : Prefix p.instructions q.instructions
    pub consts : Prefix p.constants q.constants
    pub names : Prefix p.variable_names q.variable_names

  pub Extends-refl : (p : BytecodeProgram n) → Extends p p
  Extends-refl p = record {
    code = Prefix-refl p.instructions;
    consts = Prefix-refl p.constants;
    names = Prefix-refl p.variable_names;
  }

  pub Extends-trans : {p q r : BytecodeProgram n} → Extends p q → Extends q r → Extends p r
  Extends-trans a b = record {
    code = Prefix-trans _ _ _ a.code b.code;
    consts = Prefix-trans _ _ _ a.consts b.consts;
    names = Prefix-trans _ _ _ a.names b.names;
  }

  pub emit_instruction-Extends :
      (p : BytecodeProgram n) (op : OpCode) (x : ℕ) → Extends p (emit_instruction p op x)
  unfolding emit_instruction
  emit_instruction-Extends p op x = record {
    code = Prefix-snoc p.instructions (record { op = op; operand = x });
    consts = Prefix-refl p.constants;
    names = Prefix-refl p.variable_names;
  }

  -- The name stands at the place that is given.
  abbrev pub HasName : BytecodeProgram n → Text → BytecodeProgram n × ℕ → Type 0
  HasName p x r = Extends p r.0 × (get_elem? r.0.variable_names r.1 ≡ some x)

  pub add_variable-HasName : (p : BytecodeProgram n) (x : Text) → HasName p x (add_variable p x)
  unfolding add_variable
  add_variable-HasName p x = elim (Option-cases (find_name p.variable_names x)) [
    | inl e ↦
        rw (add_variable, e)
          (
            record {
              code = Prefix-refl p.instructions;
              consts = Prefix-refl p.constants;
              names = Prefix-snoc p.variable_names x;
            },
            get_elem?-last p.variable_names x,
          )
    | inr (i, e) ↦
        rw (add_variable, e)
          (
            record {
              code = Prefix-refl p.instructions;
              consts = Prefix-refl p.constants;
              names = Prefix-refl p.variable_names;
            },
            find_name-get_elem? p.variable_names x i e,
          )
  ]

-- What the code uses of the numbers that literals are: two that are the same for `==` are one number.
abbrev pub DistinctLiterals : Numbers → Type 0
DistinctLiterals n =
    (a b : List ℕ)
    → Numbers.same n (Numbers.of_text n a) (Numbers.of_text n b) ≡ true
    → Numbers.of_text n a ≡ Numbers.of_text n b

same_bool→eq : (a b : Bool) → same_bool a b ≡ true → a ≡ b
same_bool→eq true true h = refl
same_bool→eq true false h = cc
same_bool→eq false true h = cc
same_bool→eq false false h = refl

module _ {n : Numbers} where
  -- The constants of a table come from literals.
  abbrev pub AreLiterals : List (Constant n) → Type 0
  AreLiterals = All λ k. (l : Literal) × (k ≡ literal_constant l)

  pub same_literal :
      (k l : Literal)
      → DistinctLiterals n
      → same_constant {n = n} (literal_constant k) (literal_constant l) ≡ true
      → constant_value {n = n} (literal_constant k) ≡ literal_value l
  unfolding same_constant literal_constant constant_value literal_value value_string
  same_literal (Literal.number a) (Literal.number b) d h = ap number (d a b h)
  same_literal (Literal.text a) (Literal.text b) d h =
      ap string (bytes_eq→eq (c_string a) (c_string b) h)
  same_literal (Literal.boolean a) (Literal.boolean b) d h = ap bool (same_bool→eq a b h)
  same_literal k l d h = cc
