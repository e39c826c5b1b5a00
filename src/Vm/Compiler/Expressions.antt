-- ===== src/Vm/Compiler/Expressions.antt =====
-- src/core/vm/compiler.c: what the code of an expression adds to the program.
use asteron.Prelude.{
  ℕ, ◌≡◌, refl, ap, ◌∙◌, sym, subst, true, false, Option, none, some, List, [], ◌∷◌, ◌++◌,
  get_elem?, inl, inr, Option-cases, if◌then◌else◌,
}
use asteron.Ast.{Node, Literal, literal, identifier, unary_expression, binary_expression}
use asteron.Interpreter.Values.{Numbers, Value}
use asteron.Interpreter.Environment.{Text, Environment}
use asteron.Interpreter.Evaluate.{literal_value}
use asteron.Interpreter.Meaning.{meaning}
use asteron.Interpreter.Silent.{operate-some, not_meaning-some}
use asteron.Vm.Bytecode.{
  OpCode, Constant, BytecodeProgram, find_name, find_constant, same_constant, add_constant,
  add_variable, emit_instruction,
}
use asteron.Vm.Symbols.{binary_op, unary_op, compiler_is_local}
use asteron.Vm.Operations.{constant_value}
use asteron.Vm.Compiler.{
  Compiler, emit, emit_op, emit_constant, emit_variable, literal_constant, compile_identifier,
  compile_node,
}
use asteron.Vm.Compiler.Extends.{
  Prefix-refl, Prefix-snoc, Extends, Extends-trans, emit_instruction-Extends, add_variable-HasName,
  found-cases, DistinctLiterals, AreLiterals, same_literal, get_elem?-last,
}

-- No variable is used for the last time.
unfoldable pub NoRelease : Node → Type 0
NoRelease (identifier name is_last_use) = is_last_use ≡ false
NoRelease (unary_expression op e) = NoRelease e
NoRelease (binary_expression l op r) = NoRelease l × NoRelease r
NoRelease _ = Unit

module _ {n : Numbers} where
  -- A constant with the value of the literal stands at the place.
  abbrev pub HasValue : List (Constant n) → ℕ → Literal → Type 0
  HasValue cs i l =
      (k : Constant n) × (get_elem? cs i ≡ some k) × (constant_value k ≡ literal_value l)

  literal_constant-value :
      (l : Literal) → constant_value {n = n} (literal_constant l) ≡ literal_value l
  unfolding literal_constant constant_value literal_value
  literal_constant-value (Literal.number a) = refl
  literal_constant-value (Literal.text a) = refl
  literal_constant-value (Literal.boolean a) = refl

  find_constant-HasValue :
      (cs : List (Constant n)) (l : Literal) (i : ℕ)
      → DistinctLiterals n
      → AreLiterals cs
      → find_constant cs (literal_constant l) ≡ some i
      → HasValue cs i l
  unfolding find_constant
  find_constant-HasValue [] l i d h e = cc
  find_constant-HasValue (c ∷ cs) l i d ((k, kc), hs) e =
      elim (found-cases (same_constant c (literal_constant l))
        (find_constant cs (literal_constant l)) i e) [
          | inl (b, z) ↦ rw z (
            c,
            refl,
            ap constant_value kc
                ∙ same_literal k l d
                    (subst (λ x. same_constant x (literal_constant l) ≡ true) kc b),
          )
          | inr (j, o, z) ↦ rw z (find_constant-HasValue cs l j d hs o)
        ]

  AreLiterals-snoc :
      (cs : List (Constant n)) (l : Literal)
      → AreLiterals cs
      → AreLiterals (cs ++ literal_constant l ∷ [])
  AreLiterals-snoc [] l h = ((l, refl), tt)
  AreLiterals-snoc (c ∷ cs) l (h, hs) = (h, AreLiterals-snoc cs l hs)

  abbrev pub HasConstant : BytecodeProgram n → Literal → BytecodeProgram n × ℕ → Type 0
  HasConstant p l r = Extends p r.0 × HasValue r.0.constants r.1 l × AreLiterals r.0.constants

  pub add_constant-HasConstant :
      (p : BytecodeProgram n) (l : Literal)
      → DistinctLiterals n
      → AreLiterals p.constants
      → HasConstant p l (add_constant p (literal_constant l))
  unfolding add_constant
  add_constant-HasConstant p l d h =
      elim (Option-cases (find_constant p.constants (literal_constant l))) [
        | inl e ↦
            rw (add_constant, e)
              (
                record {
                  code = Prefix-refl p.instructions;
                  consts = Prefix-snoc p.constants (literal_constant l);
                  names = Prefix-refl p.variable_names;
                },
                (
                  literal_constant l,
                  get_elem?-last p.constants (literal_constant l),
                  literal_constant-value l,
                ),
                AreLiterals-snoc p.constants l h,
              )
        | inr (i, e) ↦
            rw (add_constant, e)
              (
                record {
                  code = Prefix-refl p.instructions;
                  consts = Prefix-refl p.constants;
                  names = Prefix-refl p.variable_names;
                },
                find_constant-HasValue p.constants l i d h e,
                h,
              )
      ]

  -- The code is added behind the program, and the table of symbols stays as it is.
  pub record Adds (c d : Compiler n) : Type 0 where
    pub extends : Extends c.program d.program
    pub symbols : d.symbols ≡ c.symbols
    pub literals : AreLiterals d.program.constants

  emit_op-Adds : (o : Option OpCode) (c d : Compiler n) → Adds c d → Adds c (emit_op o d)
  unfolding emit emit_instruction
  emit_op-Adds none c d a = a
  emit_op-Adds (some op) c d a = record {
    extends = Extends-trans a.extends (emit_instruction-Extends d.program op 0);
    symbols = a.symbols;
    literals = a.literals;
  }

  Adds-trans : (c d e : Compiler n) → Adds c d → Adds d e → Adds c e
  Adds-trans c d e a b = record {
    extends = Extends-trans a.extends b.extends;
    symbols = b.symbols ∙ a.symbols;
    literals = b.literals;
  }

  emit_constant-Adds :
      (l : Literal) (c : Compiler n)
      → DistinctLiterals n
      → AreLiterals c.program.constants
      → Adds c (emit_constant (literal_constant l) c)
  unfolding emit_constant emit_instruction
  emit_constant-Adds l c d h =
      let (extends, value, literals) = add_constant-HasConstant c.program l d h in
      let (q, i) = add_constant c.program (literal_constant l) in
      record {
        extends = Extends-trans extends (emit_instruction-Extends q OpCode.load_const i);
        symbols = refl;
        literals = literals;
      }

  pub add_constant-instructions :
      (p : BytecodeProgram n) (k : Constant n) → (add_constant p k).0.instructions ≡ p.instructions
  unfolding add_constant
  add_constant-instructions p k = elim (Option-cases (find_constant p.constants k)) [
    | inl e ↦ rw (add_constant, e) refl
    | inr (i, e) ↦ rw (add_constant, e) refl
  ]

  pub add_variable-instructions :
      (p : BytecodeProgram n) (x : Text) → (add_variable p x).0.instructions ≡ p.instructions
  unfolding add_variable
  add_variable-instructions p x = elim (Option-cases (find_name p.variable_names x)) [
    | inl e ↦ rw (add_variable, e) refl
    | inr (i, e) ↦ rw (add_variable, e) refl
  ]

  add_variable-constants :
      (p : BytecodeProgram n) (x : Text) → (add_variable p x).0.constants ≡ p.constants
  unfolding add_variable
  add_variable-constants p x = elim (Option-cases (find_name p.variable_names x)) [
    | inl e ↦ rw (add_variable, e) refl
    | inr (i, e) ↦ rw (add_variable, e) refl
  ]

  emit_variable-Adds :
      (op : OpCode) (x : Text) (c : Compiler n)
      → AreLiterals c.program.constants
      → Adds c (emit_variable op x c)
  unfolding emit_variable emit_instruction
  emit_variable-Adds op x c h =
      let (extends, name) = add_variable-HasName c.program x in
      let (q, i) = add_variable c.program x in
      record {
        extends = Extends-trans extends (emit_instruction-Extends q op i);
        symbols = refl;
        literals = subst AreLiterals (sym (add_variable-constants c.program x)) h;
      }

  -- The code of an expression that has a meaning and is no last use.
  pub compile_node-Adds :
      (e : Node) (env : Environment n) (v : Value n) (c : Compiler n)
      → DistinctLiterals n
      → NoRelease e
      → meaning env e ≡ some v
      → AreLiterals c.program.constants
      → Adds c (compile_node e c)
  unfolding compile_node meaning NoRelease compile_identifier
  compile_node-Adds (literal l) env v c d r h w = emit_constant-Adds l c d w
  compile_node-Adds (identifier name last) env v c d r h w = rw r (
      emit_variable-Adds
        (if compiler_is_local c.symbols name then OpCode.load_local else OpCode.load_var) name c w)
  compile_node-Adds (unary_expression op e) env v c d r h w =
      let (a, ha, same) = not_meaning-some op (meaning env e) v h in
      emit_op-Adds (unary_op op) c (compile_node e c) (compile_node-Adds e env a c d r ha w)
  compile_node-Adds (binary_expression l op e) env v c d (rl, re) h w =
      let (a, b, ha, hb, same) = operate-some op (meaning env l) (meaning env e) v h in
      let left = compile_node-Adds l env a c d rl ha w in
      let right = compile_node-Adds e env b (compile_node l c) d re hb left.literals in
      emit_op-Adds (binary_op op) c (compile_node e (compile_node l c))
        (Adds-trans c (compile_node l c) (compile_node e (compile_node l c)) left right)
  compile_node-Adds e env v c d r h w = cc
