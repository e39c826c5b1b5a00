-- ===== src/Vm/Loads.antt =====
-- src/core/vm: the code of a literal and of a name puts its value on the stack of the machine.
use asteron.Prelude.{
  ℕ, ◌+◌, ◌<◌, ◌≡◌, ap, subst, Bool, true, false, some, List, ◌∷◌, length, get_elem?, get_or,
  if◌then◌else◌, lt→ltb, ◌⊎◌, inl, inr,
}
use asteron.Outcome.{done}
use asteron.Interpreter.Values.{Numbers, Value, nil}
use asteron.Interpreter.Environment.{Text, Environment, environment_has, environment_get}
use asteron.Interpreter.Functions.{NativeFuncEntry}
use asteron.Interpreter.Evaluate.{literal_value}
use asteron.Vm.Bytecode.{OpCode, count}
use asteron.Vm.Symbols.{compiler_is_local}
use asteron.Vm.Machine.{Vm, went_on}
use asteron.Vm.Operations.{constant_value}
use asteron.Vm.Calls.{call_step}
use asteron.Vm.Steps.{op_step, load_const_step, load_var_step, load_local_step}
use asteron.Ast.{Literal}
use asteron.Vm.Bytecode.{add_constant, add_variable}
use asteron.Vm.Compiler.{
  Compiler, emit, emit_constant, emit_variable, literal_constant, compile_identifier,
}
use asteron.Vm.Compiler.Extends.{
  Extends, get_elem?-Prefix, DistinctLiterals, AreLiterals, add_variable-HasName,
}
use asteron.Vm.Compiler.Expressions.{
  add_constant-HasConstant, add_constant-instructions, add_variable-instructions,
}
use asteron.Vm.Pushes.{pushed}
use asteron.Vm.Reaches.{Reaches, at, emit-Reaches}

module _ {n : Numbers} where
  -- What the machine reads for a name is what the interpreter reads.
  abbrev pub Sees : (Text → Bool) → Environment n → Vm n → Type 0
  Sees is_local env vm =
      (x : Text) (i : ℕ)
      → get_elem? vm.program.variable_names i ≡ some x
      → environment_has env x ≡ true
      → ((is_local x ≡ true) × (i < 32) × (get_or vm.locals i nil ≡ environment_get env x))
        ⊎ ((is_local x ≡ false) × (environment_get vm.env x ≡ environment_get env x))

  pub literal-Reaches :
      (natives : List (NativeFuncEntry n)) (f : ℕ) (l : Literal) (c : Compiler n) (vm : Vm n)
      (st : List (Value n))
      → DistinctLiterals n
      → AreLiterals c.program.constants
      → Extends (emit_constant (literal_constant l) c).program vm.program
      → vm.recorder.is_recording ≡ false
      → Reaches natives f
          (at vm (count c.program) st)
          (at vm (count (emit_constant (literal_constant l) c).program) (literal_value l ∷ st))
  unfolding emit_constant op_step load_const_step emit
  literal-Reaches natives f l c vm st d w ext idle =
      let (extends, (k, placed, value), literals) = add_constant-HasConstant c.program l d w in
      let (q, i) = add_constant c.program (literal_constant l) in
      let in_vm = get_elem?-Prefix q.constants vm.program.constants i k ext.consts placed in
      let m = at vm (count q) st in
      let e : load_const_step i m ≡ done went_on (at vm (count q + 1) (literal_value l ∷ st)) =
        rw (load_const_step, in_vm)
          (pushed m st (some (constant_value k)) (literal_value l) (ap some value)) in
      subst
        (λ is'.
          Reaches natives f (at vm (length is') st)
            (at vm (count (emit_constant (literal_constant l) c).program) (literal_value l ∷ st)))
        (add_constant-instructions c.program (literal_constant l))
        (emit-Reaches natives f (record c { program = q }) OpCode.load_const i vm st
          (literal_value l ∷ st) ext idle e)

  -- A variable of the scopes is loaded from its register or from the machine's scopes.
  pub identifier-Reaches :
      (natives : List (NativeFuncEntry n)) (f : ℕ) (x : Text) (env : Environment n) (c : Compiler n)
      (vm : Vm n) (st : List (Value n))
      → Sees (compiler_is_local c.symbols) env vm
      → environment_has env x ≡ true
      → Extends (compile_identifier x false c).program vm.program
      → vm.recorder.is_recording ≡ false
      → Reaches natives f
          (at vm (count c.program) st)
          (at vm (count (compile_identifier x false c).program) (environment_get env x ∷ st))
  unfolding compile_identifier emit_variable op_step emit load_local_step load_var_step
  identifier-Reaches natives f x env c vm st sees has ext idle =
      let (extends, placed) = add_variable-HasName c.program x in
      let (q, i) = add_variable c.program x in
      let in_vm =
        get_elem?-Prefix q.variable_names vm.program.variable_names i x ext.names placed in
      let m = at vm (count q) st in
      let v = environment_get env x in
      let op = if compiler_is_local c.symbols x then OpCode.load_local else OpCode.load_var in
      let e : op_step (call_step natives f) op i m ≡ done went_on (at vm (count q + 1) (v ∷ st)) =
        elim (sees x i in_vm has) [
          | inl (is_local, below, same) ↦
              rw (is_local, load_local_step, lt→ltb i 32 below)
                (pushed m st (some (get_or vm.locals i nil)) v (ap some same))
          | inr (is_local, same) ↦
              rw (is_local, load_var_step, in_vm)
                (pushed m st (some (environment_get vm.env x)) v (ap some same))
        ] in
      subst
        (λ is'.
          Reaches natives f (at vm (length is') st)
            (at vm (count (compile_identifier x false c).program) (v ∷ st)))
        (add_variable-instructions c.program x)
        (emit-Reaches natives f (record c { program = q }) op i vm st (v ∷ st) ext idle e)
