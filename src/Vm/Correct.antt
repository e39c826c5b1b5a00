-- ===== src/Vm/Correct.antt =====
-- src/core/vm: the code of an expression leaves its value on the stack of the machine.
use asteron.Prelude.{
  ℕ, ◌+◌, ◌≡◌, refl, ap, sym, subst, Bool, true, false, Option, none, some, List, [], ◌∷◌, arith,
  get_elem?, if◌then◌else◌, inr,
}
use asteron.Outcome.{done}
use asteron.Interpreter.Values.{Numbers, Value}
use asteron.Interpreter.Environment.{Text, Environment, environment_has, environment_get}
use asteron.Interpreter.Functions.{NativeFuncEntry}
use asteron.Interpreter.Evaluate.{Interpreter}
use asteron.Interpreter.Execute.{interpreter_evaluate_expression}
use asteron.Interpreter.Meaning.{meaning, depth}
use asteron.Interpreter.Silent.{operate-some, or_nil, interpreter_evaluate-meaning}
use asteron.Vm.Bytecode.{OpCode, BytecodeProgram, count}
use asteron.Vm.Symbols.{binary_op, unary_op, compiler_is_local}
use asteron.Vm.Machine.{Vm, went_on}
use asteron.Vm.Calls.{call_step}
use asteron.Vm.Steps.{op_step}
use asteron.Ast.{Node, null, literal, identifier, unary_expression, binary_expression}
use asteron.Vm.Compiler.{
  Compiler, emit, emit_op, emit_constant, literal_constant, compile_identifier, compile_node,
  compiler_compile, new_compiler, or_new,
}
use asteron.Vm.Compiler.Extends.{
  Extends, Extends-refl, Extends-trans, get_elem?-last, emit_instruction-Extends, get_elem?-Prefix,
  DistinctLiterals, AreLiterals,
}
use asteron.Vm.Compiler.Expressions.{NoRelease, compile_node-Adds}
use asteron.Vm.Pushes.{operation-Computes, not_meaning-PushesOne}
use asteron.Vm.Loads.{Sees, literal-Reaches, identifier-Reaches}
use asteron.Vm.Reaches.{Reaches, Reaches-trans, at, emit-Reaches}

abbrev or_halt : Option OpCode → OpCode
or_halt none = OpCode.halt
or_halt (some op) = op

module _ {n : Numbers} where
  op-Reaches :
      (natives : List (NativeFuncEntry n)) (f : ℕ) (o : Option OpCode) (op : OpCode)
      (d : Compiler n) (vm : Vm n) (st st' : List (Value n))
      → o ≡ some op
      → Extends (emit_op o d).program vm.program
      → vm.recorder.is_recording ≡ false
      → op_step (call_step natives f) op 0 (at vm (count d.program) st)
        ≡ done went_on (at vm (count d.program + 1) st')
      → Reaches natives f (at vm (count d.program) st) (at vm (count (emit_op o d).program) st')
  op-Reaches natives f none op d vm st st' same ext idle e = absurd cc
  op-Reaches natives f (some o) op d vm st st' same ext idle e =
      emit-Reaches natives f d o 0 vm st st' ext idle (
        subst
          (λ x.
            op_step (call_step natives f) x 0 (at vm (count d.program) st)
            ≡ done went_on (at vm (count d.program + 1) st'))
          (sym (ap (or_halt) same)) e)

  emit_op-Extends :
      (o : Option OpCode) (d : Compiler n) (p : BytecodeProgram n)
      → Extends (emit_op o d).program p
      → Extends d.program p
  unfolding emit
  emit_op-Extends none d p ext = ext
  emit_op-Extends (some op) d p ext = Extends-trans (emit_instruction-Extends d.program op 0) ext

  known_value :
      (has : Bool) (x v : Value n)
      → (if has then some x else none) ≡ some v
      → (has ≡ true) × (x ≡ v)
  known_value true x v h = (refl, ap or_nil h)
  known_value false x v h = absurd cc

  -- The code of an expression that has a meaning leaves it on the stack, wherever the code stands in a
  -- program whose constants come from literals, if no variable is released on the way and the machine
  -- reads for each name what the scopes of the meaning have.
  pub compile_node-Reaches :
      (natives : List (NativeFuncEntry n)) (f : ℕ) (e : Node) (env : Environment n) (v : Value n)
      (c : Compiler n) (vm : Vm n) (st : List (Value n))
      → DistinctLiterals n
      → NoRelease e
      → meaning env e ≡ some v
      → AreLiterals c.program.constants
      → Sees (compiler_is_local c.symbols) env vm
      → Extends (compile_node e c).program vm.program
      → vm.recorder.is_recording ≡ false
      → Reaches natives f
          (at vm (count c.program) st)
          (at vm (count (compile_node e c).program) (v ∷ st))
  unfolding compile_node meaning NoRelease
  compile_node-Reaches natives f (literal l) env v c vm st d r h w sees ext idle =
      subst
        (λ x.
          Reaches natives f (at vm (count c.program) st)
            (at vm (count (emit_constant (literal_constant l) c).program) (x ∷ st)))
        (ap or_nil h) (literal-Reaches natives f l c vm st d w ext idle)
  compile_node-Reaches natives f (identifier x true) env v c vm st d r h w sees ext idle = absurd cc
  compile_node-Reaches natives f (identifier x false) env v c vm st d r h w sees ext idle =
      let (has, value) = known_value (environment_has env x) (environment_get env x) v h in
      subst
        (λ y.
          Reaches natives f (at vm (count c.program) st)
            (at vm (count (compile_identifier x false c).program) (y ∷ st)))
        value (identifier-Reaches natives f x env c vm st sees has ext idle)
  compile_node-Reaches natives f (unary_expression op e) env v c vm st d r h w sees ext idle =
      let (a, ha, o, same, pushes) = not_meaning-PushesOne op (meaning env e) v h in
      let c1 = compile_node e c in
      let ext1 = emit_op-Extends (unary_op op) c1 vm.program ext in
      Reaches-trans (compile_node-Reaches natives f e env a c vm st d r ha w sees ext1 idle) (
        op-Reaches natives f (unary_op op) o c1 vm (a ∷ st) (v ∷ st) same ext idle
          (pushes (call_step natives f) (at vm (count c1.program) st) st))
  compile_node-Reaches natives f (binary_expression l op e) env v c vm st d (rl, re) h w sees ext
        idle =
      let (a, b, ha, hb, ho) = operate-some op (meaning env l) (meaning env e) v h in
      let (o, same, pushes) = operation-Computes op a b v ho in
      let c1 = compile_node l c in
      let c2 = compile_node e c1 in
      let left = compile_node-Adds l env a c d rl ha w in
      let right = compile_node-Adds e env b c1 d re hb left.literals in
      let ext2 = emit_op-Extends (binary_op op) c2 vm.program ext in
      let ext1 = Extends-trans right.extends ext2 in
      let sees1 = subst (λ s. Sees (compiler_is_local s) env vm) (sym left.symbols) sees in
      Reaches-trans (compile_node-Reaches natives f l env a c vm st d rl ha w sees ext1 idle) (
        Reaches-trans
          (compile_node-Reaches natives f e env b c1 vm (a ∷ st) d re hb left.literals sees1 ext2
            idle)
          (op-Reaches natives f (binary_op op) o c2 vm (b ∷ a ∷ st) (v ∷ st) same ext idle
            (pushes (call_step natives f) (at vm (count c2.program) st) st)))
  compile_node-Reaches natives f e env v c vm st d r h w sees ext idle = absurd cc

  new_compiler-Sees :
      (env : Environment n) (vm : Vm n)
      → ((x : Text) → environment_get vm.env x ≡ environment_get env x)
      → Sees (compiler_is_local []) env vm
  unfolding compiler_is_local
  new_compiler-Sees env vm h x i placed has = inr (refl, h x)

  -- An expression without last uses that has a meaning in the interpreter's scopes: the interpreter
  -- gives the meaning, with fuel for its depth, and reports nothing; the machine on the compiled
  -- expression, whose scopes have the same values, reaches the last instruction with the meaning on its
  -- stack.
  pub compiler_compile-interpreter :
      (natives : List (NativeFuncEntry n)) (f : ℕ) (e : Node) (v : Value n) (p : Interpreter n)
      (vm : Vm n)
      → DistinctLiterals n
      → NoRelease e
      → meaning p.env e ≡ some v
      → compiler_compile e ≡ some vm.program
      → ((x : Text) → environment_get vm.env x ≡ environment_get p.env x)
      → vm.recorder.is_recording ≡ false
      → (interpreter_evaluate_expression natives (depth e) e p ≡ done v p)
        × (last : ℕ) × (get_elem? vm.program.instructions last
            ≡ some (record { op = OpCode.halt; operand = 0 }))
        × Reaches natives f (at vm 0 []) (at vm last (v ∷ []))
  unfolding compiler_compile emit
  compiler_compile-interpreter natives f null v p vm d r h compiled sees idle = absurd cc
  compiler_compile-interpreter natives f e v p vm d r h compiled sees idle =
      let c = compile_node e new_compiler in
      let ext : Extends (emit OpCode.halt 0 c).program vm.program =
        subst (λ q. Extends (emit OpCode.halt 0 c).program q) (ap or_new compiled)
          (Extends-refl _) in
      (
        interpreter_evaluate-meaning natives e (depth e) v p (omega arith) h,
        count c.program,
        get_elem?-Prefix _ vm.program.instructions (count c.program) _ ext.code
            (get_elem?-last c.program.instructions _),
        compile_node-Reaches natives f e p.env v new_compiler vm [] d r h tt
            (new_compiler-Sees p.env vm sees) (emit_op-Extends (some OpCode.halt) c vm.program ext)
            idle,
      )
