-- ===== src/Vm/Compiler/Shapes.antt =====
-- src/core/vm/compiler.c: the shapes of code that `compile_node` is made of keep the program closed.
use asteron.Prelude.{ℕ, ◌≤◌, ◌<◌, sym, subst, Bool, true, false, length, arith, if◌then◌else◌}
use asteron.Interpreter.Values.{Numbers}
use asteron.Interpreter.Environment.{Text}
use asteron.Vm.Bytecode.{OpCode, Constant, add_constant, add_variable, emit_instruction, count}
use asteron.Vm.Bytecode.OpCode.{
  load_const, load_var, store_var, jump, jump_if_false, call, release, store_local, load_local, pop,
  print,
}
use asteron.Vm.Symbols.{compiler_add_symbol, compiler_is_local}
use asteron.Vm.Compiler.{
  Compiler, Step, emit, emit_constant, emit_variable, patch, here, compile_identifier,
  store_declared, store_assigned, return_code, if_code, if_else_code, while_code, increment_code,
  for_code,
}
use asteron.Vm.Compiler.Closed.{InRange, IsJump, JumpAt, JumpAt-append, JumpAt-last}
use asteron.Vm.Compiler.Grows.{
  Grows-count, Grows, Grows-refl, Grows-trans, ops, emit_instruction-Grows, patch_target-Grows,
  add_constant-AddsConstant, add_variable-AddsName,
}

-- The operations whose operand is the index of a name.
abbrev pub NamesOnly : OpCode → Type 0
NamesOnly op = (k v m x : ℕ) → x < v → InRange k v m op x

-- The operations without an operand.
abbrev pub Plain : OpCode → Type 0
Plain op = (k v m : ℕ) → InRange k v m op 0

load_local-NamesOnly : NamesOnly load_local
unfolding InRange
load_local-NamesOnly k v m x lt = lt

load_var-NamesOnly : NamesOnly load_var
unfolding InRange
load_var-NamesOnly k v m x lt = lt

store_local-NamesOnly : NamesOnly store_local
unfolding InRange
store_local-NamesOnly k v m x lt = lt

store_var-NamesOnly : NamesOnly store_var
unfolding InRange
store_var-NamesOnly k v m x lt = lt

if-NamesOnly :
    (b : Bool) (op other : OpCode)
    → NamesOnly op
    → NamesOnly other
    → NamesOnly (if b then op else other)
if-NamesOnly true op other h k = h
if-NamesOnly false op other h k = k

module _ {n : Numbers} where
  abbrev pub Growing : Step n → Type 0
  Growing f = (c : Compiler n) → Grows c.program (f c).program

  pub emit-Growing : (op : OpCode) → Plain op → Growing (emit op 0)
  unfolding emit
  emit-Growing op h c =
      emit_instruction-Grows c.program op 0
        (h (length c.program.constants) (length c.program.variable_names) (count c.program))

  emit_jump-Grows :
      (op : OpCode) (target : ℕ) (c : Compiler n)
      → ((k v m x : ℕ) → x ≤ m → InRange k v m op x)
      → target ≤ here c
      → Grows c.program (emit op target c).program
  unfolding emit
  emit_jump-Grows op target c r le =
      emit_instruction-Grows c.program op target (
        r (length c.program.constants) (length c.program.variable_names) (count c.program) target
          le)

  pub emit_constant-Growing : (k : Constant n) → Growing (emit_constant k)
  unfolding emit_constant InRange
  emit_constant-Growing k c =
      let (grows, lt) = add_constant-AddsConstant c.program k in
      let (q, i) = add_constant c.program k in
      Grows-trans grows (emit_instruction-Grows q load_const i lt)

  pub emit_variable-Growing : (op : OpCode) (x : Text) → NamesOnly op → Growing (emit_variable op x)
  unfolding emit_variable
  emit_variable-Growing op x h c =
      let (grows, lt) = add_variable-AddsName c.program x in
      let (q, i) = add_variable c.program x in
      Grows-trans grows (
        emit_instruction-Grows q op i
          (h (length q.constants) (length q.variable_names) (count q) i lt))

  pub compile_identifier-Growing : (x : Text) (last : Bool) → Growing (compile_identifier x last)
  unfolding compile_identifier InRange
  compile_identifier-Growing x last c =
      let b = compiler_is_local c.symbols x in
      let loaded =
        emit_variable-Growing (if b then load_local else load_var) x
          (if-NamesOnly b load_local load_var load_local-NamesOnly load_var-NamesOnly) in
      elim last as (λ l. Grows c.program (compile_identifier x l c).program) [
        | false ↦ loaded c
        | true ↦ Grows-trans (loaded c) (
            emit_variable-Growing release x (λ k v m i lt. lt)
              (emit_variable (if b then load_local else load_var) x c))
      ]

  pub store_declared-Growing : (x : Text) (escapes : Bool) → Growing (store_declared x escapes)
  unfolding store_declared
  store_declared-Growing x escapes c =
      emit_variable-Growing (if escapes then store_var else store_local) x
        (if-NamesOnly escapes store_var store_local store_var-NamesOnly store_local-NamesOnly)
        (record c { symbols = compiler_add_symbol c.symbols x (if escapes then false else true) })

  pub store_assigned-Growing : (x : Text) → Growing (store_assigned x)
  unfolding store_assigned
  store_assigned-Growing x c =
      let b = compiler_is_local c.symbols x in
      emit_variable-Growing (if b then store_local else store_var) x
        (if-NamesOnly b store_local store_var store_local-NamesOnly store_var-NamesOnly) c

  pub return_code-Growing : (b : Bool) (f : Step n) → Growing f → Growing (return_code b f)
  unfolding return_code InRange
  return_code-Growing true f h c =
      Grows-trans (h c) (emit-Growing OpCode.return (λ k v m. tt) (f c))
  return_code-Growing false f h c =
      Grows-trans (emit_constant-Growing Constant.nil c)
        (emit-Growing OpCode.return (λ k v m. tt) (emit_constant Constant.nil c))

  -- The jump that was emitted at `here c` still stands there, and is patched.
  patch-Grows :
      (op : OpCode) (target : ℕ) (c d : Compiler n)
      → IsJump op
      → Grows (emit op target c).program d.program
      → Grows d.program (patch (here c) d).program
  unfolding patch emit emit_instruction
  patch-Grows op target c d j grows = patch_target-Grows d.program (here c) (
      subst (λ xs. JumpAt xs (here c)) (sym grows.same_ops)
        (JumpAt-append (ops (emit op target c).program) grows.new_ops (here c)
          (JumpAt-last c.program.instructions op target j)))

  pub if_code-Growing : (f g : Step n) → Growing f → Growing g → Growing (if_code f g)
  unfolding if_code InRange IsJump
  if_code-Growing f g hf hg c =
      let c1 = f c in
      let e = emit jump_if_false 0 c1 in
      let jumps = emit_jump-Grows jump_if_false 0 c1 (λ k v m x le. le) (omega arith) in
      let branch = hg e in
      Grows-trans (hf c)
        (Grows-trans jumps (Grows-trans branch (patch-Grows jump_if_false 0 c1 (g e) tt branch)))

  pub while_code-Growing : (f g : Step n) → Growing f → Growing g → Growing (while_code f g)
  unfolding while_code InRange IsJump
  while_code-Growing f g hf hg c =
      let c1 = f c in
      let e = emit jump_if_false 0 c1 in
      let jumps = emit_jump-Grows jump_if_false 0 c1 (λ k v m x le. le) (omega arith) in
      let branch = hg e in
      let start_le = Grows-count (Grows-trans (hf c) (Grows-trans jumps branch)) in
      let back = emit_jump-Grows jump (here c) (g e) (λ k v m x le. le) start_le in
      let all = Grows-trans branch back in
      Grows-trans (hf c) (
        Grows-trans jumps
          (Grows-trans all (patch-Grows jump_if_false 0 c1 (emit jump (here c) (g e)) tt all)))

  pub if_else_code-Growing :
      (f g h : Step n) → Growing f → Growing g → Growing h → Growing (if_else_code f g h)
  unfolding if_else_code InRange IsJump
  if_else_code-Growing f g h hf hg hh c =
      let c1 = f c in
      let e = emit jump_if_false 0 c1 in
      let jumps = emit_jump-Grows jump_if_false 0 c1 (λ k v m x le. le) (omega arith) in
      let c2 = g e in
      let branch = hg e in
      let c3 = emit jump 0 c2 in
      let over = emit_jump-Grows jump 0 c2 (λ k v m x le. le) (omega arith) in
      let first = patch-Grows jump_if_false 0 c1 c3 tt (Grows-trans branch over) in
      let c4 = patch (here c1) c3 in
      let other = Grows-trans first (hh c4) in
      Grows-trans (hf c) (
        Grows-trans jumps (
          Grows-trans branch
            (Grows-trans over (Grows-trans other (patch-Grows jump 0 c2 (h c4) tt other)))))

  pub increment_code-Growing : (b : Bool) (f : Step n) → Growing f → Growing (increment_code b f)
  unfolding increment_code InRange
  increment_code-Growing true f h c = Grows-trans (h c) (emit-Growing pop (λ k v m. tt) (f c))
  increment_code-Growing false f h c = Grows-refl c.program

  pub for_code-Growing :
      (b : Bool) (f g h : Step n) → Growing f → Growing g → Growing h → Growing (for_code b f g h)
  unfolding for_code InRange
  for_code-Growing true f g h hf hg hh c =
      while_code-Growing f (λ d. h (g d)) hf (λ d. Grows-trans (hg d) (hh (g d))) c
  for_code-Growing false f g h hf hg hh c =
      let round = Grows-trans (hg c) (hh (g c)) in
      Grows-trans round
        (emit_jump-Grows jump (here c) (h (g c)) (λ k v m x le. le) (Grows-count round))

  pub print_code-Growing : (f : Step n) → Growing f → Growing λ c. emit pop 0 (emit print 0 (f c))
  unfolding InRange
  print_code-Growing f h c = Grows-trans (h c) (
      Grows-trans (emit-Growing print (λ k v m. tt) (f c))
        (emit-Growing pop (λ k v m. tt) (emit print 0 (f c))))

  pub call_code-Growing :
      (x : Text) (f : Step n) → Growing f → Growing λ c. emit_variable call x (f c)
  unfolding InRange
  call_code-Growing x f h c =
      Grows-trans (h c) (emit_variable-Growing call x (λ k v m i lt. lt) (f c))
