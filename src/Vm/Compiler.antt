-- ===== src/Vm/Compiler.antt =====
-- src/core/vm/compiler.c: `compile_node` and `compiler_compile`, from the syntax tree to instructions. The marks that the compiler leaves in
-- the nodes, and its messages, are left out.
pub mod Closed
pub mod Grows
pub mod Shapes
pub mod Targets
pub mod Extends
pub mod Expressions
use asteron.Prelude.{ℕ, Bool, true, false, Option, none, some, List, [], if◌then◌else◌}
use asteron.Ast.{
  Node, Nodes, Literal, null, literal, identifier, unary_expression, binary_expression,
  function_call, variable_declaration, assignment, print_statement, if_statement, while_statement,
  for_statement, function_declaration, return_statement, block, import_statement, no_nodes, node,
  is_null,
}
use asteron.Interpreter.Values.{Numbers}
use asteron.Interpreter.Environment.{Text}
use asteron.Vm.Symbols.{CompilerSymbol, compiler_add_symbol, compiler_is_local, binary_op, unary_op}
use asteron.Vm.Bytecode.{
  OpCode, Constant, BytecodeProgram, add_constant, add_variable, emit_instruction, count,
  patch_target,
}

-- The program, and the global table of symbols.
pub record Compiler (n : Numbers) : Type 0 where
  pub program : BytecodeProgram n
  pub symbols : List CompilerSymbol

module _ (n : Numbers) where
  abbrev pub Step : Type 0
  Step = Compiler n → Compiler n

module _ {n : Numbers} where
  open n use {of_text}

  unfoldable pub emit : OpCode → ℕ → Step n
  unfolding emit_instruction
  emit op operand c = record c { program = emit_instruction c.program op operand }

  -- The operation, if there is one.
  abbrev pub emit_op : Option OpCode → Step n
  emit_op none c = c
  emit_op (some op) c = emit op 0 c

  unfoldable pub emit_constant : Constant n → Step n
  unfolding emit_instruction add_constant
  emit_constant constant c =
      let (program, i) = add_constant c.program constant in
      record c { program = emit_instruction program OpCode.load_const i }

  unfoldable pub emit_variable : OpCode → Text → Step n
  unfolding emit_instruction add_variable
  emit_variable op name c =
      let (program, i) = add_variable c.program name in
      record c { program = emit_instruction program op i }

  -- The jump at `pos` gets the next instruction as its target.
  unfoldable pub patch : ℕ → Step n
  unfolding patch_target
  patch pos c = record c { program = patch_target c.program pos }

  abbrev pub here : Compiler n → ℕ
  here c = count c.program

  unfoldable pub literal_constant : Literal → Constant n
  literal_constant (Literal.number t) = Constant.number (of_text t)
  literal_constant (Literal.text s) = Constant.string s
  literal_constant (Literal.boolean b) = Constant.bool b

  unfoldable pub compile_identifier : Text → Bool → Step n
  unfolding emit_variable compiler_is_local
  compile_identifier name is_last_use c =
      let op = if compiler_is_local c.symbols name then OpCode.load_local else OpCode.load_var in
      let loaded = emit_variable op name c in
      if is_last_use then emit_variable OpCode.release name loaded else loaded

  unfoldable pub store_declared : Text → Bool → Step n
  unfolding emit_variable compiler_add_symbol
  store_declared name escapes c =
      let op = if escapes then OpCode.store_var else OpCode.store_local in
      let is_local = if escapes then false else true in
      emit_variable op name (record c { symbols = compiler_add_symbol c.symbols name is_local })

  unfoldable pub store_assigned : Text → Step n
  unfolding emit_variable compiler_is_local
  store_assigned name c =
      let op = if compiler_is_local c.symbols name then OpCode.store_local else OpCode.store_var in
      emit_variable op name c

  unfoldable pub return_code : Bool → Step n → Step n
  unfolding emit emit_constant
  return_code has_value value c =
      let c1 = if has_value then value c else emit_constant Constant.nil c in
      emit OpCode.return 0 c1

  -- The branch is jumped over if the condition is false.
  unfoldable pub if_code : Step n → Step n → Step n
  unfolding emit patch
  if_code condition then_branch c =
      let c1 = condition c in patch (here c1) (then_branch (emit OpCode.jump_if_false 0 c1))

  unfoldable pub if_else_code : Step n → Step n → Step n → Step n
  unfolding emit patch
  if_else_code condition then_branch else_branch c =
      let c1 = condition c in
      let c2 = then_branch (emit OpCode.jump_if_false 0 c1) in
      let c3 = emit OpCode.jump 0 c2 in patch (here c2) (else_branch (patch (here c1) c3))

  unfoldable pub while_code : Step n → Step n → Step n
  unfolding emit patch
  while_code condition body c =
      let c1 = condition c in
      let c2 = body (emit OpCode.jump_if_false 0 c1) in
      patch (here c1) (emit OpCode.jump (here c) c2)

  unfoldable pub increment_code : Bool → Step n → Step n
  unfolding emit
  increment_code has_increment increment c =
      if has_increment then emit OpCode.pop 0 (increment c) else c

  -- Behind the initialization; without a condition the loop has no end.
  unfoldable pub for_code : Bool → Step n → Step n → Step n → Step n
  unfolding emit while_code
  for_code has_condition condition body step c =
      if has_condition
      then while_code condition (λ d. step (body d)) c
      else emit OpCode.jump (here c) (step (body c))

  unfoldable mutual
    pub compile_node : Node → Step n
    compile_node null c = c
    compile_node (literal v) c = emit_constant (literal_constant v) c
    compile_node (identifier name is_last_use) c = compile_identifier name is_last_use c
    compile_node (binary_expression left op right) c =
        emit_op (binary_op op) (compile_node right (compile_node left c))
    compile_node (unary_expression op operand) c = emit_op (unary_op op) (compile_node operand c)
    compile_node (variable_declaration name value type_info escapes annotations) c =
        store_declared name escapes (compile_node value c)
    compile_node (assignment name value) c = store_assigned name (compile_node value c)
    compile_node (print_statement e annotations) c =
        emit OpCode.pop 0 (emit OpCode.print 0 (compile_node e c))
    compile_node (function_call name args) c = emit_variable OpCode.call name (compile_nodes args c)
    compile_node (return_statement value) c =
        return_code (if is_null value then false else true) (compile_node value) c
    compile_node (if_statement condition then_branch else_branch) c =
        let with_else =
          if_else_code (compile_node condition) (compile_node then_branch)
            (compile_node else_branch) in
        let without = if_code (compile_node condition) (compile_node then_branch) in
        if is_null else_branch then without c else with_else c
    compile_node (while_statement condition body) c =
        while_code (compile_node condition) (compile_node body) c
    compile_node (for_statement init condition increment body) c =
        let step =
          increment_code (if is_null increment then false else true) (compile_node increment) in
        for_code (if is_null condition then false else true) (compile_node condition)
          (compile_node body) step (compile_node init c)
    compile_node (block ss) c = compile_nodes ss c
    compile_node (function_declaration name params body) c = c
    compile_node (import_statement name symbols) c = c

    -- Arguments and statements, in their order.
    pub compile_nodes : Nodes → Step n
    compile_nodes no_nodes c = c
    compile_nodes (node x xs) c = compile_nodes xs (compile_node x c)

  abbrev pub new_compiler : Compiler n
  new_compiler = record {
    program = record { instructions = []; constants = []; variable_names = [] };
    symbols = [];
  }

  abbrev pub or_new : Option (BytecodeProgram n) → BytecodeProgram n
  or_new none = new_compiler.program
  or_new (some p) = p

  unfoldable pub compiler_compile : Node → Option (BytecodeProgram n)
  unfolding emit
  compiler_compile null = none
  compiler_compile ast = some (emit OpCode.halt 0 (compile_node ast new_compiler)).program
