-- ===== src/Vm/Compiler/Targets.antt =====
-- src/core/vm/compiler.c: the code of every node keeps the program closed.
use asteron.Prelude.{
  ◌≡◌, refl, ap, Bool, true, false, Option, none, some, List, [], ◌∷◌, ◌++◌, subst, length,
  if◌then◌else◌,
}
use asteron.Lexer.Token.{
  TokenType, plus, minus, multiply, divide, gt, lt, gte, lte, eq, ne, and, or, not,
}
use asteron.Ast.{
  Node, Nodes, null, literal, identifier, unary_expression, binary_expression, function_call,
  variable_declaration, assignment, print_statement, if_statement, while_statement, for_statement,
  function_declaration, return_statement, block, import_statement, no_nodes, node, is_null,
}
use asteron.Interpreter.Values.{Numbers}
use asteron.Vm.Bytecode.{OpCode, Instruction, BytecodeProgram, emit_instruction}
use asteron.Vm.Symbols.{binary_op, unary_op}
use asteron.Vm.Compiler.{
  Step, emit, emit_op, literal_constant, if_code, if_else_code, increment_code, compile_node,
  compile_nodes, compiler_compile, new_compiler, or_new,
}
use asteron.Vm.Compiler.Closed.{InRange, Within}
use asteron.Vm.Compiler.Grows.{Grows-refl, Grows-trans}
use asteron.Vm.Compiler.Shapes.{
  Growing, Plain, emit-Growing, print_code-Growing, call_code-Growing, emit_constant-Growing,
  compile_identifier-Growing, store_declared-Growing, store_assigned-Growing, return_code-Growing,
  if_code-Growing, if_else_code-Growing, while_code-Growing, increment_code-Growing,
  for_code-Growing,
}

abbrev PlainOp : Option OpCode → Type 0
PlainOp none = Unit
PlainOp (some op) = Plain op

binary_op-Plain : (op : TokenType) → PlainOp (binary_op op)
unfolding binary_op InRange
binary_op-Plain plus = λ k v m. tt
binary_op-Plain minus = λ k v m. tt
binary_op-Plain multiply = λ k v m. tt
binary_op-Plain divide = λ k v m. tt
binary_op-Plain gt = λ k v m. tt
binary_op-Plain lt = λ k v m. tt
binary_op-Plain gte = λ k v m. tt
binary_op-Plain lte = λ k v m. tt
binary_op-Plain eq = λ k v m. tt
binary_op-Plain ne = λ k v m. tt
binary_op-Plain and = λ k v m. tt
binary_op-Plain or = λ k v m. tt
binary_op-Plain _ = tt

unary_op-Plain : (op : TokenType) → PlainOp (unary_op op)
unfolding unary_op InRange
unary_op-Plain not = λ k v m. tt
unary_op-Plain minus = λ k v m. tt
unary_op-Plain _ = tt

module _ {n : Numbers} where
  op-Growing : (o : Option OpCode) → PlainOp o → Growing {n = n} (emit_op o)
  op-Growing none h c = Grows-refl c.program
  op-Growing (some op) h c = emit-Growing op h c

  if-Growing :
      (b : Bool) (f g : Step n) → Growing f → Growing g → Growing λ c. if b then f c else g c
  if-Growing true f g hf hg = hf
  if-Growing false f g hf hg = hg

  -- The code of a node, and that of a list of nodes.
  mutual
    unfolding compile_node compile_nodes

    compile_node-Growing : (x : Node) → Growing {n = n} (compile_node x)
    compile_node-Growing null c = Grows-refl c.program
    compile_node-Growing (literal v) c = emit_constant-Growing (literal_constant v) c
    compile_node-Growing (identifier name last) c = compile_identifier-Growing name last c
    compile_node-Growing (binary_expression l op r) c =
        let left = compile_node-Growing l c in
        let right = compile_node-Growing r (compile_node l c) in
        Grows-trans left (
          Grows-trans right
            (op-Growing (binary_op op) (binary_op-Plain op) (compile_node r (compile_node l c))))
    compile_node-Growing (unary_expression op e) c =
        Grows-trans (compile_node-Growing e c)
          (op-Growing (unary_op op) (unary_op-Plain op) (compile_node e c))
    compile_node-Growing (variable_declaration name value type_info escapes annotations) c =
        Grows-trans (compile_node-Growing value c)
          (store_declared-Growing name escapes (compile_node value c))
    compile_node-Growing (assignment name value) c =
        Grows-trans (compile_node-Growing value c)
          (store_assigned-Growing name (compile_node value c))
    compile_node-Growing (print_statement e annotations) c =
        print_code-Growing (compile_node e) (compile_node-Growing e) c
    compile_node-Growing (function_call name args) c =
        call_code-Growing name (compile_nodes args) (compile_nodes-Growing args) c
    compile_node-Growing (return_statement value) c =
        return_code-Growing (if is_null value then false else true) (compile_node value)
          (compile_node-Growing value) c
    compile_node-Growing (if_statement condition t e) c =
        let hc = compile_node-Growing condition in
        let ht = compile_node-Growing t in
        if-Growing (is_null e) (if_code (compile_node condition) (compile_node t))
          (if_else_code (compile_node condition) (compile_node t) (compile_node e))
          (if_code-Growing (compile_node condition) (compile_node t) hc ht)
          (if_else_code-Growing (compile_node condition) (compile_node t) (compile_node e) hc ht
            (compile_node-Growing e))
          c
    compile_node-Growing (while_statement condition body) c =
        while_code-Growing (compile_node condition) (compile_node body)
          (compile_node-Growing condition) (compile_node-Growing body) c
    compile_node-Growing (for_statement init condition increment body) c =
        let b = if is_null increment then false else true in
        Grows-trans (compile_node-Growing init c) (
          for_code-Growing (if is_null condition then false else true) (compile_node condition)
            (compile_node body) (increment_code b (compile_node increment))
            (compile_node-Growing condition) (compile_node-Growing body)
            (increment_code-Growing b (compile_node increment) (compile_node-Growing increment))
            (compile_node init c))
    compile_node-Growing (block ss) c = compile_nodes-Growing ss c
    compile_node-Growing (function_declaration name params body) c = Grows-refl c.program
    compile_node-Growing (import_statement name symbols) c = Grows-refl c.program

    compile_nodes-Growing : (xs : Nodes) → Growing {n = n} (compile_nodes xs)
    compile_nodes-Growing no_nodes c = Grows-refl c.program
    compile_nodes-Growing (node x xs) c =
        Grows-trans (compile_node-Growing x c) (compile_nodes-Growing xs (compile_node x c))

-- The last instruction is `halt`, and each of the others points into the tables of the program: a
-- constant, a name, or an instruction that may be the last one.
abbrev pub IsSafe : {n : Numbers} → BytecodeProgram n → Type 0
IsSafe p =
    (is' : List Instruction) × (p.instructions
      ≡ is' ++ record { op = OpCode.halt; operand = 0 } ∷ [])
    × Within (length p.constants) (length p.variable_names) (length is') is'

compiled-IsSafe :
    (n : Numbers) (ast : Node)
    → IsSafe {n = n} (emit OpCode.halt 0 (compile_node ast new_compiler)).program
unfolding emit emit_instruction
compiled-IsSafe n ast =
    let c = compile_node ast new_compiler in
    (c.program.instructions, refl, (compile_node-Growing ast new_compiler).closed tt)

module _ {n : Numbers} where
  -- The program of any tree ends in `halt`, and every other instruction points into its tables.
  pub compiler_compile-IsSafe :
      (ast : Node) (p : BytecodeProgram n) → compiler_compile ast ≡ some p → IsSafe p
  unfolding compiler_compile
  compiler_compile-IsSafe null p e = cc
  compiler_compile-IsSafe ast p e = subst IsSafe (ap or_new e) (compiled-IsSafe n ast)
