-- ===== src/Vm/Tests.antt =====
-- Tests of the compiler and the machine with whole numbers in place of floating point, and their theorems
-- at concrete data.
use asteron.Prelude.{
  ℕ, ◌≡◌, refl, false, none, some, List, [], ◌∷◌, ◌++◌, codes, String, ==→eq, get_elem?,
}
use asteron.Lexer.Token.{eof, lt}
use asteron.Ast.{
  Node, null, identifier, binary_expression, while_statement, if_statement, print_statement,
}
use asteron.Outcome.{done}
use asteron.Parser.Source.{Lexeme}
use asteron.Parser.Lexing.{parse_source}
use asteron.Interpreter.Values.{Value, number, nil}
use asteron.Interpreter.Environment.{Text}
use asteron.Interpreter.Execute.{interpreter_execute, interpreter_evaluate_expression}
use asteron.Interpreter.Meaning.{depth}
use asteron.Interpreter.Tests.{whole, idle_interpreter, one_scope, number_node, sum, sum-meaning}
use asteron.Vm.Bytecode.{OpCode, BytecodeProgram}
use asteron.Vm.Machine.{Vm, TraceRecorder, vm_create}
use asteron.Vm.Run.{vm_execute}
use asteron.Vm.Compiler.{compiler_compile, compile_node, new_compiler, emit}
use asteron.Vm.Compiler.Targets.{IsSafe, compiler_compile-IsSafe}
use asteron.Vm.Compiler.Extends.{DistinctLiterals}
use asteron.Vm.Compiler.Expressions.{NoRelease}
use asteron.Vm.Reaches.{Reaches, at}
use asteron.Vm.Correct.{compiler_compile-interpreter}

abbrev junk : Lexeme
junk = record { kind = eof; text = []; line = 0 }

abbrev no_trace : TraceRecorder
no_trace = record { steps = []; start_pc = 0; is_recording = false }

abbrev tree : String → Node
tree s = elim (parse_source (codes s) junk) [ done ast p ↦ ast | _ ↦ null ]

abbrev compiled : String → BytecodeProgram whole
compiled s = elim (compiler_compile {n = whole} (tree s)) [
  | some p ↦ p
  | none ↦ record { instructions = []; constants = []; variable_names = [] }
]

-- What a text prints on the machine, with 200 rounds.
abbrev printed : String → List Text
printed s = elim (vm_execute [] 200 50 (vm_create (compiled s) no_trace (idle_interpreter []))) [
  | done code vm ↦ vm.interpreter.output
  | _ ↦ []
]

-- What it prints in the interpreter.
abbrev interpreted : String → List Text
interpreted s = elim (interpreter_execute [] 50 (tree s) (idle_interpreter [])) [
  | done code p ↦ p.output
  | _ ↦ []
]

abbrev stack_of : String → List (Value whole)
stack_of s = elim (vm_execute [] 200 50 (vm_create (compiled s) no_trace (idle_interpreter []))) [
  | done code vm ↦ vm.stack
  | _ ↦ []
]

-- A loop on the machine, and a sum in both. Of a comparison of texts the interpreter prints nil. The
-- arguments of a function that is not known stay on the stack.
runs :
    (printed "let i = 0; while (i < 3) { print(i); i = i + 1; }"
      ≡ (0 ∷ 10 ∷ []) ∷ (1 ∷ 10 ∷ []) ∷ (2 ∷ 10 ∷ []) ∷ [])
    × (printed "print(1 + 2 * 3)" ≡ (7 ∷ 10 ∷ []) ∷ [])
    × (interpreted "print(1 + 2 * 3)" ≡ (7 ∷ 10 ∷ []) ∷ [])
    × (printed "print(\"a\" == \"a\")" ≡ (codes "true" ++ 10 ∷ []) ∷ [])
    × (interpreted "print(\"a\" == \"a\")" ≡ (codes "nil" ++ 10 ∷ []) ∷ [])
    × (stack_of "f(1, 2);" ≡ nil ∷ number 2 ∷ number 1 ∷ [])
unfolding asteron.Parser.Source.ordinal asteron.Parser.Source.same_type asteron.Parser.Source.weight
    asteron.Parser.Moves.advance asteron.Parser.Moves.check asteron.Parser.Moves.check_any
    asteron.Parser.Moves.match asteron.Parser.Moves.consume asteron.Parser.Moves.rest
    asteron.Parser.Moves.parser_create asteron.Parser.Expressions.more_arguments
    asteron.Parser.Expressions.arguments asteron.Parser.Expressions.call
    asteron.Parser.Expressions.name_factor asteron.Parser.Expressions.not_factor
    asteron.Parser.Expressions.group asteron.Parser.Expressions.factor_body
    asteron.Parser.Expressions.operators asteron.Parser.Expressions.level
    asteron.Parser.Expressions.parse_factor asteron.Parser.Expressions.parse_expression
    asteron.Parser.Annotations.annotation_named asteron.Parser.Annotations.annotation_token
    asteron.Parser.Annotations.expect_name asteron.Parser.Annotations.more_names
    asteron.Parser.Annotations.name_list asteron.Parser.Annotations.dependencies
    asteron.Parser.Annotations.depends_annotation asteron.Parser.Annotations.named_annotation
    asteron.Parser.Annotations.parse_annotation asteron.Parser.Annotations.link_annotation
    asteron.Parser.Annotations.annotation_loop asteron.Parser.Annotations.parse_annotations
    asteron.Parser.Statements.parse_type asteron.Parser.Statements.store_parameters
    asteron.Parser.Statements.function_statement asteron.Parser.Statements.return_value
    asteron.Parser.Statements.return_rest asteron.Parser.Statements.optional_type
    asteron.Parser.Statements.let_statement asteron.Parser.Statements.parenthesized
    asteron.Parser.Statements.print_rest asteron.Parser.Statements.else_branch
    asteron.Parser.Statements.if_rest asteron.Parser.Statements.while_rest
    asteron.Parser.Statements.for_init asteron.Parser.Statements.skip_if_null
    asteron.Parser.Statements.for_condition asteron.Parser.Statements.for_increment
    asteron.Parser.Statements.for_rest asteron.Parser.Statements.is_recovery_point
    asteron.Parser.Statements.skip_tokens asteron.Parser.Statements.recover
    asteron.Parser.Statements.block_loop asteron.Parser.Statements.block_rest
    asteron.Parser.Program.dotted asteron.Parser.Program.import_rest asteron.Parser.Program.alias
    asteron.Parser.Program.import_symbols asteron.Parser.Program.from_rest
    asteron.Parser.Program.expression_statement asteron.Parser.Program.keyword_statement
    asteron.Parser.Program.assigned asteron.Parser.Program.identifier_statement
    asteron.Parser.Program.annotated_statement asteron.Parser.Program.statement_on
    asteron.Parser.Program.parse_statement asteron.Parser.Program.program_loop
    asteron.Parser.Program.parser_parse asteron.Parser.Lexing.token_bytes
    asteron.Parser.Lexing.parse_source asteron.Lexer.Cursor.peek asteron.Lexer.Cursor.peek_next
    asteron.Lexer.Cursor.advance asteron.Lexer.Cursor.unread asteron.Lexer.Cursor.loop
    asteron.Lexer.Cursor.run_loop asteron.Lexer.Cursor.while_step asteron.Lexer.Cursor.advance_while
    asteron.Lexer.Cursor.is_in_comment asteron.Lexer.Cursor.whitespace_step
    asteron.Lexer.Cursor.skip_whitespace asteron.Lexer.Cursor.string_step
    asteron.Lexer.Cursor.string_body asteron.Lexer.Keywords.is_alpha asteron.Lexer.Keywords.is_digit
    asteron.Lexer.Keywords.is_alphanumeric asteron.Lexer.Keywords.identifier_type
    asteron.Lexer.Scanner.back asteron.Lexer.Scanner.make_token
    asteron.Lexer.Scanner.make_token_length asteron.Lexer.Scanner.error_token
    asteron.Lexer.Scanner.slice asteron.Lexer.Scanner.lexeme asteron.Lexer.Scanner.scan_identifier
    asteron.Lexer.Scanner.scan_fraction asteron.Lexer.Scanner.scan_number
    asteron.Lexer.Scanner.string_token asteron.Lexer.Scanner.annotation_type
    asteron.Lexer.Scanner.annotation asteron.Lexer.Scanner.single asteron.Lexer.Scanner.double_or
    asteron.Lexer.Scanner.punctuation asteron.Lexer.Scanner.lexer_create
    asteron.Lexer.Scanner.dispatch asteron.Lexer.Scanner.lexer_next_token asteron.Ast.is_null
    asteron.Ast.annotation_create asteron.Ast.add_name asteron.Ast.annotation_add_dependency
    asteron.Ast.ast_variable_declaration_with_type asteron.Ast.ast_identifier
    asteron.Ast.append_node asteron.Utils.Unescape.is_space asteron.Utils.Unescape.hex_digit
    asteron.Utils.Unescape.hex_byte asteron.Utils.Unescape.simple_escape
    asteron.Utils.Unescape.unescape asteron.Utils.Unescape.without_quote
    asteron.Utils.Unescape.strip_quotes asteron.Utils.Unescape.string_unescape
    asteron.Interpreter.Values.c_string asteron.Interpreter.Values.value_string
    asteron.Interpreter.Values.value_is_string asteron.Interpreter.Values.value_to_chars
    asteron.Interpreter.Values.is_number asteron.Interpreter.Values.as_number
    asteron.Interpreter.Values.is_true asteron.Interpreter.Values.value_print
    asteron.Interpreter.Environment.find_entry asteron.Interpreter.Environment.replace_entry
    asteron.Interpreter.Environment.environment_create
    asteron.Interpreter.Environment.environment_has asteron.Interpreter.Environment.environment_set
    asteron.Interpreter.Environment.environment_get asteron.Interpreter.Environment.last_first
    asteron.Interpreter.Environment.remove_entry asteron.Interpreter.Environment.environment_remove
    asteron.Interpreter.Environment.frame_push asteron.Interpreter.Environment.frame_pop
    asteron.Interpreter.Stack.stack_push asteron.Interpreter.Stack.stack_pop
    asteron.Interpreter.Stack.stack_peek asteron.Interpreter.Functions.function_table_get
    asteron.Interpreter.Functions.replace_function asteron.Interpreter.Functions.function_table_set
    asteron.Interpreter.Functions.vm_find_native
    asteron.Interpreter.Functions.value_to_asteron_value
    asteron.Interpreter.Functions.asteron_value_to_value asteron.Interpreter.Evaluate.literal_value
    asteron.Interpreter.Evaluate.unary_value asteron.Interpreter.Evaluate.text_of
    asteron.Interpreter.Evaluate.plus_value asteron.Interpreter.Evaluate.equal_values
    asteron.Interpreter.Evaluate.operation_value asteron.Interpreter.Evaluate.binary_value
    asteron.Interpreter.Calls.count_nodes asteron.Interpreter.Calls.set_parameters
    asteron.Interpreter.Calls.push_parameters asteron.Interpreter.Calls.evaluate_all
    asteron.Interpreter.Calls.return_expression asteron.Interpreter.Calls.body_statements
    asteron.Interpreter.Calls.function_body asteron.Interpreter.Calls.call_function
    asteron.Interpreter.Calls.call_native asteron.Interpreter.Calls.callee
    asteron.Interpreter.Calls.identifier_value asteron.Interpreter.Calls.call_value
    asteron.Interpreter.Calls.expression_body asteron.Interpreter.Execute.set_variable
    asteron.Interpreter.Execute.declare_function asteron.Interpreter.Execute.print_value
    asteron.Interpreter.Execute.unless_returned asteron.Interpreter.Execute.if_body
    asteron.Interpreter.Execute.while_loop asteron.Interpreter.Execute.increment_body
    asteron.Interpreter.Execute.for_loop asteron.Interpreter.Execute.block_statements
    asteron.Interpreter.Execute.statement_body
    asteron.Interpreter.Execute.interpreter_evaluate_expression
    asteron.Interpreter.Execute.interpreter_execute_statement
    asteron.Interpreter.Execute.top_statements asteron.Interpreter.Execute.interpreter_execute
    asteron.Vm.Bytecode.find_name asteron.Vm.Bytecode.set_target asteron.Vm.Bytecode.same_constant
    asteron.Vm.Bytecode.find_constant asteron.Vm.Bytecode.add_constant
    asteron.Vm.Bytecode.add_variable asteron.Vm.Bytecode.emit_instruction
    asteron.Vm.Bytecode.patch_target asteron.Vm.Symbols.replace_symbol
    asteron.Vm.Symbols.compiler_add_symbol asteron.Vm.Symbols.compiler_is_local
    asteron.Vm.Symbols.binary_op asteron.Vm.Symbols.unary_op asteron.Vm.Compiler.emit
    asteron.Vm.Compiler.emit_constant asteron.Vm.Compiler.emit_variable asteron.Vm.Compiler.patch
    asteron.Vm.Compiler.literal_constant asteron.Vm.Compiler.compile_identifier
    asteron.Vm.Compiler.store_declared asteron.Vm.Compiler.store_assigned
    asteron.Vm.Compiler.return_code asteron.Vm.Compiler.if_code asteron.Vm.Compiler.if_else_code
    asteron.Vm.Compiler.while_code asteron.Vm.Compiler.increment_code asteron.Vm.Compiler.for_code
    asteron.Vm.Compiler.compile_node asteron.Vm.Compiler.compile_nodes
    asteron.Vm.Compiler.compiler_compile asteron.Vm.Machine.trace_start_record
    asteron.Vm.Machine.trace_record_step asteron.Vm.Machine.vm_create asteron.Vm.Machine.push
    asteron.Vm.Machine.pop asteron.Vm.Machine.pop_two asteron.Vm.Machine.push_result
    asteron.Vm.Machine.binary_step asteron.Vm.Machine.unary_step
    asteron.Vm.Operations.constant_value asteron.Vm.Operations.joined_text
    asteron.Vm.Operations.add_values asteron.Vm.Operations.sub_values
    asteron.Vm.Operations.mul_values asteron.Vm.Operations.div_values
    asteron.Vm.Operations.equal_operands asteron.Vm.Operations.ordered_number
    asteron.Vm.Operations.ordered asteron.Vm.Operations.neg_value asteron.Vm.Steps.heated
    asteron.Vm.Steps.load_const_step asteron.Vm.Steps.load_var_step asteron.Vm.Steps.load_local_step
    asteron.Vm.Steps.store_var_step asteron.Vm.Steps.store_local_step asteron.Vm.Steps.add_step
    asteron.Vm.Steps.equality asteron.Vm.Steps.print_step asteron.Vm.Steps.pop_step
    asteron.Vm.Steps.release_step asteron.Vm.Steps.jump_step asteron.Vm.Steps.jump_if_false_step
    asteron.Vm.Steps.halt_step asteron.Vm.Steps.op_step asteron.Vm.Calls.if_returned
    asteron.Vm.Calls.vm_body_statements asteron.Vm.Calls.vm_function_body asteron.Vm.Calls.pop_args
    asteron.Vm.Calls.target_argc asteron.Vm.Calls.native_step asteron.Vm.Calls.function_step
    asteron.Vm.Calls.named_call asteron.Vm.Calls.call_step asteron.Vm.Run.vm_step
    asteron.Vm.Run.run_loop asteron.Vm.Run.vm_execute asteron.Vm.Run.vm_execute_range
    asteron.Vm.Run.vm_take_snapshot asteron.Vm.Run.vm_restore_snapshot
runs = (refl, refl, refl, refl, refl, refl)

-- `print` in a loop, and an `if` with both branches.
abbrev branches : Node
branches =
    while_statement (binary_expression (identifier (codes "x") false) lt (number_node "3")) (
      if_statement (identifier (codes "x") false) (print_statement sum [])
        (print_statement null []))

branches_compiled :
    compiler_compile branches
    ≡ some (emit OpCode.halt 0 (compile_node branches (new_compiler {n = whole}))).program
unfolding compiler_compile
branches_compiled = refl

compiled_example :
    IsSafe (emit OpCode.halt 0 (compile_node branches (new_compiler {n = whole}))).program
compiled_example = compiler_compile-IsSafe branches _ branches_compiled

whole-DistinctLiterals : DistinctLiterals whole
whole-DistinctLiterals a b h = ==→eq _ _ h

abbrev sum_machine : Vm whole
sum_machine =
    record (vm_create (emit OpCode.halt 0 (compile_node sum new_compiler)).program no_trace
      (idle_interpreter [])) { env = one_scope }

sum-NoRelease : NoRelease sum
unfolding NoRelease
sum-NoRelease = (tt, (tt, refl))

sum_compiled : compiler_compile sum ≡ some sum_machine.program
unfolding compiler_compile vm_create
sum_compiled = refl

not_recording : sum_machine.recorder.is_recording ≡ false
unfolding vm_create
not_recording = refl

correct_example :
    (interpreter_evaluate_expression [] (depth sum) sum (idle_interpreter one_scope)
      ≡ done (number 7) (idle_interpreter one_scope))
    × (last : ℕ) × (get_elem? sum_machine.program.instructions last
        ≡ some (record { op = OpCode.halt; operand = 0 }))
    × Reaches [] 5 (at sum_machine 0 []) (at sum_machine last (number 7 ∷ []))
correct_example =
    compiler_compile-interpreter [] 5 sum (number 7) (idle_interpreter one_scope) sum_machine
      whole-DistinctLiterals sum-NoRelease sum-meaning sum_compiled (λ x. refl) not_recording
