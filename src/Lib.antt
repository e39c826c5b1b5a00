-- ===== src/Lib.antt =====
-- A model of the core of the Asteron runtime, a C program: an interpreter of a small reactive
-- language with its own memory management.
--
-- The parts and how they interact. A source text goes through the lexer (src/core/lexer), which the
-- command line (src/main.c) first drives alone, to list the tokens, and then hands to the parser
-- (src/core/parser), which makes the tree of src/core/ast. The tree is checked by the type checker
-- (src/core/typechecker), and is compiled for the virtual machine (src/core/vm), or run by the
-- interpreter (src/core/interpreter), which the machine also calls for the bodies of functions. The
-- borrow checker (src/core/memory/ownership.c) is told of each variable, borrow, move and drop, and
-- answers with an error or grants the call. The regions (src/core/memory/region_memory.c) hand out
-- blocks of memory that are freed together; the zero-copy buffers lie in them. The sandboxes
-- (src/core/sandbox/sandbox.c) wrap a virtual machine and answer whether an operation is permitted. The
-- module cache (src/modules/cache.c) keeps compiled modules by the path of their source.
--
-- Which file models which part.
--   Prelude: numbers, Boolean tests, lists, bytes and words that the parts share.
--   Lexer.Token: the types of lexer.h and token_type_to_string. Lexer.Keywords: is_alpha, is_digit,
--     identifier_type. Lexer.Cursor: peek, peek_next, advance, skip_whitespace, the loop of
--     string_token. Lexer.Scanner: make_token to lexer_next_token, with `identifier` and `number` of
--     the source as scan_identifier and scan_number and `match` as double_or. Lexer.Stream: the loop of
--     main. Below these: Lexer.Keywords.Table (an independent table of keywords), Lexer.Cursor.Moves,
--     Lexer.Scanner.Advance, Words, Cases and Lines (proofs).
--   Utils.Unescape: string_unescape of src/utils/utils.c. Ast: the nodes of ast.h and the functions of
--     ast.c that do more than allocate one.
--   Parser.Source: an interface, TokenSource, of what the parser asks of its tokens: the next one, and a
--     number of tokens left that goes down.
--     Parser.Moves: the struct Parser, advance, check, match, consume. Parser.Expressions:
--     parse_factor to parse_expression. Parser.Annotations: parse_annotation and the loop over the
--     annotations of a statement. Parser.Statements, Parser.Program: parse_statement, one function for
--     each branch, and parser_parse. Parser.Lexing: the lexer as a TokenSource, and the parse of a
--     text. Below these: Spends, Total, Blocks and Errors (proofs on how many tokens each function
--     passes, and on the error flag).
--   Outcome: the results of functions that read and write one state, which may end in an access that the
--     language leaves undefined, or run out of fuel.
--   Typechecker (src/core/typechecker/typechecker.c). Typechecker.Types: types_compatible and the groups
--     of operators. Typechecker.Infer: infer_type_from_expression. Typechecker.Check: check_node, one
--     function for the tests of each kind of operator. Typechecker.Errors, Operators, Results, Values,
--     Numeric, Logical, Inferred: proofs.
--   Interpreter (src/core/interpreter). Interpreter.Values: the values, over an interface, Numbers, of what
--     the code uses of floating point. Interpreter.Environment: the scopes. Interpreter.Stack.
--     Interpreter.Functions: the function table, and the registered native functions of vm.c.
--     Interpreter.Evaluate, Interpreter.Calls, Interpreter.Execute: interpreter_evaluate_expression and
--     interpreter_execute_statement, one function for each kind of node, to interpreter_execute.
--     Interpreter.Meaning: a specification of the values of expressions. Interpreter.Silent, Scopes,
--     Returns: proofs.
--   Vm (src/core/vm). Vm.Bytecode, Vm.Symbols, Vm.Compiler: compiler.c. Vm.Machine: the struct VM and the
--     recorder of traces. Vm.Operations, Vm.Steps, Vm.Calls: the cases of vm_step. Vm.Run: vm_step, the
--     loops, the snapshot. Vm.Compiler.Closed, Shapes, Targets, Extends, Expressions, Vm.Reaches,
--     Vm.Pushes, Vm.Loads, Vm.Correct: proofs.
--   Ownership.Types: ownership.h. Ownership.Table: create, add_error, add_var, get_ownership.
--     Ownership.Lifetimes: scopes and lifetimes. Ownership.Checker: the operations borrow_checker_borrow
--     to borrow_checker_unborrow and verify, from a checker to a checker and a result; what follows a
--     null test is a function of its own (borrow_var, move_var). Ownership.Views: the slices. Below
--     Checker: Invariant, Release, Preserve, History, Moves, Protocol (proofs).
--   Region.Types: region_memory.h. Region.Alloc: align_size, region_alloc, the states. Region.Manager:
--     the list of regions and region_create to region_prepare_for_io. Region.Buffers: the buffers,
--     region_finish_io and what region_destroy frees. Region.Io: the whole exchange.
--   Sandbox.Types: sandbox.h. Sandbox.Context: one context, from sandbox_create to
--     sandbox_clear_violations. Sandbox.Manager: the table of contexts and its destruction.
--   Cache.Version: the versions of cache.h. Cache.Types, Cache.Store: the entries, the hash, the list of
--     last uses and cache_lookup. Cache.Calls: cache_put, evict_lru, cache_invalidate, cache_is_valid.
--     Cache.Gets: cache_get. Cache.Clears: cache_clear.
--     Cache.Chains, Cache.Puts, Cache.Uses: proofs on the chains of the buckets and on the list.
--     An entry is known by its place in the store of all entries ever made.
--
-- Conventions. A pointer into the source text is an offset, and the byte behind the last one is the
-- terminator. A pointer to a region is its number, an address is a number, and `none` is the null
-- pointer. A table with its count is a list; the capacity that the code doubles is kept where it is a
-- field. Wrap-around is written out for size_t, uint32_t and uint64_t; `int line` is taken to stay
-- below 2^31. The source bytes are those of an ASCII or UTF-8 text; letters are compared as bytes.
-- A call on a null receiver and a failure to allocate a descriptor are outside the model; failure of
-- the memory of a region is an argument, and so is the clock.
--
-- Fuel. The loops of the lexer run on one more round than unread bytes, which is enough since each
-- round moves forward; the loop of main on one more call than the source has bytes.
-- The functions of the parser run on one more level, or one more round, than tokens are left: an inner
-- call stands behind a token that is passed. The loop of a block takes twice as many rounds, as a
-- round that recovers from an error may pass no token.
-- The interpreter and the machine run programs that need not end: their fuel is an argument.
-- The loop over the table of sandboxes runs on one more round than contexts, and each round takes one
-- away. The walks of the cache run on one more step than entries were ever made, and its evictions on
-- one more round than entries are counted; an eviction from an empty list changes nothing, and there
-- the loop of the code has no end.
--
-- Not modelled: files, the arithmetic of floating point (the interface Numbers), the bytes of region
-- memory, error texts of the borrow checker (line, kind and name are kept), Box and the destructors,
-- which only free; the counts of references of the interpreter's objects, and a function that declares
-- its own name again while it runs; what a native function does besides giving a value; and the
-- optimizer, graph, reactive runtime, schedulers, loader, native modules and servers.
pub mod Prelude
pub mod Outcome
pub mod Lexer
pub mod Utils
pub mod Ast
pub mod Parser
pub mod Typechecker
pub mod Interpreter
pub mod Vm
pub mod Ownership
pub mod Region
pub mod Sandbox
pub mod Cache
