-- ===== src/Parser/Tests.antt =====
-- Tests of the parser on short texts, and its theorems at concrete data.
use asteron.Prelude.{ℕ, ◌≡◌, refl, Bool, true, false, Option, none, some, [], List, codes}
use asteron.Lexer.Token.{Lexer, TokenType, plus, multiply}
use asteron.Ast.{Node, identifier, binary_expression, no_nodes, node, block}
use asteron.Parser.Source.{Lexeme}
use asteron.Outcome.{Fault, Outcome, Ends, done, fault, buffer_overflow, null_dereference}
use asteron.Parser.Lexing.{parse_source}
use asteron.Parser.Lexing.Total.{IsParsed, parse_source-IsParsed}
use asteron.Parser.Moves.{Parser}

abbrev junk : Lexeme
junk = record { kind = TokenType.eof; text = []; line = 0 }

abbrev tree_of : Outcome (Parser Lexer) Node → Option Node
tree_of (done n p) = some n
tree_of _ = none

abbrev fault_of : Outcome (Parser Lexer) Node → Option Fault
fault_of (fault e) = some e
fault_of _ = none

abbrev error_of : Outcome (Parser Lexer) Node → Bool
error_of (done n p) = p.had_error
error_of _ = false

abbrev name : List ℕ → Node
name s = identifier s false

-- A product binds stronger than a sum, and sums group to the left. The array of parameters has four
-- places. An annotation that is not known is linked as a null pointer, and the next one is linked
-- behind it. An assignment is not an expression, so it cannot be the step of a loop.
parses :
    (tree_of (parse_source (codes "a + b * c + d") junk)
      ≡ some (
          block (
            node
              (binary_expression
                (binary_expression
                  (name (codes "a"))
                  plus
                  (binary_expression (name (codes "b")) multiply (name (codes "c"))))
                plus
                (name (codes "d")))
              no_nodes)))
    × (fault_of (parse_source (codes "function f(a, b, c, d, e) { return a; }") junk)
        ≡ some buffer_overflow)
    × (fault_of (parse_source (codes "@pure @other @hot let a = 1;") junk) ≡ some null_dereference)
    × (error_of (parse_source (codes "for (let i = 0; i < 3; i = i + 1) { print(i); }") junk)
        ≡ true)
unfolding asteron.Parser.Source.ordinal asteron.Parser.Source.same_type asteron.Parser.Source.weight
    asteron.Parser.Moves.advance asteron.Parser.Moves.check asteron.Parser.Moves.check_any
    asteron.Parser.Moves.match asteron.Parser.Moves.consume asteron.Parser.Moves.rest
    asteron.Parser.Moves.parser_create asteron.Parser.Expressions.more_arguments
    asteron.Parser.Expressions.arguments asteron.Parser.Expressions.call
    asteron.Parser.Expressions.name_factor asteron.Parser.Expressions.not_factor
    asteron.Parser.Expressions.group asteron.Parser.Expressions.factor_body
    asteron.Parser.Expressions.operators asteron.Parser.Expressions.level
    asteron.Parser.Expressions.parse_factor asteron.Parser.Expressions.parse_expression
    asteron.Parser.Annotations.annotation_named asteron.Parser.Annotations.annotation_token
    asteron.Parser.Annotations.expect_name asteron.Parser.Annotations.more_names
    asteron.Parser.Annotations.name_list asteron.Parser.Annotations.dependencies
    asteron.Parser.Annotations.depends_annotation asteron.Parser.Annotations.named_annotation
    asteron.Parser.Annotations.parse_annotation asteron.Parser.Annotations.link_annotation
    asteron.Parser.Annotations.annotation_loop asteron.Parser.Annotations.parse_annotations
    asteron.Parser.Statements.parse_type asteron.Parser.Statements.store_parameters
    asteron.Parser.Statements.function_statement asteron.Parser.Statements.return_value
    asteron.Parser.Statements.return_rest asteron.Parser.Statements.optional_type
    asteron.Parser.Statements.let_statement asteron.Parser.Statements.parenthesized
    asteron.Parser.Statements.print_rest asteron.Parser.Statements.else_branch
    asteron.Parser.Statements.if_rest asteron.Parser.Statements.while_rest
    asteron.Parser.Statements.for_init asteron.Parser.Statements.skip_if_null
    asteron.Parser.Statements.for_condition asteron.Parser.Statements.for_increment
    asteron.Parser.Statements.for_rest asteron.Parser.Statements.is_recovery_point
    asteron.Parser.Statements.skip_tokens asteron.Parser.Statements.recover
    asteron.Parser.Statements.block_loop asteron.Parser.Statements.block_rest
    asteron.Parser.Program.dotted asteron.Parser.Program.import_rest asteron.Parser.Program.alias
    asteron.Parser.Program.import_symbols asteron.Parser.Program.from_rest
    asteron.Parser.Program.expression_statement asteron.Parser.Program.keyword_statement
    asteron.Parser.Program.assigned asteron.Parser.Program.identifier_statement
    asteron.Parser.Program.annotated_statement asteron.Parser.Program.statement_on
    asteron.Parser.Program.parse_statement asteron.Parser.Program.program_loop
    asteron.Parser.Program.parser_parse asteron.Parser.Lexing.token_bytes
    asteron.Parser.Lexing.parse_source asteron.Lexer.Cursor.peek asteron.Lexer.Cursor.peek_next
    asteron.Lexer.Cursor.advance asteron.Lexer.Cursor.unread asteron.Lexer.Cursor.loop
    asteron.Lexer.Cursor.run_loop asteron.Lexer.Cursor.while_step asteron.Lexer.Cursor.advance_while
    asteron.Lexer.Cursor.is_in_comment asteron.Lexer.Cursor.whitespace_step
    asteron.Lexer.Cursor.skip_whitespace asteron.Lexer.Cursor.string_step
    asteron.Lexer.Cursor.string_body asteron.Lexer.Keywords.is_alpha asteron.Lexer.Keywords.is_digit
    asteron.Lexer.Keywords.is_alphanumeric asteron.Lexer.Keywords.identifier_type
    asteron.Lexer.Scanner.back asteron.Lexer.Scanner.make_token
    asteron.Lexer.Scanner.make_token_length asteron.Lexer.Scanner.error_token
    asteron.Lexer.Scanner.slice asteron.Lexer.Scanner.lexeme asteron.Lexer.Scanner.scan_identifier
    asteron.Lexer.Scanner.scan_fraction asteron.Lexer.Scanner.scan_number
    asteron.Lexer.Scanner.string_token asteron.Lexer.Scanner.annotation_type
    asteron.Lexer.Scanner.annotation asteron.Lexer.Scanner.single asteron.Lexer.Scanner.double_or
    asteron.Lexer.Scanner.punctuation asteron.Lexer.Scanner.lexer_create
    asteron.Lexer.Scanner.dispatch asteron.Lexer.Scanner.lexer_next_token asteron.Ast.is_null
    asteron.Ast.annotation_create asteron.Ast.add_name asteron.Ast.annotation_add_dependency
    asteron.Ast.ast_variable_declaration_with_type asteron.Ast.ast_identifier
    asteron.Ast.append_node asteron.Utils.Unescape.is_space asteron.Utils.Unescape.hex_digit
    asteron.Utils.Unescape.hex_byte asteron.Utils.Unescape.simple_escape
    asteron.Utils.Unescape.unescape asteron.Utils.Unescape.without_quote
    asteron.Utils.Unescape.strip_quotes asteron.Utils.Unescape.string_unescape
parses = (refl, refl, refl, refl)

parse_example :
    Ends IsParsed (parse_source (codes "let x = 1; if (x > 2) print(x) else { x = !x; }") junk)
parse_example = parse_source-IsParsed (codes "let x = 1; if (x > 2) print(x) else { x = !x; }") junk
