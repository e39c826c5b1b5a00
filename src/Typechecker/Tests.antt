-- ===== src/Typechecker/Tests.antt =====
-- Tests of the type checker, and its theorems at concrete data.
use asteron.Prelude.{
  ◌≤◌, arith, ℕ, ◌≡◌, refl, Bool, true, false, none, some, List, [], ◌∷◌, codes, String,
}
use asteron.Lexer.Token.{plus, minus, multiply, lt, eq, and}
use asteron.Ast.{
  int, Literal, Node, literal, identifier, binary_expression, variable_declaration, assignment,
}
use asteron.Interpreter.Values.{nil, number, value_string}
use asteron.Interpreter.Evaluate.{Report, literal_value}
use asteron.Interpreter.Meaning.{depth, meaning, operation_meaning, number_meaning}
use asteron.Outcome.{done}
use asteron.Interpreter.Execute.{interpreter_evaluate_expression}
use asteron.Interpreter.Tests.{whole, idle_interpreter, number_node}
use asteron.Typechecker.Types.{
  types_compatible, is_numeric, is_arithmetic, is_comparison, is_logical,
}
use asteron.Typechecker.Infer.{infer_type_from_literal, infer_type_from_expression}
use asteron.Typechecker.Check.{
  settle, declare, type_error, check_node, binary_verdict, is_joined, arithmetic_verdict,
  comparison_verdict, logical_verdict, typechecker_check, typechecker_create,
}
use asteron.Typechecker.Results.{HasType}
use asteron.Typechecker.Values.{typechecker_check-HasType}
use asteron.Typechecker.Logical.{typechecker_check-logical}
use asteron.Typechecker.Inferred.{HasOperators, typechecker_check-infer}

abbrev no_point : List ℕ → Bool
no_point t = elim t [ [] ↦ true | c ∷ cs ↦ elim cs [ [] ↦ true | _ ↦ false ] ]

abbrev text_node : String → Node
text_node s = literal (Literal.text (codes s))

abbrev boolean_node : Bool → Node
boolean_node b = literal (Literal.boolean b)

-- `let y: int = <value>`
abbrev declared : Node → Node
declared value = variable_declaration (codes "y") value (some int) false []

-- `1 + 2 * 3`
abbrev product_sum : Node
product_sum =
    binary_expression (number_node "1") plus
      (binary_expression (number_node "2") multiply (number_node "3"))

abbrev conjunction : Node
conjunction = binary_expression (boolean_node true) and (boolean_node false)

-- An integer cannot be compared with a float, only the other way round. A sum with a variable is taken
-- for a text, and so cannot be an `int`. Two texts may be compared, which gives no value. The value of
-- an assignment is not checked.
checks :
    (typechecker_check no_point (declared product_sum) ≡ false)
    × (typechecker_check no_point (binary_expression (number_node "1") lt (number_node "2.5"))
        ≡ true)
    × (typechecker_check no_point (binary_expression (number_node "2.5") lt (number_node "1"))
        ≡ false)
    × (typechecker_check no_point
          (declared (binary_expression (identifier (codes "x") false) plus (number_node "1")))
        ≡ true)
    × (typechecker_check no_point (binary_expression (text_node "a") eq (text_node "a")) ≡ false)
    × (meaning {n = whole} [] (binary_expression (text_node "a") eq (text_node "a")) ≡ none)
    × (typechecker_check no_point
          (assignment (codes "x") (binary_expression (text_node "a") minus (number_node "1")))
        ≡ false)
unfolding typechecker_check check_node settle declare type_error binary_verdict arithmetic_verdict
    comparison_verdict is_joined is_numeric types_compatible is_arithmetic is_comparison
    typechecker_create infer_type_from_literal meaning operation_meaning literal_value value_string
    asteron.Interpreter.Values.c_string asteron.Parser.Source.same_type
    asteron.Parser.Source.ordinal
checks = (refl, refl, refl, refl, refl, refl, refl)

product_sum-passes : typechecker_check no_point product_sum ≡ false
unfolding typechecker_check check_node settle binary_verdict arithmetic_verdict is_joined is_numeric
    is_arithmetic typechecker_create infer_type_from_literal asteron.Parser.Source.same_type
    asteron.Parser.Source.ordinal
product_sum-passes = refl

product_sum-meaning : meaning {n = whole} [] product_sum ≡ some (number 7)
unfolding meaning operation_meaning number_meaning literal_value
product_sum-meaning = refl

typed_example :
    HasType {n = whole} (number 7) (check_node no_point product_sum 1 typechecker_create).0
typed_example =
    typechecker_check-HasType no_point [] product_sum (number 7) (tt, (tt, tt)) product_sum-passes
      product_sum-meaning

conjunction-passes : typechecker_check no_point conjunction ≡ false
unfolding typechecker_check check_node settle binary_verdict logical_verdict is_arithmetic
    is_comparison is_logical typechecker_create infer_type_from_literal
    asteron.Parser.Source.same_type asteron.Parser.Source.ordinal
conjunction-passes = refl

and-logical : is_logical and ≡ true
unfolding is_logical asteron.Parser.Source.same_type asteron.Parser.Source.ordinal
and-logical = refl

conjunction-depth : depth conjunction ≤ 3
unfolding depth
conjunction-depth = omega arith

conjunction_example :
    (rs : List Report) × (interpreter_evaluate_expression [] 3 conjunction (idle_interpreter [])
      ≡ done nil (record (idle_interpreter []) { reports = Report.needs_numbers ∷ rs }))
conjunction_example =
    typechecker_check-logical no_point [] (boolean_node true) and (boolean_node false) 3
      (idle_interpreter []) tt tt and-logical conjunction-passes conjunction-depth

operators : HasOperators product_sum
unfolding is_arithmetic is_comparison is_logical asteron.Parser.Source.same_type
    asteron.Parser.Source.ordinal
operators = (refl, tt, (refl, tt, tt))

inferred_example :
    (check_node no_point product_sum 1 typechecker_create).0
    ≡ infer_type_from_expression no_point product_sum
inferred_example =
    typechecker_check-infer no_point product_sum (tt, (tt, tt)) operators product_sum-passes
