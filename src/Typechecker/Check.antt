-- ===== src/Typechecker/Check.antt =====
-- src/core/typechecker/typechecker.c: the checker, and `check_node`. The types that the code writes on
-- the nodes, which the check does not read, are kept in a list. The failure to allocate the checker is
-- left out, and so is the end of the range of `error_count`. The declared type of a function's result is
-- never set by the parser.
use asteron.Prelude.{
  ℕ, ◌+◌, Bool, true, false, ◌&&◌, ◌||◌, Option, none, some, List, [], ◌∷◌, if◌then◌else◌,
}
use asteron.Lexer.Token.{TokenType, plus, minus, not}
use asteron.Ast.{
  TypeName, int, float, bool, string, void, unknown, error, Node, Nodes, literal, identifier,
  unary_expression, binary_expression, function_call, variable_declaration, print_statement,
  if_statement, while_statement, for_statement, function_declaration, return_statement, block,
  no_nodes, node,
}
use asteron.Parser.Source.{same_type}
use asteron.Typechecker.Types.{
  is, types_compatible, is_numeric, is_arithmetic, is_comparison, is_logical,
}
use asteron.Typechecker.Infer.{infer_type_from_literal}

pub data TypeMessage : Type 0 where
  needs_numbers incompatible_comparison needs_booleans needs_boolean needs_number : TypeMessage
  if_condition while_condition for_condition : TypeMessage
  incompatible : TypeName → TypeName → TypeMessage

pub record TypeInfo : Type 0 where
  pub kind : TypeName
  pub is_inferred : Bool

-- The messages with their lines and the noted types, the last one first.
pub record TypeChecker : Type 0 where
  pub had_error : Bool
  pub error_count : ℕ
  pub messages : List (ℕ × TypeMessage)
  pub noted : List TypeInfo

unfoldable pub typechecker_create : TypeChecker
typechecker_create = record { had_error = false; error_count = 0; messages = []; noted = [] }

unfoldable pub type_error : TypeChecker → ℕ → TypeMessage → TypeChecker
type_error c line message = record c {
  had_error = true;
  error_count = c.error_count + 1;
  messages = (line, message) ∷ c.messages;
}

abbrev pub note : TypeName → Bool → TypeChecker → TypeChecker
note t inferred c = record c { noted = record { kind = t; is_inferred = inferred } ∷ c.noted }

-- The outcome of the tests on an operator: the type of the result, or the message.
pub data Verdict : Type 0 where
  typed : TypeName → Verdict
  refused : TypeMessage → Verdict

unfoldable pub settle : Verdict → ℕ → TypeChecker → TypeName × TypeChecker
unfolding type_error
settle (typed t) line c = (t, note t true c)
settle (refused message) line c = (error, note error false (type_error c line message))

-- The two tests for a sum with a text.
unfoldable pub is_joined : TypeName → TypeName → Bool
unfolding is_numeric
is_joined l r =
    ((is l string || is l unknown) && (is r string || is_numeric r))
    || (is_numeric l && (is r string || is r unknown))

unfoldable pub arithmetic_verdict : TokenType → TypeName → TypeName → Verdict
unfolding same_type is_joined is_numeric
arithmetic_verdict op l r =
    if same_type op plus && is_joined l r
    then typed string
    else if is_numeric l && is_numeric r
    then if is l unknown || is r unknown
      then typed unknown
      else if is l float || is r float
      then typed float
      else typed int
    else refused needs_numbers

unfoldable pub comparison_verdict : TypeName → TypeName → Verdict
unfolding types_compatible
comparison_verdict l r =
    if is l unknown || is r unknown
    then typed unknown
    else if types_compatible l r
    then typed bool
    else refused incompatible_comparison

unfoldable pub logical_verdict : TypeName → TypeName → Verdict
logical_verdict l r =
    if is l unknown || is r unknown
    then typed unknown
    else if is l bool && is r bool
    then typed bool
    else refused needs_booleans

unfoldable pub binary_verdict : TokenType → TypeName → TypeName → Verdict
unfolding arithmetic_verdict comparison_verdict logical_verdict is_arithmetic is_comparison
    is_logical
binary_verdict op l r =
    if is_arithmetic op
    then arithmetic_verdict op l r
    else if is_comparison op
    then comparison_verdict l r
    else if is_logical op
    then logical_verdict l r
    else typed unknown

unfoldable pub unary_verdict : TokenType → TypeName → Verdict
unfolding same_type is_numeric
unary_verdict op t =
    if same_type op not
    then if is t unknown
      then typed unknown
      else if is t bool
      then typed bool
      else refused needs_boolean
    else if same_type op minus
    then if is_numeric t then typed t else refused needs_number
    else typed t

-- A declaration whose value has the type `t`.
unfoldable pub declare : Option TypeName → TypeName → ℕ → TypeChecker → TypeName × TypeChecker
unfolding types_compatible type_error
declare (some declared) t line c =
    if types_compatible declared t
    then (declared, note declared false c)
    else (error, note error false (type_error c line (incompatible declared t)))
declare none t line c =
    if is t unknown || is t error then (unknown, note unknown true c) else (t, note t true c)

unfoldable pub check_condition : TypeMessage → ℕ → TypeName × TypeChecker → TypeChecker
unfolding type_error is_numeric
check_condition message line (t, c) =
    if is t bool || is_numeric t then c else type_error c line message

-- A null node changes nothing and has the unknown type, which every test passes: the tests for a null
-- branch of the code are left to it.
unfoldable mutual
  pub check_node : (List ℕ → Bool) → Node → ℕ → TypeChecker → TypeName × TypeChecker
  check_node w (literal v) line c = settle (typed (infer_type_from_literal w v)) line c
  check_node w (binary_expression left op right) line c =
      let (l, after_left) = check_node w left line c in
      let (r, after_right) = check_node w right line after_left in
      settle (binary_verdict op l r) line after_right
  check_node w (unary_expression op operand) line c =
      let (t, after) = check_node w operand line c in settle (unary_verdict op t) line after
  check_node w (identifier name is_last_use) line c = settle (typed unknown) line c
  check_node w (function_call name args) line c = settle (typed unknown) line c
  check_node w (variable_declaration name value type_info escapes annotations) line c =
      let (t, after) = check_node w value line c in declare type_info t line after
  check_node w (if_statement condition then_branch else_branch) line c =
      let tested = check_condition if_condition line (check_node w condition line c) in
      (void, (check_node w else_branch line (check_node w then_branch line tested).1).1)
  check_node w (while_statement condition body) line c =
      let tested = check_condition while_condition line (check_node w condition line c) in
      (void, (check_node w body line tested).1)
  check_node w (for_statement init condition increment body) line c =
      let started = (check_node w init line c).1 in
      let tested = check_condition for_condition line (check_node w condition line started) in
      (void, (check_node w body line (check_node w increment line tested).1).1)
  check_node w (print_statement e annotations) line c = (void, (check_node w e line c).1)
  check_node w (return_statement value) line c = (void, (check_node w value line c).1)
  check_node w (function_declaration name parameters body) line c =
      (void, (check_node w body line c).1)
  check_node w (block statements) line c = (void, check_nodes w statements line c)
  check_node w _ line c = (unknown, c)

  pub check_nodes : (List ℕ → Bool) → Nodes → ℕ → TypeChecker → TypeChecker
  check_nodes w no_nodes line c = c
  check_nodes w (node n ns) line c = check_nodes w ns line (check_node w n line c).1

-- Whether there was an error, from line 1 on.
unfoldable pub typechecker_check : (List ℕ → Bool) → Node → Bool
unfolding check_node typechecker_create
typechecker_check w ast = (check_node w ast 1 typechecker_create).1.had_error
