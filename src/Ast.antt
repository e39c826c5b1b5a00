-- ===== src/Ast.antt =====
-- src/core/ast/ast.h and src/core/ast/ast.c: the syntax tree. A null pointer to a node is the
-- constructor `null`, an array of nodes is `Nodes`, and the functions that allocate a node are the
-- constructors. Of a node the fields for the types, the marks and the versions of other passes are
-- left out, except `escapes` and `is_last_use`, which the compiler reads.
use asteron.Prelude.{ℕ, Bool, true, false, Option, List, [], ◌∷◌, bytes_eq, if◌then◌else◌}
use asteron.Lexer.Token.{TokenType}

pub data TypeName : Type 0 where
  int float bool string void unknown error : TypeName

pub data AnnotationType : Type 0 where
  parallel depends async cache pure memoize lazy hot inline noopt : AnnotationType

pub record Annotation : Type 0 where
  pub kind : AnnotationType
  pub dependencies : List (List ℕ)

-- A number keeps its text: the value is what `strtod` reads.
pub data Literal : Type 0 where
  number : List ℕ → Literal
  text : List ℕ → Literal
  boolean : Bool → Literal

mutual
  pub data Node : Type 0 where
    null : Node
    literal : Literal → Node
    identifier : List ℕ → Bool → Node
    unary_expression : TokenType → Node → Node
    binary_expression : Node → TokenType → Node → Node
    function_call : List ℕ → Nodes → Node
    variable_declaration : List ℕ → Node → Option TypeName → Bool → List Annotation → Node
    assignment : List ℕ → Node → Node
    print_statement : Node → List Annotation → Node
    if_statement : Node → Node → Node → Node
    while_statement : Node → Node → Node
    for_statement : Node → Node → Node → Node → Node
    function_declaration : List ℕ → List (List ℕ) → Node → Node
    return_statement : Node → Node
    block : Nodes → Node
    import_statement : List ℕ → List (List ℕ × Option (List ℕ)) → Node

  pub data Nodes : Type 0 where
    no_nodes : Nodes
    node : Node → Nodes → Nodes

-- `node == NULL`
unfoldable pub is_null : Node → Bool
is_null null = true
is_null _ = false

unfoldable pub annotation_create : AnnotationType → Annotation
annotation_create kind = record { kind = kind; dependencies = [] }

-- The new dependency behind the others, if no other has its name.
unfoldable pub add_name : List (List ℕ) → List ℕ → List (List ℕ)
add_name [] dep = dep ∷ []
add_name (d ∷ ds) dep = if bytes_eq d dep then d ∷ ds else d ∷ add_name ds dep

unfoldable pub annotation_add_dependency : Annotation → List ℕ → Annotation
unfolding add_name
annotation_add_dependency a dep = record a { dependencies = add_name a.dependencies dep }

-- `ast_variable_declaration_with_type` leaves `escapes` at the zero of the cleared node.
unfoldable pub ast_variable_declaration_with_type :
    List ℕ → Node → Option TypeName → List Annotation → Node
ast_variable_declaration_with_type name value type_info annotations =
    variable_declaration name value type_info false annotations

unfoldable pub ast_identifier : List ℕ → Node
ast_identifier name = identifier name false

-- `ast_block_add_statement`: the array of a block grows at its end.
unfoldable pub append_node : Nodes → Node → Nodes
append_node no_nodes n = node n no_nodes
append_node (node m ms) n = node m (append_node ms n)
