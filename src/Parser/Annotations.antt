-- ===== src/Parser/Annotations.antt =====
-- src/core/parser/parser.c: the names and the annotations before a statement.
pub mod Total
use asteron.Prelude.{
  ℕ, zero, suc, ◌+◌, Bool, true, false, Option, none, some, List, [], ◌∷◌, ◌++◌, if◌then◌else◌,
  bytes_eq, codes,
}
use asteron.Lexer.Token.{
  TokenType, annot_pure, annot_parallel, annot_async, annot_memoize, annot_lazy, annot_hot,
  annot_inline, annot_noopt, at, identifier, lparen, rparen, comma, while,
}
use asteron.Lexer.Token
use asteron.Ast.{null, Annotation, AnnotationType, annotation_create, annotation_add_dependency}
use asteron.Parser.Source.{TokenSource}
use asteron.Outcome.{done, fault, out_of_fuel, null_dereference, ◌>>=◌, ◌>>◌, return}
use asteron.Parser.Moves.{Parsing, advance, check, check_any, match, consume, rest}

abbrev pub Text : Type 0
Text = List ℕ

-- The names behind an `@`; any other name has no annotation.
unfoldable pub annotation_named : Text → Option AnnotationType
annotation_named name =
    if bytes_eq name (codes "parallel")
    then some AnnotationType.parallel
    else if bytes_eq name (codes "async")
    then some AnnotationType.async
    else if bytes_eq name (codes "cache")
    then some AnnotationType.cache
    else if bytes_eq name (codes "pure")
    then some AnnotationType.pure
    else if bytes_eq name (codes "memoize")
    then some AnnotationType.memoize
    else if bytes_eq name (codes "lazy")
    then some AnnotationType.lazy
    else if bytes_eq name (codes "hot")
    then some AnnotationType.hot
    else if bytes_eq name (codes "inline")
    then some AnnotationType.inline
    else if bytes_eq name (codes "noopt")
    then some AnnotationType.noopt
    else none

-- The annotation that one token stands for.
unfoldable pub annotation_token : TokenType → Option AnnotationType
annotation_token annot_pure = some AnnotationType.pure
annotation_token annot_parallel = some AnnotationType.parallel
annotation_token annot_async = some AnnotationType.async
annotation_token annot_memoize = some AnnotationType.memoize
annotation_token annot_lazy = some AnnotationType.lazy
annotation_token annot_hot = some AnnotationType.hot
annotation_token annot_inline = some AnnotationType.inline
annotation_token annot_noopt = some AnnotationType.noopt
annotation_token _ = none

abbrev create_annotation : Option AnnotationType → Option Annotation
create_annotation none = none
create_annotation (some kind) = some (annotation_create kind)

abbrev pub annotation_tokens : List TokenType
annotation_tokens =
    at ∷ annot_pure ∷ annot_parallel ∷ annot_async ∷ annot_memoize ∷ annot_lazy ∷ annot_hot
    ∷ annot_inline ∷ annot_noopt ∷ []

-- The list of annotations with its first and its last pointer; the last one is null if a null was
-- linked.
pub data Chain : Type 0 where
  empty : Chain
  linked : List Annotation → Bool → Chain

abbrev pub chain_list : Chain → List Annotation
chain_list empty = []
chain_list (linked as' last) = as'

abbrev pub add_all : Annotation → List Text → Annotation
add_all a [] = a
add_all a (d ∷ ds) = add_all (annotation_add_dependency a d) ds

module _ (s : TokenSource) where
  open s use {State}

  abbrev pub fail : {A : Type 0} → A → Parsing s A
  fail a p = done a (record p { had_error = true })

  abbrev pub text_of_previous : Parsing s Text
  text_of_previous p = done p.previous.text p

  -- `consume(IDENTIFIER, …)` and then the text of the previous token, whatever it is.
  unfoldable pub expect_name : Parsing s Text
  expect_name = do consume s identifier; text_of_previous

  -- `while (match(COMMA))` over names, up to the end of the list.
  unfoldable pub more_names : ℕ → Parsing s (List Text)
  more_names zero p = out_of_fuel
  more_names (suc f) p =
      let more : Parsing s (List Text) = do
        name ← expect_name
        names ← more_names f
        return (name ∷ names)
      in if check s comma p then more (advance s p) else done [] p

  abbrev pub all_names : Parsing s (List Text)
  all_names p = more_names (rest s p + 1) p

  -- Names up to a closing parenthesis.
  unfoldable pub name_list : Parsing s (List Text)
  name_list p =
      let names : Parsing s (List Text) = do
        name ← expect_name
        others ← all_names
        return (name ∷ others)
      in if check s rparen p then done [] p else names p

  unfoldable pub dependencies : Parsing s (Option Annotation)
  dependencies = do
    names ← name_list
    consume s rparen
    return (some (add_all (annotation_create AnnotationType.depends) names))

  unfoldable pub depends_annotation : Parsing s (Option Annotation)
  depends_annotation p =
      if check s lparen p
      then dependencies (advance s p)
      else done (some (annotation_create AnnotationType.depends)) p

  unfoldable pub named_annotation : Parsing s (Option Annotation)
  named_annotation p =
      let name = p.current.text in
      if check s identifier p
      then (if bytes_eq name (codes "depends")
          then depends_annotation (advance s p)
          else done (create_annotation (annotation_named name)) (advance s p))
      else fail none p

  -- `parse_annotation`: none is the null pointer.
  unfoldable pub parse_annotation : Parsing s (Option Annotation)
  parse_annotation p =
      if check s at p
      then named_annotation (advance s p)
      else (if check_any s annotation_tokens p
          then done (create_annotation (annotation_token p.current.kind)) (advance s p)
          else done none p)

  -- A new annotation is linked behind the last one.
  unfoldable pub link_annotation : Chain → Option Annotation → Parsing s Chain
  link_annotation empty none p = done empty p
  link_annotation empty (some a) p = done (linked (a ∷ []) true) p
  link_annotation (linked as' true) (some a) p = done (linked (as' ++ a ∷ []) true) p
  link_annotation (linked as' true) none p = done (linked as' false) p
  link_annotation (linked as' false) o p = fault null_dereference

  -- `while (is_annotation_token(parser))`
  unfoldable pub annotation_loop : ℕ → Chain → Parsing s (List Annotation)
  annotation_loop zero c p = out_of_fuel
  annotation_loop (suc f) c p =
      let more : Parsing s (List Annotation) = do
        a ← parse_annotation
        longer ← link_annotation c a
        annotation_loop f longer
      in if check_any s annotation_tokens p then more p else done (chain_list c) p

  unfoldable pub parse_annotations : Parsing s (List Annotation)
  parse_annotations p = annotation_loop (rest s p + 1) empty p
