-- ===== src/Ast/Kinds.antt =====
-- The branches of AST::transform_node_iter (src/common/ast.cpp), by the name of a node.
use gvn.Prelude.{Bool, if◌then◌else◌, is_eq}
use gvn.Prelude.Texts.{Text, text, Text-discrete}

-- `_STR_EQ`
abbrev pub str_eq : Text → Text → Bool
str_eq a b = is_eq Text-discrete a b

-- The branches of transform_node_iter.
pub data Kind : Type 0 where
  program declaration var_decl fun_decl param compound_stmt statement expression_statement : Kind
  selection_stmt iteration_stmt return_statement expression var simple_expression : Kind
  additive_expression term factor call other : Kind

-- The names of the branches after the statements, tested in this order.
unfoldable pub expression_kind : Text → Kind
expression_kind s =
    if str_eq s (text "expression")
    then Kind.expression
    else if str_eq s (text "var")
    then Kind.var
    else if str_eq s (text "simple-expression")
    then Kind.simple_expression
    else if str_eq s (text "additive-expression")
    then Kind.additive_expression
    else if str_eq s (text "term")
    then Kind.term
    else if str_eq s (text "factor")
    then Kind.factor
    else if str_eq s (text "call")
    then Kind.call
    else Kind.other

unfoldable pub statement_kind : Text → Kind
statement_kind s =
    if str_eq s (text "compound-stmt")
    then Kind.compound_stmt
    else if str_eq s (text "statement")
    then Kind.statement
    else if str_eq s (text "expression-stmt")
    then Kind.expression_statement
    else if str_eq s (text "selection-stmt")
    then Kind.selection_stmt
    else if str_eq s (text "iteration-stmt")
    then Kind.iteration_stmt
    else if str_eq s (text "return-stmt")
    then Kind.return_statement
    else expression_kind s

unfoldable pub kind_of : Text → Kind
kind_of s =
    if str_eq s (text "program")
    then Kind.program
    else if str_eq s (text "declaration")
    then Kind.declaration
    else if str_eq s (text "var-declaration")
    then Kind.var_decl
    else if str_eq s (text "fun-declaration")
    then Kind.fun_decl
    else if str_eq s (text "param")
    then Kind.param
    else statement_kind s
