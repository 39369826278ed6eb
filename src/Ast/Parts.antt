-- ===== src/Ast/Parts.antt =====
-- What the branches of AST::transform_node_iter (src/common/ast.cpp) share: the stacks of a list,
-- the casts, and the words for types and operators.
use gvn.Prelude.{ℕ, List, [], ◌∷◌, if◌then◌else◌, Result, ok, fault, null_access, ◌>>=◌}
use gvn.Prelude.Texts.{Text, text}
use gvn.Ast.Tree.{Tree, Trees, node, no_trees, tree, name, nth, child}
use gvn.Ast.Types.{
  CminusType, type_int, type_float, type_void, RelOp, op_le, op_lt, op_gt, op_ge, op_eq, op_neq,
  AddOp, op_plus, op_minus, MulOp, op_mul, op_div, Expr, Var, Additive, Term, Factor, paren, read,
  Exprs, no_exprs, expr, VarDeclaration, Param, Stmt, compound, Stmts, no_stmts, stmt, Declaration,
  var_declaration, Node,
}
use gvn.Ast.Kinds.{str_eq}

-- The stack after `while (list_ptr->children_num == 2) { push(children[1]); list_ptr = children[0]; }`,
-- its top first, and `list_ptr`.
unfoldable pub spine2 : Tree → List Tree → Tree × List Tree
spine2 (node n (tree a (tree b no_trees))) stack = spine2 a (b ∷ stack)
spine2 t stack = (t, stack)

-- The same with `children_num == 3` and `children[2]`.
unfoldable pub spine3 : Tree → List Tree → Tree × List Tree
spine3 (node n (tree a (tree c (tree b no_trees)))) stack = spine3 a (b ∷ stack)
spine3 t stack = (t, stack)

-- `static_cast` to a class, from an object of that class.
abbrev pub as_declaration : Node → Result Declaration
as_declaration (Node.declaration d) = ok d
as_declaration _ = fault null_access

abbrev pub as_var_declaration : Node → Result VarDeclaration
as_var_declaration (Node.declaration (var_declaration d)) = ok d
as_var_declaration _ = fault null_access

abbrev pub as_param : Node → Result Param
as_param (Node.param p) = ok p
as_param _ = fault null_access

abbrev pub as_statement : Node → Result Stmt
as_statement (Node.statement s) = ok s
as_statement _ = fault null_access

abbrev pub as_compound : Node → Result (List VarDeclaration × Stmts)
as_compound (Node.statement (compound ds ss)) = ok (ds, ss)
as_compound _ = fault null_access

abbrev pub as_expression : Node → Result Expr
as_expression (Node.expression e) = ok e
as_expression _ = fault null_access

abbrev pub as_var : Node → Result Var
as_var (Node.variable v) = ok v
as_var _ = fault null_access

abbrev pub as_additive : Node → Result Additive
as_additive (Node.additive a) = ok a
as_additive _ = fault null_access

abbrev pub as_term : Node → Result Term
as_term (Node.term t) = ok t
as_term _ = fault null_access

abbrev pub as_factor : Node → Result Factor
as_factor (Node.expression e) = ok (paren e)
as_factor (Node.variable v) = ok (read v)
as_factor (Node.call_node f as') = ok (Factor.call f as')
as_factor (Node.number n) = ok (Factor.num n)
as_factor _ = fault null_access

abbrev pub to_stmts : List Stmt → Stmts
to_stmts [] = no_stmts
to_stmts (s ∷ ss) = stmt s (to_stmts ss)

abbrev pub to_exprs : List Expr → Exprs
to_exprs [] = no_exprs
to_exprs (e ∷ es) = expr e (to_exprs es)

-- `while (!s.empty())`: the nodes of the stack, from the top.
unfoldable pub traverse :
    {A : Type 0} → (Tree → Result Node) → (Node → Result A) → List Tree → Result (List A)
traverse rec cast [] = ok []
traverse rec cast (t ∷ ts) = do n ← rec t; a ← cast n; as' ← traverse rec cast ts; ok (a ∷ as')

-- `children[i]->children[0]->name`
abbrev pub word : Trees → ℕ → Result Text
word cs i = do t ← nth cs i; u ← child t 0; ok (name u)

unfoldable pub var_type : Text → CminusType
var_type s = if str_eq s (text "int") then type_int else type_float

unfoldable pub fun_type : Text → CminusType
fun_type s =
    if str_eq s (text "int")
    then type_int
    else if str_eq s (text "float")
    then type_float
    else type_void

-- Any other name leaves the operator at its first value.
unfoldable pub rel_op : Text → RelOp
rel_op s =
    if str_eq s (text "<=")
    then op_le
    else if str_eq s (text "<")
    then op_lt
    else if str_eq s (text ">")
    then op_gt
    else if str_eq s (text ">=")
    then op_ge
    else if str_eq s (text "==")
    then op_eq
    else if str_eq s (text "!=")
    then op_neq
    else op_le

unfoldable pub add_op : Text → AddOp
add_op s =
    if str_eq s (text "+") then op_plus else if str_eq s (text "-") then op_minus else op_plus

unfoldable pub mul_op : Text → MulOp
mul_op s = if str_eq s (text "*") then op_mul else if str_eq s (text "/") then op_div else op_mul
