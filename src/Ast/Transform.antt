-- ===== src/Ast/Transform.antt =====
-- AST::transform_node_iter (src/common/ast.cpp).
pub mod Steps
pub mod Lists
pub mod Operators
pub mod Expressions
pub mod Statements
pub mod Declarations
use gvn.Prelude.{
  ℕ, zero, suc, Bool, true, false, Option, none, some, List, [], ◌∷◌, if◌then◌else◌, ◌==◌, ltb,
  is_eq, Result, ok, fault, no_element, null_access, out_of_fuel, ◌>>=◌,
}
use gvn.Prelude.Texts.{Text, text, Text-discrete}
use gvn.Ast.Tree.{Tree, Trees, node, no_trees, tree, name, children, children_num, nth, child}
use gvn.Ast.Types.{
  CminusType, type_int, type_float, type_void, RelOp, op_le, op_lt, op_gt, op_ge, op_eq, op_neq,
  AddOp, op_plus, op_minus, MulOp, op_mul, op_div, Num, int_num, float_num, Expr, assign, simple,
  compare, Var, scalar, element, Additive, one_term, add, Term, one_factor, mul, Factor, paren,
  read, Exprs, no_exprs, expr, VarDeclaration, Param, Stmt, compound, expression_stmt, empty_stmt,
  selection, selection_else, iteration, return_void, return_stmt, Stmts, no_stmts, stmt,
  FunDeclaration, Declaration, var_declaration, fun_declaration, Node,
}
use gvn.Ast.Kinds.{Kind, expression_kind, kind_of, statement_kind, str_eq}
use gvn.Ast.Parts.{
  add_op, as_additive, as_compound, as_declaration, as_expression, as_factor, as_param,
  as_statement, as_term, as_var, as_var_declaration, fun_type, mul_op, rel_op, spine2, spine3,
  to_exprs, to_stmts, traverse, var_type, word,
}
use gvn.Ast.Numbers.{stoi}

-- The size of an array, where `children_num` is 6.
abbrev pub array_num : Trees → ℕ → Result (Option Num)
array_num cs n =
    if n == 3
    then ok none
    else if n == 6
    then (nth cs 3 >>= λ t. stoi (name t) >>= λ k. ok (some (int_num k)))
    else fault no_element

-- The parameters: none below `VOID`, which has no child.
unfoldable pub flat_params : Tree → Result (List Tree)
flat_params (node n no_trees) = ok []
flat_params t = let s = spine3 t [] in child s.0 0 >>= λ first. ok (first ∷ s.1)

-- A number: its token is the child of `t`.
unfoldable pub transform_num : (Text → Result ℕ) → Tree → Result Node
transform_num stof t = elim (str_eq (name t) (text "integer")) [
  | true ↦ child t 0 >>= λ u. stoi (name u) >>= λ k. ok (Node.number (int_num k))
  | false ↦ elim (str_eq (name t) (text "float")) [
    | true ↦ child t 0 >>= λ u. stof (name u) >>= λ b. ok (Node.number (float_num b))
    | false ↦ fault no_element
  ]
]

unfoldable pub is_compound_factor : Text → Bool
is_compound_factor s =
    if str_eq s (text "expression")
    then true
    else if str_eq s (text "var")
    then true
    else str_eq s (text "call")

-- The arguments, below `arg-list`.
unfoldable pub flat_args : Tree → Result (List Tree)
flat_args t = elim (str_eq (name t) (text "arg-list")) [
  | true ↦ let s = spine3 t [] in child s.0 0 >>= λ first. ok (first ∷ s.1)
  | false ↦ ok []
]

module _ (stof : Text → Result ℕ) (rec : Tree → Result Node) where
  -- The node that the recursion makes of `children[i]`.
  abbrev pub sub {ℓ} : {A : Type ℓ} → (Node → Result A) → Trees → ℕ → Result A
  sub cast cs i = nth cs i >>= rec >>= cast

  unfoldable pub transform_program : Trees → Result Node
  transform_program cs = do
    top ← nth cs 0
    let s = spine2 top []
    first ← child s.0 0
    ds ← traverse rec as_declaration (first ∷ s.1)
    ok (Node.program ds)

  unfoldable pub transform_var_declaration : Trees → Result Node
  transform_var_declaration cs = do
    ty ← word cs 0
    num ← array_num cs (children_num cs)
    id ← nth cs 1
    ok (Node.declaration (var_declaration (record { ty = var_type ty; id = name id; num = num })))

  unfoldable pub transform_fun_declaration : Trees → Result Node
  transform_fun_declaration cs = do
    ty ← word cs 0
    id ← nth cs 1
    ps ← nth cs 3
    list_ptr ← child ps 0
    stack ← flat_params list_ptr
    params ← traverse rec as_param stack
    body ← sub as_compound cs 5
    ok (
        Node.declaration (
          fun_declaration (record {
            ty = fun_type ty;
            id = name id;
            params = params;
            local_declarations = body.0;
            statement_list = body.1;
          })))

  unfoldable pub transform_param : Trees → Result Node
  transform_param cs = do
    ty ← word cs 0
    id ← nth cs 1
    ok (Node.param (record { ty = var_type ty; id = name id; isarray = ltb 2 (children_num cs) }))

  unfoldable pub transform_compound : Trees → Result Node
  transform_compound cs = do
    ds ← nth cs 1
    decls ← traverse rec as_var_declaration (spine2 ds []).1
    ss ← nth cs 2
    stmts ← traverse rec as_statement (spine2 ss []).1
    ok (Node.statement (compound decls (to_stmts stmts)))

  unfoldable pub transform_expression_stmt : Trees → Result Node
  transform_expression_stmt cs = elim (children_num cs == 2) [
    | true ↦ sub as_expression cs 0 >>= λ e. ok (Node.statement (expression_stmt e))
    | false ↦ ok (Node.statement empty_stmt)
  ]

  unfoldable pub transform_selection : Trees → Result Node
  transform_selection cs = do
    e ← sub as_expression cs 2
    s ← sub as_statement cs 4
    elim (children_num cs == 7) [
      | true ↦ sub as_statement cs 6 >>= λ t. ok (Node.statement (selection_else e s t))
      | false ↦ ok (Node.statement (selection e s))
    ]

  unfoldable pub transform_iteration : Trees → Result Node
  transform_iteration cs = do
    e ← sub as_expression cs 2
    s ← sub as_statement cs 4
    ok (Node.statement (iteration e s))

  unfoldable pub transform_return : Trees → Result Node
  transform_return cs = elim (children_num cs == 3) [
    | true ↦ sub as_expression cs 1 >>= λ e. ok (Node.statement (return_stmt e))
    | false ↦ ok (Node.statement return_void)
  ]

  unfoldable pub transform_expression : Trees → Result Node
  transform_expression cs = elim (children_num cs == 1) [
    | true ↦ nth cs 0 >>= rec
    | false ↦ do v ← sub as_var cs 0; e ← sub as_expression cs 2; ok (Node.expression (assign v e))
  ]

  unfoldable pub transform_var : Trees → Result Node
  transform_var cs = do
    id ← nth cs 0
    elim (children_num cs == 4) [
      | true ↦ sub as_expression cs 2 >>= λ e. ok (Node.variable (element (name id) e))
      | false ↦ ok (Node.variable (scalar (name id)))
    ]

  unfoldable pub transform_simple : Trees → Result Node
  transform_simple cs = do
    l ← sub as_additive cs 0
    elim (children_num cs == 3) [
      | true ↦ do
        op ← word cs 1
        r ← sub as_additive cs 2
        ok (Node.expression (compare l (rel_op op) r))
      | false ↦ ok (Node.expression (simple l))
    ]

  unfoldable pub transform_additive : Trees → Result Node
  transform_additive cs = elim (children_num cs == 3) [
    | true ↦ do
      a ← sub as_additive cs 0
      op ← word cs 1
      t ← sub as_term cs 2
      ok (Node.additive (add a (add_op op) t))
    | false ↦ sub as_term cs 0 >>= λ t. ok (Node.additive (one_term t))
  ]

  unfoldable pub transform_term : Trees → Result Node
  transform_term cs = elim (children_num cs == 3) [
    | true ↦ do
      t ← sub as_term cs 0
      op ← word cs 1
      f ← sub as_factor cs 2
      ok (Node.term (mul t (mul_op op) f))
    | false ↦ sub as_factor cs 0 >>= λ f. ok (Node.term (one_factor f))
  ]

  unfoldable pub transform_factor : Trees → Result Node
  transform_factor cs = do
    t ← nth cs (if children_num cs == 3 then 1 else 0)
    elim (is_compound_factor (name t)) [ true ↦ rec t | false ↦ transform_num stof t ]

  unfoldable pub transform_call : Trees → Result Node
  transform_call cs = do
    id ← nth cs 0
    args ← nth cs 2
    list_ptr ← child args 0
    stack ← flat_args list_ptr
    es ← traverse rec as_expression stack
    ok (Node.call_node (name id) (to_exprs es))

  unfoldable pub transform_kind : Kind → Trees → Result Node
  transform_kind Kind.program cs = transform_program cs
  transform_kind Kind.declaration cs = nth cs 0 >>= rec
  transform_kind Kind.var_decl cs = transform_var_declaration cs
  transform_kind Kind.fun_decl cs = transform_fun_declaration cs
  transform_kind Kind.param cs = transform_param cs
  transform_kind Kind.compound_stmt cs = transform_compound cs
  transform_kind Kind.statement cs = nth cs 0 >>= rec
  transform_kind Kind.expression_statement cs = transform_expression_stmt cs
  transform_kind Kind.selection_stmt cs = transform_selection cs
  transform_kind Kind.iteration_stmt cs = transform_iteration cs
  transform_kind Kind.return_statement cs = transform_return cs
  transform_kind Kind.expression cs = transform_expression cs
  transform_kind Kind.var cs = transform_var cs
  transform_kind Kind.simple_expression cs = transform_simple cs
  transform_kind Kind.additive_expression cs = transform_additive cs
  transform_kind Kind.term cs = transform_term cs
  transform_kind Kind.factor cs = transform_factor cs
  transform_kind Kind.call cs = transform_call cs
  transform_kind Kind.other cs = fault no_element

-- transform_node_iter; `stof` is the library's. Its recursion takes fuel.
unfoldable pub transform : (Text → Result ℕ) → ℕ → Tree → Result Node
transform stof zero t = fault out_of_fuel
transform stof (suc fuel) t =
    transform_kind stof (transform stof fuel) (kind_of (name t)) (children t)
