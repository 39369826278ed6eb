-- ===== src/Ast/Transform/Operators.antt =====
-- The operators, factors and arguments of an expression.
use gvn.Prelude.{
  ℕ, ◌≡◌, refl, ap, ◌∙◌, true, false, List, [], ◌∷◌, append-nil, Result, ok, ◌>>=◌, is_eq,
  ℕ_discrete,
}
use gvn.Prelude.Texts.{Text, text, Text-discrete}
use gvn.Ast.Tree.{Tree, Trees, node, no_trees, tree, name, child}
use gvn.Ast.Types.{
  RelOp, op_le, op_lt, op_gt, op_ge, op_eq, op_neq, AddOp, op_plus, op_minus, MulOp, op_mul, op_div,
  Expr, assign, simple, compare, Var, scalar, element, Factor, paren, read, call, num, Exprs,
  no_exprs, expr, Node,
}
use gvn.Ast.Grammar.{rule1, left3, token, rel_text, add_text, mul_text, expr_tree, var_tree}
use gvn.Ast.Parts.{rel_op, add_op, mul_op, as_factor, to_exprs, spine3}
use gvn.Ast.Transform.{transform_factor, transform_num, flat_args, is_compound_factor}
use gvn.Ast.Transform.Lists.{spine3-left3}

pub rel_op-rel_text : (o : RelOp) → rel_op (rel_text o) ≡ o
unfolding rel_op rel_text is_eq Text-discrete ℕ_discrete
rel_op-rel_text op_le = refl
rel_op-rel_text op_lt = refl
rel_op-rel_text op_gt = refl
rel_op-rel_text op_ge = refl
rel_op-rel_text op_eq = refl
rel_op-rel_text op_neq = refl

pub add_op-add_text : (o : AddOp) → add_op (add_text o) ≡ o
unfolding add_op add_text is_eq Text-discrete ℕ_discrete
add_op-add_text op_plus = refl
add_op-add_text op_minus = refl

pub mul_op-mul_text : (o : MulOp) → mul_op (mul_text o) ≡ o
unfolding mul_op mul_text is_eq Text-discrete ℕ_discrete
mul_op-mul_text op_mul = refl
mul_op-mul_text op_div = refl

abbrev pub exprs_list : Exprs → List Expr
exprs_list no_exprs = []
exprs_list (expr e es) = e ∷ exprs_list es

pub to_exprs-exprs_list : (es : Exprs) → to_exprs (exprs_list es) ≡ es
to_exprs-exprs_list no_exprs = refl
to_exprs-exprs_list (expr e es) = ap (λ z. expr e z) (to_exprs-exprs_list es)

-- The object of a factor.
abbrev pub factor_node : Factor → Node
factor_node (paren e) = Node.expression e
factor_node (read v) = Node.variable v
factor_node (call s es) = Node.call_node s es
factor_node (num n) = Node.number n

pub as_factor-factor_node : (g : Factor) → as_factor (factor_node g) ≡ ok g
as_factor-factor_node (paren e) = refl
as_factor-factor_node (read v) = refl
as_factor-factor_node (call s es) = refl
as_factor-factor_node (num n) = refl

-- A factor with one child, and one in parentheses, whose child is transformed by the recursion.
module _ (stof : Text → Result ℕ) (rec : Tree → Result Node) where
  pub transform_factor_one :
      (t : Tree) (n : Node)
      → is_compound_factor (name t) ≡ true
      → rec t ≡ ok n
      → transform_factor stof rec (tree t no_trees) ≡ ok n
  unfolding transform_factor is_eq ℕ_discrete
  transform_factor_one t n e h =
      ap (λ b. elim b [ true ↦ rec t | false ↦ transform_num stof t ]) e ∙ h

  pub transform_factor_paren :
      (t : Tree) (n : Node)
      → is_compound_factor (name t) ≡ true
      → rec t ≡ ok n
      → transform_factor stof rec
          (tree (token (text "(")) (tree t (tree (token (text ")")) no_trees)))
        ≡ ok n
  unfolding transform_factor is_eq ℕ_discrete
  transform_factor_paren t n e h =
      ap (λ b. elim b [ true ↦ rec t | false ↦ transform_num stof t ]) e ∙ h

module _ (float_text : ℕ → Text) where
  pub compound_expr : (e : Expr) → is_compound_factor (name (expr_tree float_text e)) ≡ true
  unfolding is_compound_factor expr_tree is_eq Text-discrete ℕ_discrete
  compound_expr (assign v e) = refl
  compound_expr (simple a) = refl
  compound_expr (compare a o b) = refl

  pub compound_var : (v : Var) → is_compound_factor (name (var_tree float_text v)) ≡ true
  unfolding is_compound_factor var_tree is_eq Text-discrete ℕ_discrete
  compound_var (scalar s) = refl
  compound_var (element s e) = refl

-- The arguments that a list of arguments ends in.
flat_args_arg_list :
    (cs : Trees) (sep : Tree) (ts : List Tree)
    → flat_args (left3 (text "arg-list") (node (text "arg-list") cs) sep ts) ≡ (
        let s = spine3 (left3 (text "arg-list") (node (text "arg-list") cs) sep ts) [] in
        child s.0 0 >>= λ first. ok (first ∷ s.1))
unfolding flat_args left3 is_eq Text-discrete ℕ_discrete
flat_args_arg_list cs sep [] = refl
flat_args_arg_list cs sep (t ∷ ts) =
    flat_args_arg_list (tree (node (text "arg-list") cs) (tree sep (tree t no_trees))) sep ts

-- Arguments, of which there is at least one.
pub flat_args-left3 :
    (t sep : Tree) (ts : List Tree)
    → flat_args (left3 (text "arg-list") (rule1 (text "arg-list") t) sep ts) ≡ ok (t ∷ ts)
unfolding spine3
flat_args-left3 t sep ts =
    flat_args_arg_list (tree t no_trees) sep ts
    ∙ ap (λ s. child s.0 0 >>= λ first. ok (first ∷ s.1))
        (spine3-left3 (text "arg-list") (rule1 (text "arg-list") t) sep ts [])
    ∙ ap (λ z. ok (t ∷ z)) (append-nil ts)
