-- ===== src/Ast/Transform/Expressions.antt =====
-- The tree of an expression is transformed back into the expression.
use gvn.Prelude.{
  ℕ, zero, suc, ◌+◌, ◌<◌, ◌≡◌, refl, ap, ◌∙◌, List, Result, ok, ◌>>=◌, arith, is_eq, ℕ_discrete,
}
use gvn.Prelude.Texts.{Text, text, Text-discrete}
use gvn.Ast.Tree.{Tree, Trees, node, no_trees, tree, size, list_size}
use gvn.Ast.Types.{
  RelOp, Num, int_num, float_num, Expr, assign, simple, compare, Var, scalar, element, Additive,
  one_term, add, Term, one_factor, mul, Factor, paren, read, call, num, Exprs, no_exprs, expr, Node,
}
use gvn.Ast.Numbers.{stoi-to_string}
use gvn.Ast.Fits.{FitsNum, FitsExpr, FitsVar, FitsAdditive, FitsTerm, FitsFactor, FitsExprs}
use gvn.Ast.Grammar.{
  rule1, rule3, rule4, left3, token, rel_text, num_tree, expr_tree, var_tree, additive_tree,
  term_tree, factor_tree, args_tree, expr_trees,
}
use gvn.Ast.Kinds.{Kind, kind_of}
use gvn.Ast.Parts.{traverse, as_expression, as_factor}
use gvn.Ast.Transform.{
  transform, transform_kind, transform_expression, transform_var, transform_simple,
  transform_additive, transform_term, transform_factor, transform_num, transform_call, flat_args,
  is_compound_factor,
}
use gvn.Ast.Transform.Operators.{
  rel_op-rel_text, add_op-add_text, mul_op-mul_text, exprs_list, to_exprs-exprs_list, factor_node,
  as_factor-factor_node, transform_factor_one, transform_factor_paren, compound_expr, compound_var,
  flat_args-left3,
}
use gvn.Ast.Transform.Steps
use gvn.Ast.Transform.Steps.{transform_step}
use gvn.Ast.Transform.Lists.{size-left3}

-- The token of a `float` is read by the library's `stof`.
module _ (stof : Text → Result ℕ) (float_text : ℕ → Text)
    (law : (b : ℕ) → stof (float_text b) ≡ ok b) where
  -- With the fuel `f` the tree is transformed into the node.
  abbrev pub Back : ℕ → Tree → Node → Type 0
  Back f t n = transform stof f t ≡ ok n

  abbrev ExprBack : ℕ → Type 0
  ExprBack f =
      (e : Expr)
      → FitsExpr e
      → size (expr_tree float_text e) < f
      → Back f (expr_tree float_text e) (Node.expression e)

  transform_num-num_tree :
      (n : Num) → FitsNum n → transform_num stof (num_tree float_text n) ≡ ok (Node.number n)
  unfolding transform_num num_tree is_eq Text-discrete ℕ_discrete
  transform_num-num_tree (int_num n) h = rw (stoi-to_string n h)
  transform_num-num_tree (float_num b) h = rw (law b)

  exprs_back :
      (f : ℕ)
      → ExprBack f
      → (es : Exprs) → FitsExprs es
      → list_size (expr_trees float_text es) < f
      → traverse (transform stof f) as_expression (expr_trees float_text es) ≡ ok (exprs_list es)
  unfolding traverse expr_trees FitsExprs
  exprs_back f back no_exprs h lt = refl
  exprs_back f back (expr e es) h lt =
      rw (back e h.0 (omega arith), exprs_back f back es h.1 (omega arith))

  pub step :
      (s : Text) (k : Kind) (f : ℕ) (cs : Trees) (n : Node)
      → kind_of s ≡ k
      → transform_kind stof (transform stof f) k cs ≡ ok n
      → Back (suc f) (node s cs) n
  step s k f cs n e h = transform_step stof s k f cs e ∙ h

  transform_factor_number :
      (rec : Tree → Result Node) (n : Num)
      → FitsNum n
      → transform_factor stof rec (tree (num_tree float_text n) no_trees) ≡ ok (Node.number n)
  unfolding transform_factor is_compound_factor is_eq Text-discrete ℕ_discrete num_tree
  transform_factor_number rec (int_num n) h = transform_num-num_tree (int_num n) h
  transform_factor_number rec (float_num b) h = transform_num-num_tree (float_num b) h

  -- Fuel for the tree of a list is fuel for its members.
  list_size-left3 :
      {f : ℕ} (t : Tree) (ts : List Tree)
      → size (
          rule1
            (text "args")
            (left3 (text "arg-list") (rule1 (text "arg-list") t) (token (text ",")) ts))
        < f
      → (size t < f) × (list_size ts < f)
  unfolding size
  list_size-left3 t ts lt =
      let e = size-left3 (text "arg-list") (rule1 (text "arg-list") t) (token (text ",")) ts in
      (omega (arith, e), omega (arith, e))

  transform_call-args_tree :
      (f : ℕ)
      → ExprBack f
      → (s : Text) (es : Exprs) → FitsExprs es
      → size (args_tree float_text es) < f
      → transform_call stof (transform stof f) (
          tree (token s) (
            tree
              (token (text "("))
              (tree (args_tree float_text es) (tree (token (text ")")) no_trees))))
        ≡ ok (Node.call_node s es)
  unfolding transform_call args_tree FitsExprs size flat_args traverse is_eq Text-discrete
      ℕ_discrete
  transform_call-args_tree f back s no_exprs h lt = refl
  transform_call-args_tree f back s (expr e es) h lt =
      rw (flat_args-left3 (expr_tree float_text e) (token (text ",")) (expr_trees float_text es)) (
        rw (
          back e h.0 (list_size-left3 (expr_tree float_text e) (expr_trees float_text es) lt).0,
          exprs_back f back es h.1
              (list_size-left3 (expr_tree float_text e) (expr_trees float_text es) lt).1,
          to_exprs-exprs_list es,
        ))

  mutual
    unfolding expr_tree var_tree additive_tree term_tree factor_tree args_tree FitsExpr FitsVar
        FitsAdditive FitsTerm FitsFactor FitsExprs size transform_kind transform_expression
        transform_var transform_simple transform_additive transform_term transform_factor
        transform_call flat_args is_compound_factor is_eq Text-discrete ℕ_discrete

    pub expr-Back :
        (f : ℕ) (e : Expr)
        → FitsExpr e
        → size (expr_tree float_text e) < f
        → Back f (expr_tree float_text e) (Node.expression e)
    expr-Back zero e h lt = elim lt [ ]
    expr-Back (suc f) (assign v e) h lt =
        step _ _ f _ _ Steps.kind_of_expression
          (rw (var-Back f v h.0 (omega arith), expr-Back f e h.1 (omega arith)))
    expr-Back (suc f) (simple a) h lt =
        step _ _ f _ _ Steps.kind_of_expression (simple-Back f a h (omega arith))
    expr-Back (suc f) (compare a o b) h lt =
        step _ _ f _ _ Steps.kind_of_expression (compare-Back f a o b h (omega arith))

    simple-Back :
        (f : ℕ) (a : Additive)
        → FitsAdditive a
        → suc (size (additive_tree float_text a)) < f
        → Back f
            (rule1 (text "simple-expression") (additive_tree float_text a))
            (Node.expression (simple a))
    simple-Back zero a h lt = elim lt [ ]
    simple-Back (suc f) a h lt =
        step _ _ f _ _ Steps.kind_of_simple_expression (rw (additive-Back f a h (omega arith)))

    compare-Back :
        (f : ℕ) (a : Additive) (o : RelOp) (b : Additive)
        → FitsAdditive a × FitsAdditive b
        → suc (size (additive_tree float_text a) + size (additive_tree float_text b)) < f
        → Back f
            (rule3
              (text "simple-expression")
              (additive_tree float_text a)
              (rule1 (text "relop") (token (rel_text o)))
              (additive_tree float_text b))
            (Node.expression (compare a o b))
    compare-Back zero a o b h lt = elim lt [ ]
    compare-Back (suc f) a o b h lt = step _ _ f _ _ Steps.kind_of_simple_expression (
        rw (
          additive-Back f a h.0 (omega arith),
          additive-Back f b h.1 (omega arith),
          rel_op-rel_text o,
        ))

    var-Back :
        (f : ℕ) (v : Var)
        → FitsVar v
        → size (var_tree float_text v) < f
        → Back f (var_tree float_text v) (Node.variable v)
    var-Back zero v h lt = elim lt [ ]
    var-Back (suc f) (scalar s) h lt = step _ _ f _ _ Steps.kind_of_var refl
    var-Back (suc f) (element s e) h lt =
        step _ _ f _ _ Steps.kind_of_var (rw (expr-Back f e h (omega arith)))

    additive-Back :
        (f : ℕ) (a : Additive)
        → FitsAdditive a
        → size (additive_tree float_text a) < f
        → Back f (additive_tree float_text a) (Node.additive a)
    additive-Back zero a h lt = elim lt [ ]
    additive-Back (suc f) (one_term t) h lt =
        step _ _ f _ _ Steps.kind_of_additive_expression (rw (term-Back f t h (omega arith)))
    additive-Back (suc f) (add a o t) h lt = step _ _ f _ _ Steps.kind_of_additive_expression (
        rw
          (additive-Back f a h.0 (omega arith), term-Back f t h.1 (omega arith), add_op-add_text o))

    term-Back :
        (f : ℕ) (t : Term)
        → FitsTerm t
        → size (term_tree float_text t) < f
        → Back f (term_tree float_text t) (Node.term t)
    term-Back zero t h lt = elim lt [ ]
    term-Back (suc f) (one_factor g) h lt = step _ _ f _ _ Steps.kind_of_term (
        ap (λ r. r >>= as_factor >>= λ x. ok (Node.term (one_factor x)))
          (factor-Back f g h (omega arith))
        ∙ rw (as_factor-factor_node g))
    term-Back (suc f) (mul t o g) h lt = step _ _ f _ _ Steps.kind_of_term (
        rw (
          term-Back f t h.0 (omega arith),
          factor-Back f g h.1 (omega arith),
          as_factor-factor_node g,
          mul_op-mul_text o,
        ))

    -- A factor is transformed into the node of its class.
    factor-Back :
        (f : ℕ) (g : Factor)
        → FitsFactor g
        → size (factor_tree float_text g) < f
        → Back f (factor_tree float_text g) (factor_node g)
    factor-Back zero g h lt = elim lt [ ]
    factor-Back (suc f) (paren e) h lt = step _ _ f _ _ Steps.kind_of_factor (
        transform_factor_paren stof (transform stof f) _ _ (compound_expr float_text e)
          (expr-Back f e h (omega arith)))
    factor-Back (suc f) (read v) h lt = step _ _ f _ _ Steps.kind_of_factor (
        transform_factor_one stof (transform stof f) _ _ (compound_var float_text v)
          (var-Back f v h (omega arith)))
    factor-Back (suc f) (call s es) h lt =
        step _ _ f _ _ Steps.kind_of_factor
          (transform_factor_one stof (transform stof f) _ _ refl (call-Back f s es h (omega arith)))
    factor-Back (suc f) (num n) h lt =
        step _ _ f _ _ Steps.kind_of_factor (transform_factor_number (transform stof f) n h)

    call-Back :
        (f : ℕ) (s : Text) (es : Exprs)
        → FitsExprs es
        → 3 + size (args_tree float_text es) < f
        → Back f
            (rule4
              (text "call")
              (token s)
              (token (text "("))
              (args_tree float_text es)
              (token (text ")")))
            (Node.call_node s es)
    call-Back zero s es h lt = elim lt [ ]
    call-Back (suc f) s es h lt =
        step _ _ f _ _ Steps.kind_of_call
          (transform_call-args_tree f (expr-Back f) s es h (omega arith))
