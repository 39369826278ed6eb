-- ===== src/Ast/Transform/Steps.antt =====
-- One call of transform_node_iter, by the name of the node.
use gvn.Prelude.{ℕ, suc, ◌≡◌, refl, ap, Result, is_eq, ℕ_discrete}
use gvn.Prelude.Texts.{Text, text, Text-discrete}
use gvn.Ast.Tree.{Tree, Trees, node, name, children}
use gvn.Ast.Kinds.{Kind, kind_of, statement_kind, expression_kind}
use gvn.Ast.Transform.{transform, transform_kind}

module _ (stof : Text → Result ℕ) where
  pub transform_step :
      (s : Text) (k : Kind) (f : ℕ) (cs : Trees)
      → kind_of s ≡ k
      → transform stof (suc f) (node s cs) ≡ transform_kind stof (transform stof f) k cs
  unfolding transform
  transform_step s k f cs e = ap (λ z. transform_kind stof (transform stof f) z cs) e

  -- The same for a tree whose name is known.
  pub transform_named :
      (t : Tree) (k : Kind) (f : ℕ)
      → kind_of (name t) ≡ k
      → transform stof (suc f) t ≡ transform_kind stof (transform stof f) k (children t)
  unfolding transform
  transform_named t k f e = ap (λ z. transform_kind stof (transform stof f) z (children t)) e

-- The kind of each name.
pub kind_of_program : kind_of (text "program") ≡ Kind.program
unfolding kind_of statement_kind expression_kind is_eq Text-discrete ℕ_discrete
kind_of_program = refl

pub kind_of_declaration : kind_of (text "declaration") ≡ Kind.declaration
unfolding kind_of statement_kind expression_kind is_eq Text-discrete ℕ_discrete
kind_of_declaration = refl

pub kind_of_var_decl : kind_of (text "var-declaration") ≡ Kind.var_decl
unfolding kind_of statement_kind expression_kind is_eq Text-discrete ℕ_discrete
kind_of_var_decl = refl

pub kind_of_fun_decl : kind_of (text "fun-declaration") ≡ Kind.fun_decl
unfolding kind_of statement_kind expression_kind is_eq Text-discrete ℕ_discrete
kind_of_fun_decl = refl

pub kind_of_param : kind_of (text "param") ≡ Kind.param
unfolding kind_of statement_kind expression_kind is_eq Text-discrete ℕ_discrete
kind_of_param = refl

pub kind_of_compound_stmt : kind_of (text "compound-stmt") ≡ Kind.compound_stmt
unfolding kind_of statement_kind expression_kind is_eq Text-discrete ℕ_discrete
kind_of_compound_stmt = refl

pub kind_of_statement : kind_of (text "statement") ≡ Kind.statement
unfolding kind_of statement_kind expression_kind is_eq Text-discrete ℕ_discrete
kind_of_statement = refl

pub kind_of_expression_statement : kind_of (text "expression-stmt") ≡ Kind.expression_statement
unfolding kind_of statement_kind expression_kind is_eq Text-discrete ℕ_discrete
kind_of_expression_statement = refl

pub kind_of_selection_stmt : kind_of (text "selection-stmt") ≡ Kind.selection_stmt
unfolding kind_of statement_kind expression_kind is_eq Text-discrete ℕ_discrete
kind_of_selection_stmt = refl

pub kind_of_iteration_stmt : kind_of (text "iteration-stmt") ≡ Kind.iteration_stmt
unfolding kind_of statement_kind expression_kind is_eq Text-discrete ℕ_discrete
kind_of_iteration_stmt = refl

pub kind_of_return_statement : kind_of (text "return-stmt") ≡ Kind.return_statement
unfolding kind_of statement_kind expression_kind is_eq Text-discrete ℕ_discrete
kind_of_return_statement = refl

pub kind_of_expression : kind_of (text "expression") ≡ Kind.expression
unfolding kind_of statement_kind expression_kind is_eq Text-discrete ℕ_discrete
kind_of_expression = refl

pub kind_of_var : kind_of (text "var") ≡ Kind.var
unfolding kind_of statement_kind expression_kind is_eq Text-discrete ℕ_discrete
kind_of_var = refl

pub kind_of_simple_expression : kind_of (text "simple-expression") ≡ Kind.simple_expression
unfolding kind_of statement_kind expression_kind is_eq Text-discrete ℕ_discrete
kind_of_simple_expression = refl

pub kind_of_additive_expression : kind_of (text "additive-expression") ≡ Kind.additive_expression
unfolding kind_of statement_kind expression_kind is_eq Text-discrete ℕ_discrete
kind_of_additive_expression = refl

pub kind_of_term : kind_of (text "term") ≡ Kind.term
unfolding kind_of statement_kind expression_kind is_eq Text-discrete ℕ_discrete
kind_of_term = refl

pub kind_of_factor : kind_of (text "factor") ≡ Kind.factor
unfolding kind_of statement_kind expression_kind is_eq Text-discrete ℕ_discrete
kind_of_factor = refl

pub kind_of_call : kind_of (text "call") ≡ Kind.call
unfolding kind_of statement_kind expression_kind is_eq Text-discrete ℕ_discrete
kind_of_call = refl
