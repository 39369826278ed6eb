-- ===== src/Ast/Transform/Declarations.antt =====
-- The tree of a program is transformed back into the program.
use gvn.Prelude.{
  ℕ, zero, suc, ◌<◌, ◌≡◌, refl, ap, ◌∙◌, Bool, true, false, List, [], ◌∷◌, append-nil, map, Result,
  ok, ◌>>=◌, arith, is_eq, ℕ_discrete,
}
use gvn.Prelude.Texts.{Text, text, Text-discrete}
use gvn.Ast.Tree.{Tree, Trees, node, no_trees, tree, child, size, list_size}
use gvn.Ast.Nodes.{build, fits_node}
use gvn.Ast.Nodes.Kept.{build-fits_node}
use gvn.Ast.Types.{
  CminusType, type_int, type_float, type_void, Param, FunDeclaration, Declaration, var_declaration,
  fun_declaration, Node,
}
use gvn.Ast.Fits.{FitsAll, FitsParam, FitsDeclaration}
use gvn.Ast.Grammar.{
  rule1, left2, left3, token, type_text, param_tree, params_tree, declaration_body,
  declaration_tree, program_tree,
}
use gvn.Ast.Parts.{traverse, as_param, as_declaration, spine2, spine3, fun_type}
use gvn.Ast.Transform.{
  transform, transform_kind, transform_param, transform_fun_declaration, transform_program,
  flat_params,
}
use gvn.Ast.Transform.Steps
use gvn.Ast.Transform.Steps.{transform_named}
use gvn.Ast.Transform.Lists.{spine2-left2, spine3-left3, size-left2, size-left3}
use gvn.Ast.Transform.Expressions.{Back, step}
use gvn.Ast.Transform.Statements.{
  var_type-type_text, traverse-map, var_declaration-Back, compound-Back,
}

fun_type-type_text : (t : CminusType) → fun_type (type_text t) ≡ t
unfolding fun_type type_text is_eq Text-discrete ℕ_discrete
fun_type-type_text type_int = refl
fun_type-type_text type_float = refl
fun_type-type_text type_void = refl

-- Parameters, of which there is at least one.
flat_params_spine :
    (s : Text) (t : Tree) (ts : Trees) (sep : Tree) (us : List Tree)
    → flat_params (left3 s (node s (tree t ts)) sep us) ≡ (
        let z = spine3 (left3 s (node s (tree t ts)) sep us) [] in
        child z.0 0 >>= λ first. ok (first ∷ z.1))
unfolding flat_params left3
flat_params_spine s t ts sep [] = refl
flat_params_spine s t ts sep (u ∷ us) =
    flat_params_spine s (node s (tree t ts)) (tree sep (tree u no_trees)) sep us

flat_params-left3 :
    (s : Text) (t sep : Tree) (ts : List Tree)
    → flat_params (left3 s (rule1 s t) sep ts) ≡ ok (t ∷ ts)
unfolding spine3
flat_params-left3 s t sep ts =
    flat_params_spine s t no_trees sep ts
    ∙ ap (λ z. child z.0 0 >>= λ first. ok (first ∷ z.1)) (spine3-left3 s (rule1 s t) sep ts [])
    ∙ ap (λ z. ok (t ∷ z)) (append-nil ts)

-- The token of a `float` is read by the library's `stof`.
module _ (stof : Text → Result ℕ) (float_text : ℕ → Text)
    (law : (b : ℕ) → stof (float_text b) ≡ ok b) where
  param-Back :
      (f : ℕ) (p : Param)
      → FitsParam p
      → size (param_tree p) < f
      → Back stof float_text law f (param_tree p) (Node.param p)
  unfolding param_tree transform_kind transform_param size is_eq ℕ_discrete
  param-Back zero p h lt = elim lt [ ]
  param-Back (suc f) p h lt = by_isarray p.isarray
    where
      by_isarray :
          (b : Bool)
          → Back stof float_text law
              (suc f)
              (param_tree (record { ty = p.ty; id = p.id; isarray = b }))
              (Node.param (record { ty = p.ty; id = p.id; isarray = b }))
      by_isarray false =
          step stof float_text law _ _ f _ _ Steps.kind_of_param (rw (var_type-type_text p.ty h))
      by_isarray true =
          step stof float_text law _ _ f _ _ Steps.kind_of_param (rw (var_type-type_text p.ty h))

  -- The parameters between parentheses.
  params_list :
      (ps : List Param) (k : List Tree → Result Node)
      → (child (params_tree float_text ps) 0 >>= λ l. flat_params l >>= k) ≡ k (map param_tree ps)
  unfolding params_tree flat_params
  params_list [] k = refl
  params_list (p ∷ ps) k =
      ap (λ z. z >>= k)
        (flat_params-left3 (text "param-list") (param_tree p) (token (text ","))
          (map param_tree ps))

  params_size :
      {f : ℕ} (ps : List Param)
      → size (params_tree float_text ps) < f
      → list_size (map param_tree ps) < f
  unfolding params_tree size
  params_size [] lt = omega arith
  params_size (p ∷ ps) lt =
      let e =
        size-left3 (text "param-list") (rule1 (text "param-list") (param_tree p)) (token (text ","))
          (map param_tree ps) in
      omega (arith, e)

  fun_declaration-Back :
      (f : ℕ) (d : FunDeclaration)
      → FitsDeclaration (fun_declaration d)
      → size (declaration_body float_text (fun_declaration d)) < f
      → Back stof float_text law f
          (declaration_body float_text (fun_declaration d))
          (Node.declaration (fun_declaration d))
  unfolding declaration_body transform_kind transform_fun_declaration size
  fun_declaration-Back zero d h lt = elim lt [ ]
  fun_declaration-Back (suc f) d h lt = step stof float_text law _ _ f _ _ Steps.kind_of_fun_decl (
      params_list d.params _
      ∙ rw (
        traverse-map (transform stof f) as_param param_tree (λ q. Node.param q) FitsParam f
            (λ q. refl) (param-Back f) d.params h.0 (params_size d.params (omega arith)),
        compound-Back stof float_text law f d.local_declarations d.statement_list h.1 h.2
            (omega arith),
        fun_type-type_text d.ty,
      ))

  body-Back :
      (f : ℕ) (d : Declaration)
      → FitsDeclaration d
      → size (declaration_body float_text d) < f
      → Back stof float_text law f (declaration_body float_text d) (Node.declaration d)
  unfolding declaration_body
  body-Back f (var_declaration d) h lt = var_declaration-Back stof float_text law f d h lt
  body-Back f (fun_declaration d) h lt = fun_declaration-Back f d h lt

  declaration-Back :
      (f : ℕ) (d : Declaration)
      → FitsDeclaration d
      → size (declaration_tree float_text d) < f
      → Back stof float_text law f (declaration_tree float_text d) (Node.declaration d)
  unfolding declaration_tree transform_kind size
  declaration-Back zero d h lt = elim lt [ ]
  declaration-Back (suc f) d h lt =
      step stof float_text law _ _ f _ _ Steps.kind_of_declaration (body-Back f d h (omega arith))

  declarations_size :
      {f : ℕ} (d : Declaration) (ds : List Declaration)
      → size (
          left2
            (text "declaration-list")
            (rule1 (text "declaration-list") (declaration_tree float_text d))
            (map (declaration_tree float_text) ds))
        < f
      → list_size (map (declaration_tree float_text) (d ∷ ds)) < f
  unfolding size
  declarations_size d ds lt =
      let e =
        size-left2 (text "declaration-list")
          (rule1 (text "declaration-list") (declaration_tree float_text d))
          (map (declaration_tree float_text) ds) in
      omega (arith, e)

  program_tree-Back :
      (d : Declaration) (ds : List Declaration) (f : ℕ)
      → FitsAll FitsDeclaration (d ∷ ds)
      → size (program_tree float_text d ds) < f
      → transform stof f (program_tree float_text d ds) ≡ ok (Node.program (d ∷ ds))
  unfolding program_tree transform_kind transform_program size spine2
  program_tree-Back d ds zero h lt = elim lt [ ]
  program_tree-Back d ds (suc f) h lt = step stof float_text law _ _ f _ _ Steps.kind_of_program (
      ap
        (λ z. child z.0 0 >>= λ first.
          traverse (transform stof f) as_declaration (first ∷ z.1) >>= λ xs. ok (Node.program xs))
        (spine2-left2 (text "declaration-list")
          (rule1 (text "declaration-list") (declaration_tree float_text d))
          (map (declaration_tree float_text) ds) [])
      ∙ ap
          (λ z.
            traverse (transform stof f) as_declaration (declaration_tree float_text d ∷ z) >>= λ xs.
            ok (Node.program xs))
          (append-nil (map (declaration_tree float_text) ds))
      ∙ rw (
          traverse-map (transform stof f) as_declaration (declaration_tree float_text)
            (λ x. Node.declaration x) FitsDeclaration f (λ x. refl) (declaration-Back f) (d ∷ ds) h
            (declarations_size d ds (omega arith))))

  -- Where the text of each `float` is read back as that `float`, each integer of a program fits an
  -- `int`, no size of an array is a `float` and no variable or parameter is `void`, each name in the
  -- tree that the grammar builds for the program is shorter than 30 characters and each node of it has
  -- at most 10 children, and the fuel is more than the size of that tree, the nodes of the tree are
  -- made, and the transformation of the tree returns the program.
  pub transform-program_tree :
      (d : Declaration) (ds : List Declaration) (f : ℕ)
      → FitsAll FitsDeclaration (d ∷ ds)
      → fits_node (program_tree float_text d ds) ≡ true
      → size (program_tree float_text d ds) < f
      → (build (program_tree float_text d ds) >>= transform stof f) ≡ ok (Node.program (d ∷ ds))
  transform-program_tree d ds f h k lt =
      ap (λ r. r >>= transform stof f) (build-fits_node (program_tree float_text d ds) k)
      ∙ program_tree-Back d ds f h lt
