-- ===== src/Ast/Tree.antt =====
-- The parser's tree (include/syntax_tree.h): a name and children.
use gvn.Prelude.{ℕ, zero, suc, ◌+◌, List, [], ◌∷◌, Result, ok, fault, no_element}
use gvn.Prelude.Texts.{Text}

mutual
  pub data Tree : Type 0 where
    node : Text → Trees → Tree

  pub data Trees : Type 0 where
    no_trees : Trees
    tree : Tree → Trees → Trees

abbrev pub name : Tree → Text
name (node n cs) = n

abbrev pub children : Tree → Trees
children (node n cs) = cs

-- `children_num`
abbrev pub children_num : Trees → ℕ
children_num no_trees = 0
children_num (tree t ts) = suc (children_num ts)

-- `children[i]`, which is no node from `children_num` on.
abbrev pub nth : Trees → ℕ → Result Tree
nth no_trees i = fault no_element
nth (tree t ts) zero = ok t
nth (tree t ts) (suc i) = nth ts i

abbrev pub child : Tree → ℕ → Result Tree
child t i = nth (children t) i

-- The number of nodes.
unfoldable mutual
  pub size : Tree → ℕ
  size (node n ts) = suc (sizes ts)

  pub sizes : Trees → ℕ
  sizes no_trees = 0
  sizes (tree t ts) = size t + sizes ts

abbrev pub list_size : List Tree → ℕ
list_size [] = 0
list_size (t ∷ ts) = size t + list_size ts
