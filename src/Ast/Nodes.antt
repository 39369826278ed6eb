-- ===== src/Ast/Nodes.antt =====
-- The nodes of the parser's tree (src/common/syntax_tree.c): a name in an array of
-- SYNTAX_TREE_NODE_NAME_MAX characters, and an array of 10 children. A longer name is copied without
-- its end, so the reads of it leave the array, and an eleventh child is written past the array: both
-- are faults.
pub mod Kept
use gvn.Prelude.{
  ℕ, Bool, true, false, ◌&&◌, if◌then◌else◌, ltb, length, Result, ok, fault, no_element, ◌>>=◌,
}
use gvn.Prelude.Texts.{Text}
use gvn.Ast.Tree.{Tree, Trees, node, no_trees, tree, name, children, children_num}

-- SYNTAX_TREE_NODE_NAME_MAX
abbrev pub syntax_tree_node_name_max : ℕ
syntax_tree_node_name_max = 30

unfoldable pub new_syntax_tree_node : Text → Result Tree
new_syntax_tree_node s =
    if ltb (length s) syntax_tree_node_name_max then ok (node s no_trees) else fault no_element

-- `children[children_num++] = child`
abbrev pub put_child : Trees → Tree → Trees
put_child no_trees c = tree c no_trees
put_child (tree t ts) c = tree t (put_child ts c)

unfoldable pub syntax_tree_add_child : Tree → Tree → Result Tree
syntax_tree_add_child p c =
    if ltb (children_num (children p)) 10
    then ok (node (name p) (put_child (children p) c))
    else fault no_element

-- The calls with which the scanner and the rules of the parser make a tree: `new_syntax_tree_node` of the name,
-- and a child added for each.
unfoldable mutual
  pub build : Tree → Result Tree
  build (node s ts) = new_syntax_tree_node s >>= λ p. add_children ts p

  pub add_children : Trees → Tree → Result Tree
  add_children no_trees p = ok p
  add_children (tree t ts) p =
      build t >>= λ c. syntax_tree_add_child p c >>= λ p'. add_children ts p'

-- The names are shorter than the array, and no node has more than 10 children.
unfoldable mutual
  pub fits_node : Tree → Bool
  fits_node (node s ts) =
      ltb (length s) syntax_tree_node_name_max && ltb (children_num ts) 11 && fits_nodes ts

  pub fits_nodes : Trees → Bool
  fits_nodes no_trees = true
  fits_nodes (tree t ts) = fits_node t && fits_nodes ts
