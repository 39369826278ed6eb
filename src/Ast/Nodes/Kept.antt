-- ===== src/Ast/Nodes/Kept.antt =====
-- A tree that fits its nodes is built as it is.
use gvn.Prelude.{suc, ◌+◌, ◌<◌, ◌≡◌, refl, ap, sym, true, ltb, length, ok, arith}
use gvn.Prelude.Texts.{Text}
use gvn.Ast.Tree.{Tree, Trees, node, no_trees, tree, children_num}
use gvn.Ast.Nodes.{
  new_syntax_tree_node, syntax_tree_add_child, put_child, build, add_children, fits_node,
  fits_nodes,
}

abbrev join_trees : Trees → Trees → Trees
join_trees no_trees us = us
join_trees (tree t ts) us = tree t (join_trees ts us)

join_trees-put_child :
    (ts : Trees) (c : Tree) (us : Trees)
    → join_trees (put_child ts c) us ≡ join_trees ts (tree c us)
join_trees-put_child no_trees c us = refl
join_trees-put_child (tree t ts) c us = ap (tree t) (join_trees-put_child ts c us)

join_trees-none : (ts : Trees) → join_trees ts no_trees ≡ ts
join_trees-none no_trees = refl
join_trees-none (tree t ts) = ap (tree t) (join_trees-none ts)

children_num-put_child :
    (ts : Trees) (c : Tree) → children_num (put_child ts c) ≡ suc (children_num ts)
children_num-put_child no_trees c = refl
children_num-put_child (tree t ts) c = ap suc (children_num-put_child ts c)

new_syntax_tree_node_short :
    (s : Text) → ltb (length s) 30 ≡ true → new_syntax_tree_node s ≡ ok (node s no_trees)
unfolding new_syntax_tree_node
new_syntax_tree_node_short s h = rw h refl

syntax_tree_add_child_room :
    (s : Text) (cs : Trees) (c : Tree)
    → children_num cs < 10
    → syntax_tree_add_child (node s cs) c ≡ ok (node s (put_child cs c))
unfolding syntax_tree_add_child
syntax_tree_add_child_room s cs c lt = ground arith

mutual
  unfolding build add_children fits_node fits_nodes

  pub build-fits_node : (t : Tree) → fits_node t ≡ true → build t ≡ ok t
  build-fits_node (node s ts) h =
      rw
        (
          new_syntax_tree_node_short s (ground arith),
          add_children-fits_nodes ts s no_trees (ground arith) (ground arith),
        )
        refl

  add_children-fits_nodes :
      (ts : Trees) (s : Text) (cs : Trees)
      → fits_nodes ts ≡ true
      → children_num cs + children_num ts < 11
      → add_children ts (node s cs) ≡ ok (node s (join_trees cs ts))
  add_children-fits_nodes no_trees s cs h lt = ap (λ z. ok (node s z)) (sym (join_trees-none cs))
  add_children-fits_nodes (tree t ts) s cs h lt =
      rw
        (
          build-fits_node t (ground arith),
          syntax_tree_add_child_room s cs t (omega (arith, lt)),
          add_children-fits_nodes ts s (put_child cs t) (ground arith)
              (omega (arith, lt, children_num-put_child cs t)),
          join_trees-put_child cs t ts,
        )
        refl
