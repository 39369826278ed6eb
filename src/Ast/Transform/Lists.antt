-- ===== src/Ast/Transform/Lists.antt =====
-- Lists that the grammar builds from the left are flattened in their order.
use gvn.Prelude.{◌+◌, ◌≤◌, ◌≡◌, refl, ap, ◌∙◌, List, [], ◌∷◌, ◌++◌, append-nil, arith}
use gvn.Prelude.Texts.{Text}
use gvn.Ast.Tree.{Tree, size, list_size}
use gvn.Ast.Grammar.{rule0, rule2, rule3, left2, left3}
use gvn.Ast.Parts.{spine2, spine3}

pub spine2-left2 :
    (s : Text) (base : Tree) (ts stack : List Tree)
    → spine2 (left2 s base ts) stack ≡ spine2 base (ts ++ stack)
unfolding left2 spine2
spine2-left2 s base [] stack = refl
spine2-left2 s base (t ∷ ts) stack = spine2-left2 s (rule2 s base t) ts stack

pub spine3-left3 :
    (s : Text) (base sep : Tree) (ts stack : List Tree)
    → spine3 (left3 s base sep ts) stack ≡ spine3 base (ts ++ stack)
unfolding left3 spine3
spine3-left3 s base sep [] stack = refl
spine3-left3 s base sep (t ∷ ts) stack = spine3-left3 s (rule3 s base sep t) sep ts stack

-- A list that starts empty.
pub spine2-rule0 : (s : Text) (ts : List Tree) → (spine2 (left2 s (rule0 s) ts) []).1 ≡ ts
unfolding spine2
spine2-rule0 s ts = ap (λ z. z.1) (spine2-left2 s (rule0 s) ts []) ∙ append-nil ts

pub size-left2 :
    (s : Text) (base : Tree) (ts : List Tree) → size base + list_size ts ≤ size (left2 s base ts)
unfolding left2 size
size-left2 s base [] = omega arith
size-left2 s base (t ∷ ts) = omega (arith, size-left2 s (rule2 s base t) ts)

pub size-left3 :
    (s : Text) (base sep : Tree) (ts : List Tree)
    → size base + list_size ts ≤ size (left3 s base sep ts)
unfolding left3 size
size-left3 s base sep [] = omega arith
size-left3 s base sep (t ∷ ts) = omega (arith, size-left3 s (rule3 s base sep t) sep ts)
