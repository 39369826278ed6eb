-- ===== src/Tests/Dominators.antt =====
-- The dominator tree of a loop with a branch.
use gvn.Prelude.{
  ℕ, ◌≡◌, ◌≢◌, ◌-◌, ◌≤◌, ◌<◌, ◌⊎◌, All, All-contains, refl, true, Option, none, some, List, [], ◌∷◌,
  contains, length, ◌==◌, inl, inr, ok, ◌↔◌, update, leb, arith, map, if◌then◌else◌,
}
use gvn.Dominators
use gvn.Dominators.{
  Graph, PostOrder, create_reverse_post_order, create_dominance_frontier, intersect,
}
use gvn.Dominators.Nearest.{IsTree, IsNearest, intersect-IsNearest, Above, here, up}
use gvn.Dominators.Sound.{IsMirrored, On, create_idom-dominates}
use gvn.Dominators.Visits.{Reach, stay, go}
use gvn.Dominators.Climb.{In}
use gvn.Dominators.Frontier.{IsFrontier, IsJoined, create_dominance_frontier-IsFrontier}
use gvn.Dominators.Unreachable.{create_dominance_frontier-unreachable}
use gvn.Dominators.Reached.{
  IsClosed, IsReversePostOrder, create_reverse_post_order-IsReversePostOrder,
}

-- 1 enters the loop 2, whose body 3 branches to 4 and 5, which join in 6; 6 goes back to 2, which
-- leaves to 7.
abbrev succs : ℕ → List ℕ
succs b =
    if b == 1
    then 2 ∷ []
    else if b == 2
    then 3 ∷ 7 ∷ []
    else if b == 3
    then 4 ∷ 5 ∷ []
    else if b == 4
    then 6 ∷ []
    else if b == 5
    then 6 ∷ []
    else if b == 6
    then 2 ∷ []
    else []

abbrev pres : ℕ → List ℕ
pres b =
    if b == 2
    then 1 ∷ 6 ∷ []
    else if b == 3
    then 2 ∷ []
    else if b == 4
    then 3 ∷ []
    else if b == 5
    then 3 ∷ []
    else if b == 6
    then 4 ∷ 5 ∷ []
    else if b == 7
    then 2 ∷ []
    else []

abbrev graph : Graph
graph = record { blocks = 1 ∷ 2 ∷ 3 ∷ 4 ∷ 5 ∷ 6 ∷ 7 ∷ []; succ_blocks = succs; pre_blocks = pres }

tree : (t : Dominators.DomTree) × (Dominators.run 9 graph ≡ ok t)
unfolding Dominators.run Dominators.create_reverse_post_order Dominators.entry_block
    Dominators.post_order_visit Dominators.visit_unvisited Dominators.enter Dominators.leave
    Dominators.start Dominators.reverse Dominators.create_idom Dominators.clear_idom
    Dominators.rounds Dominators.round Dominators.visit_idom Dominators.new_idom
    Dominators.meet_preds Dominators.first_with Dominators.same_block Dominators.intersect
    Dominators.climb Dominators.create_dominance_frontier Dominators.over_preds Dominators.run_up
    Dominators.create_dom_tree_succ
tree = (_, refl)

tree_idom :
    map tree.0.idom (1 ∷ 2 ∷ 3 ∷ 4 ∷ 5 ∷ 6 ∷ 7 ∷ [])
    ≡ some 1 ∷ some 1 ∷ some 2 ∷ some 3 ∷ some 3 ∷ some 3 ∷ some 2 ∷ []
unfolding tree
tree_idom = refl

graph-IsClosed : IsClosed graph
graph-IsClosed x y h k =
    All-contains (λ b. contains graph.blocks b ≡ true) (succs x)
      (All-contains (λ a. All (λ b. contains graph.blocks b ≡ true) (succs a)) graph.blocks
        (
          (refl, tt),
          (
            (refl, (refl, tt)),
            ((refl, (refl, tt)), ((refl, tt), ((refl, tt), ((refl, tt), (tt, tt))))),
          ),
        )
        x h)
      y k

graph-IsMirrored : IsMirrored graph
graph-IsMirrored x y k = ground arith

create_reverse_post_order-IsReversePostOrder_example :
    (s : PostOrder) × (create_reverse_post_order graph ≡ ok s) × IsReversePostOrder graph 1 s
create_reverse_post_order-IsReversePostOrder_example =
    create_reverse_post_order-IsReversePostOrder graph 1 (2 ∷ 3 ∷ 4 ∷ 5 ∷ 6 ∷ 7 ∷ []) refl
      graph-IsClosed

-- The tree that is found, with numbers that fall.
abbrev parent : ℕ → Option ℕ
parent b =
    if b == 1
    then some 1
    else if b == 2
    then some 1
    else if b == 3
    then some 2
    else if b == 4
    then some 3
    else if b == 5
    then some 3
    else if b == 6
    then some 3
    else if b == 7
    then some 2
    else none

abbrev falling : ℕ → ℕ
falling b = 9 - b

abbrev InParent : ℕ → Type 0
InParent b = contains (1 ∷ 2 ∷ 3 ∷ 4 ∷ 5 ∷ 6 ∷ 7 ∷ []) b ≡ true

in_bounds : (b : ℕ) → InParent b → (1 ≤ b) × (b ≤ 7)
in_bounds b h = ground arith

parent-IsTree : IsTree falling parent 1 InParent
parent-IsTree = record {
  rises =
      All-contains
        (λ b.
          ((b ≡ 1) × (parent b ≡ some 1))
          ⊎ ((c : ℕ) × (parent b ≡ some c) × InParent c × (falling b < falling c)))
        (1 ∷ 2 ∷ 3 ∷ 4 ∷ 5 ∷ 6 ∷ 7 ∷ [])
        (
          inl (refl, refl),
          (
            inr (1, refl, refl, omega arith),
            (
              inr (2, refl, refl, omega arith),
              (
                inr (3, refl, refl, omega arith),
                (
                  inr (3, refl, refl, omega arith),
                  (inr (3, refl, refl, omega arith), (inr (2, refl, refl, omega arith), tt)),
                ),
              ),
            ),
          ),
        );
  below_root = λ b h. let q = in_bounds b h in omega (arith, q.0);
  same = λ b c h k e. let q = in_bounds b h in let r = in_bounds c k in omega (arith, q.1, r.1, e);
}

-- The loop body of 4 and the exit 7 meet in 2.
intersect-IsNearest_example :
    (r : ℕ) × (intersect falling parent 9 20 4 7 ≡ ok r)
    × IsNearest falling parent 1 InParent parent-IsTree 4 7 r
intersect-IsNearest_example =
    intersect-IsNearest falling parent 1 InParent parent-IsTree 9 20 4 7 refl refl (omega arith)
      (omega arith)

order_run : (s : PostOrder) × (create_reverse_post_order graph ≡ ok s)
unfolding Dominators.create_reverse_post_order Dominators.entry_block Dominators.post_order_visit
    Dominators.visit_unvisited Dominators.enter Dominators.leave Dominators.start Dominators.reverse
order_run = (_, refl)

idom_run :
    (idom : ℕ → Option ℕ) × (Dominators.create_idom 9 graph order_run.0 (λ b. none) ≡ ok idom)
unfolding order_run Dominators.entry_block Dominators.create_idom Dominators.clear_idom
    Dominators.rounds Dominators.round Dominators.visit_idom Dominators.new_idom
    Dominators.meet_preds Dominators.first_with Dominators.same_block Dominators.intersect
    Dominators.climb
idom_run = (_, refl)

-- A path to 6 that goes once round the loop.
abbrev round_path : Reach succs 1 6
round_path = go 1 2 6 refl (
    go 2 3 6 refl (
      go 3 4 6 refl
        (go 4 6 6 refl (go 6 2 6 refl (go 2 3 6 refl (go 3 5 6 refl (go 5 6 6 refl (stay 6))))))))

six-Above : Above idom_run.0 6 3
unfolding idom_run order_run
six-Above = up 6 3 3 refl (here 3)

create_idom-dominates_example : On round_path 3
create_idom-dominates_example =
    create_idom-dominates graph 1 (2 ∷ 3 ∷ 4 ∷ 5 ∷ 6 ∷ 7 ∷ []) order_run.0 9 (λ b. none) idom_run.0
      refl graph-IsClosed graph-IsMirrored order_run.1 idom_run.1 6 3 six-Above round_path

graph-IsJoined : IsJoined falling parent 1 InParent parent-IsTree pres (2 ∷ 6 ∷ [])
graph-IsJoined bb h many =
    All-contains
      (λ b.
        leb 2 (length (pres b)) ≡ true
        → (d : ℕ) × (parent b ≡ some d)
          × InParent d
          × ((p : ℕ) → contains (pres b) p ≡ true → InParent p × Above parent p d))
      (2 ∷ 6 ∷ [])
      (
        (λ _. (
          1,
          refl,
          refl,
          All-contains (λ p. InParent p × Above parent p 1) (1 ∷ 6 ∷ [])
              (
                (refl, here 1),
                ((refl, up 6 3 1 refl (up 3 2 1 refl (up 2 1 1 refl (here 1)))), tt),
              ),
        )),
        (
          (λ _. (
            3,
            refl,
            refl,
            All-contains (λ p. InParent p × Above parent p 3) (4 ∷ 5 ∷ [])
                ((refl, up 4 3 3 refl (here 3)), ((refl, up 5 3 3 refl (here 3)), tt)),
          )),
          tt,
        ),
      )
      bb h many

create_dominance_frontier-IsFrontier_example :
    (df : ℕ → List ℕ) × (create_dominance_frontier 9 pres parent (2 ∷ 6 ∷ []) (λ b. []) ≡ ok df)
    × ((x r : ℕ)
        → In df r x ↔ (
            In (λ b. []) r x
            ⊎ IsFrontier falling parent 1 InParent parent-IsTree pres (2 ∷ 6 ∷ []) x r))
create_dominance_frontier-IsFrontier_example =
    create_dominance_frontier-IsFrontier falling parent 1 InParent parent-IsTree 9 pres (2 ∷ 6 ∷ [])
      (λ b. []) graph-IsJoined (omega arith)

-- Nothing leads to 8, which goes to 2.
create_dominance_frontier-unreachable_example :
    create_dominance_frontier 100 (update pres 2 (1 ∷ 8 ∷ [])) parent (2 ∷ 6 ∷ []) (λ b. [])
    ≢ ok (λ b. [])
create_dominance_frontier-unreachable_example =
    create_dominance_frontier-unreachable parent 2 8 1 refl refl refl 100
      (update pres 2 (1 ∷ 8 ∷ [])) (2 ∷ 6 ∷ []) (λ b. []) (λ b. []) refl refl refl
