-- ===== src/Dominators.antt =====
-- The dominator tree of a function (include/optimization/Dominators.h,
-- src/optimization/Dominators.cpp).
pub mod Nearest
pub mod Visits
pub mod Reached
pub mod Common
pub mod Stable
pub mod Sound
pub mod Climb
pub mod Frontier
pub mod Unreachable
use gvn.Prelude.{
  ℕ, zero, suc, ◌+◌, Bool, true, false, not, ◌&&◌, Option, none, some, List, [], ◌∷◌, ◌++◌, length,
  if◌then◌else◌, ltb, leb, ◌==◌, update, Result, ok, fault, null_access, no_element, out_of_fuel,
  ◌>>=◌, is_eq, ℕ_discrete,
}
use gvn.Gvn.Class.{insert_member}

-- The edges of a function: its blocks, the entry first, with their successors and predecessors.
pub record Graph : Type 0 where
  pub blocks : List ℕ
  pub succ_blocks : ℕ → List ℕ
  pub pre_blocks : ℕ → List ℕ

-- `post_order_id_` and `reverse_post_order_`, before it is reversed, with the set `visited`.
pub record PostOrder : Type 0 where
  pub visited : ℕ → Bool
  pub order : List ℕ
  pub id : ℕ → ℕ

-- The loop over the successors.
unfoldable pub visit_unvisited :
    (ℕ → PostOrder → Result PostOrder) → List ℕ → PostOrder → Result PostOrder
visit_unvisited rec [] s = ok s
visit_unvisited rec (b ∷ bs) s = elim (s.visited b) [
  | true ↦ visit_unvisited rec bs s
  | false ↦ rec b s >>= visit_unvisited rec bs
]

-- `visited.insert(bb)`
unfoldable pub enter : ℕ → PostOrder → PostOrder
enter bb s = record { visited = update s.visited bb true; order = s.order; id = s.id }

-- `post_order_id_[bb] = reverse_post_order_.size(); reverse_post_order_.push_back(bb)`
unfoldable pub leave : ℕ → PostOrder → PostOrder
leave bb s = record {
  visited = s.visited;
  order = s.order ++ bb ∷ [];
  id = update s.id bb (length s.order);
}

-- post_order_visit; its recursion takes fuel.
unfoldable pub post_order_visit : (ℕ → List ℕ) → ℕ → ℕ → PostOrder → Result PostOrder
post_order_visit succs zero bb s = fault out_of_fuel
post_order_visit succs (suc fuel) bb s =
    visit_unvisited (post_order_visit succs fuel) (succs bb) (enter bb s) >>= λ t. ok (leave bb t)

unfoldable pub start : PostOrder
start = record { visited = λ b. false; order = []; id = λ b. 0 }

unfoldable pub reverse : List ℕ → List ℕ
reverse [] = []
reverse (b ∷ bs) = reverse bs ++ b ∷ []

unfoldable pub entry_block : Graph → Result ℕ
entry_block g = elim g.blocks [ [] ↦ fault no_element | b ∷ bs ↦ ok b ]

-- create_reverse_post_order: a call for each block is the deepest that the recursion can be.
unfoldable pub create_reverse_post_order : Graph → Result PostOrder
create_reverse_post_order g = do
  entry ← entry_block g
  s ← post_order_visit g.succ_blocks (suc (length g.blocks)) entry start
  ok (record { visited = s.visited; order = reverse s.order; id = s.id })

-- `idom_`; a block that has none has the null pointer.
module _ (id : ℕ → ℕ) (idom : ℕ → Option ℕ) where
  -- `while (post_order_id_[b] < post_order_id_[to]) b = get_idom(b)`, with its assertion.
  unfoldable pub climb : ℕ → ℕ → ℕ → Result ℕ
  climb zero to b = fault out_of_fuel
  climb (suc fuel) to b = elim (ltb (id b) (id to)) [
    | true ↦ elim (idom b) [ none ↦ fault null_access | some c ↦ climb fuel to c ]
    | false ↦ ok b
  ]

  -- Dominators::intersect, where each of its loops takes at most `limit` turns.
  unfoldable pub intersect : ℕ → ℕ → ℕ → ℕ → Result ℕ
  intersect limit zero b1 b2 = fault out_of_fuel
  intersect limit (suc fuel) b1 b2 = elim (b1 == b2) [
    | true ↦ ok b1
    | false ↦ do c1 ← climb limit b2 b1; c2 ← climb limit c1 b2; intersect limit fuel c1 c2
  ]

-- The first predecessor that has a pointer.
unfoldable pub first_with : (ℕ → Option ℕ) → List ℕ → Option ℕ
first_with idom [] = none
first_with idom (p ∷ ps) = elim (idom p) [ none ↦ first_with idom ps | some d ↦ some p ]

-- `a == b` on pointers.
unfoldable pub same_block : Option ℕ → Option ℕ → Bool
same_block none none = true
same_block (some a) (some b) = a == b
same_block _ _ = false

-- `idom_` and the flag `changed`.
pub record Rounds : Type 0 where
  pub idom : ℕ → Option ℕ
  pub changed : Bool

module _ (limit : ℕ) (id : ℕ → ℕ) (pres : ℕ → List ℕ) where
  -- The loop over the other predecessors that have a pointer.
  unfoldable pub meet_preds : (ℕ → Option ℕ) → ℕ → List ℕ → ℕ → Result ℕ
  meet_preds idom pred [] n = ok n
  meet_preds idom pred (p ∷ ps) n = elim (p == pred) [
    | true ↦ meet_preds idom pred ps n
    | false ↦ elim (idom p) [
      | none ↦ meet_preds idom pred ps n
      | some d ↦ intersect id idom limit (limit + limit) p n >>= meet_preds idom pred ps
    ]
  ]

  unfoldable pub new_idom : (ℕ → Option ℕ) → ℕ → Result ℕ
  new_idom idom bb = elim (first_with idom (pres bb)) [
    | none ↦ fault null_access
    | some p ↦ meet_preds idom p (pres bb) p
  ]

  -- A block in a round.
  unfoldable pub visit_idom : ℕ → ℕ → Rounds → Result Rounds
  visit_idom root bb r = elim (bb == root) [
    | true ↦ ok r
    | false ↦ new_idom r.idom bb >>= λ n. elim (same_block (r.idom bb) (some n)) [
      | true ↦ ok r
      | false ↦ ok (record { idom = update r.idom bb (some n); changed = true })
    ]
  ]

  unfoldable pub round : ℕ → List ℕ → Rounds → Result Rounds
  round root [] r = ok r
  round root (bb ∷ bbs) r = visit_idom root bb r >>= round root bbs

  -- `while (changed)`, with fuel.
  unfoldable pub rounds : ℕ → ℕ → List ℕ → (ℕ → Option ℕ) → Result (ℕ → Option ℕ)
  rounds zero root order idom = fault out_of_fuel
  rounds (suc fuel) root order idom =
      round root order (record { idom = idom; changed = false }) >>= λ r.
      let rest = rounds fuel root order r.idom in elim r.changed [ true ↦ rest | false ↦ ok r.idom ]

-- `set_idom(bb, nullptr)` of the blocks.
unfoldable pub clear_idom : List ℕ → (ℕ → Option ℕ) → ℕ → Option ℕ
clear_idom [] idom = idom
clear_idom (b ∷ bs) idom = clear_idom bs (update idom b none)

-- create_idom, after create_reverse_post_order. No climb is longer than the order, so an intersection
-- takes at most as many turns as that, and twice that for its outer loop.
unfoldable pub create_idom : ℕ → Graph → PostOrder → (ℕ → Option ℕ) → Result (ℕ → Option ℕ)
create_idom fuel g s idom = do
  root ← entry_block g
  rounds (suc (length s.order)) s.id g.pre_blocks fuel root s.order
      (update (clear_idom g.blocks idom) root (some root))

-- `while (runner != get_idom(bb))`, where the null pointer has the null pointer for `get_idom`.
unfoldable pub run_up : ℕ → (ℕ → Option ℕ) → ℕ → Option ℕ → (ℕ → List ℕ) → Result (ℕ → List ℕ)
run_up zero idom bb runner df = fault out_of_fuel
run_up (suc fuel) idom bb runner df = elim (same_block runner (idom bb)) [
  | true ↦ ok df
  | false ↦ elim runner [
    | none ↦ run_up fuel idom bb none df
    | some r ↦ run_up fuel idom bb (idom r) (update df r (insert_member bb (df r)))
  ]
]

unfoldable pub over_preds : ℕ → (ℕ → Option ℕ) → ℕ → List ℕ → (ℕ → List ℕ) → Result (ℕ → List ℕ)
over_preds fuel idom bb [] df = ok df
over_preds fuel idom bb (p ∷ ps) df = run_up fuel idom bb (some p) df >>= over_preds fuel idom bb ps

unfoldable pub create_dominance_frontier :
    ℕ → (ℕ → List ℕ) → (ℕ → Option ℕ) → List ℕ → (ℕ → List ℕ) → Result (ℕ → List ℕ)
create_dominance_frontier fuel pres idom [] df = ok df
create_dominance_frontier fuel pres idom (bb ∷ bbs) df = elim (leb 2 (length (pres bb))) [
  | true ↦ over_preds fuel idom bb (pres bb) df >>= create_dominance_frontier fuel pres idom bbs
  | false ↦ create_dominance_frontier fuel pres idom bbs df
]

-- The entry of a block without a pointer goes to the null pointer, which nothing reads.
unfoldable pub create_dom_tree_succ : (ℕ → Option ℕ) → List ℕ → (ℕ → List ℕ) → ℕ → List ℕ
create_dom_tree_succ idom [] succs = succs
create_dom_tree_succ idom (bb ∷ bbs) succs = elim (same_block (idom bb) (some bb)) [
  | true ↦ create_dom_tree_succ idom bbs succs
  | false ↦ elim (idom bb) [
    | none ↦ create_dom_tree_succ idom bbs succs
    | some d ↦ create_dom_tree_succ idom bbs (update succs d (insert_member bb (succs d)))
  ]
]

-- The four maps of a function that is not only declared. The maps start empty for its blocks.
pub record DomTree : Type 0 where
  pub post_order : PostOrder
  pub idom : ℕ → Option ℕ
  pub dom_frontier : ℕ → List ℕ
  pub dom_tree_succ_blocks : ℕ → List ℕ

unfoldable pub run : ℕ → Graph → Result DomTree
run fuel g = do
  s ← create_reverse_post_order g
  idom ← create_idom fuel g s (λ b. none)
  df ← create_dominance_frontier fuel g.pre_blocks idom g.blocks (λ b. [])
  ok (record {
    post_order = s;
    idom = idom;
    dom_frontier = df;
    dom_tree_succ_blocks = create_dom_tree_succ idom g.blocks (λ b. []);
  })
