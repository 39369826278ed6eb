-- ===== src/Codegen/Blocks/Edges.antt =====
-- The edges that a branch adds.
use gvn.Prelude.{
  ℕ, ◌≡◌, ◌⊎◌, refl, true, false, ◌||◌, none, some, [], ◌∷◌, ◌++◌, arith, inl, inr, ◌==◌, contains,
  contains-append, Bool-cases, ==_iff, ==_refl,
}
use gvn.Ir.Module.{
  Module, Object, instr, block, func, argument, global, Block, as_block, succs_of, pres_of,
}
use gvn.Codegen.Create.{add_pre, add_succ, add_pred, add_next}
use gvn.Codegen.Blocks.{code}
use gvn.Codegen.Blocks.Linked.{Linked}

-- Predecessors may be added to any object.
pres-grow :
    (o : Object) (b x : ℕ)
    → contains (pres_of o) x ≡ true
    → contains (pres_of (add_pre o b)) x ≡ true
unfolding add_pre
pres-grow (block k) b x e = rw (contains-append k.pre_bbs (b ∷ []) x, e) refl
pres-grow (instr i) b x e = e
pres-grow (func f) b x e = e
pres-grow (argument t) b x e = e
pres-grow (global t) b x e = e

add_pre-succs : (b : ℕ) (o : Object) → succs_of (add_pre o b) ≡ succs_of o
unfolding add_pre
add_pre-succs b (instr o) = refl
add_pre-succs b (block o) = refl
add_pre-succs b (func o) = refl
add_pre-succs b (argument o) = refl
add_pre-succs b (global o) = refl

add_pre-none : (b : ℕ) (o : Object) → code o ≡ none → code (add_pre o b) ≡ none
unfolding add_pre
add_pre-none b (instr o) e = refl
add_pre-none b (block o) e = cc
add_pre-none b (func o) e = refl
add_pre-none b (argument o) e = refl
add_pre-none b (global o) e = refl

add_pred-pres :
    (m : Module) (b q x y : ℕ)
    → contains (pres_of (m.at y)) x ≡ true
    → contains (pres_of ((add_pred m b q).at y)) x ≡ true
unfolding add_pred
add_pred-pres m b q x y e = elim (Bool-cases (q == y)) [
  | inl k ↦ rw k (pres-grow (m.at q) b x (rw ((==_iff q y).0 k) e))
  | inr k ↦ rw k e
]

add_pred-succs : (m : Module) (b q x : ℕ) → succs_of ((add_pred m b q).at x) ≡ succs_of (m.at x)
unfolding add_pred
add_pred-succs m b q x = elim (Bool-cases (q == x)) [
  | inl k ↦ rw (k, add_pre-succs, (==_iff q x).0 k) refl
  | inr k ↦ rw k refl
]

add_pred-Linked : (m : Module) (n b q : ℕ) → Linked m n → Linked (add_pred m b q) n
unfolding add_pred
add_pred-Linked m n b q l = record {
  fresh = λ a k. elim (Bool-cases (q == a)) [
    | inl e ↦ rw e (add_pre-none b (m.at q) (rw ((==_iff q a).0 e) (l.fresh a k)))
    | inr e ↦ rw e (l.fresh a k)
  ];
  edges = λ x y k. add_pred-pres m b q x y (l.edges x y (rw (add_pred-succs m b q x) at k));
}

abbrev pub IsBlock : Object → Type 0
IsBlock (block b) = Unit
IsBlock _ = ⊥

pub as_block-IsBlock : (o : Object) (b : Block) → as_block o ≡ some b → IsBlock o
as_block-IsBlock (block k) b e = tt
as_block-IsBlock (instr i) b e = cc
as_block-IsBlock (func f) b e = cc
as_block-IsBlock (argument t) b e = cc
as_block-IsBlock (global t) b e = cc

add_pre-IsBlock : (o : Object) (b : ℕ) → IsBlock o → IsBlock (add_pre o b)
unfolding add_pre
add_pre-IsBlock (block k) b h = tt
add_pre-IsBlock (instr i) b h = h
add_pre-IsBlock (func f) b h = h
add_pre-IsBlock (argument t) b h = h
add_pre-IsBlock (global t) b h = h

add_pred-IsBlock : (m : Module) (b q x : ℕ) → IsBlock (m.at x) → IsBlock ((add_pred m b q).at x)
unfolding add_pred
add_pred-IsBlock m b q x h = elim (Bool-cases (q == x)) [
  | inl k ↦ rw k (add_pre-IsBlock (m.at q) b (rw ((==_iff q x).0 k) h))
  | inr k ↦ rw k h
]

add_pre-lists : (o : Object) (b : ℕ) → IsBlock o → contains (pres_of (add_pre o b)) b ≡ true
unfolding add_pre
add_pre-lists (block k) b h = rw (contains-append k.pre_bbs (b ∷ []) b, ==_refl b) (ground arith)
add_pre-lists (instr i) b h = absurd h
add_pre-lists (func f) b h = absurd h
add_pre-lists (argument t) b h = absurd h
add_pre-lists (global t) b h = absurd h

-- The block at the other end of a new edge lists it.
add_pred-lists :
    (m : Module) (b q : ℕ) → IsBlock (m.at q) → contains (pres_of ((add_pred m b q).at q)) b ≡ true
unfolding add_pred
add_pred-lists m b q h = rw (==_refl q) (add_pre-lists (m.at q) b h)

add_succ-split :
    (o : Object) (q y : ℕ)
    → contains (succs_of (add_succ o q)) y ≡ true
    → (contains (succs_of o) y ≡ true) ⊎ (q ≡ y)
unfolding add_succ
add_succ-split (block k) q y e = by_membership (contains-append k.succ_bbs (q ∷ []) y)
  where
    by_membership :
        contains (k.succ_bbs ++ q ∷ []) y ≡ (contains k.succ_bbs y || (q == y || false))
        → (contains k.succ_bbs y ≡ true) ⊎ (q ≡ y)
    by_membership c = elim (Bool-cases (contains k.succ_bbs y)) [
      | inl f ↦ inl f
      | inr f ↦ inr ((==_iff q y).0 (ground (arith, e, c, f)))
    ]
add_succ-split (instr i) q y e = inl e
add_succ-split (func f) q y e = inl e
add_succ-split (argument t) q y e = inl e
add_succ-split (global t) q y e = inl e

add_succ-pres : (q : ℕ) (o : Object) → pres_of (add_succ o q) ≡ pres_of o
unfolding add_succ
add_succ-pres q (instr o) = refl
add_succ-pres q (block o) = refl
add_succ-pres q (func o) = refl
add_succ-pres q (argument o) = refl
add_succ-pres q (global o) = refl

add_succ-none : (q : ℕ) (o : Object) → code o ≡ none → code (add_succ o q) ≡ none
unfolding add_succ
add_succ-none q (instr o) e = refl
add_succ-none q (block o) e = cc
add_succ-none q (func o) e = refl
add_succ-none q (argument o) e = refl
add_succ-none q (global o) e = refl

add_next-pres : (m : Module) (b q y : ℕ) → pres_of ((add_next m b q).at y) ≡ pres_of (m.at y)
unfolding add_next
add_next-pres m b q y = elim (Bool-cases (b == y)) [
  | inl k ↦ rw (k, add_succ-pres, (==_iff b y).0 k) refl
  | inr k ↦ rw k refl
]

add_next-split :
    (m : Module) (b q x y : ℕ)
    → contains (succs_of ((add_next m b q).at x)) y ≡ true
    → (contains (succs_of (m.at x)) y ≡ true) ⊎ ((b ≡ x) × (q ≡ y))
unfolding add_next
add_next-split m b q x y k = elim (Bool-cases (b == x)) [
  | inl e ↦ elim (add_succ-split (m.at b) q y (rw e at k)) [
    | inl h ↦ inl (rw ((==_iff b x).0 e) at h)
    | inr h ↦ inr ((==_iff b x).0 e, h)
  ]
  | inr e ↦ inl (rw e at k)
]

add_next-Linked :
    (m : Module) (n b q : ℕ)
    → contains (pres_of (m.at q)) b ≡ true
    → Linked m n
    → Linked (add_next m b q) n
unfolding add_next
add_next-Linked m n b q h l = record {
  fresh = λ a k. elim (Bool-cases (b == a)) [
    | inl e ↦ rw e (add_succ-none q (m.at b) (rw ((==_iff b a).0 e) (l.fresh a k)))
    | inr e ↦ rw e (l.fresh a k)
  ];
  edges = λ x y k.
      rw (add_next-pres m b q y) (elim (add_next-split m b q x y k) [
        | inl e ↦ l.edges x y e
        | inr (e, f) ↦ rw (← e, ← f) h
      ]);
}

pub br-Linked :
    (m : Module) (n b q : ℕ)
    → IsBlock (m.at q)
    → Linked m n
    → Linked (add_next (add_pred m b q) b q) n
br-Linked m n b q h l = add_next-Linked _ n b q (add_pred-lists m b q h) (add_pred-Linked m n b q l)

pub cond_br-Linked :
    (m : Module) (n b t f : ℕ)
    → IsBlock (m.at t)
    → IsBlock (m.at f)
    → Linked m n
    → Linked (add_next (add_next (add_pred (add_pred m b t) b f) b f) b t) n
cond_br-Linked m n b t f h k l =
    let m' : Module = add_pred (add_pred m b t) b f in
    let listed : contains (pres_of (m'.at t)) b ≡ true =
      add_pred-pres (add_pred m b t) b f b t (add_pred-lists m b t h) in
    add_next-Linked _ n b t (rw (add_next-pres m' b f t) listed) (
      add_next-Linked m' n b f (add_pred-lists (add_pred m b t) b f (add_pred-IsBlock m b t f k))
        (add_pred-Linked _ n b f (add_pred-Linked m n b t l)))
