-- ===== src/Dominators/Sound.antt =====
-- The ancestors that create_idom finds dominate.
use gvn.Prelude.{
  ℕ, suc, ◌≡◌, refl, sym, subst, ◌∙◌, ◌⊎◌, inl, inr, true, false, Option, some, List, ◌∷◌, length,
  contains, ◌==◌, ==_iff, ==_refl, Bool-cases, update, ok, >>=-eq-ok,
}
use gvn.Dominators.{
  Graph, PostOrder, clear_idom, entry_block, create_idom, create_reverse_post_order,
}
use gvn.Dominators.Nearest.{Above, here, up, Above-trans}
use gvn.Dominators.Visits.{Reach, stay, go}
use gvn.Dominators.Reached.{IsClosed, create_reverse_post_order-IsReversePostOrder}
use gvn.Dominators.Common.{new_idom-Above}
use gvn.Dominators.Stable.{IsStable, rounds-IsStable}

-- `On r a`: the path `r` goes through `a`.
abbrev pub On : {succs : ℕ → List ℕ} {b c : ℕ} → Reach succs b c → ℕ → Type 0
On (stay b) a = a ≡ b
On (go b d c e r) a = (a ≡ b) ⊎ On r a

-- The successors of a block list it as a predecessor.
abbrev pub IsMirrored : Graph → Type 0
IsMirrored g = (x y : ℕ) → contains (g.succ_blocks x) y ≡ true → contains (g.pre_blocks y) x ≡ true

starts_On : {succs : ℕ → List ℕ} {b c : ℕ} (r : Reach succs b c) → On r b
starts_On (stay b) = refl
starts_On (go b d a e r) = inl refl

-- An ancestor of the root, whose pointer leads to itself, is the root.
Above-root : {idom : ℕ → Option ℕ} {b a : ℕ} → idom b ≡ some b → Above idom b a → a ≡ b
Above-root e (here b) = refl
Above-root {idom} e (up b c a f r) =
    let same : c ≡ b = cc in Above-root (subst (λ z. idom z ≡ some z) (sym same) e) r ∙ same

module _ (g : Graph) (mirrored : IsMirrored g) (limit : ℕ) (id : ℕ → ℕ) (root : ℕ) (order : List ℕ)
    (final : ℕ → Option ℕ) (at_root : final root ≡ some root)
    (stable : (bb : ℕ)
      → contains order bb ≡ true
      → IsStable limit id g.pre_blocks root final bb) where
  has_pointer : (b : ℕ) → contains order b ≡ true → (d : ℕ) × (final b ≡ some d)
  has_pointer b c = elim (Bool-cases (b == root)) [
    | inl e ↦ (root, subst (λ z. final z ≡ some root) (sym ((==_iff b root).0 e)) at_root)
    | inr e ↦ let q = stable b c e in (q.0, q.2)
  ]

  -- An ancestor of a block is the block, or an ancestor of each of its predecessors.
  Above-pred :
      {c a : ℕ} (x : ℕ)
      → contains order x ≡ true
      → contains order c ≡ true
      → contains (g.succ_blocks x) c ≡ true
      → (c == root) ≡ false
      → Above final c a
      → (a ≡ c) ⊎ Above final x a
  Above-pred x in_x in_c edge away (here c) = inl refl
  Above-pred x in_x in_c edge away (up c d a e r) =
      let q = stable c in_c away in
      let p = has_pointer x in_x in
      let same : q.0 ≡ d = cc in
      inr (
        Above-trans
          (new_idom-Above limit id g.pre_blocks final c q.0 x p.0 q.1 (mirrored x c edge) p.1)
          (subst (λ z. Above final z a) (sym same) r))

  -- On a path from `x` to `b`, each ancestor of `b` is on the path or an ancestor of `x`.
  On-Above :
      {x b : ℕ} (a : ℕ)
      → ((y : ℕ) → Reach g.succ_blocks x y → contains order y ≡ true)
      → (r : Reach g.succ_blocks x b) → Above final b a
      → On r a ⊎ Above final x a
  On-Above a inside (stay b) above = inr above
  On-Above a inside (go x c b edge r) above =
      elim (On-Above a (λ y path. inside y (go x c y edge path)) r above) [
        | inl on ↦ inl (inr on)
        | inr up_c ↦ elim (Bool-cases (c == root)) [
          | inl at ↦
              let same = (==_iff c root).0 at in
              let there = Above-root (subst (λ z. final z ≡ some z) (sym same) at_root) up_c in
              inl (inr (subst (λ z. On r z) (sym there) (starts_On r)))
          | inr away ↦
              elim (Above-pred x (inside x (stay x)) (inside c (go x c c edge (stay c))) edge away
                up_c) [
                  | inl same ↦ inl (inr (subst (λ z. On r z) (sym same) (starts_On r)))
                  | inr up_x ↦ inr up_x
                ]
        ]
      ]

start_pointer : (idom : ℕ → Option ℕ) (root : ℕ) → update idom root (some root) root ≡ some root
start_pointer idom root = rw (==_refl root) refl

-- Where the edges of a function are listed at both ends and lead to its blocks, and create_idom
-- returns, each block to which its pointers lead from a block is on every path from the entry to
-- that block: it dominates the block.
pub create_idom-dominates :
    (g : Graph) (entry : ℕ) (rest : List ℕ) (s : PostOrder) (fuel : ℕ) (idom final : ℕ → Option ℕ)
    → g.blocks ≡ entry ∷ rest
    → IsClosed g
    → IsMirrored g
    → create_reverse_post_order g ≡ ok s
    → create_idom fuel g s idom ≡ ok final
    → (b a : ℕ) → Above final b a
    → (r : Reach g.succ_blocks entry b) → On r a
unfolding create_idom entry_block
create_idom-dominates g entry rest s fuel idom final e closed mirrored f h b a above r =
    let x = >>=-eq-ok (entry_block g) _ h in
    let first : entry_block g ≡ ok entry = rw (e, entry_block) refl in
    let same : x.0 ≡ entry = cc in
    let q = rounds-IsStable (suc (length s.order)) s.id g.pre_blocks x.0 fuel s.order _ final x.2 in
    let at : final x.0 ≡ some x.0 = sym q.0 ∙ start_pointer (clear_idom g.blocks idom) x.0 in
    let p = create_reverse_post_order-IsReversePostOrder g entry rest e closed in
    let same_order : p.0 ≡ s = cc in
    elim (On-Above g mirrored (suc (length s.order)) s.id x.0 s.order final at q.1 a
      (λ y path. subst (λ z. contains z.order y ≡ true) same_order ((p.2.1 y).1 path)) r above) [
        | inl on ↦ on
        | inr top ↦
            let there = Above-root (subst (λ z. final z ≡ some z) same at) top in
            subst (λ z. On r z) (sym there) (starts_On r)
      ]
