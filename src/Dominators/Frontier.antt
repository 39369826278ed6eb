-- ===== src/Dominators/Frontier.antt =====
-- create_dominance_frontier on a tree of pointers.
use gvn.Prelude.{
  ℕ, ◌<◌, ◌≡◌, refl, sym, subst, ◌∙◌, ◌⊎◌, ◌↔◌, inl, inr, true, false, Option, some, List, [], ◌∷◌,
  length, contains, leb, ◌==◌, ==_iff, ==_refl, Bool-cases, ok, arith,
}
use gvn.Dominators.{over_preds, create_dominance_frontier}
use gvn.Dominators.Nearest.{Above, IsTree}
use gvn.Dominators.Climb.{In, Added, over_preds-Adds}

module _ (id : ℕ → ℕ) (idom : ℕ → Option ℕ) (root : ℕ) (InTree : ℕ → Type 0)
    (t : IsTree id idom root InTree) where
  -- `x` is in the dominance frontier of `r`: `r` is an ancestor of a predecessor of `x` and not of
  -- the block that the pointer of `x` leads to.
  abbrev pub IsFrontier : (ℕ → List ℕ) → List ℕ → ℕ → ℕ → Type 0
  IsFrontier pres bbs x r =
      (contains bbs x ≡ true)
      × (leb 2 (length (pres x)) ≡ true)
      × ((p : ℕ) × (d : ℕ) × (contains (pres x) p ≡ true)
          × (idom x ≡ some d)
          × Above idom p r
          × (Above idom d r → ⊥))

  -- The predecessors of each block that has several are in the tree, below its pointer.
  abbrev pub IsJoined : (ℕ → List ℕ) → List ℕ → Type 0
  IsJoined pres bbs =
      (bb : ℕ)
      → contains bbs bb ≡ true
      → leb 2 (length (pres bb)) ≡ true
      → (d : ℕ) × (idom bb ≡ some d)
        × InTree d
        × ((p : ℕ) → contains (pres bb) p ≡ true → InTree p × Above idom p d)

  IsFrontier-more :
      (pres : ℕ → List ℕ) (bb : ℕ) (bbs : List ℕ) (x r : ℕ)
      → IsFrontier pres bbs x r
      → IsFrontier pres (bb ∷ bbs) x r
  IsFrontier-more pres bb bbs x r f = (ground (arith, f.0), f.1, f.2)

  IsFrontier-cons :
      (pres : ℕ → List ℕ) (bb : ℕ) (bbs : List ℕ) (x r : ℕ)
      → IsFrontier pres (bb ∷ bbs) x r
      → (bb ≡ x) ⊎ IsFrontier pres bbs x r
  IsFrontier-cons pres bb bbs x r f = elim (Bool-cases (bb == x)) [
    | inl at ↦ inl ((==_iff bb x).0 at)
    | inr away ↦ inr (ground (arith, f.0), f.1, f.2)
  ]

  -- What the loop over the predecessors of `bb` adds.
  IsFrontier-Added :
      (pres : ℕ → List ℕ) (bb d : ℕ) (bbs : List ℕ) (x r : ℕ)
      → leb 2 (length (pres bb)) ≡ true
      → idom bb ≡ some d
      → ((bb ≡ x) × IsFrontier pres (bb ∷ bbs) x r)
        ↔ ((p : ℕ) × (contains (pres bb) p ≡ true) × Added id idom root InTree t bb d p x r)
  IsFrontier-Added pres bb d bbs x r many e = (to, from)
    where
      to :
          (bb ≡ x) × IsFrontier pres (bb ∷ bbs) x r
          → (p : ℕ) × (contains (pres bb) p ≡ true) × Added id idom root InTree t bb d p x r
      to f =
          let g = subst (λ z. IsFrontier pres (bb ∷ bbs) z r) (sym f.0) f.1 in
          let same : g.2.1 ≡ d = let q = g.2.3 in cc in
          (g.2.0, g.2.2, (f.0, g.2.4, subst (λ z. Above idom z r → ⊥) same g.2.5))

      from :
          (p : ℕ) × (contains (pres bb) p ≡ true) × Added id idom root InTree t bb d p x r
          → (bb ≡ x) × IsFrontier pres (bb ∷ bbs) x r
      from n = (
        n.2.0,
        subst (λ z. IsFrontier pres (bb ∷ bbs) z r) n.2.0
            (ground (arith, ==_refl bb), many, (n.0, d, n.1, e, n.2.1, n.2.2)),
      )

  create_few :
      (fuel : ℕ) (pres : ℕ → List ℕ) (bb : ℕ) (bbs : List ℕ) (df : ℕ → List ℕ)
      → leb 2 (length (pres bb)) ≡ false
      → create_dominance_frontier fuel pres idom (bb ∷ bbs) df
        ≡ create_dominance_frontier fuel pres idom bbs df
  unfolding create_dominance_frontier
  create_few fuel pres bb bbs df few = rw (few, create_dominance_frontier) refl

  create_many :
      (fuel : ℕ) (pres : ℕ → List ℕ) (bb : ℕ) (bbs : List ℕ) (df df1 : ℕ → List ℕ)
      → leb 2 (length (pres bb)) ≡ true
      → over_preds fuel idom bb (pres bb) df ≡ ok df1
      → create_dominance_frontier fuel pres idom (bb ∷ bbs) df
        ≡ create_dominance_frontier fuel pres idom bbs df1
  unfolding create_dominance_frontier
  create_many fuel pres bb bbs df df1 many e = rw (many, e, create_dominance_frontier) refl

  -- On a tree of pointers in which the predecessors of each block that has several stand below its
  -- own pointer, and with more fuel than the number of the root, create_dominance_frontier ends, and
  -- it adds a block to the set of another exactly where it has several predecessors and the other is
  -- an ancestor of one of them, but not of the block that its pointer leads to.
  pub create_dominance_frontier-IsFrontier :
      (fuel : ℕ) (pres : ℕ → List ℕ) (bbs : List ℕ) (df : ℕ → List ℕ)
      → IsJoined pres bbs
      → id root < fuel
      → (df' : ℕ → List ℕ) × (create_dominance_frontier fuel pres idom bbs df ≡ ok df')
        × ((x r : ℕ) → In df' r x ↔ (In df r x ⊎ IsFrontier pres bbs x r))
  unfolding create_dominance_frontier
  create_dominance_frontier-IsFrontier fuel pres [] df joined lt =
      (df, refl, λ x r. (λ c. inl c, λ c. elim c [ inl old ↦ old | inr new ↦ cc ]))
  create_dominance_frontier-IsFrontier fuel pres (bb ∷ bbs) df joined lt =
      elim (Bool-cases (leb 2 (length (pres bb)))) [
        | inl many ↦
            let j = joined bb (ground (arith, ==_refl bb)) many in
            let o = over_preds-Adds id idom root InTree t fuel bb j.0 (pres bb) df j.1 j.2 j.3 lt in
            let q =
              create_dominance_frontier-IsFrontier fuel pres bbs o.0
                (λ b c. joined b (ground arith)) lt in
            (
              q.0,
              create_many fuel pres bb bbs df o.0 many o.1 ∙ q.1,
              λ x r.
                  let added = IsFrontier-Added pres bb j.0 bbs x r many j.1 in
                  (
                    λ c. elim ((q.2 x r).0 c) [
                      | inl i ↦ elim ((o.2 x r).0 i) [
                        | inl old ↦ inl old
                        | inr new ↦ inr (added.1 new).1
                      ]
                      | inr new ↦ inr (IsFrontier-more pres bb bbs x r new)
                    ],
                    λ c. elim c [
                      | inl old ↦ (q.2 x r).1 (inl ((o.2 x r).1 (inl old)))
                      | inr new ↦ elim (IsFrontier-cons pres bb bbs x r new) [
                        | inl at ↦ (q.2 x r).1 (inl ((o.2 x r).1 (inr (added.0 (at, new)))))
                        | inr rest ↦ (q.2 x r).1 (inr rest)
                      ]
                    ],
                  ),
            )
        | inr few ↦
            let q =
              create_dominance_frontier-IsFrontier fuel pres bbs df (λ b c. joined b (ground arith))
                lt in
            (
              q.0,
              create_few fuel pres bb bbs df few ∙ q.1,
              λ x r. (
                λ c. elim ((q.2 x r).0 c) [
                  | inl old ↦ inl old
                  | inr new ↦ inr (IsFrontier-more pres bb bbs x r new)
                ],
                λ c. elim c [
                  | inl old ↦ (q.2 x r).1 (inl old)
                  | inr new ↦ elim (IsFrontier-cons pres bb bbs x r new) [
                    | inl at ↦
                        let two = subst (λ z. leb 2 (length (pres z)) ≡ true) (sym at) new.1 in cc
                    | inr rest ↦ (q.2 x r).1 (inr rest)
                  ]
                ],
              ),
            )
      ]
