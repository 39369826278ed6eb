-- ===== src/Dominators/Nearest.antt =====
-- Dominators::intersect finds the nearest common ancestor.
use gvn.Prelude.{
  ℕ, zero, suc, ◌+◌, ◌-◌, ◌<◌, ◌≤◌, ◌≡◌, ◌≢◌, refl, sym, ap, subst, ◌∙◌, true, false, Option, some,
  ◌⊎◌, inl, inr, ltb, ◌==◌, ==_iff, ==→≢, ==_refl, Bool-cases, ok, arith,
}
use gvn.Dominators.{climb, intersect}

-- `Above idom b a`: the pointers `idom` lead from `b` to `a`.
pub data Above (idom : ℕ → Option ℕ) : ℕ → ℕ → Type 0 where
  here : (b : ℕ) → Above idom b b
  up : (b c a : ℕ) → idom b ≡ some c → Above idom c a → Above idom b a

pub Above-trans :
    {idom : ℕ → Option ℕ} {b c a : ℕ} → Above idom b c → Above idom c a → Above idom b a
Above-trans (here b) r = r
Above-trans (up b d c e q) r = up b d _ e (Above-trans q r)

-- A tree that is found: the pointers of the blocks below the root lead to blocks of the tree with a
-- higher number, and the root's to the root. Blocks of the tree with the same number are the same.
pub record IsTree (id : ℕ → ℕ) (idom : ℕ → Option ℕ) (root : ℕ) (InTree : ℕ → Type 0) : Type 0 where
  pub rises :
      (b : ℕ)
      → InTree b
      → ((b ≡ root) × (idom b ≡ some root))
        ⊎ ((c : ℕ) × (idom b ≡ some c) × InTree c × (id b < id c))
  pub below_root : (b : ℕ) → InTree b → id b ≤ id root
  pub same : (b c : ℕ) → InTree b → InTree c → id b ≡ id c → b ≡ c

module _ (id : ℕ → ℕ) (idom : ℕ → Option ℕ) (root : ℕ) (InTree : ℕ → Type 0)
    (t : IsTree id idom root InTree) where
  -- A block with a lower number than another of the tree has a pointer, to a higher one.
  pub step_up :
      (b : ℕ) → InTree b → id b < id root → (c : ℕ) × (idom b ≡ some c) × InTree c × (id b < id c)
  step_up b h lt = elim (t.rises b h) [ inl e ↦ grind (arith, e.0) | inr r ↦ r ]

  -- A pointer to an ancestor is never down, and what stands below an ancestor at the same number is it.
  pub id_up : {b a : ℕ} → InTree b → Above idom b a → id b ≤ id a
  id_up h (here b) = omega arith
  id_up h (up b c a e r) = elim (t.rises b h) [
    | inl s ↦
        let same_b : c ≡ b = cc in
        omega (arith, ap id same_b, id_up (subst InTree (sym same_b) h) r)
    | inr s ↦
        let same_c : s.0 ≡ c = cc in
        omega (arith, s.3, ap id same_c, id_up (subst InTree same_c s.2) r)
  ]

  -- An ancestor of a block that is another block is an ancestor of the block its pointer leads to.
  pub Above-next : {b a : ℕ} (c : ℕ) → idom b ≡ some c → b ≢ a → Above idom b a → Above idom c a
  Above-next c e ne (here b) = elim (ne refl) [ ]
  Above-next c e ne (up b d a f r) = let same_d : d ≡ c = cc in subst (λ z. Above idom z a) same_d r

  -- What the loop that climbs from `b` returns: an ancestor that is not below `to`, which keeps every
  -- ancestor of `b` that is not below `to`.
  abbrev Climbs : ℕ → ℕ → ℕ → Type 0
  Climbs to b c =
      InTree c
      × Above idom b c
      × (id to ≤ id c)
      × (id b < id to → id b < id c)
      × ((a : ℕ) → Above idom b a → id to ≤ id a → Above idom c a)

  climb_up :
      (fuel to b c : ℕ)
      → id b < id to
      → idom b ≡ some c
      → climb id idom (suc fuel) to b ≡ climb id idom fuel to c
  unfolding climb
  climb_up fuel to b c lt e =
      let l : ltb (id b) (id to) ≡ true = ground arith in rw (l, e, climb) refl

  climb_stop : (fuel to b : ℕ) → id to ≤ id b → climb id idom (suc fuel) to b ≡ ok b
  unfolding climb
  climb_stop fuel to b le = let l : ltb (id b) (id to) ≡ false = ground arith in rw (l, climb) refl

  Climbs-up :
      (to b c d : ℕ)
      → idom b ≡ some c
      → id b < id c
      → id b < id to
      → Climbs to c d
      → id c ≤ id d
      → Climbs to b d
  Climbs-up to b c d e lt lo r le = (
    r.0,
    up b c d e r.1,
    r.2,
    λ _. omega arith,
    λ a above high. r.4 a (Above-next c e (λ same. omega (arith, ap id same)) above) high,
  )

  climb-Climbs :
      (fuel to b : ℕ)
      → InTree to
      → InTree b
      → id root - id b < fuel
      → (c : ℕ) × (climb id idom fuel to b ≡ ok c) × Climbs to b c
  climb-Climbs zero to b k h lt = elim lt [ ]
  climb-Climbs (suc fuel) to b k h lt = elim (Bool-cases (ltb (id b) (id to))) [
    | inl e ↦
        let lo : id b < id to = ground arith in
        let s = step_up b h (omega (arith, t.below_root to k)) in
        let r = climb-Climbs fuel to s.0 k s.2 (omega (arith, s.3, t.below_root to k)) in
        (
          r.0,
          climb_up fuel to b s.0 lo s.1 ∙ r.1,
          Climbs-up to b s.0 r.0 s.1 s.3 lo r.2 (id_up s.2 r.2.1),
        )
    | inr e ↦
        let le : id to ≤ id b = ground arith in
        (b, climb_stop fuel to b le, (h, here b, le, λ lo. omega arith, λ a above high. above))
  ]

  -- The nearest common ancestor.
  abbrev pub IsNearest : ℕ → ℕ → ℕ → Type 0
  IsNearest b1 b2 r =
      InTree r
      × Above idom b1 r
      × Above idom b2 r
      × ((a : ℕ) → Above idom b1 a → Above idom b2 a → Above idom r a)

  intersect-same : (limit fuel b : ℕ) → intersect id idom limit (suc fuel) b b ≡ ok b
  unfolding intersect
  intersect-same limit fuel b = rw (==_refl b, intersect) refl

  intersect_turn :
      (limit fuel b1 b2 c1 c2 : ℕ)
      → (b1 == b2) ≡ false
      → climb id idom limit b2 b1 ≡ ok c1
      → climb id idom limit c1 b2 ≡ ok c2
      → intersect id idom limit (suc fuel) b1 b2 ≡ intersect id idom limit fuel c1 c2
  unfolding intersect
  intersect_turn limit fuel b1 b2 c1 c2 e f g = rw (e, f, g, intersect) refl

  -- A turn of the outer loop takes one of two different blocks up.
  fewer :
      {fuel : ℕ} (b1 b2 c1 c2 : ℕ)
      → InTree b1
      → InTree b2
      → b1 ≢ b2
      → Climbs b2 b1 c1
      → Climbs c1 b2 c2
      → (id root - id b1) + (id root - id b2) < suc fuel
      → (id root - id c1) + (id root - id c2) < fuel
  fewer b1 b2 c1 c2 h1 h2 ne r s f =
      let differ : id b1 ≢ id b2 = λ e. ne (t.same b1 b2 h1 h2 e) in
      grind (
        arith,
        differ,
        id_up h1 r.1,
        id_up h2 s.1,
        r.2,
        r.3,
        s.2,
        s.3,
        t.below_root c1 r.0,
        t.below_root c2 s.0,
      )

  -- In a tree of pointers, with more turns for the inner loops than the number of the root, and more
  -- for the outer loop than the numbers of two blocks of the tree lack together to that, intersect
  -- returns, for the two, a block of the tree that is an ancestor of both and from which the
  -- pointers lead to every ancestor of both: the nearest one.
  pub intersect-IsNearest :
      (limit fuel b1 b2 : ℕ)
      → InTree b1
      → InTree b2
      → id root < limit
      → (id root - id b1) + (id root - id b2) < fuel
      → (r : ℕ) × (intersect id idom limit fuel b1 b2 ≡ ok r) × IsNearest b1 b2 r
  intersect-IsNearest limit zero b1 b2 h1 h2 l f = elim f [ ]
  intersect-IsNearest limit (suc fuel) b1 b2 h1 h2 l f = elim (Bool-cases (b1 == b2)) [
    | inl e ↦
        let same_b : b1 ≡ b2 = (==_iff b1 b2).0 e in
        (
          b1,
          subst (λ z. intersect id idom limit (suc fuel) b1 z ≡ ok b1) same_b
              (intersect-same limit fuel b1),
          (h1, here b1, subst (λ z. Above idom z b1) same_b (here b1), λ a above other. above),
        )
    | inr e ↦
        let ne : b1 ≢ b2 = ==→≢ b1 b2 e in
        let r = climb-Climbs limit b2 b1 h2 h1 (omega arith) in
        let s = climb-Climbs limit r.0 b2 r.2.0 h2 (omega arith) in
        let n =
          intersect-IsNearest limit fuel r.0 s.0 r.2.0 s.2.0 l
            (fewer b1 b2 r.0 s.0 h1 h2 ne r.2 s.2 f) in
        (
          n.0,
          intersect_turn limit fuel b1 b2 r.0 s.0 e r.1 s.1 ∙ n.1,
          (
            n.2.0,
            Above-trans r.2.1 n.2.1,
            Above-trans s.2.1 n.2.2,
            λ a above other.
                let q = r.2.4 a above (id_up h2 other) in n.2.3 a q (s.2.4 a other (id_up r.2.0 q)),
          ),
        )
  ]
