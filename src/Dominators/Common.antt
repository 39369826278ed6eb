-- ===== src/Dominators/Common.antt =====
-- A new pointer leads to a common ancestor of the predecessors.
use gvn.Prelude.{
  ℕ, zero, suc, ◌+◌, ◌≡◌, refl, sym, subst, inl, inr, Bool, true, false, Option, none, some, List,
  [], ◌∷◌, contains, ltb, ◌==◌, ==_iff, Bool-cases, ok, fault, null_access, ◌>>=◌, >>=-eq-ok, arith,
}
use gvn.Dominators.{climb, intersect, first_with, meet_preds, new_idom}
use gvn.Dominators.Nearest.{Above, here, up, Above-trans}

module _ (id : ℕ → ℕ) (idom : ℕ → Option ℕ) where
  -- A climb that returns gives an ancestor.
  climb-Above : (fuel to b c : ℕ) → climb id idom fuel to b ≡ ok c → Above idom b c
  unfolding climb
  climb-Above zero to b c e = cc
  climb-Above (suc fuel) to b c e =
      by_case (λ d. climb-Above fuel to d c) (ltb (id b) (id to)) (idom b) refl e
    where
      by_case :
          ((d : ℕ) → climb id idom fuel to d ≡ ok c → Above idom d c)
          → (lower : Bool) (o : Option ℕ) → idom b ≡ o
          → (elim lower [
            | true ↦ elim o [ none ↦ fault null_access | some d ↦ climb id idom fuel to d ]
            | false ↦ ok b
          ])
            ≡ ok c
          → Above idom b c
      by_case above true (some d) f g = up b d c f (above d g)
      by_case above true none f g = cc
      by_case above false o f g =
          let same_b : b ≡ c = cc in subst (λ z. Above idom b z) same_b (here b)

  intersect-Above :
      (limit fuel b1 b2 r : ℕ)
      → intersect id idom limit fuel b1 b2 ≡ ok r
      → Above idom b1 r × Above idom b2 r
  unfolding intersect
  intersect-Above limit zero b1 b2 r e = cc
  intersect-Above limit (suc fuel) b1 b2 r e =
      by_case (λ c1 c2. intersect-Above limit fuel c1 c2 r) (b1 == b2) refl e
    where
      by_case :
          ((c1 c2 : ℕ)
            → intersect id idom limit fuel c1 c2 ≡ ok r
            → Above idom c1 r × Above idom c2 r)
          → (same : Bool) → (b1 == b2) ≡ same
          → (elim same [
            | true ↦ ok b1
            | false ↦ climb id idom limit b2 b1 >>= λ c1.
                climb id idom limit c1 b2 >>= λ c2. intersect id idom limit fuel c1 c2
          ])
            ≡ ok r
          → Above idom b1 r × Above idom b2 r
      by_case above true s g =
          let same_r : b1 ≡ r = cc in
          let same_b : b1 ≡ b2 = (==_iff b1 b2).0 s in
          (
            subst (λ z. Above idom b1 z) same_r (here b1),
            subst (λ z. Above idom z r) same_b (subst (λ z. Above idom b1 z) same_r (here b1)),
          )
      by_case above false s g =
          let x = >>=-eq-ok (climb id idom limit b2 b1) _ g in
          let y = >>=-eq-ok (climb id idom limit x.0 b2) _ x.2 in
          let z = above x.0 y.0 y.2 in
          (
            Above-trans (climb-Above limit b2 b1 x.0 x.1) z.0,
            Above-trans (climb-Above limit x.0 b2 y.0 y.1) z.1,
          )

module _ (limit : ℕ) (id : ℕ → ℕ) (pres : ℕ → List ℕ) (idom : ℕ → Option ℕ) where
  abbrev Meets : ℕ → List ℕ → ℕ → ℕ → Type 0
  Meets pred ps n r =
      Above idom n r
      × ((p d : ℕ) → contains ps p ≡ true → (p == pred) ≡ false → idom p ≡ some d → Above idom p r)

  with_pred :
      (pred p : ℕ) (ps : List ℕ) (n m r : ℕ)
      → Above idom n r
      → Meets pred ps m r
      → ((d : ℕ) → (p == pred) ≡ false → idom p ≡ some d → Above idom p r)
      → Meets pred (p ∷ ps) n r
  with_pred pred p ps n m r above rest head = (
    above,
    λ q d c ne g. elim (Bool-cases (p == q)) [
      | inl e ↦
          let same_q = sym ((==_iff p q).0 e) in
          subst (λ z. Above idom z r) (sym same_q)
            (head d (subst (λ z. (z == pred) ≡ false) same_q ne)
              (subst (λ z. idom z ≡ some d) same_q g))
      | inr e ↦ rest.1 q d (ground arith) ne g
    ],
  )

  -- The loop gives a common ancestor of the predecessors that have a pointer.
  meet_preds-Meets :
      (pred : ℕ) (ps : List ℕ) (n r : ℕ)
      → meet_preds limit id pres idom pred ps n ≡ ok r
      → Meets pred ps n r
  unfolding meet_preds
  meet_preds-Meets pred [] n r e =
      let same_r : n ≡ r = cc in
      (subst (λ z. Above idom n z) same_r (here n), λ p d c. ground arith)
  meet_preds-Meets pred (p ∷ ps) n r e =
      by_case (λ m. meet_preds-Meets pred ps m r) (p == pred) (idom p) refl refl e
    where
      by_case :
          ((m : ℕ) → meet_preds limit id pres idom pred ps m ≡ ok r → Meets pred ps m r)
          → (same : Bool) (o : Option ℕ) → (p == pred) ≡ same
          → idom p ≡ o
          → (elim same [
            | true ↦ meet_preds limit id pres idom pred ps n
            | false ↦ elim o [
              | none ↦ meet_preds limit id pres idom pred ps n
              | some d ↦
                  intersect id idom limit (limit + limit) p n
                  >>= meet_preds limit id pres idom pred ps
            ]
          ])
            ≡ ok r
          → Meets pred (p ∷ ps) n r
      by_case rest true o s f g = let m = rest n g in with_pred pred p ps n n r m.0 m (λ d ne h. cc)
      by_case rest false none s f g =
          let m = rest n g in with_pred pred p ps n n r m.0 m (λ d ne h. cc)
      by_case rest false (some d) s f g =
          let x = >>=-eq-ok (intersect id idom limit (limit + limit) p n) _ g in
          let m = rest x.0 x.2 in
          let both = intersect-Above id idom limit (limit + limit) p n x.0 x.1 in
          with_pred pred p ps n x.0 r (Above-trans both.1 m.0) m (λ _ ne h. Above-trans both.0 m.0)

  -- A new pointer leads to a common ancestor of the predecessors that have one.
  pub new_idom-Above :
      (bb n p d : ℕ)
      → new_idom limit id pres idom bb ≡ ok n
      → contains (pres bb) p ≡ true
      → idom p ≡ some d
      → Above idom p n
  unfolding new_idom
  new_idom-Above bb n p d e c f = by_first (first_with idom (pres bb)) e
    where
      by_first :
          (o : Option ℕ)
          → (elim o [
            | none ↦ fault null_access
            | some q ↦ meet_preds limit id pres idom q (pres bb) q
          ])
            ≡ ok n
          → Above idom p n
      by_first none g = cc
      by_first (some q) g =
          let m = meet_preds-Meets q (pres bb) q n g in
          elim (Bool-cases (p == q)) [
            | inl same ↦ subst (λ z. Above idom z n) (sym ((==_iff p q).0 same)) m.0
            | inr other ↦ m.1 p d c other f
          ]
