-- ===== src/Dominators/Stable.antt =====
-- The rounds of create_idom end with pointers that a round leaves as they are.
use gvn.Prelude.{
  ℕ, zero, suc, ◌≡◌, refl, sym, ap, subst, ◌∙◌, ◌⊎◌, inl, inr, Bool, true, false, Option, none,
  some, List, [], ◌∷◌, contains, ◌==◌, ==_iff, Bool-cases, update, Result, ok, ◌>>=◌, >>=-eq-ok,
  arith,
}
use gvn.Dominators.{same_block, Rounds, new_idom, visit_idom, round, rounds}

module _ (limit : ℕ) (id : ℕ → ℕ) (pres : ℕ → List ℕ) (root : ℕ) where
  -- What a block shows that a round leaves as it is.
  abbrev pub IsStable : (ℕ → Option ℕ) → ℕ → Type 0
  IsStable idom bb =
      (bb == root) ≡ false → (n : ℕ) × (new_idom limit id pres idom bb ≡ ok n) × (idom bb ≡ some n)

  same_block-some : (o : Option ℕ) (n : ℕ) → same_block o (some n) ≡ true → o ≡ some n
  unfolding same_block
  same_block-some none n e = cc
  same_block-some (some m) n e = ap (λ z. some z) ((==_iff m n).0 e)

  visit_idom-IsStable :
      (bb : ℕ) (s r : Rounds)
      → visit_idom limit id pres root bb s ≡ ok r
      → ((s ≡ r) × IsStable s.idom bb) ⊎ ((r.changed ≡ true) × (s.idom root ≡ r.idom root))
  unfolding visit_idom
  visit_idom-IsStable bb s r e = by_root (bb == root) refl e
    where
      written : ℕ → Bool → Result Rounds
      written n same = elim same [
        | true ↦ ok s
        | false ↦ ok (record { idom = update s.idom bb (some n); changed = true })
      ]

      by_same :
          (n : ℕ) (same : Bool)
          → (bb == root) ≡ false
          → new_idom limit id pres s.idom bb ≡ ok n
          → same_block (s.idom bb) (some n) ≡ same
          → written n same ≡ ok r
          → ((s ≡ r) × IsStable s.idom bb) ⊎ ((r.changed ≡ true) × (s.idom root ≡ r.idom root))
      by_same n true away f same g =
          let q : s ≡ r = cc in inl (q, λ ne. (n, f, same_block-some (s.idom bb) n same))
      by_same n false away f same g =
          let q : record { idom = update s.idom bb (some n); changed = true } ≡ r = cc in
          let kept : s.idom root ≡ update s.idom bb (some n) root = rw away refl in
          inr (sym (ap (λ z. z.changed) q), kept ∙ ap (λ z. z.idom root) q)

      by_root :
          (at_root : Bool)
          → (bb == root) ≡ at_root
          → (elim at_root [
            | true ↦ ok s
            | false ↦ new_idom limit id pres s.idom bb >>= λ n.
                written n (same_block (s.idom bb) (some n))
          ])
            ≡ ok r
          → ((s ≡ r) × IsStable s.idom bb) ⊎ ((r.changed ≡ true) × (s.idom root ≡ r.idom root))
      by_root true f g = let q : s ≡ r = cc in inl (q, λ ne. cc)
      by_root false f g =
          let x = >>=-eq-ok (new_idom limit id pres s.idom bb) _ g in
          by_same x.0 (same_block (s.idom bb) (some x.0)) f x.1 refl x.2

  -- A flag that is set stays set.
  round_changed :
      (order : List ℕ) (s r : Rounds)
      → s.changed ≡ true
      → round limit id pres root order s ≡ ok r
      → r.changed ≡ true
  unfolding round
  round_changed [] s r c e = let q : s ≡ r = cc in sym (ap (λ z. z.changed) q) ∙ c
  round_changed (b ∷ bs) s r c e =
      let x = >>=-eq-ok (visit_idom limit id pres root b s) _ e in
      elim (visit_idom-IsStable b s x.0 x.1) [
        | inl q ↦ round_changed bs x.0 r (sym (ap (λ z. z.changed) q.0) ∙ c) x.2
        | inr q ↦ round_changed bs x.0 r q.0 x.2
      ]

  -- A round without a change leaves every block as it is.
  round-IsStable :
      (order : List ℕ) (s r : Rounds)
      → round limit id pres root order s ≡ ok r
      → r.changed ≡ false
      → (s.idom ≡ r.idom) × ((bb : ℕ) → contains order bb ≡ true → IsStable s.idom bb)
  unfolding round
  round-IsStable [] s r e u = let q : s ≡ r = cc in (ap (λ z. z.idom) q, λ bb c. cc)
  round-IsStable (b ∷ bs) s r e u =
      let x = >>=-eq-ok (visit_idom limit id pres root b s) _ e in
      elim (visit_idom-IsStable b s x.0 x.1) [
        | inl q ↦
            let same = ap (λ z. z.idom) q.0 in
            let rest = round-IsStable bs x.0 r x.2 u in
            (
              same ∙ rest.0,
              λ bb c. elim (Bool-cases (b == bb)) [
                | inl at ↦ subst (λ z. IsStable s.idom z) ((==_iff b bb).0 at) q.1
                | inr not_at ↦ subst (λ z. IsStable z bb) (sym same) (rest.1 bb (ground arith))
              ],
            )
        | inr q ↦ let v = round_changed bs x.0 r q.0 x.2 in cc
      ]

  -- The root keeps its pointer.
  visit_idom-root :
      (bb : ℕ) (s r : Rounds)
      → visit_idom limit id pres root bb s ≡ ok r
      → s.idom root ≡ r.idom root
  visit_idom-root bb s r e = elim (visit_idom-IsStable bb s r e) [
    | inl q ↦ ap (λ z. z.idom root) q.0
    | inr q ↦ q.1
  ]

  round-root :
      (order : List ℕ) (s r : Rounds)
      → round limit id pres root order s ≡ ok r
      → s.idom root ≡ r.idom root
  unfolding round
  round-root [] s r e = let q : s ≡ r = cc in ap (λ z. z.idom root) q
  round-root (b ∷ bs) s r e =
      let x = >>=-eq-ok (visit_idom limit id pres root b s) _ e in
      visit_idom-root b s x.0 x.1 ∙ round-root bs x.0 r x.2

  -- Where the rounds end, the pointers that they return are those of a round without a change.
  pub rounds-IsStable :
      (fuel : ℕ) (order : List ℕ) (idom final : ℕ → Option ℕ)
      → rounds limit id pres fuel root order idom ≡ ok final
      → (idom root ≡ final root) × ((bb : ℕ) → contains order bb ≡ true → IsStable final bb)
  unfolding rounds
  rounds-IsStable zero order idom final e = cc
  rounds-IsStable (suc fuel) order idom final e =
      let x =
        >>=-eq-ok (round limit id pres root order (record { idom = idom; changed = false })) _ e in
      by_changed x.0 (λ h. rounds-IsStable fuel order x.0.idom final h) x.1 x.0.changed refl x.2
    where
      by_changed :
          (r : Rounds)
          → (rounds limit id pres fuel root order r.idom ≡ ok final
              → (r.idom root ≡ final root)
                × ((bb : ℕ) → contains order bb ≡ true → IsStable final bb))
          → round limit id pres root order (record { idom = idom; changed = false }) ≡ ok r
          → (c : Bool) → r.changed ≡ c
          → (elim c [ true ↦ rounds limit id pres fuel root order r.idom | false ↦ ok r.idom ])
            ≡ ok final
          → (idom root ≡ final root) × ((bb : ℕ) → contains order bb ≡ true → IsStable final bb)
      by_changed r rest f true u g = let q = rest g in (round-root order _ r f ∙ q.0, q.1)
      by_changed r rest f false u g =
          let same : r.idom ≡ final = cc in
          let q = round-IsStable order _ r f u in
          (
            ap (λ z. z root) (q.0 ∙ same),
            λ bb c. subst (λ z. IsStable z bb) (q.0 ∙ same) (q.1 bb c),
          )
