-- ===== src/Dominators/Climb.antt =====
-- What the climb from the predecessors of a block adds to the dominance frontier.
use gvn.Prelude.{
  ℕ, zero, suc, ◌-◌, ◌<◌, ◌≡◌, ◌≢◌, refl, sym, ap, subst, ◌∙◌, ◌⊎◌, ◌↔◌, inl, inr, Bool, true,
  false, Option, none, some, List, [], ◌∷◌, contains, ◌==◌, ==_iff, ==_refl, ==→≢, Bool-cases,
  update, if◌then◌else◌, ok, fault, out_of_fuel, ◌>>=◌, arith,
}
use gvn.Gvn.Class.{insert_member}
use gvn.Gvn.Class.Sets.{contains-insert_member}
use gvn.Dominators.{same_block, run_up, over_preds}
use gvn.Dominators.Nearest.{Above, here, up, IsTree, step_up, id_up, Above-next}

-- `x` stands in the set of `r`.
abbrev pub In : (ℕ → List ℕ) → ℕ → ℕ → Type 0
In df r x = contains (df r) x ≡ true

module _ (idom : ℕ → Option ℕ) where
  run_up_end :
      (fuel bb d : ℕ) (df : ℕ → List ℕ)
      → idom bb ≡ some d
      → run_up (suc fuel) idom bb (some d) df ≡ ok df
  unfolding run_up same_block
  run_up_end fuel bb d df e = rw (e, ==_refl d, run_up) refl

  pub run_up_step :
      (fuel bb d p : ℕ) (df : ℕ → List ℕ)
      → idom bb ≡ some d
      → (p == d) ≡ false
      → run_up (suc fuel) idom bb (some p) df
        ≡ run_up fuel idom bb (idom p) (update df p (insert_member bb (df p)))
  unfolding run_up same_block
  run_up_step fuel bb d p df e ne = rw (e, ne, run_up) refl

  -- The null pointer is never the pointer of a block that has one.
  pub run_up_null :
      (fuel bb d : ℕ) (df : ℕ → List ℕ)
      → idom bb ≡ some d
      → run_up fuel idom bb none df ≡ fault out_of_fuel
  unfolding run_up same_block
  run_up_null zero bb d df e = refl
  run_up_null (suc fuel) bb d df e = rw (e, run_up) (run_up_null fuel bb d df e)

-- What one more insertion leaves in the set of `r`.
In-insert :
    (df : ℕ → List ℕ) (p bb r x : ℕ)
    → In (update df p (insert_member bb (df p))) r x ↔ (In df r x ⊎ ((p ≡ r) × (bb ≡ x)))
In-insert df p bb r x = by_same (p == r) refl
  where
    by_same :
        (b : Bool)
        → (p == r) ≡ b
        → (contains (if b then insert_member bb (df p) else df r) x ≡ true)
          ↔ (In df r x ⊎ ((p ≡ r) × (bb ≡ x)))
    by_same true e = (
      λ c. elim (Bool-cases (bb == x)) [
        | inl same ↦ inr ((==_iff p r).0 e, (==_iff bb x).0 same)
        | inr other ↦ inl (
            subst (λ z. contains (df z) x ≡ true) ((==_iff p r).0 e)
              (ground (arith, contains-insert_member bb (df p) x)))
      ],
      λ c.
          let same = (==_iff p r).0 e in
          elim c [
            | inl old ↦
                let kept = subst (λ z. contains (df z) x ≡ true) (sym same) old in
                ground (arith, contains-insert_member bb (df p) x)
            | inr new ↦
                let at = (==_iff bb x).1 new.1 in ground (arith, contains-insert_member bb (df p) x)
          ],
    )
    by_same false e =
        (λ c. inl c, λ c. elim c [ inl d ↦ d | inr d ↦ let at = (==_iff p r).1 d.0 in cc ])

module _ (id : ℕ → ℕ) (idom : ℕ → Option ℕ) (root : ℕ) (InTree : ℕ → Type 0)
    (t : IsTree id idom root InTree) where
  -- `x` is added to the set of `r` for the predecessor `p`, where the pointer of `bb` leads to `d`.
  abbrev pub Added : ℕ → ℕ → ℕ → ℕ → ℕ → Type 0
  Added bb d p x r = (bb ≡ x) × Above idom p r × (Above idom d r → ⊥)

  abbrev pub Adds : (ℕ → List ℕ) → (ℕ → List ℕ) → (ℕ → ℕ → Type 0) → Type 0
  Adds df df' New = (x r : ℕ) → In df' r x ↔ (In df r x ⊎ New x r)

  -- An ancestor that is another block has a higher number.
  Above-lower : (p d : ℕ) → InTree p → InTree d → p ≢ d → Above idom p d → id p < id d
  Above-lower p d h k ne above = grind (arith, id_up id idom root InTree t h above, t.same p d h k)

  Adds-step :
      (df df' : ℕ → List ℕ) (bb d p c : ℕ)
      → idom p ≡ some c
      → InTree d
      → id p < id d
      → Adds (update df p (insert_member bb (df p))) df' (Added bb d c)
      → Adds df df' (Added bb d p)
  Adds-step df df' bb d p c e k lower adds x r = (to, from)
    where
      to : In df' r x → In df r x ⊎ Added bb d p x r
      to m = elim ((adds x r).0 m) [
        | inl i ↦ elim ((In-insert df p bb r x).0 i) [
          | inl old ↦ inl old
          | inr new ↦ inr (
            new.1,
            subst (λ z. Above idom p z) new.0 (here p),
            λ above. omega (
              arith,
              lower,
              id_up id idom root InTree t k (subst (λ z. Above idom d z) (sym new.0) above),
            ),
          )
        ]
        | inr new ↦ inr (new.0, up p c r e new.1, new.2)
      ]

      from : In df r x ⊎ Added bb d p x r → In df' r x
      from m = elim m [
        | inl old ↦ (adds x r).1 (inl ((In-insert df p bb r x).1 (inl old)))
        | inr new ↦ elim (Bool-cases (p == r)) [
          | inl at ↦ (adds x r).1 (inl ((In-insert df p bb r x).1 (inr ((==_iff p r).0 at, new.0))))
          | inr away ↦
              (adds x r).1
                (inr (new.0, Above-next id idom root InTree t c e (==→≢ p r away) new.1, new.2))
        ]
      ]

  run_up-Adds :
      (fuel bb d p : ℕ) (df : ℕ → List ℕ)
      → idom bb ≡ some d
      → InTree p
      → InTree d
      → Above idom p d
      → id root - id p < fuel
      → (df' : ℕ → List ℕ) × (run_up fuel idom bb (some p) df ≡ ok df') × Adds df df' (Added bb d p)
  run_up-Adds zero bb d p df e h k above lt = elim lt [ ]
  run_up-Adds (suc fuel) bb d p df e h k above lt = elim (Bool-cases (p == d)) [
    | inl at ↦
        let same = (==_iff p d).0 at in
        (
          df,
          subst (λ z. run_up (suc fuel) idom bb (some z) df ≡ ok df) (sym same)
              (run_up_end idom fuel bb d df e),
          λ x r. (
            λ c. inl c,
            λ c. elim c [
              | inl old ↦ old
              | inr new ↦ elim (new.2 (subst (λ z. Above idom z r) same new.1)) [ ]
            ],
          ),
        )
    | inr away ↦
        let ne = ==→≢ p d away in
        let lower = Above-lower p d h k ne above in
        let s = step_up id idom root InTree t p h (omega (arith, lower, t.below_root d k)) in
        let df1 = update df p (insert_member bb (df p)) in
        let q =
          run_up-Adds fuel bb d s.0 df1 e s.2 k (Above-next id idom root InTree t s.0 s.1 ne above)
            (omega (arith, s.3, t.below_root s.0 s.2, lt)) in
        (
          q.0,
          run_up_step idom fuel bb d p df e away ∙ ap (λ z. run_up fuel idom bb z df1) s.1 ∙ q.1,
          Adds-step df q.0 bb d p s.0 s.1 k lower q.2,
        )
  ]

  abbrev pub AddsPreds : ℕ → ℕ → List ℕ → (ℕ → List ℕ) → (ℕ → List ℕ) → Type 0
  AddsPreds bb d ps df df' =
      Adds df df' (λ x r. (p : ℕ) × (contains ps p ≡ true) × Added bb d p x r)

  pub over_preds-Adds :
      (fuel bb d : ℕ) (ps : List ℕ) (df : ℕ → List ℕ)
      → idom bb ≡ some d
      → InTree d
      → ((p : ℕ) → contains ps p ≡ true → InTree p × Above idom p d)
      → id root < fuel
      → (df' : ℕ → List ℕ) × (over_preds fuel idom bb ps df ≡ ok df') × AddsPreds bb d ps df df'
  unfolding over_preds
  over_preds-Adds fuel bb d [] df e k inside lt =
      (df, refl, λ x r. (λ c. inl c, λ c. elim c [ inl old ↦ old | inr new ↦ cc ]))
  over_preds-Adds fuel bb d (p ∷ ps) df e k inside lt =
      let here_p = inside p (ground (arith, ==_refl p)) in
      let o = run_up-Adds fuel bb d p df e here_p.0 k here_p.1 (omega arith) in
      let q = over_preds-Adds fuel bb d ps o.0 e k (λ z c. inside z (ground arith)) lt in
      (
        q.0,
        ap (λ z. z >>= over_preds fuel idom bb ps) o.1 ∙ q.1,
        λ x r. (
          λ c. elim ((q.2 x r).0 c) [
            | inl i ↦ elim ((o.2 x r).0 i) [
              | inl old ↦ inl old
              | inr new ↦ inr (p, ground (arith, ==_refl p), new)
            ]
            | inr new ↦ inr (new.0, ground (arith, new.1), new.2)
          ],
          λ c. elim c [
            | inl old ↦ (q.2 x r).1 (inl ((o.2 x r).1 (inl old)))
            | inr new ↦ elim (Bool-cases (p == new.0)) [
              | inl at ↦ (q.2 x r).1 (
                  inl (
                    (o.2 x r).1
                      (inr (subst (λ z. Added bb d z x r) (sym ((==_iff p new.0).0 at)) new.2))))
              | inr away ↦ (q.2 x r).1 (inr (new.0, ground (arith, new.1), new.2))
            ]
          ],
        ),
      )
