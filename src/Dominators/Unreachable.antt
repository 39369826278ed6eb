-- ===== src/Dominators/Unreachable.antt =====
-- create_dominance_frontier where a predecessor cannot be reached.
use gvn.Prelude.{
  ℕ, zero, suc, ◌≡◌, ◌≢◌, refl, sym, ap, subst, ◌∙◌, Bool, true, false, Option, none, some, List,
  [], ◌∷◌, length, contains, leb, ◌==◌, ==_iff, Bool-cases, inl, inr, ok, fault, out_of_fuel, ◌>>=◌,
  >>=-eq-ok, update, arith,
}
use gvn.Gvn.Class.{insert_member}
use gvn.Dominators.{run_up, over_preds, create_dominance_frontier}
use gvn.Dominators.Climb.{run_up_step, run_up_null}

module _ (idom : ℕ → Option ℕ) (bb p d : ℕ) (points : idom bb ≡ some d) (lost : idom p ≡ none)
    (away : (p == d) ≡ false) where
  run_up_lost : (fuel : ℕ) (df : ℕ → List ℕ) → run_up fuel idom bb (some p) df ≡ fault out_of_fuel
  unfolding run_up
  run_up_lost zero df = refl
  run_up_lost (suc fuel) df =
      run_up_step idom fuel bb d p df points away
      ∙ ap (λ z. run_up fuel idom bb z (update df p (insert_member bb (df p)))) lost
      ∙ run_up_null idom fuel bb d _ points

  over_preds_lost :
      (fuel : ℕ) (ps : List ℕ) (df df' : ℕ → List ℕ)
      → contains ps p ≡ true
      → over_preds fuel idom bb ps df ≢ ok df'
  unfolding over_preds
  over_preds_lost fuel [] df df' c e = cc
  over_preds_lost fuel (q ∷ qs) df df' c e =
      let x = >>=-eq-ok (run_up fuel idom bb (some q) df) _ e in
      elim (Bool-cases (q == p)) [
        | inl at ↦
            let same = (==_iff q p).0 at in
            let stuck = run_up_lost fuel df in
            let ended = subst (λ z. run_up fuel idom bb (some z) df ≡ ok x.0) same x.1 in cc
        | inr other ↦ over_preds_lost fuel qs x.0 df' (ground arith) x.2
      ]

  -- Where a block has several predecessors and its pointer leads to another block, and one of its
  -- predecessors is not that block and has no pointer (it cannot be reached from the entry),
  -- create_dominance_frontier returns nothing, with any fuel: it never ends.
  pub create_dominance_frontier-unreachable :
      (fuel : ℕ) (pres : ℕ → List ℕ) (bbs : List ℕ) (df df' : ℕ → List ℕ)
      → contains bbs bb ≡ true
      → leb 2 (length (pres bb)) ≡ true
      → contains (pres bb) p ≡ true
      → create_dominance_frontier fuel pres idom bbs df ≢ ok df'
  unfolding create_dominance_frontier
  create_dominance_frontier-unreachable fuel pres [] df df' c many inside e = cc
  create_dominance_frontier-unreachable fuel pres (b ∷ bs) df df' c many inside e =
      by_many (λ df1. create_dominance_frontier-unreachable fuel pres bs df1 df')
        (leb 2 (length (pres b))) refl e
    where
      by_many :
          ((df1 : ℕ → List ℕ)
            → contains bs bb ≡ true
            → leb 2 (length (pres bb)) ≡ true
            → contains (pres bb) p ≡ true
            → create_dominance_frontier fuel pres idom bs df1 ≢ ok df')
          → (several : Bool) → leb 2 (length (pres b)) ≡ several
          → (elim several [
            | true ↦
                over_preds fuel idom b (pres b) df >>= create_dominance_frontier fuel pres idom bs
            | false ↦ create_dominance_frontier fuel pres idom bs df
          ])
            ≢ ok df'
      by_many rest true s g = elim (Bool-cases (b == bb)) [
        | inl at ↦
            let same = (==_iff b bb).0 at in
            let x = >>=-eq-ok (over_preds fuel idom b (pres b) df) _ g in
            over_preds_lost fuel (pres bb) df x.0 inside
              (subst (λ z. over_preds fuel idom z (pres z) df ≡ ok x.0) same x.1)
        | inr other ↦
            let x = >>=-eq-ok (over_preds fuel idom b (pres b) df) _ g in
            rest x.0 (ground arith) many inside x.2
      ]
      by_many rest false s g = elim (Bool-cases (b == bb)) [
        | inl at ↦
            let two = subst (λ z. leb 2 (length (pres z)) ≡ true) (sym ((==_iff b bb).0 at)) many in
            cc
        | inr other ↦ rest df (ground arith) many inside g
      ]
