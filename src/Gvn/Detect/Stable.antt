-- ===== src/Gvn/Detect/Stable.antt =====
-- detectEquivalences ends at partitions that one more round gives again.
use gvn.Prelude.{
  ok-injective, ℕ, zero, suc, ◌≡◌, refl, ap, sym, ◌∙◌, Bool, true, false, ◌||◌, List, [], ◌∷◌, ◌==◌,
  ==_iff, ok, arith, Bool-cases, inl, inr, >>=-eq-ok, update,
}
use gvn.Ir.Constants.{FloatOps}
use gvn.Ir.Module.{args_of, Module, blocks_of, pres_of}
use gvn.Gvn.Class.{Partitions, Counter, partitions_eq}
use gvn.Gvn.Class.Sets.{member_lists, partitions_eq_iff}
use gvn.Gvn.ValuePhi.{front}
use gvn.Gvn.Detect.{
  Progress, start_classes, top, block_out, block_in, has_no_pre, visit_block, visit_all, iterate,
  detect_equivalences,
}

-- The classes of each block have the same members in both.
abbrev pub SameMembers : (ℕ → Partitions) → (ℕ → Partitions) → Type 0
SameMembers p q = (b : ℕ) → member_lists (p b) ≡ member_lists (q b)

update-SameMembers :
    (pout : ℕ → Partitions) (bb : ℕ) (p : Partitions)
    → partitions_eq p (pout bb) ≡ true
    → SameMembers (update pout bb p) pout
update-SameMembers pout bb p h b = elim (Bool-cases (bb == b)) [
  | inl e ↦
      rw e
        ((partitions_eq_iff p (pout bb)).0 h ∙ ap (λ c. member_lists (pout c)) ((==_iff bb b).0 e))
  | inr e ↦ rw e (refl)
]

module _ (fl : FloatOps) (m : Module) (is_pure : ℕ → Bool) (fuel : ℕ) where
  visit_block-SameMembers :
      (entry bb : ℕ) (s t : Progress)
      → visit_block fl m is_pure fuel entry bb s ≡ ok t
      → t.changed ≡ false
      → (s.changed ≡ false) × SameMembers t.pout s.pout
  unfolding visit_block
  visit_block-SameMembers entry bb s t h c =
      elim (Bool-cases (bb == entry || has_no_pre fl m is_pure fuel (pres_of (m.at bb)))) [
        | inl e ↦
            let same = ok-injective (rw (e, visit_block) at h) in
            (
              ap (λ (z : Progress). z.changed) same ∙ c,
              λ b. ap (λ (z : Progress). member_lists (z.pout b)) (sym same),
            )
        | inr e ↦
            let (pin, h1, h2) =
              >>=-eq-ok (block_in fl m is_pure fuel s.pout (pres_of (m.at bb)) s.counter) _
                (rw (e, visit_block) at h) in
            let (r, h3, h4) = >>=-eq-ok (block_out fl m is_pure fuel s.pout bb pin.0 pin.1) _ h2 in
            let same = ok-injective h4 in
            let quiet = ap (λ (z : Progress). z.changed) same ∙ c in
            (
              ground arith,
              λ b.
                  ap (λ (z : Progress). member_lists (z.pout b)) (sym same)
                  ∙ update-SameMembers s.pout bb r.0 (ground arith) b,
            )
      ]

  visit_all-SameMembers :
      (entry : ℕ) (bbs : List ℕ) (s t : Progress)
      → visit_all fl m is_pure fuel entry bbs s ≡ ok t
      → t.changed ≡ false
      → (s.changed ≡ false) × SameMembers t.pout s.pout
  unfolding visit_all
  visit_all-SameMembers entry [] s t h c = (
    ap (λ (z : Progress). z.changed) (ok-injective h) ∙ c,
    λ b. ap (λ (z : Progress). member_lists (z.pout b)) (sym (ok-injective h)),
  )
  visit_all-SameMembers entry (bb ∷ bbs) s t h c =
      let (u, h1, h2) = >>=-eq-ok (visit_block fl m is_pure fuel entry bb s) _ h in
      let (d, later) = visit_all-SameMembers entry bbs u t h2 c in
      let (e, first) = visit_block-SameMembers entry bb s u h1 d in (e, λ b. later b ∙ first b)

  iterate-stable :
      (rounds entry : ℕ) (bbs : List ℕ) (s t : Progress)
      → iterate fl m is_pure fuel rounds entry bbs s ≡ ok t
      → (u : Progress) × (visit_all fl m is_pure fuel entry bbs u ≡ ok t)
        × SameMembers t.pout u.pout
  unfolding iterate
  iterate-stable zero entry bbs s t h = cc
  iterate-stable (suc rest) entry bbs s t h =
      let (u, h1, h2) =
        >>=-eq-ok (visit_all fl m is_pure fuel entry bbs (record s { changed = false })) _ h in
      elim (Bool-cases u.changed) [
        | inl e ↦ iterate-stable rest entry bbs u t (rw e at h2)
        | inr e ↦
            let same = ok-injective (rw e at h2) in
            let last = h1 ∙ ap ok same in
            let quiet = ap (λ (z : Progress). z.changed) (sym same) ∙ e in
            (
              record s { changed = false },
              last,
              (visit_all-SameMembers entry bbs (record s { changed = false }) t last quiet).1,
            )
      ]

  -- Where `detectEquivalences` returns, its result is what a round over the blocks makes of
  -- partitions whose classes have the same members, block by block.
  pub detect_equivalences-SameMembers :
      (rounds f : ℕ) (k : Counter) (t : Progress)
      → detect_equivalences fl m is_pure fuel rounds f k ≡ ok t
      → (entry : ℕ) × (u : Progress) × (front (blocks_of (m.at f)) ≡ ok entry)
        × (visit_all fl m is_pure fuel entry (blocks_of (m.at f)) u ≡ ok t)
        × SameMembers t.pout u.pout
  unfolding detect_equivalences
  detect_equivalences-SameMembers rounds f k t h =
      let (entry, e, h1) = >>=-eq-ok (front (blocks_of (m.at f))) _ h in
      let start = start_classes m (args_of (m.at f)) [] k in
      let all = start_classes m m.global_list start.0 start.1 in
      let (r, _, h3) = >>=-eq-ok (block_out fl m is_pure fuel (λ b. []) entry all.0 all.1) _ h1 in
      let (u, v, same) =
        iterate-stable rounds entry (blocks_of (m.at f))
          (record { pout = update (λ b. top) entry r.0; counter = r.1; changed = false }) t h3 in
      (entry, u, e, v, same)
