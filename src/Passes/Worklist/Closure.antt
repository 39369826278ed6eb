-- ===== src/Passes/Worklist/Closure.antt =====
-- The worklist ends, and sets exactly the flags that the edges demand.
use gvn.Prelude.{
  ℕ, zero, suc, ◌+◌, ◌≤◌, ◌<◌, ◌≡◌, refl, ap, ◌⊎◌, inl, inr, Bool, true, false, not, ◌&&◌, ◌||◌,
  some, List, [], ◌∷◌, if◌then◌else◌, ◌==◌, contains, count, length, length-append, contains-append,
  Bool-cases, arith, ==_iff,
}
use gvn.Passes.Worklist.{Search, same, has_mark, offer, scan, expand, loop}

module _ (mark : Bool) where
  same_self : same mark mark ≡ true
  same_self = ground arith

  mark-offer :
      (s : Search) (t v : ℕ) → has_mark mark (offer mark s t) v ≡ (has_mark mark s v || t == v)
  unfolding offer
  mark-offer s t v = ground (arith, same_self, ==_iff t v)

  work-offer :
      (s : Search) (t v : ℕ)
      → contains (offer mark s t).work v ≡ (contains s.work v || t == v && not (has_mark mark s t))
  unfolding offer
  work-offer s t v = ground (arith, contains-append s.work (t ∷ []) v)

  pub mark-scan :
      (s : Search) (ts : List ℕ) (v : ℕ)
      → has_mark mark (scan mark s ts) v ≡ (has_mark mark s v || contains ts v)
  unfolding scan
  mark-scan s [] v = ground arith
  mark-scan s (t ∷ ts) v = ground (arith, mark-offer s t v, mark-scan (offer mark s t) ts v)

  -- The queue gains exactly the addresses whose flag is new.
  pub work-scan :
      (s : Search) (ts : List ℕ) (v : ℕ)
      → contains (scan mark s ts).work v
        ≡ (contains s.work v || contains ts v && not (has_mark mark s v))
  unfolding scan
  work-scan s [] v = ground arith
  work-scan s (t ∷ ts) v =
      ground
        (arith, mark-offer s t v, work-offer s t v, work-scan (offer mark s t) ts v, ==_iff t v)

-- The flags of `xs` that are not set.
abbrev pub unmarked : Bool → Search → List ℕ → ℕ
unmarked mark s xs = count (λ v. not (has_mark mark s v)) xs

module _ (mark : Bool) where
  unmarked-offer_le :
      (s : Search) (t : ℕ) (xs : List ℕ) → unmarked mark (offer mark s t) xs ≤ unmarked mark s xs
  unmarked-offer_le s t [] = omega arith
  unmarked-offer_le s t (x ∷ xs) = ground (arith, mark-offer mark s t x, unmarked-offer_le s t xs)

  unmarked-offer_lt :
      (s : Search) (t : ℕ) (xs : List ℕ)
      → contains xs t ≡ true
      → has_mark mark s t ≡ false
      → unmarked mark (offer mark s t) xs < unmarked mark s xs
  unmarked-offer_lt s t [] c new = cc
  unmarked-offer_lt s t (x ∷ xs) c new = ground (
    arith,
    mark-offer mark s t x,
    unmarked-offer_le s t xs,
    unmarked-offer_lt s t xs,
    ==_iff x t,
    ==_iff t x,
  )

  -- What is left to do: the flags not set and the queue.
  abbrev pub potential : List ℕ → Search → ℕ
  potential xs s = unmarked mark s xs + length s.work

  length-offer :
      (s : Search) (t : ℕ)
      → length (offer mark s t).work
        ≡ (if has_mark mark s t then length s.work else suc (length s.work))
  unfolding offer
  length-offer s t = ground (arith, length-append s.work (t ∷ []))

  potential-offer :
      (xs : List ℕ) (s : Search) (t : ℕ)
      → contains xs t ≡ true
      → potential xs (offer mark s t) ≤ potential xs s
  potential-offer xs s t c =
      ground (arith, length-offer s t, unmarked-offer_le s t xs, unmarked-offer_lt s t xs c)

  potential-scan :
      (xs : List ℕ) (s : Search) (ts : List ℕ)
      → ((t : ℕ) → contains ts t ≡ true → contains xs t ≡ true)
      → potential xs (scan mark s ts) ≤ potential xs s
  unfolding scan
  potential-scan xs s [] h = omega arith
  potential-scan xs s (t ∷ ts) h =
      let first = potential-offer xs s t (h t (ground (arith, ==_iff t t))) in
      let rest = potential-scan xs (offer mark s t) ts (λ v c. h v (ground arith)) in omega arith

List-cases : (xs : List ℕ) → (xs ≡ []) ⊎ ((x : ℕ) × (rest : List ℕ) × (xs ≡ x ∷ rest))
List-cases [] = inl refl
List-cases (x ∷ xs) = inr (x, xs, refl)

module _ (mark : Bool) (targets : ℕ → List ℕ) where
  -- With fuel for the flags not set and the queue, the loop ends; the queue and the edges stay
  -- within `xs`.
  pub loop-ends :
      (xs : List ℕ)
      → ((u v : ℕ) → contains xs u ≡ true → contains (targets u) v ≡ true → contains xs v ≡ true)
      → (fuel : ℕ) (s : Search) → ((v : ℕ) → contains s.work v ≡ true → contains xs v ≡ true)
      → potential mark xs s ≤ fuel
      → (t : Search) × (loop mark targets fuel s ≡ some t)
  unfolding loop expand
  loop-ends xs h zero s q le = (s, ground arith)
  loop-ends xs h (suc fuel) s q le = elim (List-cases s.work) [
    | inl empty ↦ (s, ground arith)
    | inr (u, rest, e) ↦
        let next = record s { work = rest } in
        let inside = q u (ground (arith, ==_iff u u)) in
        let less = potential-scan mark xs next (targets u) (λ v. h u v inside) in
        let queue = λ (v : ℕ). work-scan mark next (targets u) v in
        let (t, ends) =
          loop-ends xs h fuel (expand mark targets s u rest)
            (λ v c. ground (arith, queue v, q v, h u v inside)) (omega (arith, ap length e)) in
        (t, ground arith)
  ]

  -- A property that a round keeps holds at the end, where the queue is empty.
  pub loop_rule {ℓ} :
      (P : Search → Type ℓ)
      → ((s : Search) (u : ℕ) (rest : List ℕ)
          → s.work ≡ u ∷ rest
          → P s
          → P (expand mark targets s u rest))
      → (fuel : ℕ) (s t : Search) → P s
      → loop mark targets fuel s ≡ some t
      → P t × (t.work ≡ [])
  unfolding loop
  loop_rule P keep zero s t p h = ground arith
  loop_rule P keep (suc fuel) s t p h = elim (List-cases s.work) [
    | inl empty ↦ ground arith
    | inr (u, rest, e) ↦
        loop_rule P keep fuel (expand mark targets s u rest) t (keep s u rest e p)
          (rw (e, loop) at h)
  ]

  -- Every set flag of a node either has its edges followed, or waits in the queue.
  pub record IsClosing (node roots : ℕ → Bool) (s : Search) : Type 0 where
    pub rooted : (v : ℕ) → roots v ≡ true → has_mark mark s v ≡ true
    pub followed :
        (u v : ℕ)
        → node u ≡ true
        → has_mark mark s u ≡ true
        → contains (targets u) v ≡ true
        → (contains s.work u ≡ true) ⊎ (has_mark mark s v ≡ true)

  IsClosing-expand :
      {node roots : ℕ → Bool} (s : Search) (u : ℕ) (rest : List ℕ)
      → s.work ≡ u ∷ rest
      → IsClosing node roots s
      → IsClosing node roots (expand mark targets s u rest)
  unfolding expand
  IsClosing-expand s u rest e c =
      let next = record s { work = rest } in
      let flags = λ (v : ℕ). mark-scan mark next (targets u) v in
      let queue = λ (v : ℕ). work-scan mark next (targets u) v in
      record {
        rooted = λ v r. ground (arith, flags v, c.rooted v r);
        followed =
            λ x v n m edge. ground (arith, flags v, flags x, queue x, c.followed x v n, ==_iff u x);
      }

  -- The flags set at the end are closed under the edges of the nodes, and hold the roots.
  pub loop-closed :
      {node roots : ℕ → Bool} (fuel : ℕ) (s t : Search)
      → IsClosing node roots s
      → loop mark targets fuel s ≡ some t
      → ((v : ℕ) → roots v ≡ true → has_mark mark t v ≡ true)
        × ((u v : ℕ)
            → node u ≡ true
            → has_mark mark t u ≡ true
            → contains (targets u) v ≡ true
            → has_mark mark t v ≡ true)
  loop-closed {node} {roots} fuel s t c h =
      let (c', empty) = loop_rule (IsClosing node roots) IsClosing-expand fuel s t c h in
      (c'.rooted, λ u v n m edge. ground (arith, c'.followed u v n m edge))

  -- They are the least such set: what holds of the start and passes along edges holds of them.
  abbrev pub Within {ℓ} : (node : ℕ → Bool) → (ℕ → Type ℓ) → Search → Type ℓ
  Within node P s =
      ((v : ℕ) → node v ≡ true → has_mark mark s v ≡ true → P v)
      × ((v : ℕ) → contains s.work v ≡ true → (node v ≡ true) × (has_mark mark s v ≡ true))

  pub loop-least {ℓ} :
      (node : ℕ → Bool) (P : ℕ → Type ℓ)
      → ((u v : ℕ) → node u ≡ true → contains (targets u) v ≡ true → (node v ≡ true) × (P u → P v))
      → (fuel : ℕ) (s t : Search) → Within node P s
      → loop mark targets fuel s ≡ some t
      → (v : ℕ) → node v ≡ true
      → has_mark mark t v ≡ true
      → P v
  unfolding expand
  loop-least node P along fuel s t w h =
      (loop_rule (Within node P)
        (λ r u rest e wr.
          let next = record r { work = rest } in
          let flags = λ (v : ℕ). mark-scan mark next (targets u) v in
          let queue = λ (v : ℕ). work-scan mark next (targets u) v in
          let here = wr.1 u (ground (arith, ==_iff u u)) in
          let from = wr.0 u here.0 here.1 in
          (
            λ v n m. elim (Bool-cases (has_mark mark r v)) [
              | inl old ↦ wr.0 v n old
              | inr new ↦ (along u v here.0 (ground (arith, flags v))).1 from
            ],
            λ v q. elim (Bool-cases (contains rest v)) [
              | inl old ↦ ground (arith, flags v, queue v, wr.1 v)
              | inr new ↦
                  let edge : contains (targets u) v ≡ true = ground (arith, queue v) in
                  ((along u v here.0 edge).0, ground (arith, flags v, queue v))
            ],
          ))
        fuel s t w h).0.0
