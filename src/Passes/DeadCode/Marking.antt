-- ===== src/Passes/DeadCode/Marking.antt =====
-- What mark finds: the critical instructions and all that they need, and no more.
use gvn.Prelude.{
  ℕ, ◌+◌, ◌≤◌, ◌≡◌, refl, ap, ◌∙◌, ◌⊎◌, inl, inr, Bool, true, false, not, some, List, [], ◌∷◌, ◌++◌,
  if◌then◌else◌, ==_iff, contains, contains-append, update, length, length-append, count,
  Bool-cases, Option-cases, ok, >>=-eq-ok, arith,
}
use gvn.Ir.Module.{Module}
use gvn.Passes.Worklist.{Search, has_mark, loop}
use gvn.Passes.Worklist.Closure.{IsClosing, loop-closed, loop-least, loop-ends}
use gvn.Passes.DeadCode.{object_critical, mark_critical, instrs, defs, mark}

count-le : (p : ℕ → Bool) (xs : List ℕ) → count p xs ≤ length xs
count-le p [] = omega arith
count-le p (x ∷ xs) = ground (arith, count-le p xs)

module _ (m : Module) (is_pure : ℕ → Bool) where
  -- The instruction at the address is critical.
  abbrev pub Critical : ℕ → Type 0
  Critical a = object_critical m is_pure (m.at a) ≡ ok true

  record Starts (xs : List ℕ) (s t : Search) : Type 0 where
    found : (v : ℕ) → contains xs v ≡ true → Critical v → t.flag v ≡ true
    kept : (v : ℕ) → s.flag v ≡ true → t.flag v ≡ true
    only : (v : ℕ) → t.flag v ≡ true → (s.flag v ≡ true) ⊎ (contains xs v ≡ true) × Critical v
    queued : (v : ℕ) → s.flag v ≡ contains s.work v → t.flag v ≡ contains t.work v
    room : length t.work ≤ length s.work + length xs

  mark_critical-Starts :
      (xs : List ℕ) (s t : Search) → mark_critical m is_pure xs s ≡ ok t → Starts xs s t
  unfolding mark_critical
  mark_critical-Starts [] s t h = record {
    found = λ v c. cc;
    kept = λ v f. ground arith;
    only = λ v f. inl (ground arith);
    queued = λ v e. ground arith;
    room = ground arith;
  }
  mark_critical-Starts (a ∷ xs) s t h =
      let (c, first, rest) = >>=-eq-ok (object_critical m is_pure (m.at a)) _ h in
      let k = mark_critical-Starts xs _ t rest in
      record {
        found = λ v i crit. elim (Bool-cases (contains xs v)) [
          | inl later ↦ k.found v later crit
          | inr here ↦ ground (arith, first, k.kept v, ==_iff a v)
        ];
        kept = λ v f. ground (arith, k.kept v);
        only = λ v f. ground (arith, first, k.only v f, ==_iff a v);
        queued = λ v e. ground (arith, k.queued v, contains-append s.work (a ∷ []) v, ==_iff a v);
        room = ground (arith, k.room, length-append s.work (a ∷ []));
      }

  -- Each listed instruction can be tested: a call has a known callee.
  abbrev pub HasTests : List ℕ → Type 0
  HasTests xs =
      (a : ℕ) → contains xs a ≡ true → (c : Bool) × (object_critical m is_pure (m.at a) ≡ ok c)

  mark_critical-total :
      (xs : List ℕ) (s : Search)
      → HasTests xs
      → (t : Search) × (mark_critical m is_pure xs s ≡ ok t)
  unfolding mark_critical
  mark_critical-total [] s h = (s, refl)
  mark_critical-total (a ∷ xs) s h =
      let (c, e) = h a (ground (arith, ==_iff a a)) in
      let first : Search =
        if c then record { flag = update s.flag a true; work = s.work ++ a ∷ [] } else s in
      let (t, r) = mark_critical-total xs first (λ g i. h g (ground arith)) in (t, rw e r)

  abbrev blank : Search
  blank = record { flag = λ _. false; work = [] }

  module _ (f : ℕ) where
    mark-parts :
        (marked : ℕ → Bool)
        → mark m is_pure f ≡ ok marked
        → (s t : Search) × Starts (instrs m f) blank s
          × (loop true (defs m) (length (instrs m f) + length (instrs m f)) s ≡ some t)
          × (t.flag ≡ marked)
    unfolding mark
    mark-parts marked h =
        let (s, starts, rest) = >>=-eq-ok (mark_critical m is_pure (instrs m f) blank) _ h in
        let l = loop true (defs m) (length (instrs m f) + length (instrs m f)) s in
        elim (Option-cases l) [
          | inl e ↦ absurd (ground (arith, rest))
          | inr (t, e) ↦
              (s, t, mark_critical-Starts (instrs m f) blank s starts, e, ground (arith, rest))
        ]

    mark-closed :
        (marked : ℕ → Bool)
        → mark m is_pure f ≡ ok marked
        → ((a : ℕ) → contains (instrs m f) a ≡ true → Critical a → marked a ≡ true)
          × ((a d : ℕ) → marked a ≡ true → contains (defs m a) d ≡ true → marked d ≡ true)
    mark-closed marked h =
        let (s, t, k, ends, e) = mark-parts marked h in
        let closing : IsClosing true (defs m) (λ _. true) (has_mark true s) s = record {
          rooted = λ v r. r;
          followed = λ u v n set edge. inl (ground (arith, k.queued u));
        } in
        let (rooted, closed) =
          loop-closed true (defs m) (length (instrs m f) + length (instrs m f)) s t closing ends in
        rw (← e) (λ a i crit. rooted a (k.found a i crit), λ a d set edge. closed a d refl set edge)

    -- `mark` marks every critical instruction of the function.
    pub mark-Critical :
        (marked : ℕ → Bool) (a : ℕ)
        → mark m is_pure f ≡ ok marked
        → contains (instrs m f) a ≡ true
        → Critical a
        → marked a ≡ true
    mark-Critical marked a h = (mark-closed marked h).0 a

    -- With an instruction `mark` marks each operand that is an instruction of the same function.
    pub mark-defs :
        (marked : ℕ → Bool) (a d : ℕ)
        → mark m is_pure f ≡ ok marked
        → marked a ≡ true
        → contains (defs m a) d ≡ true
        → marked d ≡ true
    mark-defs marked a d h = (mark-closed marked h).1 a d

    -- `mark` marks nothing else: a property of the critical instructions that passes from an
    -- instruction to its operand definitions holds of every marked instruction.
    pub mark-least {ℓ} :
        (P : ℕ → Type ℓ)
        → ((a : ℕ) → contains (instrs m f) a ≡ true → Critical a → P a)
        → ((a d : ℕ) → P a → contains (defs m a) d ≡ true → P d)
        → (marked : ℕ → Bool) → mark m is_pure f ≡ ok marked
        → (a : ℕ) → marked a ≡ true
        → P a
    mark-least P own along marked h a set =
        let (s, t, k, ends, e) = mark-parts marked h in
        loop-least true (defs m) (λ _. true) P (λ u v n edge. (refl, λ p. along u v p edge))
          (length (instrs m f) + length (instrs m f)) s t
          (
            λ v n now. elim (k.only v now) [
              | inl never ↦ absurd (ground arith)
              | inr (i, crit) ↦ own v i crit
            ],
            λ v q. (refl, ground (arith, k.queued v)),
          )
          ends a refl (ap (λ (g : ℕ → Bool). g a) e ∙ set)

    -- Where each instruction can be tested and the operand definitions of listed instructions are
    -- listed, `mark` returns: the queue has its fuel.
    pub mark-total :
        HasTests (instrs m f)
        → ((a d : ℕ)
            → contains (instrs m f) a ≡ true
            → contains (defs m a) d ≡ true
            → contains (instrs m f) d ≡ true)
        → (marked : ℕ → Bool) × (mark m is_pure f ≡ ok marked)
    unfolding mark
    mark-total tests listed =
        let (s, starts) = mark_critical-total (instrs m f) blank tests in
        let k = mark_critical-Starts (instrs m f) blank s starts in
        let (t, ends) =
          loop-ends true (defs m) (instrs m f) listed (length (instrs m f) + length (instrs m f)) s
            (λ v q. elim (k.only v (ground (arith, k.queued v))) [
              | inl never ↦ absurd (ground arith)
              | inr (i, crit) ↦ i
            ])
            (omega (arith, k.room, count-le (λ v. not (has_mark true s v)) (instrs m f))) in
        (t.flag, rw (starts, ends))
