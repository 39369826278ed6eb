-- ===== src/Codegen/Blocks/Laid.antt =====
-- Modules in which every block has ended but for some that wait for their code.
use gvn.Prelude.{
  ℕ, suc, ◌≡◌, ◌≢◌, ◌<◌, ◌≤◌, refl, sym, ◌∙◌, true, false, none, some, List, [], ◌∷◌, ◌++◌, All,
  arith,
}
use gvn.Prelude.{ℕ_discrete}
use gvn.Ir.Module.{Module}
use gvn.Codegen.Builder.{is_terminator}
use gvn.Codegen.Blocks.{
  Status, unended, ended, no_block, after, code, run_code, status, listed, run_code-append, Alike,
  status-Alike, code_status-Alike,
}

abbrev pub IsDone : Status → Type 0
IsDone ended = Unit
IsDone no_block = Unit
IsDone _ = ⊥

abbrev pub Avoids : ℕ → List ℕ → Type 0
Avoids x [] = Unit
Avoids x (p ∷ ps) = (x ≢ p) × Avoids x ps

-- Distinct blocks below `n` that have no terminator.
abbrev pub Waiting : Module → ℕ → List ℕ → Type 0
Waiting m n [] = Unit
Waiting m n (p ∷ ps) = (p < n) × (status m p ≡ unended) × Avoids p ps × Waiting m n ps

-- The instructions of the blocks stand below `n`; the blocks `ps` wait, and all others have ended.
pub record Laid (m : Module) (n : ℕ) (ps : List ℕ) : Type 0 where
  pub bounded : (x : ℕ) → All (λ i. i < n) (listed (code (m.at x)))
  pub waiting : Waiting m n ps
  pub others : (x : ℕ) → Avoids x ps → IsDone (status m x)

All-weaken : (n : ℕ) (is : List ℕ) → All (λ i. i < n) is → All (λ i. i < suc n) is
All-weaken n [] h = tt
All-weaken n (i ∷ is) h = (omega (arith, h.0), All-weaken n is h.1)

All-snoc : (n i : ℕ) (is : List ℕ) → i < n → All (λ i. i < n) is → All (λ i. i < n) (is ++ i ∷ [])
All-snoc n i [] k h = (k, tt)
All-snoc n i (j ∷ is) k h = (h.0, All-snoc n i is k h.1)

everywhere {ℓ} : {P : ℕ → Type ℓ} (ps : List ℕ) → ((p : ℕ) → P p) → All P ps
everywhere [] h = tt
everywhere (p ∷ ps) h = (h p, everywhere ps h)

All-avoiding {ℓ} :
    {P : ℕ → Type ℓ} (b : ℕ) (ps : List ℕ) → Avoids b ps → ((p : ℕ) → b ≢ p → P p) → All P ps
All-avoiding b [] a h = tt
All-avoiding b (p ∷ ps) a h = (h p a.0, All-avoiding b ps a.1 h)

pub Laid-swap :
    {m : Module} {n p q : ℕ} {ps : List ℕ} → Laid m n (p ∷ q ∷ ps) → Laid m n (q ∷ p ∷ ps)
Laid-swap l =
    let w = l.waiting in
    record {
      bounded = l.bounded;
      waiting = (w.3.0, w.3.1, ((λ e. w.2.0 (sym e)), w.3.2), (w.0, w.1, w.2.1, w.3.3));
      others = λ x a. l.others x (a.1.0, (a.0, a.1.1));
    }

-- The third of the blocks comes first.
pub Laid-rotate :
    {m : Module} {n p q r : ℕ} {ps : List ℕ} → Laid m n (p ∷ q ∷ r ∷ ps) → Laid m n (r ∷ p ∷ q ∷ ps)
Laid-rotate l =
    let w = l.waiting in
    let v = w.3.3 in
    record {
      bounded = l.bounded;
      waiting = (
        v.0,
        v.1,
        ((λ e. w.2.1.0 (sym e)), ((λ e. w.3.2.0 (sym e)), v.2)),
        (w.0, w.1, (w.2.0, w.2.1.1), (w.3.0, w.3.1, w.3.2.1, v.3)),
      );
      others = λ x a. l.others x (a.1.0, (a.1.1.0, (a.0, a.1.1.1)));
    }

Waiting-keep :
    (m m' : Module) (n k : ℕ) (ps : List ℕ)
    → n ≤ k
    → All (λ p. p < n → status m' p ≡ status m p) ps
    → Waiting m n ps
    → Waiting m' k ps
Waiting-keep m m' n k [] le h w = tt
Waiting-keep m m' n k (p ∷ ps) le h w =
    (omega (arith, w.0), h.0 w.0 ∙ w.1, w.2, Waiting-keep m m' n k ps le h.1 w.3)

Waiting-Avoids : (m : Module) (n : ℕ) (ps : List ℕ) → Waiting m n ps → Avoids n ps
Waiting-Avoids m n [] w = tt
Waiting-Avoids m n (p ∷ ps) w = ((λ e. omega (arith, w.0, e)), Waiting-Avoids m n ps w.3)

-- A change that keeps the lists of the blocks, and what ends them.
pub Laid-quiet :
    (m m' : Module) (n : ℕ) (ps : List ℕ)
    → Alike m m' n
    → ((x : ℕ) → code (m'.at x) ≡ code (m.at x))
    → Laid m n ps
    → Laid m' n ps
Laid-quiet m m' n ps h c l =
    let same : (x : ℕ) → status m' x ≡ status m x =
      λ x. status-Alike m m' n x h (l.bounded x) (c x) in
    record {
      bounded = λ x. rw (c x) (l.bounded x);
      waiting = Waiting-keep m m' n n ps (omega arith) (everywhere ps λ p k. same p) l.waiting;
      others = λ x a. rw (same x) (l.others x a);
    }

-- A new object at `n` that is no block.
pub Laid-object :
    (m m' : Module) (n : ℕ) (ps : List ℕ)
    → Alike m m' n
    → code (m'.at n) ≡ none
    → ((x : ℕ) → n ≢ x → code (m'.at x) ≡ code (m.at x))
    → Laid m n ps
    → Laid m' (suc n) ps
unfolding status
Laid-object m m' n ps h e c l =
    let same : (x : ℕ) → n ≢ x → status m' x ≡ status m x =
      λ x d. status-Alike m m' n x h (l.bounded x) (c x d) in
    record {
      bounded = λ x. elim (ℕ_discrete n x) [
        | yes q ↦ rw (sym q, e) tt
        | no d ↦ rw (c x d) (All-weaken n _ (l.bounded x))
      ];
      waiting =
          Waiting-keep m m' n (suc n) ps (omega arith)
            (everywhere ps λ p k. same p λ q. omega (arith, k, q)) l.waiting;
      others = λ x a. elim (ℕ_discrete n x) [
        | yes q ↦ rw (sym q, e) tt
        | no d ↦ rw (same x d) (l.others x a)
      ];
    }

-- A new block at `n`, which waits.
pub Laid-block :
    (m m' : Module) (n : ℕ) (ps : List ℕ)
    → Alike m m' n
    → code (m'.at n) ≡ some []
    → ((x : ℕ) → n ≢ x → code (m'.at x) ≡ code (m.at x))
    → Laid m n ps
    → Laid m' (suc n) (n ∷ ps)
unfolding status
Laid-block m m' n ps h e c l =
    let same : (x : ℕ) → n ≢ x → status m' x ≡ status m x =
      λ x d. status-Alike m m' n x h (l.bounded x) (c x d) in
    record {
      bounded = λ x. elim (ℕ_discrete n x) [
        | yes q ↦ rw (sym q, e) tt
        | no d ↦ rw (c x d) (All-weaken n _ (l.bounded x))
      ];
      waiting = (
        omega arith,
        rw e refl,
        Waiting-Avoids m n ps l.waiting,
        Waiting-keep m m' n (suc n) ps (omega arith)
            (everywhere ps λ p k. same p λ q. omega (arith, k, q)) l.waiting,
      );
      others = λ x a. rw (same x λ q. a.0 (sym q)) (l.others x a.1);
    }

-- An instruction is appended to the block that waits first.
module _ (m m' : Module) (n b i : ℕ) (ps is : List ℕ) (h : Alike m m' n) (k : i < n)
    (e : code (m.at b) ≡ some is) (e' : code (m'.at b) ≡ some (is ++ i ∷ []))
    (c : (x : ℕ) → b ≢ x → code (m'.at x) ≡ code (m.at x)) (l : Laid m n (b ∷ ps)) where
  same : (x : ℕ) → b ≢ x → status m' x ≡ status m x
  same x d = status-Alike m m' n x h (l.bounded x) (c x d)

  bounded' : (x : ℕ) → All (λ i. i < n) (listed (code (m'.at x)))
  bounded' x = elim (ℕ_discrete b x) [
    | yes q ↦ rw (sym q, e') (All-snoc n i is k (rw e at (l.bounded b)))
    | no d ↦ rw (c x d) (l.bounded x)
  ]

  pub status-append : status m' b ≡ after unended (is_terminator (m.at i))
  unfolding status
  status-append =
      let w : run_code m unended is ≡ unended = rw e at l.waiting.1 in
      let w' : run_code m' unended is ≡ unended =
        code_status-Alike m m' n (some is) h (rw e at (l.bounded b)) ∙ w in
      rw (e', run_code-append m' is i unended, w', h i k) refl

  rest : Waiting m' n ps
  rest =
      Waiting-keep m m' n n ps (omega arith) (All-avoiding b ps l.waiting.2 λ p d _. same p d)
        l.waiting.3

  pub Laid-append : is_terminator (m.at i) ≡ false → Laid m' n (b ∷ ps)
  Laid-append f = record {
    bounded = bounded';
    waiting = (l.waiting.0, rw (status-append, f) refl, l.waiting.2, rest);
    others = λ x a. rw (same x λ q. a.0 (sym q)) (l.others x a);
  }

  pub Laid-end : is_terminator (m.at i) ≡ true → Laid m' n ps
  Laid-end f = record {
    bounded = bounded';
    waiting = rest;
    others = λ x a. elim (ℕ_discrete b x) [
      | yes q ↦ rw (sym q, status-append, f) tt
      | no d ↦ rw (same x d) (l.others x ((λ q. d (sym q)), a))
    ];
  }
