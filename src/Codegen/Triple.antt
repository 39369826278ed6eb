-- ===== src/Codegen/Triple.antt =====
-- Rules on the runs of the code generator (src/cminusfc/cminusf_builder.cpp) that return.
use gvn.Prelude.{
  ◌≡◌, refl, subst, Bool, true, false, Option, none, some, Result, ok, fault, Fault, if◌then◌else◌,
}
use gvn.Codegen.State.{Codegen, Build, ◌>>=◌, return, fail, require, check, gets}

-- From a state with `P`, a run of `c` that returns leaves what `Q` says.
pub record Triple {A : Type 0} (P : Codegen → Type 0) (c : Build A) (Q : A → Codegen → Type 0)
    : Type 0 where
  pub runs : (s : Codegen) → P s → (x : A) (s' : Codegen) → c s ≡ ok (x, s') → Q x s'

same_result {ℓ} : {A : Type ℓ} {r : Result A} {v w : A} → r ≡ ok v → r ≡ ok w → v ≡ w
same_result e e' = cc

module _ {A B : Type 0} {P : Codegen → Type 0} {Q : A → Codegen → Type 0} where
  pub seq :
      {R : B → Codegen → Type 0} {c : Build A} {f : A → Build B}
      → Triple P c Q
      → ((x : A) → Triple (Q x) (f x) R)
      → Triple P (c >>= f) R
  seq {R = R} {c = c} {f = f} hc hf = record { runs = λ s h y s'. by_result s h y s' (c s) refl }
    where
      by_result :
          (s : Codegen) (h : P s) (y : B) (s' : Codegen) (r : Result (A × Codegen))
          → c s ≡ r
          → elim r [ fault why ↦ fault why | ok v ↦ f v.0 v.1 ] ≡ ok (y, s')
          → R y s'
      by_result s h y s' (ok v) e k = (hf v.0).runs v.1 (hc.runs s h v.0 v.1 e) y s' k
      by_result s h y s' (fault why) e k = cc

module _ {A : Type 0} {P : Codegen → Type 0} {Q : A → Codegen → Type 0} where
  pub weaken :
      {R : A → Codegen → Type 0} {c : Build A}
      → ((x : A) (s : Codegen) → Q x s → R x s)
      → Triple P c Q
      → Triple P c R
  weaken k h = record { runs = λ s p x s' e. k x s' (h.runs s p x s' e) }

  pub strengthen :
      {P' : Codegen → Type 0} {c : Build A}
      → ((s : Codegen) → P' s → P s)
      → Triple P c Q
      → Triple P' c Q
  strengthen k h = record { runs = λ s p x s' e. h.runs s (k s p) x s' e }

  -- A step that always returns.
  pub changes :
      {c : Build A} (g : (s : Codegen) → P s → A × Codegen)
      → ((s : Codegen) (p : P s) → c s ≡ ok (g s p))
      → ((s : Codegen) (p : P s) → Q (g s p).0 (g s p).1)
      → Triple P c Q
  changes {c = c} g e h = record {
    runs = λ s p x s' k.
        let q : g s p ≡ (x, s') = same_result (e s p) k in subst (λ r. Q r.0 r.1) q (h s p);
  }

  pub returns : {y : A} → ((s : Codegen) → P s → Q y s) → Triple P (return y) Q
  returns {y = y} h = changes (λ s p. (y, s)) (λ s p. refl) h

  pub reads : {f : Codegen → A} → ((s : Codegen) → P s → Q (f s) s) → Triple P (gets f) Q
  reads {f = f} h = changes (λ s p. (f s, s)) (λ s p. refl) h

  pub fails : {why : Fault} → Triple P (fail why) Q
  fails = record { runs = λ s p x s' e. cc }

  pub chooses :
      {c d : Build A} (b : Bool)
      → (b ≡ true → Triple P c Q)
      → (b ≡ false → Triple P d Q)
      → Triple P (if b then c else d) Q
  chooses true hc hd = hc refl
  chooses false hc hd = hd refl

  pub requires :
      (o : Option A) → ((x : A) → o ≡ some x → (s : Codegen) → P s → Q x s) → Triple P (require o) Q
  requires none h = fails
  requires (some y) h = returns (h y refl)

pub checks : {P : Codegen → Type 0} (b : Bool) → Triple P (check b) λ _. P
checks true = returns λ s p. p
checks false = fails
