-- ===== src/Codegen/Scope/Laws.antt =====
-- What a push changes (Scope::push and Scope::find of include/cminusf_builder.hpp).
use gvn.Prelude.{
  ◌≡◌, inl, inr, refl, subst, Bool, true, false, ◌&&◌, Option, none, some, [], ◌∷◌, is_eq,
  Bool-cases, Option-cases,
}
use gvn.Prelude.Texts.{Text, Text-discrete}
use gvn.Ir.Module.{Value}
use gvn.Codegen.Scope.{Scopes, Bindings, find_binding, push, find}

-- The name that a lookup finds first.
abbrev pub bound : Bool → Value → Option Value → Option Value
bound true val old = some val
bound false val old = old

find-new :
    (bs : Bindings) (inner : Scopes) (name other : Text) (val : Value)
    → find (((name, val) ∷ bs) ∷ inner) other
      ≡ bound (is_eq Text-discrete name other) val (find (bs ∷ inner) other)
unfolding find find_binding
find-new bs inner name other val = elim (Bool-cases (is_eq Text-discrete name other)) [
  | inl e ↦ rw (e, find, find_binding) refl
  | inr e ↦ rw (e, find, find_binding) refl
]

some-same {ℓ} : {A : Type ℓ} {o : Option A} {v w : A} → o ≡ some v → o ≡ some w → v ≡ w
some-same e e' = cc

-- The two ways of a push.
push-absent :
    (bs : Bindings) (inner : Scopes) (name : Text) (val : Value)
    → find_binding bs name ≡ none
    → push (bs ∷ inner) name val ≡ some (true, ((name, val) ∷ bs) ∷ inner)
unfolding push
push-absent bs inner name val e = rw (e, push) refl

push-present :
    (bs : Bindings) (inner : Scopes) (name : Text) (val v : Value)
    → find_binding bs name ≡ some v
    → push (bs ∷ inner) name val ≡ some (false, bs ∷ inner)
unfolding push
push-present bs inner name val v e = rw (e, push) refl

-- Where push returns, a lookup of the name finds the value if push returned true, and each other
-- lookup finds what it found before; if push returned false, this is so of every name.
pub find-push :
    (sc sc' : Scopes) (name other : Text) (val : Value) (b : Bool)
    → push sc name val ≡ some (b, sc')
    → find sc' other ≡ bound (b && is_eq Text-discrete name other) val (find sc other)
unfolding push
find-push [] sc' name other val b k = cc
find-push (bs ∷ inner) sc' name other val b k = elim (Option-cases (find_binding bs name)) [
  | inl e ↦
      subst
        (λ r.
          find r.1 other
          ≡ bound (r.0 && is_eq Text-discrete name other) val (find (bs ∷ inner) other))
        (some-same (push-absent bs inner name val e) k) (find-new bs inner name other val)
  | inr (v, e) ↦
      subst
        (λ r.
          find r.1 other
          ≡ bound (r.0 && is_eq Text-discrete name other) val (find (bs ∷ inner) other))
        (some-same (push-present bs inner name val v e) k) refl
]
