-- ===== src/Ir/Naming/Distinct.antt =====
-- The names that set_instr_name gives are different.
use gvn.Prelude.{
  ℕ, ◌≡◌, ◌≢◌, refl, ap, subst, ◌∙◌, Bool, true, false, inl, inr, List, [], ◌∷◌, contains,
  if◌then◌else◌, ◌==◌, ==_iff, Bool-cases, arith,
}
use gvn.Prelude.Texts.{Text, text}
use gvn.Ir.Module.{args_of, Module, blocks_of, instrs_of}
use gvn.Ir.Naming.{
  Naming, give_name, name_args, has_value, name_instrs, name_blocks, set_instr_name,
}
use gvn.Ir.Naming.Given.{
  IsNamed, number_of, arg-IsPrefix, label-IsPrefix, op-IsPrefix, give_name-IsNamed,
}

module _ (name0 : ℕ → Text) (cnt : ℕ) where
  IsNamed-new :
      (s : Naming)
      → IsNamed name0 cnt s
      → (a : ℕ) → name0 a ≡ []
      → s.name a ≢ []
      → contains s.seq a ≡ true
  IsNamed-new s h a e g = elim (Bool-cases (contains s.seq a)) [
    | inl c ↦ c
    | inr c ↦ elim (g (h.kept a c ∙ e)) [ ]
  ]

  IsNamed-differ :
      (s : Naming)
      → IsNamed name0 cnt s
      → (a b : ℕ) → name0 a ≡ []
      → name0 b ≡ []
      → s.name a ≢ []
      → s.name a ≡ s.name b
      → a ≡ b
  IsNamed-differ s h a b e f g same =
      h.apart a b (IsNamed-new s h a e g) (IsNamed-new s h b f (λ empty. g (same ∙ empty)))
        (ap number_of same)

  IsNamed-old : (s : Naming) → IsNamed name0 cnt s → (a : ℕ) → name0 a ≢ [] → s.name a ≡ name0 a
  IsNamed-old s h a g = elim (Bool-cases (contains s.seq a)) [
    | inl c ↦ elim (g (h.fresh a c)) [ ]
    | inr c ↦ h.kept a c
  ]

  abbrev Keeps : Naming → Naming → Type 0
  Keeps s t = (a : ℕ) → s.name a ≢ [] → t.name a ≢ []

  name_args-IsNamed :
      (xs : List ℕ) (s : Naming)
      → IsNamed name0 cnt s
      → IsNamed name0 cnt (name_args cnt xs s)
        × ((a : ℕ) → contains xs a ≡ true → (name_args cnt xs s).name a ≢ [])
        × Keeps s (name_args cnt xs s)
  unfolding name_args
  name_args-IsNamed [] s h = (h, λ a c. cc, λ a g. g)
  name_args-IsNamed (x ∷ xs) s h =
      let o = give_name-IsNamed name0 cnt (text "arg") arg-IsPrefix x s h in
      let q = name_args-IsNamed xs (give_name cnt (text "arg") x s) o.0 in
      (
        q.0,
        λ a c. elim (Bool-cases (x == a)) [
          | inl e ↦
              q.2 a
                (subst (λ z. (give_name cnt (text "arg") x s).name z ≢ []) ((==_iff x a).0 e) o.1)
          | inr e ↦ q.1 a (ground arith)
        ],
        λ a g. q.2 a (o.2 a g),
      )

  name_instrs-IsNamed :
      (m : Module) (xs : List ℕ) (s : Naming)
      → IsNamed name0 cnt s
      → IsNamed name0 cnt (name_instrs m cnt xs s)
        × ((a : ℕ)
            → contains xs a ≡ true
            → has_value (m.at a) ≡ true
            → (name_instrs m cnt xs s).name a ≢ [])
        × Keeps s (name_instrs m cnt xs s)
  unfolding name_instrs
  name_instrs-IsNamed m [] s h = (h, λ a c v. cc, λ a g. g)
  name_instrs-IsNamed m (x ∷ xs) s h =
      by_value (has_value (m.at x)) refl (λ t k. name_instrs-IsNamed m xs t k)
    where
      Result : Naming → Type 0
      Result r =
          IsNamed name0 cnt r
          × ((a : ℕ) → contains (x ∷ xs) a ≡ true → has_value (m.at a) ≡ true → r.name a ≢ [])
          × Keeps s r

      by_value :
          (v : Bool)
          → has_value (m.at x) ≡ v
          → ((t : Naming)
              → IsNamed name0 cnt t
              → IsNamed name0 cnt (name_instrs m cnt xs t)
                × ((a : ℕ)
                    → contains xs a ≡ true
                    → has_value (m.at a) ≡ true
                    → (name_instrs m cnt xs t).name a ≢ [])
                × Keeps t (name_instrs m cnt xs t))
          → Result (name_instrs m cnt xs (if v then give_name cnt (text "op") x s else s))
      by_value true e rest =
          let o = give_name-IsNamed name0 cnt (text "op") op-IsPrefix x s h in
          let q = rest (give_name cnt (text "op") x s) o.0 in
          (
            q.0,
            λ a c v. elim (Bool-cases (x == a)) [
              | inl at ↦
                  q.2 a (
                    subst (λ z. (give_name cnt (text "op") x s).name z ≢ []) ((==_iff x a).0 at)
                      o.1)
              | inr away ↦ q.1 a (ground arith) v
            ],
            λ a g. q.2 a (o.2 a g),
          )
      by_value false e rest =
          let q = rest s h in
          (
            q.0,
            λ a c v. elim (Bool-cases (x == a)) [
              | inl at ↦ let w = subst (λ z. has_value (m.at z) ≡ false) ((==_iff x a).0 at) e in cc
              | inr away ↦ q.1 a (ground arith) v
            ],
            q.2,
          )

  abbrev NamesBlock : Module → Naming → ℕ → Type 0
  NamesBlock m r b =
      (r.name b ≢ [])
      × ((a : ℕ)
          → contains (instrs_of (m.at b)) a ≡ true
          → has_value (m.at a) ≡ true
          → r.name a ≢ [])

  name_blocks-IsNamed :
      (m : Module) (bs : List ℕ) (s : Naming)
      → IsNamed name0 cnt s
      → IsNamed name0 cnt (name_blocks m cnt bs s)
        × ((b : ℕ) → contains bs b ≡ true → NamesBlock m (name_blocks m cnt bs s) b)
        × Keeps s (name_blocks m cnt bs s)
  unfolding name_blocks
  name_blocks-IsNamed m [] s h = (h, λ b c. cc, λ a g. g)
  name_blocks-IsNamed m (x ∷ bs) s h =
      let labelled = give_name cnt (text "label") x s in
      let o = give_name-IsNamed name0 cnt (text "label") label-IsPrefix x s h in
      let t = name_instrs m cnt (instrs_of (m.at x)) labelled in
      let i = name_instrs-IsNamed m (instrs_of (m.at x)) labelled o.0 in
      let q = name_blocks-IsNamed m bs t i.0 in
      (
        q.0,
        λ b c. elim (Bool-cases (x == b)) [
          | inl at ↦
              subst (λ z. NamesBlock m (name_blocks m cnt bs t) z) ((==_iff x b).0 at)
                (q.2 x (i.2 x o.1), λ a d v. q.2 a (i.1 a d v))
          | inr away ↦ q.1 b (ground arith)
        ],
        λ a g. q.2 a (i.2 a (o.2 a g)),
      )

-- What a call of set_instr_name leaves: new names that differ, the old names, and a name for each
-- argument, block and instruction with a value of the function.
abbrev pub Names : Module → ℕ → Module → Type 0
Names m f r =
    ((a b : ℕ) → m.name a ≡ [] → m.name b ≡ [] → r.name a ≢ [] → r.name a ≡ r.name b → a ≡ b)
    × ((a : ℕ) → m.name a ≢ [] → r.name a ≡ m.name a)
    × ((a : ℕ) → contains (args_of (m.at f)) a ≡ true → r.name a ≢ [])
    × ((b : ℕ)
        → contains (blocks_of (m.at f)) b ≡ true
        → (r.name b ≢ [])
          × ((a : ℕ)
              → contains (instrs_of (m.at b)) a ≡ true
              → has_value (m.at a) ≡ true
              → r.name a ≢ []))

-- set_instr_name gives different names to different values that had none, keeps the names that
-- values had, and leaves no argument, block or instruction with a value of the function unnamed.
pub set_instr_name-Names : (m : Module) (f cnt : ℕ) → Names m f (set_instr_name m f cnt).0
unfolding set_instr_name
set_instr_name-Names m f cnt =
    let start : Naming = record { name = m.name; seq = [] } in
    let empty : IsNamed m.name cnt start = record {
      fresh = λ a c. cc;
      filled = λ a c. cc;
      bounded = λ a c. cc;
      apart = λ a b c. cc;
      kept = λ a c. refl;
    } in
    let args = name_args-IsNamed m.name cnt (args_of (m.at f)) start empty in
    let q = name_blocks-IsNamed m.name cnt m (blocks_of (m.at f)) _ args.0 in
    (
      IsNamed-differ m.name cnt _ q.0,
      IsNamed-old m.name cnt _ q.0,
      λ a c. q.2 a (args.1 a c),
      λ b c. q.1 b c,
    )
