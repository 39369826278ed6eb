-- ===== src/Ir/Naming/Given.antt =====
-- A name that set_instr_name gives differs from those it gave before.
use gvn.Prelude.{
  ℕ, zero, suc, ◌+◌, ◌<◌, ◌≤◌, ◌≡◌, ◌≢◌, refl, sym, ap, subst, ◌∙◌, Bool, true, false, inl, inr, [],
  ◌∷◌, ◌++◌, length, contains, if◌then◌else◌, update, ◌==◌, ==_iff, ==_refl, Bool-cases, arith,
}
use gvn.Prelude.Texts.{Text, text}
use gvn.Ast.Numbers.{to_string, digits_value, digits_value-to_string}
use gvn.Ir.Naming.{Naming, give_name}

abbrev drop : ℕ → Text → Text
drop zero cs = cs
drop (suc n) [] = []
drop (suc n) (c ∷ cs) = drop n cs

-- The number in a name of one of the three kinds, whose first letters are `a`, `l` and `o`.
unfoldable pub number_of : Text → ℕ
number_of [] = 0
number_of (c ∷ cs) =
    if c == 97
    then digits_value 0 (drop 2 cs)
    else if c == 108
    then digits_value 0 (drop 4 cs)
    else digits_value 0 (drop 1 cs)

-- A text in front of a number that leaves it readable.
abbrev pub IsPrefix : Text → Type 0
IsPrefix p = (n : ℕ) → (number_of (p ++ to_string n) ≡ n) × ((p ++ to_string n) ≢ [])

pub arg-IsPrefix : IsPrefix (text "arg")
unfolding number_of
arg-IsPrefix n = (digits_value-to_string n, λ e. cc)

pub label-IsPrefix : IsPrefix (text "label")
unfolding number_of
label-IsPrefix n = (digits_value-to_string n, λ e. cc)

pub op-IsPrefix : IsPrefix (text "op")
unfolding number_of
op-IsPrefix n = (digits_value-to_string n, λ e. cc)

module _ (name0 : ℕ → Text) (cnt : ℕ) where
  -- What holds of the names that were given so far, where `name0` were the names before.
  pub record IsNamed (s : Naming) : Type 0 where
    pub fresh : (a : ℕ) → contains s.seq a ≡ true → name0 a ≡ []
    pub filled : (a : ℕ) → contains s.seq a ≡ true → s.name a ≢ []
    pub bounded :
        (a : ℕ)
        → contains s.seq a ≡ true
        → (cnt ≤ number_of (s.name a)) × (number_of (s.name a) < cnt + length s.seq)
    pub apart :
        (a b : ℕ)
        → contains s.seq a ≡ true
        → contains s.seq b ≡ true
        → number_of (s.name a) ≡ number_of (s.name b)
        → a ≡ b
    pub kept : (a : ℕ) → contains s.seq a ≡ false → s.name a ≡ name0 a

  -- A name of one more.
  module _ (p : Text) (readable : IsPrefix p) (b : ℕ) (s : Naming) (h : IsNamed s)
      (new_b : contains s.seq b ≡ false) (unnamed : s.name b ≡ []) where
    abbrev next : Naming
    next = record { name = update s.name b (p ++ to_string (length s.seq + cnt)); seq = b ∷ s.seq }

    next_at : (a : ℕ) → b ≡ a → next.name a ≡ p ++ to_string (length s.seq + cnt)
    next_at a e = let q = (==_iff b a).1 e in rw q refl

    next_number : (a : ℕ) → b ≡ a → number_of (next.name a) ≡ length s.seq + cnt
    next_number a e = ap number_of (next_at a e) ∙ (readable (length s.seq + cnt)).0

    next_other : (a : ℕ) → (b == a) ≡ false → next.name a ≡ s.name a
    next_other a e = rw e refl

    next_fresh : (a : ℕ) → contains next.seq a ≡ true → name0 a ≡ []
    next_fresh a c = elim (Bool-cases (b == a)) [
      | inl e ↦ subst (λ z. name0 z ≡ []) ((==_iff b a).0 e) (sym (h.kept b new_b) ∙ unnamed)
      | inr e ↦ h.fresh a (ground arith)
    ]

    next_filled : (a : ℕ) → contains next.seq a ≡ true → next.name a ≢ []
    next_filled a c = elim (Bool-cases (b == a)) [
      | inl e ↦
          λ empty. (readable (length s.seq + cnt)).1 (sym (next_at a ((==_iff b a).0 e)) ∙ empty)
      | inr e ↦ λ empty. h.filled a (ground arith) (sym (next_other a e) ∙ empty)
    ]

    next_bounded :
        (a : ℕ)
        → contains next.seq a ≡ true
        → (cnt ≤ number_of (next.name a)) × (number_of (next.name a) < cnt + suc (length s.seq))
    next_bounded a c = elim (Bool-cases (b == a)) [
      | inl e ↦ let n = next_number a ((==_iff b a).0 e) in (omega (arith, n), omega (arith, n))
      | inr e ↦
          let q = h.bounded a (ground arith) in
          let n = ap number_of (next_other a e) in (omega (arith, n, q.0), omega (arith, n, q.1))
    ]

    -- The new number is above those of the others.
    next_above :
        (a c : ℕ)
        → b ≡ a
        → (b == c) ≡ false
        → contains s.seq c ≡ true
        → number_of (next.name a) ≢ number_of (next.name c)
    next_above a c e away d same =
        omega (arith, same, next_number a e, ap number_of (next_other c away), (h.bounded c d).1)

    next_apart :
        (a c : ℕ)
        → contains next.seq a ≡ true
        → contains next.seq c ≡ true
        → number_of (next.name a) ≡ number_of (next.name c)
        → a ≡ c
    next_apart a c k l same = elim (Bool-cases (b == a)) [
      | inl e ↦ elim (Bool-cases (b == c)) [
        | inl f ↦ sym ((==_iff b a).0 e) ∙ (==_iff b c).0 f
        | inr f ↦ elim (next_above a c ((==_iff b a).0 e) f (ground arith) same) [ ]
      ]
      | inr e ↦ elim (Bool-cases (b == c)) [
        | inl f ↦ elim (next_above c a ((==_iff b c).0 f) e (ground arith) (sym same)) [ ]
        | inr f ↦
            h.apart a c (ground arith) (ground arith)
              (sym (ap number_of (next_other a e)) ∙ same ∙ ap number_of (next_other c f))
      ]
    ]

    next-IsNamed : IsNamed next
    next-IsNamed = record {
      fresh = next_fresh;
      filled = next_filled;
      bounded = next_bounded;
      apart = next_apart;
      kept = λ a c. next_other a (ground (arith, contains s.seq a)) ∙ h.kept a (ground arith);
    }

  -- Naming a value keeps what holds, and the value has a name after it.
  pub give_name-IsNamed :
      (p : Text)
      → IsPrefix p
      → (b : ℕ) (s : Naming) → IsNamed s
      → IsNamed (give_name cnt p b s)
        × ((give_name cnt p b s).name b ≢ [])
        × ((a : ℕ) → s.name a ≢ [] → (give_name cnt p b s).name a ≢ [])
  unfolding give_name
  give_name-IsNamed p readable b s h = by_case (contains s.seq b) (s.name b) refl refl
    where
      result : Bool → Text → Naming
      result c n = elim c [
        | true ↦ s
        | false ↦ elim n [
          | [] ↦ record {
            name = update s.name b (p ++ to_string (length s.seq + cnt));
            seq = b ∷ s.seq;
          }
          | _ ∷ _ ↦ s
        ]
      ]

      by_case :
          (c : Bool) (n : Text)
          → contains s.seq b ≡ c
          → s.name b ≡ n
          → IsNamed (result c n)
            × ((result c n).name b ≢ [])
            × ((a : ℕ) → s.name a ≢ [] → (result c n).name a ≢ [])
      by_case true n e f = (h, h.filled b e, λ a g. g)
      by_case false (x ∷ xs) e f = (h, λ empty. cc, λ a g. g)
      by_case false [] e f = (
        next-IsNamed p readable b s h e f,
        next_filled p readable b s h e f b (ground (arith, ==_refl b)),
        λ a g empty. elim (Bool-cases (b == a)) [
          | inl at ↦ next_filled p readable b s h e f a (ground arith) empty
          | inr away ↦ g (sym (next_other p readable b s h e f a away) ∙ empty)
        ],
      )
