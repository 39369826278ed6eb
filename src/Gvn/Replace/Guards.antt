-- ===== src/Gvn/Replace/Guards.antt =====
-- What the tests of replace_cc_members say of users and members.
use gvn.Prelude.{
  ℕ, ◌≡◌, ◌≢◌, refl, ap, sym, ◌∙◌, ◌⊎◌, inl, inr, Bool, true, false, Option, none, some, List,
  if◌then◌else◌, ◌==◌, ==_iff, contains, arith, Bool-cases, is_eq_iff,
}
use gvn.Ir.Opcodes.{OpId}
use gvn.Ir.Module.{
  Module, object, value_eq, Value-discrete, Object, Instr, instr, as_instr, pres_of, block,
}
use gvn.Ir.Uses.Traced.{IsAlike, shape}
use gvn.Gvn.Class.{CongruenceClass}
use gvn.Gvn.Join.{has_phi}
use gvn.Gvn.Transfer.{is_phi}
use gvn.Gvn.Replace.{used_in, member_is_phi, is_replaced}

-- The instruction `b` is one whose operands are read in the block `bb`, or at its end: a phi reads
-- them in the predecessors of its block, any other in its own block.
pub data ReadsIn (m : Module) (bb b : ℕ) : Type 0 where
  in_block : (i : Instr) → m.at b ≡ instr i → is_phi i ≡ false → i.parent ≡ bb → ReadsIn m bb b
  in_pred :
      (i : Instr)
      → m.at b ≡ instr i
      → is_phi i ≡ true
      → contains (pres_of (m.at i.parent)) bb ≡ true
      → ReadsIn m bb b

-- The leader of the class `c` may stand for the object `a`: it is another member, and a phi only
-- where the class has a value phi.
pub record Stands (m : Module) (c : CongruenceClass) (a : ℕ) : Type 0 where
  pub member : contains c.members a ≡ true
  pub other : object a ≢ c.leader
  pub phis : (has_phi c.value_phi ≡ true) ⊎ ((i : Instr) → m.at a ≡ instr i → is_phi i ≡ false)

-- The tests on users and members, told by shapes.
abbrev phi_op : OpId → Bool
phi_op op = elim op [ OpId.phi ↦ true | _ ↦ false ]

abbrev used_by : (ℕ → Option (OpId × ℕ) × List ℕ) → ℕ → ℕ → Bool
used_by g bb b = elim (g b).0 [
  | none ↦ false
  | some p ↦ if phi_op p.0 then contains (g p.1).1 bb else p.1 == bb
]

abbrev is_phi_by : Option (OpId × ℕ) → Bool
is_phi_by o = elim o [ none ↦ false | some p ↦ phi_op p.0 ]

shape-pres : (o : Object) → pres_of o ≡ (shape o).1
shape-pres (instr i) = refl
shape-pres (block b) = refl
shape-pres (Object.func f) = refl
shape-pres (Object.argument t) = refl
shape-pres (Object.global t) = refl

used_in-used_by : (m : Module) (bb b : ℕ) → used_in m bb b ≡ used_by (λ x. shape (m.at x)) bb b
unfolding used_in
used_in-used_by m bb b = go (m.at b)
  where
    go :
        (o : Object)
        → elim (as_instr o) [
          | none ↦ false
          | some i ↦ if is_phi i then contains (pres_of (m.at i.parent)) bb else i.parent == bb
        ]
          ≡ elim (shape o).0 [
            | none ↦ false
            | some p ↦ if phi_op p.0 then contains (shape (m.at p.1)).1 bb else p.1 == bb
          ]
    go (instr i) =
        ap (λ xs. if is_phi i then contains xs bb else i.parent == bb) (shape-pres (m.at i.parent))
    go (block c) = refl
    go (Object.func f) = refl
    go (Object.argument t) = refl
    go (Object.global t) = refl

used_in-ReadsIn : (m : Module) (bb b : ℕ) → used_in m bb b ≡ true → ReadsIn m bb b
unfolding used_in
used_in-ReadsIn m bb b h = go (m.at b) refl h
  where
    go :
        (o : Object)
        → m.at b ≡ o
        → elim (as_instr o) [
          | none ↦ false
          | some i ↦ if is_phi i then contains (pres_of (m.at i.parent)) bb else i.parent == bb
        ]
          ≡ true
        → ReadsIn m bb b
    go (instr i) e t = elim (Bool-cases (is_phi i)) [
      | inl p ↦ in_pred i e p (rw p at t)
      | inr p ↦ in_block i e p ((==_iff i.parent bb).0 (rw p at t))
    ]
    go (block c) e t = absurd cc
    go (Object.func f) e t = absurd cc
    go (Object.argument y) e t = absurd cc
    go (Object.global y) e t = absurd cc

member_is_phi-by : (m : Module) (a : ℕ) → member_is_phi m a ≡ is_phi_by (shape (m.at a)).0
member_is_phi-by m a = go (m.at a)
  where
    go :
        (o : Object)
        → elim (as_instr o) [ none ↦ false | some i ↦ is_phi i ] ≡ is_phi_by (shape o).0
    go (instr i) = refl
    go (block c) = refl
    go (Object.func f) = refl
    go (Object.argument t) = refl
    go (Object.global t) = refl

-- In a module of the shape of `m0`, the tests say what holds of `m0`.
pub IsAlike-ReadsIn :
    (m0 m : Module) (bb b : ℕ) → IsAlike m0 m → used_in m bb b ≡ true → ReadsIn m0 bb b
IsAlike-ReadsIn m0 m bb b al h = used_in-ReadsIn m0 bb b (
    used_in-used_by m0 bb b
    ∙ ap (λ g. used_by g bb b) (λ i x. sym (al x) i)
    ∙ sym (used_in-used_by m bb b)
    ∙ h)

pub is_replaced-Stands :
    (m0 m : Module) (c : CongruenceClass) (a : ℕ)
    → IsAlike m0 m
    → contains c.members a ≡ true
    → is_replaced m c a ≡ true
    → Stands m0 c a
unfolding is_replaced value_eq
is_replaced-Stands m0 m c a al k h = record {
  member = k;
  other = λ e. let t = (is_eq_iff Value-discrete (object a) c.leader).1 e in absurd (ground arith);
  phis = elim (Bool-cases (has_phi c.value_phi)) [
    | inl e ↦ inl e
    | inr e ↦ inr λ i at_a.
        sym (ap (λ o. is_phi_by (shape o).0) at_a)
        ∙ sym (ap (λ z. is_phi_by z.0) (al a))
        ∙ sym (member_is_phi-by m a)
        ∙ ground arith
  ];
}
