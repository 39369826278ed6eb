-- ===== src/Gvn/Replace.antt =====
-- GVN::replace_cc_members (src/optimization/GVN.cpp).
pub mod Guards
pub mod Leaders
use gvn.Prelude.{
  ℕ, Bool, true, false, not, ◌&&◌, ◌||◌, Option, none, some, List, [], ◌∷◌, if◌then◌else◌, ◌==◌,
  contains, Result, ok, ◌>>=◌,
}
use gvn.Ir.Module.{Module, Value, object, as_instr, pres_of, value_eq}
use gvn.Ir.Uses.{replace_use_with_when}
use gvn.Gvn.Class.{CongruenceClass, Partitions}
use gvn.Gvn.Join.{has_phi}
use gvn.Gvn.Transfer.{is_phi}

-- The predicate on users: a phi belongs to the predecessors of its block, as a copy statement, and
-- any other instruction to its block.
unfoldable pub used_in : Module → ℕ → ℕ → Bool
used_in m bb user = elim (as_instr (m.at user)) [
  | none ↦ false
  | some i ↦ if is_phi i then contains (pres_of (m.at i.parent)) bb else i.parent == bb
]

abbrev pub member_is_phi : Module → ℕ → Bool
member_is_phi m a = elim (as_instr (m.at a)) [ none ↦ false | some i ↦ is_phi i ]

-- The test for a member: it is not the leader, and a phi only where the class has a value phi.
unfoldable pub is_replaced : Module → CongruenceClass → ℕ → Bool
is_replaced m c a =
    not (value_eq (object a) c.leader) && (has_phi c.value_phi || not (member_is_phi m a))

unfoldable pub replace_member : Module → ℕ → CongruenceClass → ℕ → Result Module
replace_member m bb c a =
    if is_replaced m c a then replace_use_with_when m a c.leader (used_in m bb) else ok m

unfoldable pub replace_members : Module → ℕ → CongruenceClass → List ℕ → Result Module
replace_members m bb c [] = ok m
replace_members m bb c (a ∷ as') = replace_member m bb c a >>= λ m'. replace_members m' bb c as'

-- The classes of a block; the top class is passed over.
unfoldable pub replace_classes : Module → ℕ → Partitions → Result Module
replace_classes m bb [] = ok m
replace_classes m bb (c ∷ cs) =
    (if c.index == 0 then ok m else replace_members m bb c c.members) >>= λ m'.
    replace_classes m' bb cs

-- The loop over `pout_`, a map in the order of the addresses of the blocks `bbs`.
unfoldable pub replace_cc_members : Module → (ℕ → Partitions) → List ℕ → Result Module
replace_cc_members m pout [] = ok m
replace_cc_members m pout (bb ∷ bbs) =
    replace_classes m bb (pout bb) >>= λ m'. replace_cc_members m' pout bbs
