-- ===== src/Gvn/Class/Sets.antt =====
-- The sets of members and of classes: membership, order, and what equality of partitions says.
use gvn.Prelude.{
  ℕ, suc, ◌<◌, ◌≤◌, ◌≡◌, refl, true, false, not, ◌&&◌, ◌||◌, List, [], ◌∷◌, ◌==◌, ==_iff, contains,
  All, arith, ◌↔◌,
}
use gvn.Gvn.Class.{
  CongruenceClass, Partitions, insert_member, erase_member, members_eq, partitions_eq,
}

pub contains-insert_member :
    (a : ℕ) (xs : List ℕ) (v : ℕ) → contains (insert_member a xs) v ≡ (a == v || contains xs v)
unfolding insert_member
contains-insert_member a [] v = refl
contains-insert_member a (x ∷ xs) v =
    ground (arith, contains-insert_member a xs v, ==_iff x a, ==_iff a v, ==_iff x v)

-- The values stand in rising order, each below the bound of the next.
abbrev pub IsRising : ℕ → List ℕ → Type 0
IsRising lo [] = Unit
IsRising lo (x ∷ xs) = (lo ≤ x) × IsRising (suc x) xs

-- In rising order no value stands twice, so erasing one leaves the others.
not-contains-IsRising : (lo v : ℕ) (xs : List ℕ) → IsRising lo xs → v < lo → contains xs v ≡ false
not-contains-IsRising lo v [] r h = refl
not-contains-IsRising lo v (x ∷ xs) r h = ground (arith, not-contains-IsRising (suc x) v xs r.1)

pub contains-erase_member :
    (lo a : ℕ) (xs : List ℕ) (v : ℕ)
    → IsRising lo xs
    → contains (erase_member a xs) v ≡ (contains xs v && not (a == v))
unfolding erase_member
contains-erase_member lo a [] v r = refl
contains-erase_member lo a (x ∷ xs) v r = ground (
  arith,
  contains-erase_member (suc x) a xs v r.1,
  not-contains-IsRising (suc x) a xs r.1,
  ==_iff x a,
  ==_iff a v,
  ==_iff x v,
)

-- The members of every class stand in the order of the set.
abbrev pub AllRising : Partitions → Type 0
AllRising p = All (λ (c : CongruenceClass). IsRising 0 c.members) p

-- The value numbers of the classes.
abbrev pub indices : Partitions → List ℕ
indices [] = []
indices (c ∷ cs) = c.index ∷ indices cs

members_eq_iff : (xs ys : List ℕ) → (members_eq xs ys ≡ true) ↔ (xs ≡ ys)
unfolding members_eq
members_eq_iff [] [] = (λ h. refl, λ h. refl)
members_eq_iff (x ∷ xs) (y ∷ ys) = ground (arith, members_eq_iff xs ys, ==_iff x y)
members_eq_iff [] (y ∷ ys) = (λ h. cc, λ h. cc)
members_eq_iff (x ∷ xs) [] = (λ h. cc, λ h. cc)

abbrev pub member_lists : Partitions → List (List ℕ)
member_lists [] = []
member_lists (c ∷ cs) = c.members ∷ member_lists cs

-- `p != pout_[bb]` tests whether the classes have other members: the value expressions, the
-- leaders and the value numbers do not count.
pub partitions_eq_iff :
    (p q : Partitions) → (partitions_eq p q ≡ true) ↔ (member_lists p ≡ member_lists q)
unfolding partitions_eq
partitions_eq_iff [] [] = (λ h. refl, λ h. refl)
partitions_eq_iff (c ∷ cs) (d ∷ ds) =
    ground (arith, members_eq_iff c.members d.members, partitions_eq_iff cs ds)
partitions_eq_iff [] (d ∷ ds) = (λ h. cc, λ h. cc)
partitions_eq_iff (c ∷ cs) [] = (λ h. cc, λ h. cc)
