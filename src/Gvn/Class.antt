-- ===== src/Gvn/Class.antt =====
-- Congruence classes and partitions (include/optimization/GVN.h): `std::set`s as lists in the order
-- of their comparison, addresses for the members and value numbers for the classes.
pub mod Sets
use gvn.Prelude.{
  ℕ, zero, suc, ◌+◌, ◌%◌, ◌^◌, Bool, true, false, ◌&&◌, ◌||◌, Option, none, some, List, [], ◌∷◌,
  if◌then◌else◌, ◌==◌, ltb, contains, any, length,
}
use gvn.Ir.Module.{Value, constant}
use gvn.Ir.Constants.{null_const}
use gvn.Gvn.Expr.{Expr, null, phi}

-- A `std::shared_ptr<PhiExpression>` that is not null: two are equal if they are one object, so it
-- has an address.
pub record Phi : Type 0 where
  pub addr : ℕ
  pub lhs : Expr
  pub rhs : Expr

pub record CongruenceClass : Type 0 where
  pub index : ℕ
  pub leader : Value
  pub value_expr : Expr
  pub value_phi : Option Phi
  pub members : List ℕ

abbrev pub Partitions : Type 0
Partitions = List CongruenceClass

abbrev pub nullptr : Value
nullptr = constant null_const

-- createCongruenceClass.
abbrev pub create_class : ℕ → CongruenceClass
create_class n = record {
  index = n;
  leader = nullptr;
  value_expr = null;
  value_phi = none;
  members = [];
}

-- `set<Value *>::insert`.
unfoldable pub insert_member : ℕ → List ℕ → List ℕ
insert_member a [] = a ∷ []
insert_member a (x ∷ xs) =
    if x == a then x ∷ xs else if ltb a x then a ∷ x ∷ xs else x ∷ insert_member a xs

-- `set<Value *>::erase`.
unfoldable pub erase_member : ℕ → List ℕ → List ℕ
erase_member a [] = []
erase_member a (x ∷ xs) = if x == a then xs else x ∷ erase_member a xs

-- `partitions::insert`: a class whose value number is taken is not inserted.
unfoldable pub insert_class : CongruenceClass → Partitions → Partitions
insert_class c [] = c ∷ []
insert_class c (d ∷ ds) =
    if d.index == c.index
    then d ∷ ds
    else if ltb c.index d.index
    then c ∷ d ∷ ds
    else d ∷ insert_class c ds

-- The counters: `next_value_number_`, and the address of the next PhiExpression.
pub record Counter : Type 0 where
  pub next_value_number : ℕ
  pub next_addr : ℕ

-- `next_value_number_++` on std::uint64_t.
abbrev pub bump : Counter → Counter
bump k = record k { next_value_number = (k.next_value_number + 1) % 2 ^ 64 }

-- Comparison of shared pointers to PhiExpression: by address.
unfoldable pub phi_ptr_eq : Option Phi → Option Phi → Bool
phi_ptr_eq none none = true
phi_ptr_eq (some p) (some q) = p.addr == q.addr
phi_ptr_eq _ _ = false

abbrev pub phi_expr : Option Phi → Expr
phi_expr none = null
phi_expr (some p) = phi p.lhs p.rhs

-- CongruenceClass::operator== compares the members.
unfoldable pub members_eq : List ℕ → List ℕ → Bool
members_eq [] [] = true
members_eq (x ∷ xs) (y ∷ ys) = x == y && members_eq xs ys
members_eq _ _ = false

-- operator== on partitions: the classes in order, each with its members.
unfoldable pub partitions_eq : Partitions → Partitions → Bool
partitions_eq [] [] = true
partitions_eq (c ∷ cs) (d ∷ ds) = members_eq c.members d.members && partitions_eq cs ds
partitions_eq _ _ = false

-- Two values are members of one class.
abbrev pub together : Partitions → ℕ → ℕ → Bool
together p v w = any (λ c. contains c.members v && contains c.members w) p
