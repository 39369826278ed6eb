-- ===== src/Gvn/Replace/Leaders.antt =====
-- The replacement of members puts leaders in place of members, where they may be used.
use gvn.Prelude.{
  ℕ, ◌≡◌, ◌≢◌, refl, sym, subst, ◌∙◌, ◌⊎◌, inl, inr, true, Option, some, List, [], ◌∷◌,
  if◌then◌else◌, ◌==◌, ==_iff, contains, ok, >>=-eq-ok, ok-injective, arith, Bool-cases,
}
use gvn.Ir.Module.{Module, Value, object}
use gvn.Ir.Uses.Replaced.{operand_at}
use gvn.Ir.Uses.Traced.{IsTraced, IsAlike}
use gvn.Ir.Uses.Moved.{replace_use_with_when-Replaces}
use gvn.Gvn.Class.{CongruenceClass, Partitions}
use gvn.Gvn.Replace.{
  used_in, is_replaced, replace_member, replace_members, replace_classes, replace_cc_members,
}
use gvn.Gvn.Replace.Guards.{ReadsIn, Stands, IsAlike-ReadsIn, is_replaced-Stands}

abbrev pub IsClassOf : Partitions → CongruenceClass → Type 0
IsClassOf [] c = ⊥
IsClassOf (d ∷ p) c = (d ≡ c) ⊎ IsClassOf p c

-- In a block of `bbs`, in which `b` reads its operands, `v` leads a class with a value number, and
-- may stand for its member `a`.
pub record Leads (m : Module) (pout : ℕ → Partitions) (bbs : List ℕ) (b a : ℕ) (v : Value)
    : Type 0 where
  pub bb : ℕ
  pub visited : contains bbs bb ≡ true
  pub reads : ReadsIn m bb b
  pub c : CongruenceClass
  pub held : IsClassOf (pout bb) c
  pub numbered : c.index ≢ 0
  pub stands : Stands m c a
  pub leader : v ≡ c.leader

-- An operand of `b` that becomes another one by steps, each from an object to the value that
-- replaces it.
pub data Steps (S : ℕ → ℕ → Value → Type 0) (b : ℕ) (o : Option Value) : Option Value → Type 0 where
  stays : {o' : Option Value} → o' ≡ o → Steps S b o o'
  goes_on :
      {o' : Option Value} (a : ℕ) (v : Value)
      → Steps S b o (some (object a))
      → S b a v
      → o' ≡ some v
      → Steps S b o o'

Steps-trans :
    (S : ℕ → ℕ → Value → Type 0) (b : ℕ) (o p q : Option Value)
    → Steps S b o p
    → Steps S b p q
    → Steps S b o q
Steps-trans S b o p q s (stays e) = subst (Steps S b o) (sym e) s
Steps-trans S b o p q s (goes_on a v t g e) =
    goes_on a v (Steps-trans S b o p (some (object a)) s t) g e

Steps-weaken :
    (S T : ℕ → ℕ → Value → Type 0) (b : ℕ) (o p : Option Value)
    → ((a : ℕ) (v : Value) → S b a v → T b a v)
    → Steps S b o p
    → Steps T b o p
Steps-weaken S T b o p w (stays e) = stays e
Steps-weaken S T b o p w (goes_on a v t g e) =
    goes_on a v (Steps-weaken S T b o (some (object a)) w t) (w a v g) e

-- A part of the replacement, in a module that has the shape of `m0`.
record Goes (m0 : Module) (S : ℕ → ℕ → Value → Type 0) (m m' : Module) : Type 0 where
  traced : IsTraced m'
  alike : IsAlike m0 m'
  steps : (b k : ℕ) → Steps S b (operand_at m b k) (operand_at m' b k)

abbrev Ready : Module → Module → Type 0
Ready m0 m = IsTraced m × IsAlike m0 m

module _ (m0 : Module) where
  Goes-ok :
      (S : ℕ → ℕ → Value → Type 0) (m m' : Module) → Ready m0 m → ok m ≡ ok m' → Goes m0 S m m'
  Goes-ok S m m' r h =
      subst (Goes m0 S m) (ok-injective h)
        (record { traced = r.0; alike = r.1; steps = λ b k. stays refl })

  Goes-trans :
      (S : ℕ → ℕ → Value → Type 0) (m m1 m' : Module)
      → Goes m0 S m m1
      → (Ready m0 m1 → Goes m0 S m1 m')
      → Goes m0 S m m'
  Goes-trans S m m1 m' g h =
      let k = h (g.traced, g.alike) in
      record {
        traced = k.traced;
        alike = k.alike;
        steps = λ b n.
            Steps-trans S b (operand_at m b n) (operand_at m1 b n) (operand_at m' b n) (g.steps b n)
              (k.steps b n);
      }

  Goes-weaken :
      (S T : ℕ → ℕ → Value → Type 0) (m m' : Module)
      → ((b a : ℕ) (v : Value) → S b a v → T b a v)
      → Goes m0 S m m'
      → Goes m0 T m m'
  Goes-weaken S T m m' w g = record {
    traced = g.traced;
    alike = g.alike;
    steps = λ b n. Steps-weaken S T b (operand_at m b n) (operand_at m' b n) (w b) (g.steps b n);
  }

-- In the class `c` of the block `bb`.
abbrev InClass : Module → ℕ → CongruenceClass → ℕ → ℕ → Value → Type 0
InClass m bb c b a v = ReadsIn m bb b × Stands m c a × (v ≡ c.leader)

-- In one of the classes `p` of the block `bb`.
abbrev InClasses : Module → ℕ → Partitions → ℕ → ℕ → Value → Type 0
InClasses m bb p b a v =
    (c : CongruenceClass) × IsClassOf p c × (c.index ≢ 0) × InClass m bb c b a v

module _ (m0 : Module) where
  replace_member-Goes :
      (m m' : Module) (bb : ℕ) (c : CongruenceClass) (a : ℕ)
      → Ready m0 m
      → contains c.members a ≡ true
      → replace_member m bb c a ≡ ok m'
      → Goes m0 (InClass m0 bb c) m m'
  unfolding replace_member
  replace_member-Goes m m' bb c a r k h = elim (Bool-cases (is_replaced m c a)) [
    | inl e ↦
        let z =
          replace_use_with_when-Replaces m m' a c.leader (used_in m bb) r.0
            (rw (e, replace_member) at h) in
        record {
          traced = z.traced;
          alike = λ x. z.alike x ∙ r.1 x;
          steps = λ b n. elim (z.moved b n) [
            | inl same ↦ stays same
            | inr (p, here, now) ↦
                goes_on a c.leader (stays (sym here))
                  (IsAlike-ReadsIn m0 m bb b r.1 p, is_replaced-Stands m0 m c a r.1 k e, refl) now
          ];
        }
    | inr e ↦ Goes-ok m0 (InClass m0 bb c) m m' r (rw (e, replace_member) at h)
  ]

  replace_members-Goes :
      (m m' : Module) (bb : ℕ) (c : CongruenceClass) (xs : List ℕ)
      → Ready m0 m
      → ((a : ℕ) → contains xs a ≡ true → contains c.members a ≡ true)
      → replace_members m bb c xs ≡ ok m'
      → Goes m0 (InClass m0 bb c) m m'
  unfolding replace_members
  replace_members-Goes m m' bb c [] r k h = Goes-ok m0 (InClass m0 bb c) m m' r h
  replace_members-Goes m m' bb c (a ∷ xs) r k h =
      let (m1, h1, h2) = >>=-eq-ok (replace_member m bb c a) _ h in
      Goes-trans m0 (InClass m0 bb c) m m1 m'
        (replace_member-Goes m m1 bb c a r (k a (ground (arith, ==_iff a a))) h1)
        λ r1. replace_members-Goes m1 m' bb c xs r1 (λ x t. k x (ground arith)) h2

  replace_classes-Goes :
      (m m' : Module) (bb : ℕ) (p : Partitions)
      → Ready m0 m
      → replace_classes m bb p ≡ ok m'
      → Goes m0 (InClasses m0 bb p) m m'
  unfolding replace_classes
  replace_classes-Goes m m' bb [] r h = Goes-ok m0 (InClasses m0 bb []) m m' r h
  replace_classes-Goes m m' bb (c ∷ p) r h =
      let (m1, h1, h2) =
        >>=-eq-ok (if c.index == 0 then ok m else replace_members m bb c c.members) _ h in
      Goes-trans m0 (InClasses m0 bb (c ∷ p)) m m1 m' (first m1 h1) λ r1.
        Goes-weaken m0 (InClasses m0 bb p) (InClasses m0 bb (c ∷ p)) m1 m'
          (λ b a v g. let (d, held, n, rest) = g in (d, inr held, n, rest))
          (replace_classes-Goes m1 m' bb p r1 h2)
    where
      first :
          (m1 : Module)
          → (if c.index == 0 then ok m else replace_members m bb c c.members) ≡ ok m1
          → Goes m0 (InClasses m0 bb (c ∷ p)) m m1
      first m1 h1 = elim (Bool-cases (c.index == 0)) [
        | inl e ↦ Goes-ok m0 (InClasses m0 bb (c ∷ p)) m m1 r (rw e at h1)
        | inr e ↦
            Goes-weaken m0 (InClass m0 bb c) (InClasses m0 bb (c ∷ p)) m m1
              (λ b a v g. (c, inl refl, (λ z. ground (arith, ==_iff c.index 0)), g))
              (replace_members-Goes m m1 bb c c.members r (λ x t. t) (rw e at h1))
      ]

  replace_cc_members-Goes :
      (m m' : Module) (pout : ℕ → Partitions) (bbs : List ℕ)
      → Ready m0 m
      → replace_cc_members m pout bbs ≡ ok m'
      → Goes m0 (Leads m0 pout bbs) m m'
  unfolding replace_cc_members
  replace_cc_members-Goes m m' pout [] r h = Goes-ok m0 (Leads m0 pout []) m m' r h
  replace_cc_members-Goes m m' pout (bb ∷ bbs) r h =
      let (m1, h1, h2) = >>=-eq-ok (replace_classes m bb (pout bb)) _ h in
      Goes-trans m0 (Leads m0 pout (bb ∷ bbs)) m m1 m'
        (Goes-weaken m0 (InClasses m0 bb (pout bb)) (Leads m0 pout (bb ∷ bbs)) m m1 here
          (replace_classes-Goes m m1 bb (pout bb) r h1))
        λ r1.
          Goes-weaken m0 (Leads m0 pout bbs) (Leads m0 pout (bb ∷ bbs)) m1 m' later
            (replace_cc_members-Goes m1 m' pout bbs r1 h2)
    where
      here :
          (b a : ℕ) (v : Value) → InClasses m0 bb (pout bb) b a v → Leads m0 pout (bb ∷ bbs) b a v
      here b a v (c, held, n, (reads, stands, leader)) = record {
        bb = bb;
        visited = ground (arith, ==_iff bb bb);
        reads = reads;
        c = c;
        held = held;
        numbered = n;
        stands = stands;
        leader = leader;
      }

      later : (b a : ℕ) (v : Value) → Leads m0 pout bbs b a v → Leads m0 pout (bb ∷ bbs) b a v
      later b a v g = record {
        bb = g.bb;
        visited = ground (arith, g.visited);
        reads = g.reads;
        c = g.c;
        held = g.held;
        numbered = g.numbered;
        stands = g.stands;
        leader = g.leader;
      }

-- Where each use in the use list of an object is an operand that is that object, and
-- `replace_cc_members` returns, each operand of each instruction becomes what it is by steps. Each
-- step puts the leader of a class with a value number, of the partition of one of the blocks, in the
-- place of another member of that class, which is a phi only if the class has a value phi; and the
-- instruction is in that block and no phi, or is a phi and the block a predecessor of its block.
pub replace_cc_members-Leads :
    (m m' : Module) (pout : ℕ → Partitions) (bbs : List ℕ) (b k : ℕ)
    → IsTraced m
    → replace_cc_members m pout bbs ≡ ok m'
    → Steps (Leads m pout bbs) b (operand_at m b k) (operand_at m' b k)
replace_cc_members-Leads m m' pout bbs b k w h =
    (replace_cc_members-Goes m m m' pout bbs (w, λ x. refl) h).steps b k
