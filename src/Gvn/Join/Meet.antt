-- ===== src/Gvn/Join/Meet.antt =====
-- Joining partitions keeps together only what both hold together.
use gvn.Prelude.{
  ℕ, ◌≡◌, refl, ap, sym, ◌∙◌, ◌≢◌, ◌⊎◌, inl, inr, Bool, true, false, not, ◌&&◌, ◌||◌, Option, none,
  some, List, [], ◌∷◌, if◌then◌else◌, ◌==◌, ==_iff, contains, arith, Bool-cases,
}
use gvn.Gvn.Class.{CongruenceClass, Partitions, Counter, insert_class, together}
use gvn.Gvn.Class.Sets.{contains-insert_member}
use gvn.Gvn.Join.{
  meet_step, meet_inner, meet_members, agreed, numbered, with_phi, renumbered, met, intersect,
  insert_if, join_step, join_inner, join_outer, is_top, join, is_empty,
}

meet_inner-members :
    (i : ℕ) (js : List ℕ) (ck : CongruenceClass) (v : ℕ)
    → contains (meet_inner i js ck).members v ≡ (contains ck.members v || i == v && contains js v)
unfolding meet_inner meet_step
meet_inner-members i [] ck v = ground arith
meet_inner-members i (j ∷ js) ck v = ground (
  arith,
  meet_inner-members i js (meet_step i j ck) v,
  contains-insert_member i ck.members v,
  ==_iff i j,
  ==_iff i v,
  ==_iff j v,
)

meet_members-members :
    (is js : List ℕ) (ck : CongruenceClass) (v : ℕ)
    → contains (meet_members is js ck).members v
      ≡ (contains ck.members v || contains is v && contains js v)
unfolding meet_members
meet_members-members [] js ck v = ground arith
meet_members-members (i ∷ is) js ck v =
    ground (arith, meet_members-members is js (meet_inner i js ck) v, meet_inner-members i js ck v)

pub numbered-members : (ci cj ck : CongruenceClass) → (numbered ci cj ck).members ≡ ck.members
unfolding numbered
numbered-members ci cj ck = ground arith

pub renumbered-members :
    (ci cj ck : CongruenceClass) (k : Counter) → (renumbered ci cj ck k).0.members ≡ ck.members
unfolding renumbered with_phi
renumbered-members ci cj ck k = ground arith

pub agreed-members : (ci cj : CongruenceClass) → (agreed ci cj).members ≡ []
unfolding agreed
agreed-members ci cj = refl

met-members :
    (ci cj : CongruenceClass) (v : ℕ)
    → contains (met ci cj).members v ≡ (contains ci.members v && contains cj.members v)
met-members ci cj v =
    ap (λ ms. contains ms v)
      (numbered-members ci cj (meet_members ci.members cj.members (agreed ci cj)))
    ∙ meet_members-members ci.members cj.members (agreed ci cj) v
    ∙ ap (λ ms. contains ms v || contains ci.members v && contains cj.members v)
        (agreed-members ci cj)

-- The class that `intersect` returns has a value number and members, and its members are those
-- that the two classes share.
pub intersect-members :
    (ci cj : CongruenceClass) (k k' : Counter) (c : CongruenceClass)
    → intersect ci cj k ≡ (some c, k')
    → (c.index ≢ 0)
      × (c.members ≢ [])
      × ((v : ℕ) → contains c.members v ≡ (contains ci.members v && contains cj.members v))
unfolding intersect
intersect-members ci cj k k' c h =
    let found = ap (λ p. p.0) h in
    let same = some-eq (renumbered ci cj (met ci cj) k).0 c found in
    (
      ground (arith, ==_iff c.index 0),
      ground arith,
      λ v.
          ap (λ (d : CongruenceClass). contains d.members v) (sym same)
          ∙ ap (λ ms. contains ms v) (renumbered-members ci cj (met ci cj) k)
          ∙ met-members ci cj v,
    )
  where
    some-eq :
        (d c : CongruenceClass)
        → (if not (d.index == 0) && not (is_empty d.members) then some d else none) ≡ some c
        → d ≡ c
    some-eq d c e = ground arith

contains-is_empty : (ms : List ℕ) (v : ℕ) → is_empty ms ≡ true → contains ms v ≡ false
contains-is_empty [] v h = refl
contains-is_empty (x ∷ ms) v h = cc

renumbered-index :
    (ci cj ck : CongruenceClass) (k : Counter)
    → k.next_value_number ≢ 0
    → is_empty ck.members ≡ false
    → ((renumbered ci cj ck k).0.index == 0) ≡ false
unfolding renumbered with_phi
renumbered-index ci cj ck k n e = ground arith

-- While value numbers are left, `intersect` returns nullptr only for classes with no common member.
pub intersect-none :
    (ci cj : CongruenceClass) (k : Counter) (v : ℕ)
    → k.next_value_number ≢ 0
    → (intersect ci cj k).0 ≡ none
    → (contains ci.members v && contains cj.members v) ≡ false
unfolding intersect
intersect-none ci cj k v n h = elim (Bool-cases (is_empty (met ci cj).members)) [
  | inl e ↦ sym (met-members ci cj v) ∙ contains-is_empty (met ci cj).members v e
  | inr e ↦ absurd (
      ground
        (arith, renumbered-index ci cj (met ci cj) k n e, renumbered-members ci cj (met ci cj) k))
]

-- Inserting a class brings together nothing but its members.
together-insert_class :
    (c : CongruenceClass) (p : Partitions) (v w : ℕ)
    → together (insert_class c p) v w ≡ true
    → (together p v w ≡ true) ⊎ ((contains c.members v && contains c.members w) ≡ true)
unfolding insert_class
together-insert_class c [] v w h = ground arith
together-insert_class c (d ∷ p) v w h = ground (arith, together-insert_class c p v w)

join_step-together :
    (ci cj : CongruenceClass) (p : Partitions) (k : Counter) (v w : ℕ)
    → together (join_step ci cj (p, k)).0 v w ≡ true
    → (together p v w ≡ true)
      ⊎ ((contains ci.members v
            && contains ci.members w
            && (contains cj.members v && contains cj.members w))
          ≡ true)
unfolding join_step
join_step-together ci cj p k v w h = elim (Bool-cases (ci.index == 0 || cj.index == 0)) [
  | inl skip ↦ inl (rw skip at h)
  | inr both ↦ let (o, k') = intersect ci cj k in inserted o k' refl (rw both at h)
]
  where
    inserted :
        (o : Option CongruenceClass) (k' : Counter)
        → intersect ci cj k ≡ (o, k')
        → together (insert_if o p) v w ≡ true
        → (together p v w ≡ true)
          ⊎ ((contains ci.members v
                && contains ci.members w
                && (contains cj.members v && contains cj.members w))
              ≡ true)
    inserted none k' e g = inl g
    inserted (some c) k' e g =
        let (_, _, shared) = intersect-members ci cj k k' c e in
        ground (arith, together-insert_class c p v w g, shared v, shared w)

abbrev both : CongruenceClass → ℕ → ℕ → Bool
both c v w = contains c.members v && contains c.members w

join_inner-together :
    (ci : CongruenceClass) (p2 : Partitions) (s : Partitions × Counter) (v w : ℕ)
    → together (join_inner ci p2 s).0 v w ≡ true
    → (together s.0 v w ≡ true) ⊎ ((both ci v w && together p2 v w) ≡ true)
unfolding join_inner
join_inner-together ci [] s v w h = inl h
join_inner-together ci (cj ∷ p2) (p, k) v w h =
    let tail = join_inner-together ci p2 (join_step ci cj (p, k)) v w h in
    elim tail [
      | inl first ↦ ground (arith, join_step-together ci cj p k v w first)
      | inr later ↦ ground arith
    ]

join_outer-together :
    (p1 p2 : Partitions) (s : Partitions × Counter) (v w : ℕ)
    → together (join_outer p1 p2 s).0 v w ≡ true
    → (together s.0 v w ≡ true) ⊎ ((together p1 v w && together p2 v w) ≡ true)
unfolding join_outer
join_outer-together [] p2 s v w h = inl h
join_outer-together (ci ∷ p1) p2 s v w h =
    let tail = join_outer-together p1 p2 (join_inner ci p2 s) v w h in
    elim tail [
      | inl first ↦ ground (arith, join_inner-together ci p2 s v w first)
      | inr later ↦ ground arith
    ]

-- Values that the join of two partitions, neither of them top, holds in one class are in one class
-- of the first and in one class of the second.
pub join-together :
    (p1 p2 : Partitions) (k : Counter) (v w : ℕ)
    → is_top p1 ≡ false
    → is_top p2 ≡ false
    → together (join p1 p2 k).0 v w ≡ true
    → (together p1 v w ≡ true) × (together p2 v w ≡ true)
unfolding join
join-together p1 p2 k v w h1 h2 h =
    elim (join_outer-together p1 p2 ([], k) v w (rw (h1, h2) at h)) [
      | inl e ↦ cc
      | inr e ↦ ground arith
    ]
