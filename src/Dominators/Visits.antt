-- ===== src/Dominators/Visits.antt =====
-- What a visit of post_order_visit adds to the order.
use gvn.Prelude.{
  ℕ, suc, ◌+◌, ◌<◌, ◌≡◌, refl, sym, ap, subst, ◌∙◌, true, false, ◌||◌, List, [], ◌∷◌, ◌++◌,
  append-nil, append_assoc, length, length-append, contains, contains-append, if◌then◌else◌, ◌==◌,
  ==_iff, ==_refl, Bool-cases, inl, inr, arith,
}
use gvn.Dominators.{PostOrder, enter, leave}

-- No address stands twice.
abbrev pub IsOnce : List ℕ → Type 0
IsOnce [] = Unit
IsOnce (x ∷ xs) = (contains xs x ≡ false) × IsOnce xs

pub IsOnce-append :
    (xs ys : List ℕ)
    → IsOnce xs
    → IsOnce ys
    → ((a : ℕ) → contains ys a ≡ true → contains xs a ≡ false)
    → IsOnce (xs ++ ys)
IsOnce-append [] ys h k apart = k
IsOnce-append (x ∷ xs) ys h k apart = (
  grind (arith, contains-append xs ys x, h.0, apart x, ==_refl x),
  IsOnce-append xs ys h.1 k (λ a c. grind (arith, apart a c)),
)

-- The position of an address, which is the length where it is none.
abbrev pub index_of : List ℕ → ℕ → ℕ
index_of [] a = 0
index_of (x ∷ xs) a = if x == a then 0 else suc (index_of xs a)

pub index_of-append_in :
    (xs ys : List ℕ) (a : ℕ) → contains xs a ≡ true → index_of (xs ++ ys) a ≡ index_of xs a
index_of-append_in [] ys a h = ground arith
index_of-append_in (x ∷ xs) ys a h = ground (arith, index_of-append_in xs ys a)

pub index_of-append_out :
    (xs ys : List ℕ) (a : ℕ)
    → contains xs a ≡ false
    → index_of (xs ++ ys) a ≡ length xs + index_of ys a
index_of-append_out [] ys a h = omega arith
index_of-append_out (x ∷ xs) ys a h = ground (arith, index_of-append_out xs ys a)

pub index_of-length : (xs : List ℕ) (a : ℕ) → contains xs a ≡ true → index_of xs a < length xs
index_of-length [] a h = ground arith
index_of-length (x ∷ xs) a h = ground (arith, index_of-length xs a)

module _ (succs : ℕ → List ℕ) where
  -- Paths along the edges.
  pub data Reach : ℕ → ℕ → Type 0 where
    stay : (b : ℕ) → Reach b b
    go : (b c a : ℕ) → contains (succs b) c ≡ true → Reach c a → Reach b a

  -- From `s` to `t`, the visits of `roots` added the blocks `news`.
  pub record Explored (roots : List ℕ) (s t : PostOrder) (news : List ℕ) : Type 0 where
    pub grows : t.order ≡ s.order ++ news
    pub seen : (x : ℕ) → t.visited x ≡ (s.visited x || contains news x)
    pub fresh : (x : ℕ) → contains news x ≡ true → s.visited x ≡ false
    pub once : IsOnce news
    pub roots_seen : (x : ℕ) → contains roots x ≡ true → t.visited x ≡ true
    pub closed :
        (x y : ℕ) → contains news x ≡ true → contains (succs x) y ≡ true → t.visited y ≡ true
    pub reached : (x : ℕ) → contains news x ≡ true → (r : ℕ) × (contains roots r ≡ true) × Reach r x
    pub numbered :
        (x : ℕ) → t.id x ≡ (if contains news x then length s.order + index_of news x else s.id x)

  pub none-Explored : (s : PostOrder) → Explored [] s s []
  none-Explored s = record {
    grows = sym (append-nil s.order);
    seen = λ x. ground arith;
    fresh = λ x h. ground arith;
    once = tt;
    roots_seen = λ x h. ground arith;
    closed = λ x y h. ground arith;
    reached = λ x h. ground arith;
    numbered = λ x. refl;
  }

  pub then-Explored :
      (r : ℕ) (rs : List ℕ) (s t u : PostOrder) (ns ms : List ℕ)
      → Explored (r ∷ []) s t ns
      → Explored rs t u ms
      → Explored (r ∷ rs) s u (ns ++ ms)
  then-Explored r rs s t u ns ms e f = record {
    grows = f.grows ∙ ap (λ z. z ++ ms) e.grows ∙ append_assoc s.order ns ms;
    seen = λ x. ground (arith, e.seen x, f.seen x, contains-append ns ms x);
    fresh = λ x h. grind (arith, e.seen x, f.seen x, contains-append ns ms x, e.fresh x, f.fresh x);
    once = IsOnce-append ns ms e.once f.once (λ a c. grind (arith, f.fresh a c, e.seen a));
    roots_seen = λ x h. grind (arith, e.roots_seen x, f.roots_seen x, f.seen x);
    closed =
        λ x y h k. grind (arith, contains-append ns ms x, e.closed x y, f.closed x y, f.seen y);
    reached = λ x h. elim (Bool-cases (contains ns x)) [
      | inl c ↦ let q = e.reached x c in (q.0, ground (arith, q.1), q.2)
      | inr c ↦
          let q = f.reached x (ground (arith, contains-append ns ms x)) in
          (q.0, ground (arith, q.1), q.2)
    ];
    numbered = λ x. elim (Bool-cases (contains ns x)) [
      | inl c ↦ grind (
        arith,
        e.numbered x,
        f.numbered x,
        f.fresh x,
        e.seen x,
        contains-append ns ms x,
        index_of-append_in ns ms x c,
      )
      | inr c ↦ grind (
        arith,
        e.numbered x,
        f.numbered x,
        contains-append ns ms x,
        index_of-append_out ns ms x c,
        ap length e.grows,
        length-append s.order ns,
      )
    ];
  }

  pub skip-Explored :
      (r : ℕ) (rs : List ℕ) (s t : PostOrder) (ns : List ℕ)
      → s.visited r ≡ true
      → Explored rs s t ns
      → Explored (r ∷ rs) s t ns
  skip-Explored r rs s t ns v e = record {
    grows = e.grows;
    seen = e.seen;
    fresh = e.fresh;
    once = e.once;
    roots_seen = λ x h. elim (Bool-cases (r == x)) [
      | inl q ↦ subst (λ z. t.visited z ≡ true) ((==_iff r x).0 q) (ground (arith, e.seen r))
      | inr q ↦ e.roots_seen x (ground arith)
    ];
    closed = e.closed;
    reached = λ x h. let q = e.reached x h in (q.0, ground (arith, q.1), q.2);
    numbered = e.numbered;
  }

  module _ (b : ℕ) (s t : PostOrder) (ns : List ℕ) (v : s.visited b ≡ false)
      (e : Explored (succs b) (enter b s) t ns) where
    not_again : contains ns b ≡ false
    unfolding enter
    not_again = grind (arith, e.fresh b, ==_refl b)

    leave_fresh : (x : ℕ) → contains (ns ++ b ∷ []) x ≡ true → s.visited x ≡ false
    unfolding enter
    leave_fresh x h = elim (Bool-cases (b == x)) [
      | inl q ↦ subst (λ z. s.visited z ≡ false) ((==_iff b x).0 q) v
      | inr q ↦ ground (arith, contains-append ns (b ∷ []) x, e.fresh x)
    ]

    leave_closed :
        (x y : ℕ)
        → contains (ns ++ b ∷ []) x ≡ true
        → contains (succs x) y ≡ true
        → t.visited y ≡ true
    leave_closed x y h k = elim (Bool-cases (b == x)) [
      | inl q ↦ e.roots_seen y (subst (λ z. contains (succs z) y ≡ true) (sym ((==_iff b x).0 q)) k)
      | inr q ↦ e.closed x y (ground (arith, contains-append ns (b ∷ []) x)) k
    ]

    leave_reached :
        (x : ℕ)
        → contains (ns ++ b ∷ []) x ≡ true
        → (r : ℕ) × (contains (b ∷ []) r ≡ true) × Reach r x
    leave_reached x h = elim (Bool-cases (b == x)) [
      | inl q ↦ (b, ground (arith, ==_refl b), subst (λ z. Reach b z) ((==_iff b x).0 q) (stay b))
      | inr q ↦
          let r = e.reached x (ground (arith, contains-append ns (b ∷ []) x)) in
          (b, ground (arith, ==_refl b), go b r.0 x r.1 r.2)
    ]

    leave_numbered :
        (x : ℕ)
        → (leave b t).id x ≡ (
            if contains (ns ++ b ∷ []) x
            then length s.order + index_of (ns ++ b ∷ []) x
            else s.id x)
    unfolding leave enter
    leave_numbered x = elim (Bool-cases (contains ns x)) [
      | inl c ↦ grind (
        arith,
        e.numbered x,
        contains-append ns (b ∷ []) x,
        index_of-append_in ns (b ∷ []) x c,
        not_again,
        ==_iff b x,
      )
      | inr c ↦ grind (
        arith,
        e.numbered x,
        contains-append ns (b ∷ []) x,
        index_of-append_out ns (b ∷ []) x c,
        ap length e.grows,
        length-append s.order ns,
      )
    ]

    pub leave-Explored : Explored (b ∷ []) s (leave b t) (ns ++ b ∷ [])
    unfolding enter leave
    leave-Explored = record {
      grows = ap (λ z. z ++ b ∷ []) e.grows ∙ append_assoc s.order ns (b ∷ []);
      seen = λ x. ground (arith, e.seen x, contains-append ns (b ∷ []) x);
      fresh = leave_fresh;
      once =
          IsOnce-append ns (b ∷ []) e.once (refl, tt)
            (λ a c. subst (λ z. contains ns z ≡ false) ((==_iff b a).0 (ground arith)) not_again);
      roots_seen = λ x h. ground (arith, e.seen x);
      closed = leave_closed;
      reached = leave_reached;
      numbered = leave_numbered;
    }
