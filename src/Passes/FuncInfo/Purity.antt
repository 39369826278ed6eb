-- ===== src/Passes/FuncInfo/Purity.antt =====
-- What the flags of FuncInfo mean, and that its loops end.
use gvn.Prelude.{
  ℕ, ◌+◌, ◌≤◌, ◌≡◌, refl, ap, ◌∙◌, inl, inr, Bool, true, false, not, ◌||◌, ◌&&◌, some, List, [],
  ◌∷◌, ◌++◌, if◌then◌else◌, ==_iff, contains, contains-append, update, length, length-append,
  Bool-cases, Option-cases, ok, >>=-eq-ok, arith, count,
}
use gvn.Ir.Module.{Module}
use gvn.Passes.Worklist.{Search, has_mark, loop}
use gvn.Passes.Worklist.Closure.{IsClosing, loop-closed, loop-least, loop-ends}
use gvn.Passes.FuncInfo.{trivial_mark, mark_all, callers, run}

count-not : (p : ℕ → Bool) (xs : List ℕ) → count p xs + count (λ v. not (p v)) xs ≡ length xs
count-not p [] = refl
count-not p (x ∷ xs) = ground (arith, count-not p xs)

flags-unmarked :
    (s : Search) (xs : List ℕ) → count (λ v. not (has_mark false s v)) xs ≡ count s.flag xs
flags-unmarked s [] = refl
flags-unmarked s (x ∷ xs) = ground (arith, flags-unmarked s xs)

module _ (fuel : ℕ) (m : Module) where
  -- What the first loop of `run` leaves.
  record Marks (fs : List ℕ) (s t : Search) : Type 0 where
    inside : (v : ℕ) → contains fs v ≡ true → trivial_mark fuel m v ≡ ok (t.flag v)
    outside : (v : ℕ) → contains fs v ≡ false → t.flag v ≡ s.flag v
    queued : (v : ℕ) → contains t.work v ≡ (contains s.work v || contains fs v && not (t.flag v))
    room : length t.work ≤ length s.work + count (λ v. not (t.flag v)) fs

  mark_all-Marks : (fs : List ℕ) (s t : Search) → mark_all fuel m fs s ≡ ok t → Marks fs s t
  unfolding mark_all
  mark_all-Marks [] s t h = record {
    inside = λ v c. ground arith;
    outside = λ v c. ground arith;
    queued = λ v. ground arith;
    room = ground arith;
  }
  mark_all-Marks (f ∷ fs) s t h =
      let (p, first, rest) = >>=-eq-ok (trivial_mark fuel m f) _ h in
      let k = mark_all-Marks fs _ t rest in
      let own : t.flag f ≡ p = elim (Bool-cases (contains fs f)) [
        | inl later ↦ ground (arith, k.inside f later, first)
        | inr last ↦ ground (arith, k.outside f last, ==_iff f f)
      ] in
      record {
        inside = λ v c. elim (Bool-cases (contains fs v)) [
          | inl later ↦ k.inside v later
          | inr last ↦ ground (arith, k.outside v last, ==_iff f v)
        ];
        outside = λ v c. ground (arith, k.outside v);
        queued = λ v. ground (
          arith,
          k.queued v,
          k.inside v,
          k.outside v,
          contains-append s.work (f ∷ []) v,
          ==_iff f v,
        );
        room = ground (arith, k.room, own, length-append s.work (f ∷ []));
      }

  -- Each listed function has a verdict of `trivial_mark`.
  abbrev pub HasVerdicts : List ℕ → Type 0
  HasVerdicts fs = (f : ℕ) → contains fs f ≡ true → (p : Bool) × (trivial_mark fuel m f ≡ ok p)

  mark_all-total :
      (fs : List ℕ) (s : Search) → HasVerdicts fs → (t : Search) × (mark_all fuel m fs s ≡ ok t)
  unfolding mark_all
  mark_all-total [] s h = (s, refl)
  mark_all-total (f ∷ fs) s h =
      let (p, e) = h f (ground (arith, ==_iff f f)) in
      let first : Search = record {
        flag = update s.flag f p;
        work = if p then s.work else s.work ++ f ∷ [];
      } in
      let (t, r) = mark_all-total fs first (λ g c. h g (ground arith)) in (t, rw e r)

  -- The flags of the start that FuncInfo finds: every function is marked afresh.
  abbrev node : ℕ → Bool
  node v = contains m.function_list v

  run-parts :
      (is_pure flags : ℕ → Bool)
      → run fuel m is_pure ≡ ok flags
      → (s t : Search) × Marks m.function_list (record { flag = is_pure; work = [] }) s
        × (loop false (callers m) (length m.function_list) s ≡ some t)
        × (t.flag ≡ flags)
  unfolding run
  run-parts is_pure flags h =
      let (s, marks, rest) =
        >>=-eq-ok (mark_all fuel m m.function_list (record { flag = is_pure; work = [] })) _ h in
      let l = loop false (callers m) (length m.function_list) s in
      elim (Option-cases l) [
        | inl e ↦ absurd (ground (arith, rest))
        | inr (t, e) ↦ (s, t, mark_all-Marks m.function_list _ s marks, e, ground (arith, rest))
      ]

  -- The uses of listed functions stand in listed functions.
  abbrev pub CallersListed : Type 0
  CallersListed =
      (f g : ℕ)
      → contains m.function_list f ≡ true
      → contains (callers m f) g ≡ true
      → contains m.function_list g ≡ true

  IsClosing-start :
      {is_pure : ℕ → Bool} (s : Search)
      → Marks m.function_list (record { flag = is_pure; work = [] }) s
      → IsClosing false (callers m) node (has_mark false s) s
  IsClosing-start s k = record {
    rooted = λ v r. r;
    followed = λ u v n marked edge. inl (ground (arith, k.queued u));
  }

  -- After `run`, a listed function that is flagged pure was pure on its own.
  run-own :
      (is_pure flags : ℕ → Bool) (g : ℕ)
      → run fuel m is_pure ≡ ok flags
      → contains m.function_list g ≡ true
      → flags g ≡ true
      → trivial_mark fuel m g ≡ ok true
  run-own is_pure flags g h n p =
      let (s, t, k, ends, e) = run-parts is_pure flags h in
      let (rooted, closed) =
        loop-closed false (callers m) (length m.function_list) s t (IsClosing-start s k) ends in
      k.inside g n ∙ ap ok (ground (arith, rooted g, ap (λ (q : ℕ → Bool). q g) e))

  -- After `run`, an instruction that uses a listed function flagged impure stands in a function
  -- flagged impure.
  pub run-callers :
      (is_pure flags : ℕ → Bool) (f g : ℕ)
      → run fuel m is_pure ≡ ok flags
      → contains m.function_list f ≡ true
      → contains (callers m f) g ≡ true
      → flags f ≡ false
      → flags g ≡ false
  run-callers is_pure flags f g h n edge p =
      let (s, t, k, ends, e) = run-parts is_pure flags h in
      let (rooted, closed) =
        loop-closed false (callers m) (length m.function_list) s t (IsClosing-start s k) ends in
      let at_f = ap (λ (q : ℕ → Bool). q f) e in
      let at_g = ap (λ (q : ℕ → Bool). q g) e in ground (arith, closed f g n (ground arith) edge)

  -- Where the functions whose instructions use a listed function are listed too, `run` flags no more
  -- than it must: what holds of the functions that are impure on their own, and passes from a
  -- listed function to those that use it, holds of every listed function flagged impure.
  pub run-least {ℓ} :
      (P : ℕ → Type ℓ)
      → CallersListed
      → ((f : ℕ) → trivial_mark fuel m f ≡ ok false → P f)
      → ((f g : ℕ)
          → contains m.function_list f ≡ true
          → contains (callers m f) g ≡ true
          → P f
          → P g)
      → (is_pure flags : ℕ → Bool) → run fuel m is_pure ≡ ok flags
      → (f : ℕ) → contains m.function_list f ≡ true
      → flags f ≡ false
      → P f
  run-least P listed own along is_pure flags h f n impure =
      let (s, t, k, ends, e) = run-parts is_pure flags h in
      loop-least false (callers m) node P (λ u v nu edge. (listed u v nu edge, along u v nu edge))
        (length m.function_list) s t
        (
          λ v nv marked. own v (k.inside v nv ∙ ap ok (ground arith)),
          λ v q. (ground (arith, k.queued v), ground (arith, k.queued v)),
        )
        ends f n (ground (arith, e' t e f))
    where
      e' : (t : Search) → t.flag ≡ flags → (v : ℕ) → t.flag v ≡ flags v
      e' t e v = ap (λ g. g v) e

  -- With a verdict for each listed function, and users that are listed, `run` gives flags: the
  -- queue never needs more rounds than there are functions.
  pub run-total :
      (is_pure : ℕ → Bool)
      → HasVerdicts m.function_list
      → CallersListed
      → (flags : ℕ → Bool) × (run fuel m is_pure ≡ ok flags)
  unfolding run
  run-total is_pure verdicts listed =
      let (s, marked) =
        mark_all-total m.function_list (record { flag = is_pure; work = [] }) verdicts in
      let k = mark_all-Marks m.function_list (record { flag = is_pure; work = [] }) s marked in
      let split = count-not s.flag m.function_list in
      let (t, ends) =
        loop-ends false (callers m) m.function_list listed (length m.function_list) s
          (λ v q. ground (arith, k.queued v))
          (omega (arith, k.room, flags-unmarked s m.function_list)) in
      (t.flag, rw (marked, ends))
