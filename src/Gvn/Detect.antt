-- ===== src/Gvn/Detect.antt =====
-- GVN::detectEquivalences (src/optimization/GVN.cpp): the partitions at the end of each block, by
-- rounds over the blocks until no partition changes.
pub mod Stable
use gvn.Prelude.{
  ℕ, zero, suc, Bool, true, false, not, ◌&&◌, ◌||◌, Option, none, some, List, [], ◌∷◌,
  if◌then◌else◌, ◌==◌, update, Result, ok, fault, out_of_fuel, ◌>>=◌,
}
use gvn.Ir.Constants.{FloatOps}
use gvn.Ir.Module.{
  Module, Object, object, as_instr, is_void, instrs_of, args_of, blocks_of, pres_of, succs_of,
}
use gvn.Gvn.Expr.{var}
use gvn.Gvn.Class.{Partitions, Counter, bump, create_class, insert_class, partitions_eq}
use gvn.Gvn.Join.{join}
use gvn.Gvn.ValuePhi.{front, back}
use gvn.Gvn.Transfer.{transfer_function}
use gvn.Gvn.Copy.{single, copy_all}

-- A class for each argument of the function, and for each global variable.
unfoldable pub start_classes : Module → List ℕ → Partitions → Counter → Partitions × Counter
start_classes m [] p k = (p, k)
start_classes m (x ∷ xs) p k =
    start_classes m xs (insert_class (single x (object x) k.next_value_number (var (m.name x))) p)
      (bump k)

-- `pout_` with the counters: what the rounds change. `pin_` is read nowhere else.
pub record Progress : Type 0 where
  pub pout : ℕ → Partitions
  pub counter : Counter
  pub changed : Bool

-- The top partition.
abbrev pub top : Partitions
top = create_class 0 ∷ []

module _ (fl : FloatOps) (m : Module) (is_pure : ℕ → Bool) (fuel : ℕ) where
  -- The transfer of every instruction that has a value.
  unfoldable pub transfer_all :
      (ℕ → Partitions) → ℕ → List ℕ → Partitions → Counter → Result (Partitions × Counter)
  transfer_all pout bb [] p k = ok (p, k)
  transfer_all pout bb (x ∷ xs) p k = elim (as_instr (m.at x)) [
    | none ↦ transfer_all pout bb xs p k
    | some i ↦
        if is_void i
        then transfer_all pout bb xs p k
        else (transfer_function fl m is_pure pout fuel x i bb p k >>= λ r.
            transfer_all pout bb xs r.0 r.1)
  ]

  -- The transfers of a block, and the copy statements at its end.
  unfoldable pub block_out :
      (ℕ → Partitions) → ℕ → Partitions → Counter → Result (Partitions × Counter)
  block_out pout bb p k = do
    r ← transfer_all pout bb (instrs_of (m.at bb)) p k
    copy_all m bb (succs_of (m.at bb)) r.0 r.1

  -- The partition at the start of a block with predecessors: with two or more, the join of the
  -- first and the last.
  unfoldable pub block_in : (ℕ → Partitions) → List ℕ → Counter → Result (Partitions × Counter)
  block_in pout [] k = ok ([], k)
  block_in pout (b ∷ []) k = ok (pout b, k)
  block_in pout (b ∷ c ∷ bs) k = back (c ∷ bs) >>= λ b2. ok (join (pout b) (pout b2) k)

  abbrev pub has_no_pre : List ℕ → Bool
  has_no_pre [] = true
  has_no_pre (b ∷ bs) = false

  -- The body of the loop over the blocks.
  unfoldable pub visit_block : ℕ → ℕ → Progress → Result Progress
  visit_block entry bb s = if bb == entry || has_no_pre (pres_of (m.at bb)) then ok s else do
    pin ← block_in s.pout (pres_of (m.at bb)) s.counter
    r ← block_out s.pout bb pin.0 pin.1
    ok (record {
      pout = update s.pout bb r.0;
      counter = r.1;
      changed = s.changed || not (partitions_eq r.0 (s.pout bb));
    })

  unfoldable pub visit_all : ℕ → List ℕ → Progress → Result Progress
  visit_all entry [] s = ok s
  visit_all entry (bb ∷ bbs) s = visit_block entry bb s >>= λ t. visit_all entry bbs t

  -- The do-while loop. Value numbers and phis are new in each round; the rounds are bounded by fuel.
  unfoldable pub iterate : ℕ → ℕ → List ℕ → Progress → Result Progress
  iterate zero entry bbs s = fault out_of_fuel
  iterate (suc rest) entry bbs s = visit_all entry bbs (record s { changed = false }) >>= λ t.
      elim t.changed [ true ↦ iterate rest entry bbs t | false ↦ ok t ]

  -- detectEquivalences of the function `f`, from empty maps. `now_bb` is not set yet for the entry
  -- block, where no value is a phi.
  unfoldable pub detect_equivalences : ℕ → ℕ → Counter → Result Progress
  detect_equivalences rounds f k = do
    entry ← front (blocks_of (m.at f))
    let start = start_classes m (args_of (m.at f)) [] k
    let all = start_classes m m.global_list start.0 start.1
    r ← block_out (λ b. []) entry all.0 all.1
    iterate rounds entry (blocks_of (m.at f))
        (record { pout = update (λ b. top) entry r.0; counter = r.1; changed = false })
