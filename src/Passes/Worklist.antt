-- ===== src/Passes/Worklist.antt =====
-- The worklist that FuncInfo (`is_pure`, `worklist`) and DeadCode (`marked`, `work_list`) share:
-- a flag for each address, and a queue of the addresses whose flag was set to `mark`.
pub mod Closure
use gvn.Prelude.{
  ℕ, zero, suc, ◌≡◌, Bool, true, false, Option, none, some, List, [], ◌∷◌, ◌++◌, if◌then◌else◌,
  update,
}

pub record Search : Type 0 where
  pub flag : ℕ → Bool
  pub work : List ℕ

-- Equality of flags.
abbrev pub same : Bool → Bool → Bool
same true b = b
same false true = false
same false false = true

-- The flag of `v` is set.
abbrev pub has_mark : Bool → Search → ℕ → Bool
has_mark mark s v = same mark (s.flag v)

-- `if (flag[t] is not mark) { flag[t] = mark; work.push_back(t); }`
unfoldable pub offer : Bool → Search → ℕ → Search
offer mark s t =
    if has_mark mark s t then s else record { flag = update s.flag t mark; work = s.work ++ t ∷ [] }

unfoldable pub scan : Bool → Search → List ℕ → Search
scan mark s [] = s
scan mark s (t ∷ ts) = scan mark (offer mark s t) ts

module _ (mark : Bool) (targets : ℕ → List ℕ) where
  -- A round of the loop, after `u` left the front of the queue.
  unfoldable pub expand : Search → ℕ → List ℕ → Search
  expand s u rest = scan mark (record s { work = rest }) (targets u)

  -- `while (work.empty() == false) { ... }`; `none` says that the fuel ran out.
  unfoldable pub loop : ℕ → Search → Option Search
  loop zero s = elim s.work [ [] ↦ some s | _ ∷ _ ↦ none ]
  loop (suc fuel) s = elim s.work [ [] ↦ some s | u ∷ rest ↦ loop fuel (expand s u rest) ]
