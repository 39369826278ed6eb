-- ===== src/Codegen/Blocks.antt =====
-- How far the code of a block has come, and what a change of the module does to that.
pub mod Laid
pub mod Created
pub mod Inserted
pub mod Linked
pub mod Edges
use gvn.Prelude.{
  ℕ, suc, ◌≡◌, ◌<◌, refl, Bool, true, false, Option, none, some, List, [], ◌∷◌, ◌++◌, All, arith,
  ap, ◌∙◌,
}
use gvn.Ir.Module.{Module, Object, block}
use gvn.Codegen.Builder.{is_terminator}

-- A block without a terminator, one that ends with its only one, and one that goes on after one.
pub data Status : Type 0 where
  unended ended overrun no_block : Status

abbrev pub after : Status → Bool → Status
after unended true = ended
after unended false = unended
after no_block t = no_block
after ended t = overrun
after overrun t = overrun

-- The instructions of a block; `none` for other objects.
abbrev pub code : Object → Option (List ℕ)
code (block b) = some b.instr_list
code _ = none

abbrev pub run_code : Module → Status → List ℕ → Status
run_code m st [] = st
run_code m st (i ∷ is) = run_code m (after st (is_terminator (m.at i))) is

abbrev pub code_status : Module → Option (List ℕ) → Status
code_status m none = no_block
code_status m (some is) = run_code m unended is

unfoldable pub status : Module → ℕ → Status
status m x = code_status m (code (m.at x))

abbrev pub listed : Option (List ℕ) → List ℕ
listed none = []
listed (some is) = is

pub run_code-append :
    (m : Module) (is : List ℕ) (i : ℕ) (st : Status)
    → run_code m st (is ++ i ∷ []) ≡ after (run_code m st is) (is_terminator (m.at i))
run_code-append m [] i st = refl
run_code-append m (j ∷ is) i st = run_code-append m is i _

-- The instructions below `n` end a block in one module where they do in the other.
abbrev pub Alike : Module → Module → ℕ → Type 0
Alike m m' n = (i : ℕ) → i < n → is_terminator (m'.at i) ≡ is_terminator (m.at i)

run_code-Alike :
    (m m' : Module) (n : ℕ) (is : List ℕ)
    → Alike m m' n
    → All (λ i. i < n) is
    → (st : Status) → run_code m' st is ≡ run_code m st is
run_code-Alike m m' n [] h a st = refl
run_code-Alike m m' n (i ∷ is) h a st = rw (h i a.0) (run_code-Alike m m' n is h a.1 _)

pub code_status-Alike :
    (m m' : Module) (n : ℕ) (c : Option (List ℕ))
    → Alike m m' n
    → All (λ i. i < n) (listed c)
    → code_status m' c ≡ code_status m c
code_status-Alike m m' n none h a = refl
code_status-Alike m m' n (some is) h a = run_code-Alike m m' n is h a unended

-- A block whose list is the same has the same status.
pub status-Alike :
    (m m' : Module) (n x : ℕ)
    → Alike m m' n
    → All (λ i. i < n) (listed (code (m.at x)))
    → code (m'.at x) ≡ code (m.at x)
    → status m' x ≡ status m x
unfolding status
status-Alike m m' n x h a e = rw e (code_status-Alike m m' n (code (m.at x)) h a)
