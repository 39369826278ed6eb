-- ===== src/Codegen/Mirrored.antt =====
-- The edges of the module of a program, as Dominators reads them.
use gvn.Prelude.{ℕ, ◌≡◌, List, ok}
use gvn.Ast.Types.{Declaration}
use gvn.Ir.Module.{Module, blocks_of, succs_of, pres_of}
use gvn.Dominators.{Graph}
use gvn.Dominators.Sound.{IsMirrored}
use gvn.Codegen.State.{Codegen}
use gvn.Codegen.Program.{build_program}
use gvn.Codegen.Ended.{build_program-IsGlobal}

-- The blocks of a function with their successors and predecessors.
abbrev pub graph_of : Module → ℕ → Graph
graph_of m f = record {
  blocks = blocks_of (m.at f);
  succ_blocks = λ b. succs_of (m.at b);
  pre_blocks = λ b. pres_of (m.at b);
}

-- In the module that the code generator makes of a program, where it returns, each block that
-- another lists as a successor lists this one as a predecessor, in every function.
pub build_program-IsMirrored :
    (fp_get : ℕ → ℕ) (ds : List Declaration) (s : Codegen)
    → build_program fp_get ds ≡ ok (tt, s)
    → (f : ℕ) → IsMirrored (graph_of s.ir_module f)
build_program-IsMirrored fp_get ds s e f = (build_program-IsGlobal fp_get ds s e).linked.edges
