-- ===== src/Tests.antt =====
-- Runs of the model on small programs, and the theorems at concrete inputs.
mod Sample
pub mod FuncInfo
pub mod DeadCode
pub mod Gvn
pub mod Detect
pub mod Replace
pub mod Ast
pub mod Dominators
pub mod Naming
pub mod Codegen
