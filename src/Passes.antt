-- ===== src/Passes.antt =====
-- The passes over a module (include/optimization, src/optimization).
pub mod Worklist
pub mod FuncInfo
pub mod DeadCode
