-- ===== src/Codegen.antt =====
-- The code generator: the syntax tree to the LightIR (src/cminusfc/cminusf_builder.cpp).
pub mod Scope
pub mod State
pub mod Create
pub mod Builder
pub mod Convert
pub mod Visit
pub mod Statement
pub mod Program
pub mod Blocks
pub mod Triple
pub mod Calm
pub mod Jumps
pub mod Ended
pub mod Mirrored
pub mod Promote
