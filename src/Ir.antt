-- ===== src/Ir.antt =====
-- The LightIR: the program that the passes read and change (include/lightir, src/lightir).
pub mod Types
pub mod Opcodes
pub mod Constants
pub mod Module
pub mod Uses
pub mod Naming
