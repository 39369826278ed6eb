-- ===== src/Gvn.antt =====
-- Global value numbering (src/optimization/GVN.cpp, include/optimization/GVN.h).
pub mod Fold
pub mod Expr
pub mod Class
pub mod Join
pub mod ValueExpr
pub mod ValuePhi
pub mod Transfer
pub mod Copy
pub mod Detect
pub mod Replace
pub mod Driver
