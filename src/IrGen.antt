-- ===== src/IrGen.antt =====
-- src/ir/IRGen.h and IRGen.cpp: from the annotated tree to the representation.
pub mod State
pub mod Expr
pub mod Stmt
pub mod Program
