-- ===== src/Sema.antt =====
-- src/sema/Sema.cpp: name resolution, constant folding and the checks on a module.
pub mod Eval
pub mod Scope
pub mod Expr
pub mod Stmt
pub mod Program
mod Tests
