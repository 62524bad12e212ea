-- ===== src/Parser.antt =====
-- src/parser/Parser.h and Parser.cpp: recursive descent over the tokens.
pub mod State
pub mod Expr
pub mod Stmt
pub mod Program
pub mod Total
pub mod Printer
mod Tests
