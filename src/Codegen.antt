-- ===== src/Codegen.antt =====
-- src/codegen: from the representation to assembly.
pub mod Naive
pub mod Optimised
mod Tests
