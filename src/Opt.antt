-- ===== src/Opt.antt =====
-- src/opt/Passes.cpp: the passes on the representation.
pub mod ConstFold
pub mod Cse
pub mod Dce
pub mod JumpThreading
pub mod Propagate
pub mod Peephole
pub mod Magic
pub mod MarkUnsigned
pub mod RegAlloc
pub mod Unreachable
mod Tests
