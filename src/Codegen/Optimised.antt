-- ===== src/Codegen/Optimised.antt =====
-- src/codegen/OptCodeGen.cpp: the back end on allocated registers.
pub mod Access
pub mod Computed
pub mod Frame
pub mod Holds
pub mod Write
pub mod Constant
pub mod Inst
pub mod Alu
pub mod Operate
pub mod Binary
pub mod Step
pub mod Refinement
pub mod Allocated
pub mod Correct
pub mod Compare
pub mod Branch
pub mod Block
pub mod Func
mod Tests
