-- ===== src/Rv.antt =====
-- The part of RV32IM that src/codegen emits, and the register numbers of
-- src/codegen/Regs.h. An assembly line is data: a constructor for each mnemonic and directive.
pub mod Machine
pub mod Exit
pub mod Pools
use toy_c_cp.Prelude.{ℕ, String}

abbrev pub x_zero : ℕ
x_zero = 0

abbrev pub x_ra : ℕ
x_ra = 1

abbrev pub x_sp : ℕ
x_sp = 2

abbrev pub x_t0 : ℕ
x_t0 = 5

abbrev pub x_t1 : ℕ
x_t1 = 6

abbrev pub x_a0 : ℕ
x_a0 = 10

abbrev pub x_a6 : ℕ
x_a6 = 16

abbrev pub x_a7 : ℕ
x_a7 = 17

abbrev pub x_t6 : ℕ
x_t6 = 31

-- The registers for values in between, which are never allocated.
abbrev pub scratch0 : ℕ
scratch0 = 30

abbrev pub scratch1 : ℕ
scratch1 = 31

-- Registers by number, offsets and immediates as 32-bit patterns. `lui_hi`, `lw_lo` and `sw_lo` take
-- %hi and %lo of the global with a number; a block's label is the function's name and the block.
pub data Instr : Type 0 where
  li : ℕ → ℕ → Instr
  lw sw : ℕ → ℕ → ℕ → Instr
  add sub mul div rem slt : ℕ → ℕ → ℕ → Instr
  addi xori : ℕ → ℕ → ℕ → Instr
  neg seqz snez mv : ℕ → ℕ → Instr
  slti slli srli srai : ℕ → ℕ → ℕ → Instr
  mulh mulhu : ℕ → ℕ → ℕ → Instr
  lui_hi : ℕ → ℕ → Instr
  lw_lo sw_lo : ℕ → ℕ → ℕ → Instr
  j : String → ℕ → Instr
  bnez beqz : ℕ → String → ℕ → Instr
  blt bge beq bne : ℕ → ℕ → String → ℕ → Instr
  call : String → Instr
  ret : Instr

pub data Line : Type 0 where
  instr : Instr → Line
  block_label : String → ℕ → Line
  label globl : String → Line
  section_data section_text blank : Line
  p2align word : ℕ → Line
