-- ===== src/Codegen/Tests.antt =====
-- The code of three instructions.
use toy_c_cp.Prelude.{
  ℕ, zero, suc, ◌+◌, ◌*◌, ◌%◌, ◌<◌, ◌≡◌, ◌≢◌, refl, some, List, [], ◌∷◌, arith, All, ◌==◌,
  if◌then◌else◌,
}
use toy_c_cp.Word.{word_mod, add32, slt}
use toy_c_cp.Ir.{imm, reg, Op, Inst, inst}
use toy_c_cp.Ir.Meaning.{Store, update, exec_insts, exec_inst, exec_op, eval_op}
use toy_c_cp.Ir.Meaning.Words.{IsWordInst}
use toy_c_cp.Ir.Meaning.Sample.{no_calls, no_calls-IsWord, sevens, sevens-IsWord, binary_inst}
use toy_c_cp.Rv.{Instr, x_sp, x_t0, x_t1, li, lw, sw, lui_hi, sw_lo}
use toy_c_cp.Rv.Machine.{Machine, Linker, exec_code}
use toy_c_cp.Codegen.Naive.{
  Frame, emit_insts, emit_inst, emit_op, emit_binary, load_val, load_slot, store_slot, load_off,
  store_off, slot_off, alu,
}
use toy_c_cp.Codegen.Naive.Simulation.{IsLayout, IsInRange, Holds}
use toy_c_cp.Codegen.Naive.Refinement.{emit_insts-refines}

-- r1 = r0 + 3; r2 = r1 <= r0; global 0 = r1
abbrev body : List Inst
body =
    binary_inst Op.add 1 (reg 0) (imm 3)
    ∷ binary_inst Op.le 2 (reg 1) (reg 0)
    ∷ record (inst Op.store_global) { gid = some 0; a = reg 1 }
    ∷ []

abbrev frame : Frame
frame = record { out_arg_area = 0; ra_off = 12; frame_size = 16 }

abbrev body_code : List Instr
body_code =
    lw x_t0 0 x_sp
    ∷ li x_t1 3
    ∷ Instr.add x_t0 x_t0 x_t1
    ∷ sw x_t0 4 x_sp
    ∷ lw x_t0 4 x_sp
    ∷ lw x_t1 0 x_sp
    ∷ Instr.slt x_t0 x_t1 x_t0
    ∷ Instr.xori x_t0 x_t0 1
    ∷ sw x_t0 8 x_sp
    ∷ lw x_t0 4 x_sp
    ∷ lui_hi x_t1 0
    ∷ sw_lo x_t0 0 x_t1
    ∷ []

body-emit_insts : emit_insts frame body ≡ some body_code
unfolding emit_insts emit_inst emit_op emit_binary load_val load_slot load_off slot_off alu
    store_slot store_off
body-emit_insts = refl

abbrev after : Store
after = record { regs = update (update sevens.regs 1 10) 2 0; globals = update sevens.globals 0 10 }

body-exec_insts : exec_insts no_calls body sevens ≡ some after
unfolding exec_insts exec_inst exec_op eval_op add32 slt
body-exec_insts = refl

-- Globals from address 4096 on, and a stack pointer of 65536.
abbrev pub linker : Linker
linker = record {
  address = λ g. (4096 + 4 * g) % word_mod;
  hi = λ g. 4096;
  lo = λ g. 4 * g;
  hi_lo = λ g. refl;
}

abbrev machine : Machine
machine = record { x = λ r. if r == x_sp then 65536 else 0; mem = λ a. if a == 65536 then 7 else 0 }

frame-IsLayout : IsLayout linker frame 3 1 65536
unfolding slot_off
frame-IsLayout = record {
  sp_aligned = refl;
  area_aligned = refl;
  globals_aligned = λ g h. omega arith;
  slots_fit = λ v h. omega arith;
  apart = λ v g h k e. omega arith;
  distinct = λ g h p q e. omega arith;
}

machine-slots : (v : ℕ) → v < 3 → machine.mem (65536 + slot_off frame v) ≡ sevens.regs v
unfolding slot_off
machine-slots zero h = refl
machine-slots (suc v) h = ground arith

machine-globals : (g : ℕ) → g < 1 → machine.mem (linker.address g) ≡ sevens.globals g
machine-globals g h = ground arith

machine-Holds : Holds linker frame 3 1 65536 sevens machine
machine-Holds = record { sp_same = refl; slots = machine-slots; globals = machine-globals }

body-InRange : All (λ i. (i.op ≢ Op.call) × IsInRange 3 1 i × IsWordInst i) body
body-InRange = (
  (
    λ e. absurd (cc),
    record { dst_below = omega arith; a_below = omega arith; b_below = tt; gid_below = tt },
    record { a_fits = tt; b_fits = omega arith; args_fit = tt },
  ),
  (
    (
      λ e. absurd (cc),
      record {
        dst_below = omega arith;
        a_below = omega arith;
        b_below = omega arith;
        gid_below = tt;
      },
      record { a_fits = tt; b_fits = tt; args_fit = tt },
    ),
    (
      (
        λ e. absurd (cc),
        record { dst_below = tt; a_below = omega arith; b_below = tt; gid_below = omega arith },
        record { a_fits = tt; b_fits = omega arith; args_fit = tt },
      ),
      tt,
    ),
  ),
)

emit_insts-refines_example :
    (n : Machine) × (exec_code linker body_code machine ≡ some n)
    × Holds linker frame 3 1 65536 after n
emit_insts-refines_example =
    emit_insts-refines no_calls linker frame 3 1 65536 body body_code sevens after machine
      frame-IsLayout no_calls-IsWord body-InRange sevens-IsWord machine-Holds body-emit_insts
      body-exec_insts
