-- ===== src/Codegen/Optimised/Tests/Crowded.antt =====
-- A function with 19 values at a time, of which two lie on the stack.
use toy_c_cp.Prelude.{
  ℕ, ◌<◌, ◌≡◌, refl, sym, ◌∙◌, true, false, some, none, [], ◌∷◌, List, arith, All, if◌then◌else◌,
  ◌==◌, leb,
}
use mathlib.Core.Option.{some-injective}
use toy_c_cp.Word.{add32}
use toy_c_cp.Ir.{imm, reg, Op, Inst, inst, Term, BasicBlock, new_basic_block, IrFunc, Val}
use toy_c_cp.Ir.Meaning.{Store, update, exec_insts, exec_inst, exec_op, eval_op}
use toy_c_cp.Ir.Meaning.Words.{IsWordStore}
use toy_c_cp.Ir.Meaning.Refine.{bind-eq-some}
use toy_c_cp.Ir.Meaning.Sample.{binary_inst, no_calls, no_calls-IsWord}
use toy_c_cp.Rv.{Instr, addi, sw, lw, x_sp, x_zero, scratch0}
use toy_c_cp.Rv.Machine.{Machine, exec_code}
use toy_c_cp.Opt.Dce.{inst_uses, term_uses}
use toy_c_cp.Opt.RegAlloc.Graph.{members_from}
use toy_c_cp.Opt.RegAlloc.Colour.{allocate_registers}
use toy_c_cp.Codegen.Tests.{linker}
use toy_c_cp.Codegen.Optimised.Func.{context_of}
use toy_c_cp.Codegen.Optimised.Access.{Context, spill_off, load_off, store_off}
use toy_c_cp.Codegen.Optimised.Inst.{emit_insts}
use toy_c_cp.Codegen.Optimised.Holds.{Holds, IsLayout}
use toy_c_cp.Codegen.Optimised.Allocated.{compiled, compiled-IsLayout, IsFrame, Alive, at_end}
use toy_c_cp.Codegen.Optimised.Correct.{IsPlain, emit_insts-compiled}
use toy_c_cp.Codegen.Optimised.Tests.{same_order, same_order-Permutes}

abbrev defined : List Inst
defined =
    binary_inst Op.add 1 (reg 0) (imm 1)
    ∷ binary_inst Op.add 2 (reg 0) (imm 2)
    ∷ binary_inst Op.add 3 (reg 0) (imm 3)
    ∷ binary_inst Op.add 4 (reg 0) (imm 4)
    ∷ binary_inst Op.add 5 (reg 0) (imm 5)
    ∷ binary_inst Op.add 6 (reg 0) (imm 6)
    ∷ binary_inst Op.add 7 (reg 0) (imm 7)
    ∷ binary_inst Op.add 8 (reg 0) (imm 8)
    ∷ binary_inst Op.add 9 (reg 0) (imm 9)
    ∷ binary_inst Op.add 10 (reg 0) (imm 10)
    ∷ binary_inst Op.add 11 (reg 0) (imm 11)
    ∷ binary_inst Op.add 12 (reg 0) (imm 12)
    ∷ binary_inst Op.add 13 (reg 0) (imm 13)
    ∷ binary_inst Op.add 14 (reg 0) (imm 14)
    ∷ binary_inst Op.add 15 (reg 0) (imm 15)
    ∷ binary_inst Op.add 16 (reg 0) (imm 16)
    ∷ []

abbrev body : List Inst
body = binary_inst Op.add 17 (reg 0) (imm 3) ∷ binary_inst Op.add 18 (reg 17) (imm 1) ∷ []

abbrev arguments : List Val
arguments =
    reg 0
    ∷ reg 1
    ∷ reg 2
    ∷ reg 3
    ∷ reg 4
    ∷ reg 5
    ∷ reg 6
    ∷ reg 7
    ∷ reg 8
    ∷ reg 9
    ∷ reg 10
    ∷ reg 11
    ∷ reg 12
    ∷ reg 13
    ∷ reg 14
    ∷ reg 15
    ∷ reg 16
    ∷ reg 17
    ∷ reg 18
    ∷ []

abbrev block : BasicBlock
block = record (new_basic_block 1) { insts = body; term = Term.jmp; succ0 = some 2 }

-- All 19 registers are arguments of a call.
abbrev fn : IrFunc
fn = record {
  name = "f";
  returns_void = false;
  num_params = 1;
  param_regs = 0 ∷ [];
  blocks =
      record (new_basic_block 0) { insts = defined; term = Term.jmp; succ0 = some 1 }
      ∷ block
      ∷ record (new_basic_block 2) {
        insts = record (inst Op.call) { dst = some 0; args = arguments } ∷ [];
        term = Term.ret;
      }
      ∷ [];
  num_vregs = 19;
}

abbrev ctx : Context
ctx = compiled same_order true fn

-- The two sums are kept in the slots at 44 and 48, behind the eleven words for arguments.
abbrev body_code : List Instr
body_code =
    addi scratch0 5 3
    ∷ sw scratch0 44 x_sp
    ∷ lw scratch0 44 x_sp
    ∷ addi scratch0 scratch0 1
    ∷ sw scratch0 48 x_sp
    ∷ []

body-emit_insts : emit_insts ctx body ≡ some body_code
unfolding emit_insts context_of allocate_registers members_from term_uses inst_uses load_off
    store_off
body-emit_insts = refl

slots :
    (v : ℕ)
    → ctx.alloc.spill_slot v ≡ (if v == 18 then some 1 else if v == 17 then some 0 else none)
unfolding context_of allocate_registers members_from term_uses inst_uses
slots v = refl

base : ctx.spill_base ≡ 44
unfolding context_of
base = refl

slot_below : (v off : ℕ) → spill_off ctx v ≡ some off → off < 52
slot_below v off e =
    let (k, ek, e1) = bind-eq-some (ctx.alloc.spill_slot v) _ e in
    let low : k < 2 = ground (arith, sym (slots v) ∙ ek) in
    omega (arith, low, base, some-injective _ _ e1)

-- Every register of the machine but 0 and sp, and every word of the stack, is 7.
abbrev machine : Machine
machine = record {
  x = λ r. if r == x_zero then 0 else if r == x_sp then 65536 else 7;
  mem = λ a. if leb 65536 a then 7 else 0;
}

abbrev before : Store
before = record { regs = λ v. 7; globals = λ g. 0 }

before-IsWord : IsWordStore before
before-IsWord = record { regs_fit = λ r. omega arith; globals_fit = λ g. omega arith }

abbrev after : Store
after = record { regs = update (update before.regs 17 10) 18 11; globals = before.globals }

body-exec_insts : exec_insts no_calls body before ≡ some after
unfolding exec_insts exec_inst exec_op eval_op add32
body-exec_insts = refl

crowded-IsFrame : IsFrame linker ctx 1 65536
crowded-IsFrame = record {
  sp_aligned = refl;
  globals_aligned = λ g h. omega arith;
  slots_fit = λ v off e. omega (arith, slot_below v off e);
  apart = λ v off g e b same. omega (arith, slot_below v off e);
  distinct = λ g h p q e. omega arith;
}

abbrev LiveIn : List Inst → ℕ → Type 0
LiveIn is = Alive fn (at_end same_order true fn same_order-Permutes 1 block refl) is

machine-Holds : Holds linker ctx 1 65536 (LiveIn body) before machine
machine-Holds = record {
  sp_same = refl;
  zero_same = refl;
  in_reg = λ v p l e. let ok = lay.pooled v p e in ground (arith, ok.no_zero, ok.no_sp);
  in_slot = λ v off l e f. ground arith;
  globals = λ g b. ground arith;
}
  where
    lay : IsLayout linker ctx 1 65536
    lay = compiled-IsLayout same_order true fn same_order-Permutes linker 1 65536 crowded-IsFrame

body-IsPlain : All (IsPlain ctx 19 1) body
unfolding context_of
body-IsPlain = (
  record {
    not_call = λ e. absurd (cc);
    in_range = record {
      dst_below = omega arith;
      a_below = omega arith;
      b_below = tt;
      gid_below = tt;
    };
    fits = record { a_fits = tt; b_fits = omega arith; args_fit = tt };
    no_magic = tt;
    store_dst = λ e. absurd (cc);
  },
  (
    record {
      not_call = λ e. absurd (cc);
      in_range = record {
        dst_below = omega arith;
        a_below = omega arith;
        b_below = tt;
        gid_below = tt;
      };
      fits = record { a_fits = tt; b_fits = omega arith; args_fit = tt };
      no_magic = tt;
      store_dst = λ e. absurd (cc);
    },
    tt,
  ),
)

emit_insts-compiled_example :
    (n : Machine) × (exec_code linker body_code machine ≡ some n)
    × Holds linker ctx 1 65536 (LiveIn []) after n
emit_insts-compiled_example =
    emit_insts-compiled linker 1 65536 no_calls same_order true fn same_order-Permutes 1 block refl
      crowded-IsFrame no_calls-IsWord [] body before after machine body_code refl body-IsPlain
      before-IsWord machine-Holds body-emit_insts body-exec_insts
