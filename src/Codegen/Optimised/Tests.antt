-- ===== src/Codegen/Optimised/Tests.antt =====
-- The code of small functions.
mod Crowded
use toy_c_cp.Prelude.{
  ℕ, ◌≤◌, ◌<◌, ◌%◌, zero, suc, ◌≡◌, ◌≢◌, refl, sym, ◌∙◌, ap, Bool, true, false, Option, some, none,
  List, [], ◌∷◌, arith, All, ◌==◌, if◌then◌else◌,
}
use toy_c_cp.Ir.{imm, reg, Op, Inst, Term, BasicBlock, new_basic_block, IrFunc}
use toy_c_cp.Ir.Meaning.Sample.{binary_inst, no_calls, no_calls-IsWord, sevens, sevens-IsWord}
use mathlib.Core.Option.{some-injective}
use toy_c_cp.Codegen.Optimised.Computed.{Computes}
use toy_c_cp.Codegen.Optimised.Constant.{log2exact, emit_mul_const, emit_div_const, emit_mod_const}
use toy_c_cp.Codegen.Optimised.Constant.Multiply.{emit_mul_const-Computes}
use toy_c_cp.Codegen.Optimised.Constant.Unsigned.{emit_div_const-unsigned}
use toy_c_cp.Codegen.Optimised.Constant.Powers.{Emits, emit_div_const-Emits, emit_mod_const-Emits}
use toy_c_cp.Codegen.Optimised.Branch.{GoesTo, emit_cond-fused}
use toy_c_cp.Codegen.Optimised.Block.{emit_cond, into_branch}
use toy_c_cp.Codegen.Optimised.Func.{emit_prologue}
use toy_c_cp.Codegen.Optimised.Func.Params.{Leads, emit_prologue-a7}
use toy_c_cp.Codegen.Naive.{align16, max_stack_args}
use toy_c_cp.Rv.{li, blt, Instr, slli, srai, srli, scratch1, x_sp}
use toy_c_cp.Rv.Machine.{Machine, exec_code}
use toy_c_cp.Opt.RegAlloc.Colour.{Allocation, allocate_registers, no_allocation}
use toy_c_cp.Opt.RegAlloc.Graph.{members_from, live_through}
use toy_c_cp.Opt.RegAlloc.Liveness.{liveness}
use toy_c_cp.Opt.Dce.{inst_uses, term_uses}
use toy_c_cp.Codegen.Optimised.Access.{Context, spill_off}
use toy_c_cp.Codegen.Optimised.Inst.{emit_insts}
use toy_c_cp.Codegen.Optimised.Allocated.{compiled, compiled-IsLayout, IsFrame, Alive}
use toy_c_cp.Codegen.Optimised.Allocated.{at_end}
use toy_c_cp.Codegen.Optimised.Func.{context_of}
use toy_c_cp.Codegen.Optimised.Holds.{Holds, IsLayout}
use toy_c_cp.Codegen.Optimised.Correct.{IsPlain, emit_insts-compiled}
use toy_c_cp.Opt.RegAlloc.Valid.{Permutes}
use toy_c_cp.Codegen.Tests.{linker}
use toy_c_cp.Word.{IsWord, sub32, magnitude, slt, mul32, sdiv, srem}
use toy_c_cp.Ir.Meaning.{Store, update, exec_insts, exec_inst, exec_op, eval_op}

-- int f(int x) { return (x * 9) / 4; }
abbrev body : List Inst
body = binary_inst Op.mul 1 (reg 0) (imm 9) ∷ binary_inst Op.div 2 (reg 1) (imm 4) ∷ []

abbrev block : BasicBlock
block = record (new_basic_block 0) {
  insts = body;
  term = Term.ret;
  ret_has_val = true;
  ret_val = reg 2;
}

abbrev fn : IrFunc
fn = record {
  name = "f";
  returns_void = false;
  num_params = 1;
  param_regs = 0 ∷ [];
  blocks = block ∷ [];
  num_vregs = 3;
}

-- A sort that leaves the order as it is.
abbrev pub same_order : (ℕ → ℕ → Bool) → List ℕ → List ℕ
same_order before xs = xs

abbrev ctx : Context
ctx = compiled same_order true fn

-- Register t0 has the parameter.
abbrev machine : Machine
machine = record { x = λ r. if r == 5 then 7 else if r == x_sp then 65536 else 0; mem = λ a. 0 }

no_slots : (v : ℕ) → spill_off ctx v ≡ none
unfolding context_of allocate_registers members_from term_uses inst_uses
no_slots v = refl

param_in_t0 : ctx.alloc.reg 0 ≡ some 5
unfolding context_of allocate_registers members_from term_uses inst_uses
param_in_t0 = refl

compiled-IsFrame : IsFrame linker ctx 1 65536
compiled-IsFrame = record {
  sp_aligned = refl;
  globals_aligned = λ g h. omega arith;
  slots_fit = λ v off e. absurd (none-some off (sym (no_slots v) ∙ e));
  apart = λ v off g e b. absurd (none-some off (sym (no_slots v) ∙ e));
  distinct = λ g h p q e. omega arith;
}
  where
    none-some : (off : ℕ) → none ≢ some off
    none-some off e = cc

pub same_order-Permutes : Permutes same_order
same_order-Permutes before xs x = refl

abbrev LiveIn : List Inst → ℕ → Type 0
LiveIn is = Alive fn (at_end same_order true fn same_order-Permutes 0 block refl) is

only_param : (v : ℕ) → LiveIn body v → v ≡ 0
unfolding live_through liveness term_uses inst_uses
only_param zero h = refl
only_param (suc zero) h = absurd (cc (h.0))
only_param (suc (suc zero)) h = absurd (cc (h.0))
only_param (suc (suc (suc v))) h = absurd (omega (arith, h.1))

machine-Holds : Holds linker ctx 1 65536 (LiveIn body) sevens machine
machine-Holds = record {
  sp_same = refl;
  zero_same = refl;
  in_reg = λ v p l e.
      let z = only_param v l in
      let five : 5 ≡ p = some-injective _ _ (sym param_in_t0 ∙ ap ctx.alloc.reg (sym z) ∙ e) in
      ap machine.x (sym five) ∙ ap sevens.regs (sym z);
  in_slot = λ v off l e f.
      let z = only_param v l in absurd (none-some (sym e ∙ ap ctx.alloc.reg z ∙ param_in_t0));
  globals = λ g b. refl;
}
  where
    none-some : ◌≢◌ {A = Option ℕ} none (some 5)
    none-some e = cc

-- A product by - 7, which is 1 - 2 ^ 3.
emit_mul_const-Computes_example :
    Computes linker (emit_mul_const 5 5 4294967289) 5 4294967247 machine
unfolding mul32
emit_mul_const-Computes_example =
    emit_mul_const-Computes linker 5 (omega arith) 5 4294967289 (omega arith) machine (omega arith)
      (omega arith)

emit_div_const-Emits_example :
    Emits linker machine 6 4294967295 (emit_div_const ctx none false 6 5 4294967292)
unfolding sdiv
emit_div_const-Emits_example =
    emit_div_const-Emits linker ctx none false 6 5 4294967292 (omega arith) (omega arith) machine
      (omega arith) (omega arith) 2 (omega arith) refl

emit_div_const-unsigned_example : Emits linker machine 6 1 (emit_div_const ctx none true 6 5 7)
unfolding sdiv log2exact
emit_div_const-unsigned_example =
    emit_div_const-unsigned linker ctx 6 5 7 (omega arith) (omega arith) machine (omega arith)
      (omega arith) refl (omega arith) (omega arith)

emit_mod_const-Emits_example : Emits linker machine 6 3 (emit_mod_const ctx none false 6 5 4)
unfolding srem
emit_mod_const-Emits_example =
    emit_mod_const-Emits linker ctx none false 6 5 4 (omega arith) (omega arith) machine
      (omega arith) (omega arith) 2 (omega arith) refl

-- if (x < 9) goto 2; goto 1; with block 1 behind.
abbrev less : Inst
less = binary_inst Op.lt 1 (reg 0) (imm 9)

abbrev less_code : List Instr
less_code = li scratch1 9 ∷ blt 5 scratch1 "f" 2 ∷ []

abbrev layout : IsLayout linker ctx 1 65536
layout = compiled-IsLayout same_order true fn same_order-Permutes linker 1 65536 compiled-IsFrame

-- A frame with 600 slots, in a function that calls another.
abbrev large : Allocation
large = record (no_allocation false) { num_spills = 600 }

param_live : LiveIn body 0
unfolding live_through liveness term_uses inst_uses
param_live = (refl, omega arith)

less-eval_op : eval_op Op.lt 7 9 ≡ some 1
unfolding eval_op slt
less-eval_op = refl

less-emit_cond : emit_cond ctx "f" (some 1) (reg 1) 2 1 (into_branch less) ≡ some less_code
unfolding emit_cond context_of allocate_registers members_from term_uses inst_uses
less-emit_cond = refl

opt_on : ctx.opt ≡ true
unfolding context_of
opt_on = refl

emit_cond-fused_example :
    GoesTo linker ctx 1 65536 layout (LiveIn body) sevens machine machine-Holds (some 1) 2 less_code
emit_cond-fused_example =
    emit_cond-fused linker ctx 1 65536 layout (LiveIn body) sevens machine machine-Holds "f"
      (some 1) (reg 1) 2 1 less 1 less_code refl param_live tt less-eval_op less-emit_cond

emit_prologue-a7_example :
    (off : ℕ) × (2048 ≤ off)
    × (off < 2416)
    × ((m : Machine)
        → IsWord (m.x x_sp)
        → m.x x_sp % 4 ≡ 0
        → Leads linker (emit_prologue (context_of false large fn)) (sub32 (m.x x_sp) 2416) off m)
unfolding context_of max_stack_args align16
emit_prologue-a7_example = emit_prologue-a7 linker false large fn refl (omega arith) (omega arith)
