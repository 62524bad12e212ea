-- ===== src/Opt/Tests.antt =====
-- The passes on small functions.
use toy_c_cp.Prelude.{
  All, ℕ, ◌+◌, ◌*◌, ◌%◌, ◌/◌, ◌<◌, ◌≡◌, refl, ◌↔◌, true, false, none, some, List, [], ◌∷◌, arith,
}
use toy_c_cp.Word.{word_mod, half_mod, biased, add32, sub32, mul32}
use toy_c_cp.Ir.{Val, imm, reg, Op, Inst, Term, IrFunc, mv_inst, new_basic_block}
use toy_c_cp.Ir.Meaning.{run, exec_block, exec_insts, exec_inst, exec_op, eval_op, finish}
use toy_c_cp.Ir.Meaning.Sample.{no_calls, no_calls-IsWord, sevens, sevens-IsWord, binary_inst}
use toy_c_cp.Opt.ConstFold.{const_fold, fold_inst, fold_insts, fold_blocks, Folded, fold_values}
use toy_c_cp.Opt.ConstFold.Sound.{IsWordBlock, run-const_fold}
use toy_c_cp.Ast.{BinOp}
use toy_c_cp.Sema.Eval.{eval_bin}
use toy_c_cp.IrGen.Expr.{map_bin}
use toy_c_cp.Opt.ConstFold.Agreement.{Agrees, fold_values-eval_bin}
use toy_c_cp.Opt.Dce.{
  dead_code_elim, changed, sweep_loop, num_insts, blocks_dead, any_dead, is_dead, use_count,
  blocks_uses, insts_uses, inst_uses, term_uses, sweep_blocks, sweep_insts,
}
use toy_c_cp.Opt.Dce.Sound.{run-dead_code_elim}
use toy_c_cp.Opt.Dce.Fixpoint.{dead_code_elim-fixpoint}
use toy_c_cp.Opt.JumpThreading.{jump_threading}
use toy_c_cp.Opt.JumpThreading.Sound.{run-jump_threading}
use toy_c_cp.Opt.Unreachable.{unreachable_elim, reached, succs_of_found}
use toy_c_cp.Opt.Unreachable.Sound.{run-unreachable_elim}
use toy_c_cp.Opt.Propagate.{const_prop}
use toy_c_cp.Opt.Propagate.Loop.{counting, const_prop-counting}
use toy_c_cp.Opt.Peephole.{peephole}
use toy_c_cp.Opt.Peephole.Not.{double_not, peephole-double_not}
use toy_c_cp.Opt.Magic.{unsigned_magic}
use toy_c_cp.Opt.Magic.Unsigned.{
  multiplier_for, magic_quotient, excess, unsigned_magic-shift, magic_quotient-exact_iff,
}

-- A function of one block that returns a register.
abbrev returning : List Inst → Val → IrFunc
returning is v = record {
  name = "f";
  returns_void = false;
  num_params = 1;
  param_regs = 0 ∷ [];
  blocks =
      record (new_basic_block 0) { insts = is; term = Term.ret; ret_has_val = true; ret_val = v }
      ∷ [];
  num_vregs = 4;
}

-- 2 + 3, times the parameter, which is then multiplied by 1.
abbrev sample : IrFunc
sample =
    returning
      (binary_inst Op.add 1 (imm 2) (imm 3)
        ∷ binary_inst Op.mul 2 (reg 0) (reg 1)
        ∷ binary_inst Op.mul 3 (reg 2) (imm 1)
        ∷ [])
      (reg 3)

sample-IsWord : All IsWordBlock sample.blocks
sample-IsWord = (
  (
    record { a_fits = omega arith; b_fits = omega arith; args_fit = tt },
    (
      record { a_fits = tt; b_fits = tt; args_fit = tt },
      (record { a_fits = tt; b_fits = omega arith; args_fit = tt }, tt),
    ),
  ),
  tt,
)

abbrev sample_folded : IrFunc
sample_folded =
    returning (mv_inst 1 (imm 5) ∷ binary_inst Op.mul 2 (reg 0) (reg 1) ∷ mv_inst 3 (reg 2) ∷ [])
      (reg 3)

sample-const_fold : const_fold sample ≡ some (true, sample_folded)
unfolding const_fold fold_blocks fold_insts fold_inst biased add32
sample-const_fold = refl

sample-run : run no_calls 1 sample.blocks 0 sevens ≡ some (some 35, sevens.globals)
unfolding run exec_block exec_insts exec_inst exec_op eval_op finish add32 sub32 mul32
sample-run = refl

run-const_fold_example :
    run no_calls 1 sample_folded.blocks 0 sevens ≡ some (some 35, sevens.globals)
run-const_fold_example =
    run-const_fold no_calls sample sample_folded 1 sevens no_calls-IsWord sample-IsWord
      sevens-IsWord sample-const_fold sample-run

-- Dividing the least number by -1 while folding is undefined behaviour of the compiler.
fold-int_min : fold_values Op.div half_mod 4294967295 ≡ Folded.undefined
unfolding fold_values
fold-int_min = refl

fold_values-eval_bin_example :
    Agrees half_mod
      (fold_values (map_bin BinOp.div) half_mod 4294967295)
      (eval_bin BinOp.div half_mod 4294967295)
fold_values-eval_bin_example = fold_values-eval_bin BinOp.div half_mod 4294967295

-- A dead sum and a product that is dead after it.
abbrev with_dead : IrFunc
with_dead =
    returning
      (binary_inst Op.add 1 (reg 0) (imm 3)
        ∷ binary_inst Op.mul 2 (reg 1) (reg 1)
        ∷ binary_inst Op.sub 3 (reg 0) (imm 1)
        ∷ [])
      (reg 3)

with_dead-dead_code_elim :
    dead_code_elim with_dead ≡ returning (binary_inst Op.sub 3 (reg 0) (imm 1) ∷ []) (reg 3)
unfolding dead_code_elim sweep_loop num_insts blocks_dead any_dead is_dead use_count blocks_uses
    insts_uses inst_uses term_uses sweep_blocks sweep_insts
with_dead-dead_code_elim = refl

with_dead-run : run no_calls 1 with_dead.blocks 0 sevens ≡ some (some 6, sevens.globals)
unfolding run exec_block exec_insts exec_inst exec_op eval_op finish add32 sub32 mul32
with_dead-run = refl

run-dead_code_elim_example :
    run no_calls 1 (dead_code_elim with_dead).blocks 0 sevens ≡ some (some 6, sevens.globals)
run-dead_code_elim_example = run-dead_code_elim no_calls with_dead 1 sevens with_dead-run

dead_code_elim-fixpoint_example : changed (dead_code_elim with_dead).blocks ≡ false
dead_code_elim-fixpoint_example = dead_code_elim-fixpoint with_dead

-- A branch on the constant 0 to two blocks that return.
abbrev branching : IrFunc
branching = record (returning [] (reg 0)) {
  blocks =
      record (new_basic_block 0) { term = Term.br; cond = imm 0; succ0 = some 1; succ1 = some 2 }
      ∷ record (new_basic_block 1) { term = Term.ret; ret_has_val = true; ret_val = imm 1 }
      ∷ record (new_basic_block 2) { term = Term.ret; ret_has_val = true; ret_val = reg 0 }
      ∷ [];
}

run-jump_threading_example :
    run no_calls 2 (jump_threading branching).1.blocks 0 sevens
    ≡ run no_calls 2 branching.blocks 0 sevens
run-jump_threading_example = run-jump_threading no_calls branching 2 0 sevens

-- Nothing jumps to block 1.
abbrev with_unreachable : IrFunc
with_unreachable = record (returning [] (reg 0)) {
  blocks =
      record (new_basic_block 0) { term = Term.jmp; succ0 = some 2 }
      ∷ record (new_basic_block 1) {
        insts = binary_inst Op.add 1 (reg 0) (imm 3) ∷ [];
        term = Term.jmp;
        succ0 = some 2;
      }
      ∷ record (new_basic_block 2) {
        insts = binary_inst Op.add 2 (reg 0) (imm 4) ∷ [];
        term = Term.ret;
        ret_has_val = true;
        ret_val = reg 2;
      }
      ∷ [];
}

with_unreachable-reached :
    (reached with_unreachable.blocks 1 ≡ false) × (reached with_unreachable.blocks 2 ≡ true)
unfolding reached succs_of_found
with_unreachable-reached = (refl, refl)

run-unreachable_elim_example :
    run no_calls 2 (unreachable_elim with_unreachable).blocks 0 sevens
    ≡ run no_calls 2 with_unreachable.blocks 0 sevens
run-unreachable_elim_example = run-unreachable_elim no_calls with_unreachable 2 sevens

const_prop-counting_example :
    ((fuel : ℕ) × (run no_calls fuel (counting 3).blocks 0 sevens ≡ some (some 3, sevens.globals)))
    × ((fuel : ℕ) → run no_calls fuel (const_prop (counting 3)).1.blocks 0 sevens ≡ none)
const_prop-counting_example = const_prop-counting no_calls 3 sevens (omega arith) (omega arith)

peephole-double_not_example :
    (run no_calls 1 double_not.blocks 0 sevens ≡ some (some 1, sevens.globals))
    × (run no_calls 1 (peephole double_not).1.blocks 0 sevens ≡ some (some 7, sevens.globals))
peephole-double_not_example = peephole-double_not no_calls 0 sevens (omega arith)

unsigned_magic-shift_example :
    unsigned_magic 7 ≡ record { multiplier = multiplier_for 7; shift = 0 }
unsigned_magic-shift_example = unsigned_magic-shift 7 (omega arith) (omega arith)

-- 2147483645 / 7 is 306783377, and the magic number gives one more.
magic_quotient-exact_iff_example :
    (magic_quotient 2147483645 7 ≡ 2147483645 / 7)
    ↔ (2147483645 % 7 * word_mod + 2147483645 * excess 7 < 7 * word_mod)
magic_quotient-exact_iff_example = magic_quotient-exact_iff 2147483645 7 (omega arith) (omega arith)
