-- ===== src/Opt/Cse/Tests.antt =====
-- cse on small functions.
use toy_c_cp.Prelude.{◌≡◌, refl, true, false, some, [], ◌∷◌}
use toy_c_cp.Ir.{reg, Op, Term, IrFunc, new_basic_block}
use toy_c_cp.Ir.Meaning.{run}
use toy_c_cp.Ir.Meaning.Sample.{no_calls, sevens, binary_inst}
use toy_c_cp.Opt.Cse.{cse, cse_insts, nothing_known, copy_to}
use toy_c_cp.Opt.Cse.Sound.{blocks_temps, run-cse}

-- return (a + b) * (a + b)
abbrev square_of_sum : IrFunc
square_of_sum = record {
  name = "f";
  returns_void = false;
  num_params = 2;
  param_regs = 0 ∷ 1 ∷ [];
  blocks =
      record (new_basic_block 0) {
        insts =
            binary_inst Op.add 2 (reg 0) (reg 1)
            ∷ binary_inst Op.add 3 (reg 0) (reg 1)
            ∷ binary_inst Op.mul 4 (reg 2) (reg 3)
            ∷ [];
        term = Term.ret;
        ret_has_val = true;
        ret_val = reg 4;
      }
      ∷ [];
  num_vregs = 5;
}

second_sum_copied :
    cse_insts nothing_known
      (binary_inst Op.add 2 (reg 0) (reg 1) ∷ binary_inst Op.add 3 (reg 0) (reg 1) ∷ [])
    ≡ (true, binary_inst Op.add 2 (reg 0) (reg 1) ∷ copy_to (some 3) 2 ∷ [])
unfolding cse_insts
second_sum_copied = refl

-- The operands the other way round make another key.
swapped_kept :
    cse_insts nothing_known
      (binary_inst Op.add 2 (reg 0) (reg 1) ∷ binary_inst Op.add 3 (reg 1) (reg 0) ∷ [])
    ≡ (false, binary_inst Op.add 2 (reg 0) (reg 1) ∷ binary_inst Op.add 3 (reg 1) (reg 0) ∷ [])
unfolding cse_insts
swapped_kept = refl

temps_square : blocks_temps square_of_sum.blocks ≡ true
unfolding blocks_temps
temps_square = refl

run-cse_example :
    run no_calls 1 (cse square_of_sum).1.blocks 0 sevens
    ≡ run no_calls 1 square_of_sum.blocks 0 sevens
run-cse_example = run-cse no_calls square_of_sum 1 0 sevens temps_square
