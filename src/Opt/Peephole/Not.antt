-- ===== src/Opt/Peephole/Not.antt =====
-- `!!x` under the peephole pass.
use toy_c_cp.Prelude.{ℕ, suc, ◌≡◌, ◌≢◌, refl, true, false, some, [], ◌∷◌, arith}
use toy_c_cp.Ir.{reg, Op, Term, IrFunc, inst, new_basic_block}
use toy_c_cp.Ir.Meaning.{Store, Callee, run, exec_block, exec_insts, exec_inst, exec_op, finish}
use toy_c_cp.Opt.Peephole.{peephole}

-- `int f(int x) { return !!x; }` as the generator translates it; register 0 is `x`.
abbrev pub double_not : IrFunc
double_not = record {
  name = "f";
  returns_void = false;
  num_params = 1;
  param_regs = 0 ∷ [];
  blocks =
      record (new_basic_block 0) {
        insts =
            record (inst Op.not) { dst = some 1; a = reg 0 }
            ∷ record (inst Op.not) { dst = some 2; a = reg 1 }
            ∷ [];
        term = Term.ret;
        ret_has_val = true;
        ret_val = reg 2;
      }
      ∷ [];
  num_vregs = 3;
}

-- `return !!x` returns 1 for every `x` other than 0; after peephole it returns `x` itself.
pub peephole-double_not :
    (callee : Callee) (fuel : ℕ) (s : Store)
    → s.regs 0 ≢ 0
    → (run callee (suc fuel) double_not.blocks 0 s ≡ some (some 1, s.globals))
      × (run callee (suc fuel) (peephole double_not).1.blocks 0 s
          ≡ some (some (s.regs 0), s.globals))
unfolding peephole run exec_block exec_insts exec_inst exec_op finish
peephole-double_not callee fuel s h = (ground arith, refl)
