-- ===== src/Opt/MarkUnsigned/Negative.antt =====
-- markUnsignedDiv on `int x = 0; x = x - k; return x / 7;` as the generator translates it.
use toy_c_cp.Prelude.{
  ℕ, ◌<◌, ◌≤◌, ◌≡◌, refl, Bool, true, false, Option, some, List, [], ◌∷◌, ◌++◌, arith, ◌==◌,
}
use toy_c_cp.Word.{half_mod, is_neg, sub32}
use toy_c_cp.Ir.{imm, reg, Op, Inst, Term, IrFunc, inst, mv_inst, new_basic_block}
use toy_c_cp.Ir.Meaning.{Store, Callee, bind, exec_insts, exec_inst, exec_op, eval_op}
use toy_c_cp.Opt.MarkUnsigned.{mark_unsigned_div}

-- Register 0 is `x`.
abbrev pub before_division : ℕ → List Inst
before_division k =
    mv_inst 0 (imm 0)
    ∷ record (inst Op.sub) { dst = some 1; a = reg 0; b = imm k }
    ∷ mv_inst 0 (reg 1)
    ∷ []

abbrev pub division : Bool → Inst
division unsigned = record (inst Op.div) {
  dst = some 2;
  a = reg 0;
  b = imm 7;
  unsigned_div = unsigned;
}

abbrev pub shrinking : Bool → ℕ → IrFunc
shrinking unsigned k = record {
  name = "f";
  returns_void = false;
  num_params = 0;
  param_regs = [];
  blocks =
      record (new_basic_block 0) {
        insts = before_division k ++ division unsigned ∷ [];
        term = Term.ret;
        ret_has_val = true;
        ret_val = reg 2;
      }
      ∷ [];
  num_vregs = 3;
}

-- The sign of `x` at the division.
abbrev pub dividend_is_neg : Callee → ℕ → Store → Option Bool
dividend_is_neg callee k s =
    bind (exec_insts callee (before_division k) s) (λ t. some (is_neg (t.regs 0)))

-- For k from 1 to 2 ^ 31, the division of x = 0 - k is marked as one of a dividend that is not negative,
-- and its dividend is negative.
pub mark_unsigned_div-negative :
    (callee : Callee) (s : Store) (k : ℕ)
    → 0 < k
    → k ≤ half_mod
    → (mark_unsigned_div (shrinking false k) ≡ shrinking true k)
      × (dividend_is_neg callee k s ≡ some true)
unfolding mark_unsigned_div exec_insts exec_inst exec_op eval_op sub32
mark_unsigned_div-negative callee s k h l = (rw zero_not refl, ground arith)
  where
    zero_not : (k == 0) ≡ false
    zero_not = ground arith
