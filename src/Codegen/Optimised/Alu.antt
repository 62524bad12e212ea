-- ===== src/Codegen/Optimised/Alu.antt =====
-- The instructions for an operator compute it, also where the destination is one of the operands.
use Prim.Native.Nat.{bit_xor}
use mathlib.Core.Option.{some-injective}
use toy_c_cp.Prelude.{ℕ, ◌≡◌, ◌≢◌, refl, ap, ◌∙◌, some, arith, ◌==◌, if◌then◌else◌}
use toy_c_cp.Word.{IsWord, slt}
use toy_c_cp.Ir.{Op}
use toy_c_cp.Ir.Meaning.{eval_op}
use toy_c_cp.Rv.{x_zero}
use toy_c_cp.Rv.Machine.{Machine, Linker, set_x, exec_instr, exec_code}
use toy_c_cp.Codegen.Naive.Alu.{sub32-eq_zero, xor_one}
use toy_c_cp.Codegen.Optimised.Inst.{alu}
use toy_c_cp.Codegen.Optimised.Computed.{
  Computed, Computes, Unchanged-self, set_x-Unchanged, set_x-Computed,
}

module _ (lk : Linker) (rd ra rb : ℕ) (nz : rd ≢ x_zero) (m : Machine) where
  once : (v w : ℕ) → v ≡ w → Computed rd w m (set_x rd v m)
  once v w e = set_x-Computed rd v w m m nz e (Unchanged-self rd m)

  -- A second instruction on the result of the first.
  twice :
      (f : ℕ → ℕ) (u w : ℕ)
      → f u ≡ w
      → Computed rd w m (set_x rd (f ((set_x rd u m).x rd)) (set_x rd u m))
  twice f u w e =
      set_x-Computed rd _ w m (set_x rd u m) nz (ap f (once u u refl).result ∙ e)
        (set_x-Unchanged rd u m)

  pub alu-Computes :
      (op : Op) (w : ℕ)
      → IsWord (m.x ra)
      → IsWord (m.x rb)
      → eval_op op (m.x ra) (m.x rb) ≡ some w
      → Computes lk (alu op rd ra rb) rd w m
  unfolding alu eval_op exec_code exec_instr
  alu-Computes Op.add w ha hb e = (_, refl, once _ w (ground arith))
  alu-Computes Op.sub w ha hb e = (_, refl, once _ w (ground arith))
  alu-Computes Op.mul w ha hb e = (_, refl, once _ w (ground arith))
  alu-Computes Op.div w ha hb e = (_, refl, once _ w (ground arith))
  alu-Computes Op.rem w ha hb e = (_, refl, once _ w (ground arith))
  alu-Computes Op.lt w ha hb e = (_, refl, once _ w (ground arith))
  alu-Computes Op.gt w ha hb e = (_, refl, once _ w (ground arith))
  alu-Computes Op.le w ha hb e = (
    _,
    refl,
    twice (λ x. bit_xor x 1) _ w (xor_one (slt (m.x rb) (m.x ra)) ∙ some-injective _ _ e),
  )
  alu-Computes Op.ge w ha hb e = (
    _,
    refl,
    twice (λ x. bit_xor x 1) _ w (xor_one (slt (m.x ra) (m.x rb)) ∙ some-injective _ _ e),
  )
  alu-Computes Op.eq w ha hb e = (
    _,
    refl,
    twice (λ x. if x == 0 then 1 else 0) _ w (ground (arith, sub32-eq_zero (m.x ra) (m.x rb))),
  )
  alu-Computes Op.ne w ha hb e = (
    _,
    refl,
    twice (λ x. if x == 0 then 0 else 1) _ w (ground (arith, sub32-eq_zero (m.x ra) (m.x rb))),
  )
  alu-Computes _ w ha hb e = absurd (cc)
