-- ===== src/Codegen/Naive/Alu.antt =====
-- The instructions that emitBinary puts between the loads and the store compute the operator.
use Prim.Native.Nat.{bit_xor}
use mathlib.Core.Option.{some-injective}
use toy_c_cp.Prelude.{ℕ, ◌≡◌, refl, ◌∙◌, Bool, true, false, not, some, arith, ◌==◌}
use toy_c_cp.Word.{IsWord, sub32, slt, of_bool}
use toy_c_cp.Ir.{Op}
use toy_c_cp.Ir.Meaning.{eval_op}
use toy_c_cp.Rv.{x_t0, x_t1}
use toy_c_cp.Rv.Machine.{Machine, Linker, set_x, exec_instr, exec_code}
use toy_c_cp.Codegen.Naive.{alu}
use toy_c_cp.Codegen.Naive.Access.{Loaded}

pub sub32-eq_zero : (a b : ℕ) → IsWord a → IsWord b → (sub32 a b == 0) ≡ (a == b)
unfolding sub32
sub32-eq_zero a b ha hb = ground arith

pub xor_one : (b : Bool) → bit_xor (of_bool b) 1 ≡ of_bool (not b)
xor_one true = refl
xor_one false = refl

module _ (lk : Linker) (m : Machine) where
  set_t0-Loaded : (v w : ℕ) → v ≡ w → Loaded x_t0 w m (set_x x_t0 v m)
  set_t0-Loaded v w e = record {
    loaded = ground arith;
    same_mem = refl;
    same_x = λ q n n6. ground arith;
  }

  set_t0_twice-Loaded : (u v w : ℕ) → v ≡ w → Loaded x_t0 w m (set_x x_t0 v (set_x x_t0 u m))
  set_t0_twice-Loaded u v w e = record {
    loaded = ground arith;
    same_mem = refl;
    same_x = λ q n n6. ground arith;
  }

  pub alu-Loaded :
      (op : Op) (v : ℕ)
      → IsWord (m.x x_t0)
      → IsWord (m.x x_t1)
      → eval_op op (m.x x_t0) (m.x x_t1) ≡ some v
      → (m' : Machine) × (exec_code lk (alu op) m ≡ some m') × Loaded x_t0 v m m'
  unfolding alu eval_op exec_code exec_instr
  alu-Loaded Op.add v ha hb e = (_, refl, set_t0-Loaded _ v (ground arith))
  alu-Loaded Op.sub v ha hb e = (_, refl, set_t0-Loaded _ v (ground arith))
  alu-Loaded Op.mul v ha hb e = (_, refl, set_t0-Loaded _ v (ground arith))
  alu-Loaded Op.div v ha hb e = (_, refl, set_t0-Loaded _ v (ground arith))
  alu-Loaded Op.rem v ha hb e = (_, refl, set_t0-Loaded _ v (ground arith))
  alu-Loaded Op.lt v ha hb e = (_, refl, set_t0-Loaded _ v (ground arith))
  alu-Loaded Op.gt v ha hb e = (_, refl, set_t0-Loaded _ v (ground arith))
  alu-Loaded Op.le v ha hb e = (
    _,
    refl,
    set_t0_twice-Loaded _ _ v (xor_one (slt (m.x x_t1) (m.x x_t0)) ∙ some-injective _ _ e),
  )
  alu-Loaded Op.ge v ha hb e = (
    _,
    refl,
    set_t0_twice-Loaded _ _ v (xor_one (slt (m.x x_t0) (m.x x_t1)) ∙ some-injective _ _ e),
  )
  alu-Loaded Op.eq v ha hb e =
      (_, refl, set_t0_twice-Loaded _ _ v (ground (arith, sub32-eq_zero (m.x x_t0) (m.x x_t1))))
  alu-Loaded Op.ne v ha hb e =
      (_, refl, set_t0_twice-Loaded _ _ v (ground (arith, sub32-eq_zero (m.x x_t0) (m.x x_t1))))
  alu-Loaded _ v ha hb e = absurd (cc)
