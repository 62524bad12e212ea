-- ===== src/Opt/ConstFold/Laws.antt =====
-- The two switches of constFold against the meaning of the operators.
use toy_c_cp.Prelude.{ℕ, ◌≡◌, ap, true, some, arith}
use toy_c_cp.Word.{IsWord, minus_one, neg32}
use toy_c_cp.Word.Laws.{
  add32-zero, zero-add32, sub32-zero, zero-sub32, sub32_self, mul32-one, one-mul32, mul32-zero,
  zero-mul32, mul32-minus_one, minus_one-mul32, sdiv-one, sdiv-minus_one, srem-one, srem-minus_one,
  slt_self, sdiv_self, srem_self,
}
use toy_c_cp.Ir.{Val, imm, reg, Op}
use toy_c_cp.Ir.Meaning.{Store, value, eval_op}
use toy_c_cp.Opt.ConstFold.{
  folded, fold_values, Rewrite, to_mv, to_neg, leave, identity, is_imm_of, same_reg,
}

-- The value that a rewritten instruction computes is `v`.
abbrev pub Gives : Store → Rewrite → ℕ → Type 0
Gives s (to_mv w) v = value s w ≡ v
Gives s (to_neg w) v = neg32 (value s w) ≡ v
Gives s leave v = Unit

pub fold_values-eval_op :
    (op : Op) (a b : ℕ) {v w : ℕ} → fold_values op a b ≡ folded v → eval_op op a b ≡ some w → v ≡ w
unfolding fold_values eval_op
fold_values-eval_op op a b f e = ground arith

value-imm_of : (s : Store) (a : Val) (k : ℕ) → is_imm_of a k ≡ true → value s a ≡ k
value-imm_of s (imm n) k h = ground arith
value-imm_of s (reg r) k h = absurd (cc)

value-same_reg : (s : Store) (a b : Val) → same_reg a b ≡ true → value s a ≡ value s b
value-same_reg s (imm n) b h = absurd (cc)
value-same_reg s (reg r) (imm n) h = absurd (cc)
value-same_reg s (reg r) (reg q) h = ap s.regs (ground arith)

module _ (s : Store) (a b : Val) (fa : IsWord (value s a)) (fb : IsWord (value s b)) where
  pub identity-Gives :
      (op : Op) {v : ℕ} → eval_op op (value s a) (value s b) ≡ some v → Gives s (identity op a b) v
  unfolding identity eval_op
  identity-Gives Op.add e = ground (
    arith,
    value-imm_of s a 0,
    value-imm_of s b 0,
    zero-add32 (value s b),
    add32-zero (value s a),
  )
  identity-Gives Op.sub e = ground (
    arith,
    value-imm_of s a 0,
    value-imm_of s b 0,
    value-same_reg s a b,
    zero-sub32 (value s b),
    sub32-zero (value s a),
    sub32_self (value s a),
  )
  identity-Gives Op.mul e = ground (
    arith,
    value-imm_of s a 0,
    value-imm_of s b 0,
    value-imm_of s a 1,
    value-imm_of s b 1,
    value-imm_of s a minus_one,
    value-imm_of s b minus_one,
    zero-mul32 (value s b),
    mul32-zero (value s a),
    one-mul32 (value s b),
    mul32-one (value s a),
    minus_one-mul32 (value s b),
    mul32-minus_one (value s a),
  )
  identity-Gives Op.div e = ground (
    arith,
    value-imm_of s b 1,
    value-imm_of s b minus_one,
    value-same_reg s a b,
    sdiv-one (value s a),
    sdiv-minus_one (value s a),
    sdiv_self (value s a),
  )
  identity-Gives Op.rem e = ground (
    arith,
    value-imm_of s b 1,
    value-imm_of s b minus_one,
    value-same_reg s a b,
    srem-one (value s a),
    srem-minus_one (value s a),
    srem_self (value s a),
  )
  identity-Gives op e = ground (arith, value-same_reg s a b, slt_self (value s a))
