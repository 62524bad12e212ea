-- ===== src/Opt/Propagate/Loop.antt =====
-- What constProp does to a counting loop: `int x = 0; while (x < k) x = x + 1; return x;` as the
-- generator translates it.
use toy_c_cp.Prelude.{
  ℕ, zero, suc, ◌+◌, ◌<◌, ◌≡◌, refl, true, false, none, some, List, [], ◌∷◌, arith, ltb,
}
use toy_c_cp.Word.{half_mod, slt, add32}
use toy_c_cp.Ir.{imm, reg, Op, Inst, Term, BasicBlock, IrFunc, inst, mv_inst, new_basic_block}
use toy_c_cp.Ir.Meaning.{
  Store, Callee, run, exec_block, exec_insts, exec_inst, exec_op, eval_op, finish,
}
use toy_c_cp.Opt.Propagate.{const_prop}

abbrev jump_to : ℕ → List Inst → ℕ → BasicBlock
jump_to id is n = record (new_basic_block id) { insts = is; term = Term.jmp; succ0 = some n }

-- Blocks: entry, body, condition, after. Register 0 is `x`.
abbrev pub counting_blocks : ℕ → List BasicBlock
counting_blocks k =
    jump_to 0 (mv_inst 0 (imm 0) ∷ []) 2
    ∷ jump_to 1
        (record (inst Op.add) { dst = some 1; a = reg 0; b = imm 1 } ∷ mv_inst 0 (reg 1) ∷ []) 2
    ∷ record (new_basic_block 2) {
      insts = record (inst Op.lt) { dst = some 2; a = reg 0; b = imm k } ∷ [];
      term = Term.br;
      cond = reg 2;
      succ0 = some 1;
      succ1 = some 3;
    }
    ∷ record (new_basic_block 3) { term = Term.ret; ret_has_val = true; ret_val = reg 0 }
    ∷ []

abbrev pub counting : ℕ → IrFunc
counting k = record {
  name = "count";
  returns_void = false;
  num_params = 0;
  param_regs = [];
  blocks = counting_blocks k;
  num_vregs = 3;
}

zero-slt : (k : ℕ) → 0 < k → k < half_mod → slt 0 k ≡ true
unfolding slt
zero-slt k h l = ground arith

mutual
  unfolding const_prop run exec_block exec_insts exec_inst exec_op eval_op finish

  at_cond :
      (callee : Callee) (k fuel : ℕ) (s : Store)
      → slt 0 k ≡ true
      → run callee fuel (const_prop (counting k)).1.blocks 2 s ≡ none
  at_cond callee k zero s h = refl
  at_cond callee k (suc fuel) s h = rw h (at_body callee k fuel _ h)

  at_body :
      (callee : Callee) (k fuel : ℕ) (s : Store)
      → slt 0 k ≡ true
      → run callee fuel (const_prop (counting k)).1.blocks 1 s ≡ none
  at_body callee k zero s h = refl
  at_body callee k (suc fuel) s h = at_cond callee k fuel _ h

loop_fuel : ℕ → ℕ
loop_fuel zero = 2
loop_fuel (suc m) = suc (suc (loop_fuel m))

below-slt : (i k : ℕ) → i < half_mod → k < half_mod → slt i k ≡ ltb i k
unfolding slt
below-slt i k h l = ground arith

add32-one : (i : ℕ) → i < half_mod → add32 i 1 ≡ i + 1
unfolding add32
add32-one i l = omega arith

counts_from :
    (callee : Callee) (k m : ℕ) (s : Store)
    → k < half_mod
    → s.regs 0 + m ≡ k
    → run callee (loop_fuel m) (counting_blocks k) 2 s ≡ some (some k, s.globals)
unfolding loop_fuel run exec_block exec_insts exec_inst exec_op eval_op finish
counts_from callee k zero s l e =
    let same : s.regs 0 ≡ k = omega arith in
    let over : slt (s.regs 0) k ≡ false =
      rw (below-slt (s.regs 0) k (omega arith) l) (ground arith) in
    rw over (rw same)
counts_from callee k (suc m) s l e =
    let under : slt (s.regs 0) k ≡ true =
      rw (below-slt (s.regs 0) k (omega arith) l) (ground arith) in
    rw under (counts_from callee k m _ l (rw (add32-one (s.regs 0) (omega arith)) (omega arith)))

starts :
    (callee : Callee) (k : ℕ) (s : Store)
    → k < half_mod
    → run callee (suc (loop_fuel k)) (counting_blocks k) 0 s ≡ some (some k, s.globals)
unfolding run exec_block exec_insts exec_inst exec_op finish
starts callee k s l = counts_from callee k k _ l (omega arith)

never :
    (callee : Callee) (k fuel : ℕ) (s : Store)
    → 0 < k
    → k < half_mod
    → run callee fuel (const_prop (counting k)).1.blocks 0 s ≡ none
unfolding const_prop run exec_block exec_insts exec_inst exec_op finish
never callee k zero s h l = refl
never callee k (suc fuel) s h l = at_cond callee k fuel _ (zero-slt k h l)

-- A function that counts from 0 to `k` returns `k`, for every `k` from 1 to 2 ^ 31 - 1. After constProp
-- it never returns: the counter is read as the constant 0 in the condition.
pub const_prop-counting :
    (callee : Callee) (k : ℕ) (s : Store)
    → 0 < k
    → k < half_mod
    → ((fuel : ℕ) × (run callee fuel (counting k).blocks 0 s ≡ some (some k, s.globals)))
      × ((fuel : ℕ) → run callee fuel (const_prop (counting k)).1.blocks 0 s ≡ none)
const_prop-counting callee k s h l = (returns, diverges)
  where
    returns : (fuel : ℕ) × (run callee fuel (counting_blocks k) 0 s ≡ some (some k, s.globals))
    returns = (suc (loop_fuel k), starts callee k s l)

    diverges : (fuel : ℕ) → run callee fuel (const_prop (counting k)).1.blocks 0 s ≡ none
    diverges fuel = never callee k fuel s h l
