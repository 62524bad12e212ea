-- ===== src/Opt/Dce/Fixpoint.antt =====
-- The `while (changed)` loop of deadCodeElim ends with nothing left to remove.
use toy_c_cp.Prelude.{
  ℕ, zero, suc, ◌+◌, ◌<◌, ◌≤◌, ◌≡◌, refl, true, false, List, [], ◌∷◌, arith, length, Bool-cases,
  inl, inr,
}
use toy_c_cp.Ir.{Inst, BasicBlock, IrFunc}
use toy_c_cp.Opt.Dce.{
  sweep_insts, sweep_blocks, any_dead, blocks_dead, blocks_uses, sweep, changed, sweep_loop,
  num_insts, dead_code_elim,
}

module _ (us : List ℕ) where
  length-sweep_insts : (is : List Inst) → length (sweep_insts us is) ≤ length is
  unfolding sweep_insts
  length-sweep_insts [] = omega arith
  length-sweep_insts (i ∷ is) = ground (arith, length-sweep_insts is)

  length-sweep_dead :
      (is : List Inst) → any_dead us is ≡ true → length (sweep_insts us is) < length is
  unfolding sweep_insts any_dead
  length-sweep_dead [] h = absurd (cc)
  length-sweep_dead (i ∷ is) h = ground (arith, length-sweep_insts is, length-sweep_dead is)

  num_insts-sweep : (bbs : List BasicBlock) → num_insts (sweep_blocks us bbs) ≤ num_insts bbs
  unfolding num_insts sweep_blocks
  num_insts-sweep [] = omega arith
  num_insts-sweep (bb ∷ bbs) = omega (arith, length-sweep_insts bb.insts, num_insts-sweep bbs)

  num_insts-sweep_dead :
      (bbs : List BasicBlock)
      → blocks_dead us bbs ≡ true
      → num_insts (sweep_blocks us bbs) < num_insts bbs
  unfolding num_insts sweep_blocks blocks_dead
  num_insts-sweep_dead [] h = absurd (cc)
  num_insts-sweep_dead (bb ∷ bbs) h = ground (
    arith,
    length-sweep_insts bb.insts,
    num_insts-sweep bbs,
    length-sweep_dead bb.insts,
    num_insts-sweep_dead bbs,
  )

  sweep_insts-live : (is : List Inst) → any_dead us is ≡ false → sweep_insts us is ≡ is
  unfolding sweep_insts any_dead
  sweep_insts-live [] h = refl
  sweep_insts-live (i ∷ is) h = ground (arith, sweep_insts-live is)

  sweep_blocks-live :
      (bbs : List BasicBlock) → blocks_dead us bbs ≡ false → sweep_blocks us bbs ≡ bbs
  unfolding sweep_blocks blocks_dead
  sweep_blocks-live [] h = refl
  sweep_blocks-live (bb ∷ bbs) h = ground (arith, sweep_insts-live bb.insts, sweep_blocks-live bbs)

sweep_loop-fixpoint :
    (fuel : ℕ) (bbs : List BasicBlock)
    → num_insts bbs < fuel
    → changed (sweep_loop fuel bbs) ≡ false
unfolding sweep_loop
sweep_loop-fixpoint zero bbs h = absurd (omega arith)
sweep_loop-fixpoint (suc fuel) bbs h = elim (Bool-cases (changed bbs)) [
  | inl more ↦
      let fewer = num_insts-sweep_dead (blocks_uses bbs) bbs more in
      rw more (sweep_loop-fixpoint fuel (sweep bbs) (omega arith))
  | inr last ↦ rw (last, sweep_blocks-live (blocks_uses bbs) bbs last) last
]

-- The loop ends within its bound, the number of instructions plus one, and in its result every
-- instruction has a side effect, no destination, or a destination that is read.
pub dead_code_elim-fixpoint : (fn : IrFunc) → changed (dead_code_elim fn).blocks ≡ false
unfolding dead_code_elim
dead_code_elim-fixpoint fn = sweep_loop-fixpoint (num_insts fn.blocks + 1) fn.blocks (omega arith)
