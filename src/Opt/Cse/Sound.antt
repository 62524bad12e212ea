-- ===== src/Opt/Cse/Sound.antt =====
-- cse changes no run of a function whose computed values stay as they are in their block.
use toy_c_cp.Prelude.{
  ℕ, zero, suc, ◌≡◌, refl, ap, ◌∙◌, Bool, true, ◌&&◌, Option, List, [], ◌∷◌, arith, get_elem?,
}
use toy_c_cp.Ir.{Inst, BasicBlock, IrFunc}
use toy_c_cp.Ir.Meaning.{
  Store, Callee, bind, exec_inst, exec_insts, exec_block, finish, run, resume,
}
use toy_c_cp.Ir.Meaning.Refine.{bind_congr}
use toy_c_cp.Opt.Cse.{Avail, nothing_known, cse_step, cse_insts, cse_blocks, cse}
use toy_c_cp.Opt.Cse.Known.{Known, unwritten}
use toy_c_cp.Opt.Cse.OneInst.{is_temp, cse_step-IsSound}

unfoldable pub all_temps : List Inst → Bool
unfolding unwritten
all_temps [] = true
all_temps (i ∷ is) = is_temp i.op i.dst i.a i.b is && all_temps is

unfoldable pub blocks_temps : List BasicBlock → Bool
unfolding all_temps
blocks_temps [] = true
blocks_temps (bb ∷ bbs) = all_temps bb.insts && blocks_temps bbs

module _ (callee : Callee) where
  exec_insts-cse :
      (is : List Inst) (av : Avail) (s : Store)
      → all_temps is ≡ true
      → Known s is av
      → exec_insts callee (cse_insts av is).1 s ≡ exec_insts callee is s
  unfolding exec_insts cse_insts all_temps exec_inst
  exec_insts-cse [] av s h k = refl
  exec_insts-cse (i ∷ is) av s h k =
      let step = cse_step-IsSound callee s i is av k i.op refl (ground (arith, h)) in
      ap (λ o. bind o (exec_insts callee (cse_insts (cse_step i.op i av).known is).1)) step.same
      ∙ bind_congr (exec_inst callee i s) _ _ (λ t e.
        exec_insts-cse is (cse_step i.op i av).known t (ground (arith, h)) (step.behind t e))

  exec_block-cse :
      (bb : BasicBlock) (s : Store)
      → all_temps bb.insts ≡ true
      → exec_block callee (record bb { insts = (cse_insts nothing_known bb.insts).1 }) s
        ≡ exec_block callee bb s
  unfolding exec_block
  exec_block-cse bb s h =
      ap (λ o. bind o (finish bb.term bb.cond bb.succ0 bb.succ1 bb.ret_has_val bb.ret_val))
        (exec_insts-cse bb.insts nothing_known s h (record { binary = tt; unary = tt; loads = tt }))

  block_at-cse :
      (bbs : List BasicBlock) (n : ℕ) (k : BasicBlock → Option (Option ℕ × (ℕ → ℕ)))
      → blocks_temps bbs ≡ true
      → ((bb : BasicBlock)
          → all_temps bb.insts ≡ true
          → k (record bb { insts = (cse_insts nothing_known bb.insts).1 }) ≡ k bb)
      → bind (get_elem? (cse_blocks bbs).1 n) k ≡ bind (get_elem? bbs n) k
  unfolding cse_blocks blocks_temps
  block_at-cse [] n k t h = refl
  block_at-cse (bb ∷ bbs) zero k t h = h bb (ground (arith, t))
  block_at-cse (bb ∷ bbs) (suc n) k t h = block_at-cse bbs n k (ground (arith, t)) h

  run-cse_blocks :
      (fuel : ℕ) (bbs : List BasicBlock) (n : ℕ) (s : Store)
      → blocks_temps bbs ≡ true
      → run callee fuel (cse_blocks bbs).1 n s ≡ run callee fuel bbs n s
  unfolding run
  run-cse_blocks zero bbs n s t = refl
  run-cse_blocks (suc fuel) bbs n s t =
      (λ i. bind (get_elem? (cse_blocks bbs).1 n) (λ bb.
        bind (exec_block callee bb s) (resume callee (λ m u. run-cse_blocks fuel bbs m u t i))))
      ∙ block_at-cse bbs n
          (λ bb. bind (exec_block callee bb s) (resume callee (run callee fuel bbs))) t
          (λ bb h. ap (λ o. bind o (resume callee (run callee fuel bbs))) (exec_block-cse bb s h))

-- If in each block the results of the operators are not operands of their own instruction and are not
-- written again, then from every block and store and with every fuel, the function has the same result,
-- or none, before and after cse.
pub run-cse :
    (callee : Callee) (fn : IrFunc) (fuel n : ℕ) (s : Store)
    → blocks_temps fn.blocks ≡ true
    → run callee fuel (cse fn).1.blocks n s ≡ run callee fuel fn.blocks n s
unfolding cse
run-cse callee fn fuel n s t = run-cse_blocks callee fuel fn.blocks n s t
