-- ===== src/Opt/JumpThreading/Sound.antt =====
-- jumpThreading changes no run.
use toy_c_cp.Prelude.{
  ℕ, zero, suc, ◌≡◌, refl, sym, ap, ◌∙◌, Bool, Option, none, List, [], ◌∷◌, get_elem?, ◌==◌,
  if◌then◌else◌, arith, fun_ext,
}
use toy_c_cp.Ir.{Val, imm, reg, Term, BasicBlock, IrFunc}
use toy_c_cp.Ir.Meaning.{Store, Callee, bind, exec_insts, exec_block, finish, run, resume}
use toy_c_cp.Opt.JumpThreading.{thread_branch, thread_blocks, jump_threading}

finish-thread :
    (n : ℕ) (s0 s1 : Option ℕ) (has : Bool) (rv : Val) (t : Store)
    → finish Term.jmp (imm 0) (if n == 0 then s1 else s0) none has rv t
      ≡ finish Term.br (imm n) s0 s1 has rv t
unfolding finish
finish-thread n s0 s1 has rv t = ground arith

module _ (callee : Callee) where
  exec_block-thread :
      (tm : Term) (c : Val) (bb : BasicBlock)
      → bb.term ≡ tm
      → bb.cond ≡ c
      → (s : Store) → exec_block callee (thread_branch tm c bb).1 s ≡ exec_block callee bb s
  unfolding exec_block thread_branch
  exec_block-thread Term.br (imm n) bb p q s = ap (bind (exec_insts callee bb.insts s)) (
      fun_ext λ t.
        finish-thread n bb.succ0 bb.succ1 bb.ret_has_val bb.ret_val t
        ∙ (λ i. finish (sym p i) (sym q i) bb.succ0 bb.succ1 bb.ret_has_val bb.ret_val t))
  exec_block-thread Term.br (reg r) bb p q s = refl
  exec_block-thread _ c bb p q s = refl

  block_at-thread :
      (bbs : List BasicBlock) (n : ℕ) (k : BasicBlock → Option (Option ℕ × (ℕ → ℕ)))
      → ((bb : BasicBlock) → k (thread_branch bb.term bb.cond bb).1 ≡ k bb)
      → bind (get_elem? (thread_blocks bbs).1 n) k ≡ bind (get_elem? bbs n) k
  unfolding thread_blocks
  block_at-thread [] n k h = refl
  block_at-thread (bb ∷ bbs) zero k h = h bb
  block_at-thread (bb ∷ bbs) (suc n) k h = block_at-thread bbs n k h

  run-thread :
      (fuel : ℕ) (bbs : List BasicBlock) (n : ℕ) (s : Store)
      → run callee fuel (thread_blocks bbs).1 n s ≡ run callee fuel bbs n s
  unfolding run
  run-thread zero bbs n s = refl
  run-thread (suc fuel) bbs n s =
      (λ i.
        bind (get_elem? (thread_blocks bbs).1 n)
          (λ bb. bind (exec_block callee bb s) (resume callee (λ m u. run-thread fuel bbs m u i))))
      ∙ block_at-thread bbs n
          (λ bb. bind (exec_block callee bb s) (resume callee (run callee fuel bbs)))
          (λ bb.
            ap (λ o. bind o (resume callee (run callee fuel bbs)))
              (exec_block-thread bb.term bb.cond bb refl refl s))

-- Replacing the branches on constants by jumps changes no run: from every block and store, with
-- every fuel, the function has the same result or has none, before and after jumpThreading.
pub run-jump_threading :
    (callee : Callee) (fn : IrFunc) (fuel n : ℕ) (s : Store)
    → run callee fuel (jump_threading fn).1.blocks n s ≡ run callee fuel fn.blocks n s
unfolding jump_threading
run-jump_threading callee fn fuel n s = run-thread callee fuel fn.blocks n s
