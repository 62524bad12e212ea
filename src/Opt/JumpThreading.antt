-- ===== src/Opt/JumpThreading.antt =====
-- src/opt/Passes.cpp, jumpThreading: a branch on a constant becomes a jump.
pub mod Sound
use toy_c_cp.Prelude.{Bool, true, false, ◌||◌, none, List, [], ◌∷◌, ◌==◌, if◌then◌else◌}
use toy_c_cp.Ir.{Val, imm, Term, BasicBlock, IrFunc}

unfoldable pub thread_branch : Term → Val → BasicBlock → Bool × BasicBlock
thread_branch Term.br (imm n) bb = (
  true,
  record bb {
    term = Term.jmp;
    succ0 = if n == 0 then bb.succ1 else bb.succ0;
    succ1 = none;
    cond = imm 0;
  },
)
thread_branch _ _ bb = (false, bb)

unfoldable pub thread_blocks : List BasicBlock → Bool × List BasicBlock
unfolding thread_branch
thread_blocks [] = (false, [])
thread_blocks (bb ∷ bbs) =
    let (any, bb') = thread_branch bb.term bb.cond bb in
    let (more, bbs') = thread_blocks bbs in (any || more, bb' ∷ bbs')

unfoldable pub jump_threading : IrFunc → Bool × IrFunc
jump_threading fn = let (any, bbs) = thread_blocks fn.blocks in (any, record fn { blocks = bbs })
