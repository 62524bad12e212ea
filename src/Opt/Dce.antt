-- ===== src/Opt/Dce.antt =====
-- src/opt/Passes.cpp, deadCodeElim; the registers that an instruction reads are also those of
-- instUses in src/opt/RegAlloc.cpp.
pub mod Step
pub mod Sound
pub mod Fixpoint
use toy_c_cp.Prelude.{
  ℕ, zero, suc, ◌+◌, Bool, true, false, not, ◌&&◌, ◌||◌, Option, none, some, List, [], ◌∷◌, ◌++◌,
  ◌==◌, if◌then◌else◌, length,
}
use toy_c_cp.Ir.{Val, imm, reg, Op, Inst, Term, BasicBlock, IrFunc}

abbrev pub val_uses : Val → List ℕ
val_uses (imm _) = []
val_uses (reg r) = r ∷ []

abbrev pub opt_uses : Option ℕ → List ℕ
opt_uses none = []
opt_uses (some r) = r ∷ []

unfoldable pub args_uses : List Val → List ℕ
args_uses [] = []
args_uses (v ∷ vs) = val_uses v ++ args_uses vs

unfoldable pub op_uses : Op → Val → Val → List Val → List ℕ
op_uses Op.mv a b args = val_uses a
op_uses Op.neg a b args = val_uses a
op_uses Op.not a b args = val_uses a
op_uses Op.store_global a b args = val_uses a
op_uses Op.load_global a b args = []
op_uses Op.call a b args = args_uses args
op_uses _ a b args = val_uses a ++ val_uses b

unfoldable pub inst_uses : Inst → List ℕ
unfolding op_uses args_uses
inst_uses i = op_uses i.op i.a i.b i.args ++ opt_uses i.magic_vreg

unfoldable pub insts_uses : List Inst → List ℕ
insts_uses [] = []
insts_uses (i ∷ is) = inst_uses i ++ insts_uses is

unfoldable pub term_uses : Term → Val → Bool → Val → List ℕ
term_uses Term.br c has rv = val_uses c
term_uses Term.ret c has rv = if has then val_uses rv else []
term_uses _ c has rv = []

unfoldable pub blocks_uses : List BasicBlock → List ℕ
blocks_uses [] = []
blocks_uses (bb ∷ bbs) =
    (insts_uses bb.insts ++ term_uses bb.term bb.cond bb.ret_has_val bb.ret_val) ++ blocks_uses bbs

-- `uses[r]`.
unfoldable pub use_count : ℕ → List ℕ → ℕ
use_count r [] = 0
use_count r (x ∷ xs) = (if x == r then 1 else 0) + use_count r xs

abbrev pub has_side_effect : Op → Bool
has_side_effect Op.call = true
has_side_effect Op.store_global = true
has_side_effect _ = false

abbrev pub unused_dst : List ℕ → Option ℕ → Bool
unused_dst us none = false
unused_dst us (some d) = use_count d us == 0

unfoldable pub is_dead : List ℕ → Inst → Bool
is_dead us i = not (has_side_effect i.op) && unused_dst us i.dst

unfoldable pub sweep_insts : List ℕ → List Inst → List Inst
sweep_insts us [] = []
sweep_insts us (i ∷ is) = if is_dead us i then sweep_insts us is else i ∷ sweep_insts us is

unfoldable pub sweep_blocks : List ℕ → List BasicBlock → List BasicBlock
sweep_blocks us [] = []
sweep_blocks us (bb ∷ bbs) = record bb { insts = sweep_insts us bb.insts } ∷ sweep_blocks us bbs

unfoldable pub any_dead : List ℕ → List Inst → Bool
any_dead us [] = false
any_dead us (i ∷ is) = is_dead us i || any_dead us is

unfoldable pub blocks_dead : List ℕ → List BasicBlock → Bool
blocks_dead us [] = false
blocks_dead us (bb ∷ bbs) = any_dead us bb.insts || blocks_dead us bbs

-- One round of the `while (changed)` loop: `changed` says that an instruction was removed.
abbrev pub sweep : List BasicBlock → List BasicBlock
sweep bbs = sweep_blocks (blocks_uses bbs) bbs

abbrev pub changed : List BasicBlock → Bool
changed bbs = blocks_dead (blocks_uses bbs) bbs

unfoldable pub sweep_loop : ℕ → List BasicBlock → List BasicBlock
sweep_loop zero bbs = bbs
sweep_loop (suc fuel) bbs =
    let rest = sweep_loop fuel (sweep bbs) in if changed bbs then rest else sweep bbs

unfoldable pub num_insts : List BasicBlock → ℕ
num_insts [] = 0
num_insts (bb ∷ bbs) = length bb.insts + num_insts bbs

-- A round that goes on removes an instruction, so their number bounds the rounds.
unfoldable pub dead_code_elim : IrFunc → IrFunc
dead_code_elim fn = record fn { blocks = sweep_loop (num_insts fn.blocks + 1) fn.blocks }
