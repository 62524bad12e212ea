-- ===== src/Opt/MarkUnsigned.antt =====
-- src/opt/Passes.cpp, markUnsignedDiv: divisions of what is held to be not negative.
pub mod Settled
pub mod Negative
mod Tests
use Prim.Native.Nat.{bit_and}
use toy_c_cp.Prelude.{
  ℕ, zero, suc, ◌+◌, ◌-◌, Bool, true, false, not, ◌&&◌, ◌||◌, Option, none, some, List, [], ◌∷◌,
  ltb, leb, ◌==◌, if◌then◌else◌,
}
use toy_c_cp.Word.{half_mod, is_neg, magnitude}
use toy_c_cp.Ir.{Val, imm, reg, Op, Inst, BasicBlock, IrFunc}
use toy_c_cp.Opt.Unreachable.{set_flag}

unfoldable pub is_pow2 : ℕ → Bool
unfolding is_neg
is_pow2 v = not (is_neg v) && not (v == 0) && bit_and v (v - 1) == 0

-- `-d` of the smallest number overflows; here it is the number itself, which is negative.
unfoldable pub needs_magic : ℕ → Bool
unfolding is_pow2 magnitude is_neg
needs_magic d = let ad = magnitude d in not (is_neg ad) && leb 3 ad && not (is_pow2 ad)

module _ (nv : ℕ) (non_neg : ℕ → Bool) where
  abbrev pub is_nn : Val → Bool
  is_nn (imm c) = ltb c half_mod
  is_nn (reg r) = ltb r nv && non_neg r

  abbrev pub is_zero : Val → Bool
  is_zero (imm c) = c == 0
  is_zero (reg r) = false

  unfoldable pub dst_nn : Op → Val → Val → Bool
  dst_nn Op.mv a b = is_nn a
  dst_nn Op.add a b = is_nn a && is_nn b
  dst_nn Op.mul a b = is_nn a && is_nn b
  dst_nn Op.sub a b = is_nn a && is_zero b
  dst_nn Op.not a b = true
  dst_nn Op.lt a b = true
  dst_nn Op.gt a b = true
  dst_nn Op.le a b = true
  dst_nn Op.ge a b = true
  dst_nn Op.eq a b = true
  dst_nn Op.ne a b = true
  dst_nn _ a b = false

  abbrev pub magic_imm : Val → Bool
  magic_imm (imm c) = not (is_neg c) && not (c == 0) && needs_magic c
  magic_imm (reg r) = false

  -- Whether a division is marked.
  unfoldable pub marks : Op → Val → Val → Bool
  unfolding needs_magic is_neg
  marks Op.div a b = magic_imm b && is_nn a
  marks Op.rem a b = magic_imm b && is_nn a
  marks _ a b = false

  unfoldable pub mark_inst : Inst → Inst
  unfolding marks
  mark_inst i = if marks i.op i.a i.b then record i { unsigned_div = true } else i

  -- Whether the destination is to be flagged.
  abbrev pub is_new : Option ℕ → Bool → Bool
  is_new none nn = false
  is_new (some d) nn = ltb d nv && nn && not (non_neg d)

abbrev pub flag : Option ℕ → (ℕ → Bool) → ℕ → Bool
flag none non_neg = non_neg
flag (some d) non_neg = set_flag non_neg d

-- `changed`, the flags, and what has been visited.
pub record Visit (A : Type 0) : Type 0 where
  pub changed : Bool
  pub flags : ℕ → Bool
  pub visited : A

module _ (nv : ℕ) where
  unfoldable pub visit_inst : (ℕ → Bool) → Inst → Visit Inst
  unfolding mark_inst dst_nn
  visit_inst flags i =
      let new = is_new nv flags i.dst (dst_nn nv flags i.op i.a i.b) in
      record {
        changed = new;
        flags = if new then flag i.dst flags else flags;
        visited = mark_inst nv flags i;
      }

  unfoldable pub visit_insts : (ℕ → Bool) → List Inst → Visit (List Inst)
  unfolding visit_inst
  visit_insts flags [] = record { changed = false; flags = flags; visited = [] }
  visit_insts flags (i ∷ is) =
      let first = visit_inst flags i in
      let rest = visit_insts first.flags is in
      record {
        changed = first.changed || rest.changed;
        flags = rest.flags;
        visited = first.visited ∷ rest.visited;
      }

  unfoldable pub visit_blocks : (ℕ → Bool) → List BasicBlock → Visit (List BasicBlock)
  unfolding visit_insts
  visit_blocks flags [] = record { changed = false; flags = flags; visited = [] }
  visit_blocks flags (bb ∷ bbs) =
      let first = visit_insts flags bb.insts in
      let rest = visit_blocks first.flags bbs in
      record {
        changed = first.changed || rest.changed;
        flags = rest.flags;
        visited = record bb { insts = first.visited } ∷ rest.visited;
      }

  -- The `while` loop.
  unfoldable pub mark_loop : ℕ → (ℕ → Bool) → List BasicBlock → Visit (List BasicBlock)
  unfolding visit_blocks
  mark_loop zero flags bbs = record { changed = true; flags = flags; visited = bbs }
  mark_loop (suc fuel) flags bbs =
      let round = visit_blocks flags bbs in
      let rest = mark_loop fuel round.flags round.visited in if round.changed then rest else round

-- A round that changes something flags a register.
abbrev pub mark_all : ℕ → List BasicBlock → Visit (List BasicBlock)
mark_all nv bbs = mark_loop nv (suc nv) (λ r. false) bbs

unfoldable pub mark_unsigned_div : IrFunc → IrFunc
unfolding mark_loop
mark_unsigned_div fn =
    if fn.num_vregs == 0
    then fn
    else record fn { blocks = (mark_all fn.num_vregs fn.blocks).visited }
