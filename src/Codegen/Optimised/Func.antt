-- ===== src/Codegen/Optimised/Func.antt =====
-- src/codegen/OptCodeGen.cpp, a function and a module; and the choice between the two back ends of
-- src/codegen/CodeGen.cpp.
pub mod Params
use toy_c_cp.Prelude.{
  ℕ, zero, suc, ◌+◌, ◌-◌, ◌*◌, Bool, true, false, Option, none, some, List, [], ◌∷◌, ◌++◌, ltb, leb,
  ◌==◌, if◌then◌else◌, String, length, get_elem?,
}
use toy_c_cp.Word.{neg32}
use toy_c_cp.Ir.{BasicBlock, IrFunc, IrModule}
use toy_c_cp.Ir.Meaning.{bind}
use toy_c_cp.Rv.{
  x_ra, x_sp, x_a0, x_t6, scratch0, Instr, li, mv, addi, Line, block_label, label, globl,
  section_text, blank, p2align,
}
use toy_c_cp.Opt.Dce.{use_count, blocks_uses}
use toy_c_cp.Opt.Unreachable.{reached}
use toy_c_cp.Opt.RegAlloc.Graph.{members}
use toy_c_cp.Opt.RegAlloc.Colour.{Allocation, allocate_registers}
use toy_c_cp.Codegen.Naive.{
  align16, max_stack_args, take, lines, data_section, generate_asm_naive, fits12_neg,
}
use toy_c_cp.Codegen.Optimised.Access.{Context, load_off, store_off, store_spill}
use toy_c_cp.Codegen.Optimised.Block.{emit_block}

abbrev pub ra_space : Bool → ℕ
ra_space leaf = if leaf then 0 else 4

-- `useCount_`, over the same operands as in deadCodeElim.
unfoldable pub use_counts : IrFunc → ℕ → ℕ
unfolding use_count blocks_uses
use_counts fn v = use_count v (blocks_uses fn.blocks)

unfoldable pub context_of : Bool → Allocation → IrFunc → Context
unfolding max_stack_args align16 use_counts
context_of opt a fn =
    let spills = max_stack_args fn.blocks * 4 in
    let callees = spills + a.num_spills * 4 in
    let ra = callees + length a.used_callee * 4 in
    record {
      alloc = a;
      spill_base = spills;
      callee_base = callees;
      ra_off = ra;
      frame_size = align16 (ra + ra_space a.is_leaf);
      use_count = use_counts fn;
      opt = opt;
    }

abbrev pub store_callees : ℕ → List ℕ → List Instr
store_callees off [] = []
store_callees off (r ∷ rs) = store_off r off ++ store_callees (off + 4) rs

abbrev pub open_frame : ℕ → List Instr
open_frame size =
    if size == 0
    then []
    else if fits12_neg size
    then addi x_sp x_sp (neg32 size) ∷ []
    else li x_t6 size ∷ Instr.sub x_sp x_sp x_t6 ∷ []

unfoldable pub emit_prologue : Context → List Instr
unfolding store_off
emit_prologue c =
    open_frame c.frame_size
    ++ ((if c.alloc.is_leaf then [] else store_off x_ra c.ra_off)
        ++ store_callees c.callee_base c.alloc.used_callee)

-- A parameter in a register, and one on the caller's stack.
abbrev pub param_from_reg : Context → ℕ → ℕ → Option (List Instr)
param_from_reg c src v = elim (c.alloc.reg v) [
  | some p ↦ some (if p == src then [] else mv p src ∷ [])
  | none ↦ store_spill c src v
]

abbrev pub param_from_stack : Context → ℕ → ℕ → Option (List Instr)
param_from_stack c off v = elim (c.alloc.reg v) [
  | some p ↦ some (load_off p off)
  | none ↦ bind (store_spill c scratch0 v) (λ is. some (load_off scratch0 off ++ is))
]

unfoldable pub emit_params : Context → ℕ → List ℕ → Option (List Instr)
unfolding load_off store_off
emit_params c i [] = some []
emit_params c i (v ∷ vs) =
    bind
      (if ltb i 8
        then param_from_reg c (x_a0 + i) v
        else param_from_stack c (c.frame_size + (i - 8) * 4) v)
      (λ is. bind (emit_params c (i + 1) vs) (λ js. some (is ++ js)))

-- `order`: the blocks that are reachable, by index. The search for them is the one of unreachableElim
-- on successors in range.
unfoldable pub block_order : IrFunc → List ℕ
unfolding reached
block_order fn = members (length fn.blocks) (reached fn.blocks)

-- The label of a block has its `id`.
unfoldable pub emit_blocks : Context → IrFunc → List ℕ → Option (List Line)
unfolding emit_block
emit_blocks c fn [] = some []
emit_blocks c fn (b ∷ []) =
    bind (get_elem? fn.blocks b) (λ bb.
      bind (emit_block c fn.name bb none) (λ is. some (block_label fn.name bb.id ∷ lines is)))
emit_blocks c fn (b ∷ next ∷ rest) = bind (get_elem? fn.blocks b) (λ bb.
    bind (emit_block c fn.name bb (some next)) (λ is.
      bind (emit_blocks c fn (next ∷ rest))
        (λ ls. some (block_label fn.name bb.id ∷ (lines is ++ ls)))))

module _ (sort : (ℕ → ℕ → Bool) → List ℕ → List ℕ) (opt : Bool) where
  unfoldable pub emit_func : IrFunc → Option (List Line)
  unfolding allocate_registers context_of emit_prologue emit_params block_order emit_blocks take
  emit_func fn =
      let c = context_of opt (allocate_registers sort fn) fn in
      bind (emit_params c 0 (take fn.num_params fn.param_regs)) (λ ps.
        bind (emit_blocks c fn (block_order fn)) (λ body. some (
          globl fn.name
          ∷ p2align 1
          ∷ label fn.name
          ∷ (lines (emit_prologue c ++ ps) ++ (body ++ blank ∷ [])))))

  unfoldable pub emit_funcs : List IrFunc → Option (List Line)
  unfolding emit_func
  emit_funcs [] = some []
  emit_funcs (f ∷ fs) = bind (emit_func f) (λ is. bind (emit_funcs fs) (λ js. some (is ++ js)))

  unfoldable pub generate_asm_opt : IrModule → Option (List Line)
  unfolding emit_funcs
  generate_asm_opt m =
      bind (emit_funcs m.funcs) (λ code. some (data_section m.globals ++ section_text ∷ code))

  -- Whether TOYC_NAIVE is set in the environment is an argument.
  unfoldable pub generate_asm : Bool → IrModule → Option (List Line)
  unfolding generate_asm_naive generate_asm_opt
  generate_asm naive m = if naive then generate_asm_naive m else generate_asm_opt m
