-- ===== src/Codegen/Naive.antt =====
-- src/codegen/CodeGen.cpp, class NaiveCodeGen: every virtual register lives in a stack slot.
pub mod Access
pub mod Alu
pub mod Simulation
pub mod Refinement
use toy_c_cp.Prelude.{
  ℕ, zero, suc, ◌+◌, ◌-◌, ◌*◌, ◌/◌, Bool, true, false, Option, none, some, String, List, [], ◌∷◌,
  ◌++◌, length, ltb, leb, if◌then◌else◌,
}
use toy_c_cp.Word.{neg32}
use toy_c_cp.Ast.{FuncRef}
use toy_c_cp.Ir.{Val, imm, reg, Op, Inst, Term, BasicBlock, IrFunc, Global, IrModule}
use toy_c_cp.Ir.Meaning.{bind}
use toy_c_cp.Rv.{
  x_ra, x_sp, x_t0, x_t1, x_a0, x_t6, Instr, li, lw, sw, lui_hi, lw_lo, sw_lo, Line, instr,
  block_label, label, globl, section_data, section_text, blank, p2align, word,
}

-- The offsets from sp in a frame: arguments on the stack, the slots, ra.
pub record Frame : Type 0 where
  pub out_arg_area : ℕ
  pub ra_off : ℕ
  pub frame_size : ℕ

-- On the numbers that are at least 0; `fits12(-n)` for such an n is `fits12_neg n`.
abbrev pub fits12 : ℕ → Bool
fits12 n = leb n 2047

abbrev pub fits12_neg : ℕ → Bool
fits12_neg n = leb n 2048

unfoldable pub align16 : ℕ → ℕ
align16 n = (n + 15) / 16 * 16

unfoldable pub slot_off : Frame → ℕ → ℕ
slot_off fr v = fr.out_arg_area + v * 4

unfoldable pub load_off : ℕ → ℕ → List Instr
load_off r off =
    if fits12 off
    then lw r off x_sp ∷ []
    else li x_t6 off ∷ Instr.add x_t6 x_sp x_t6 ∷ lw r 0 x_t6 ∷ []

unfoldable pub store_off : ℕ → ℕ → List Instr
store_off r off =
    if fits12 off
    then sw r off x_sp ∷ []
    else li x_t6 off ∷ Instr.add x_t6 x_sp x_t6 ∷ sw r 0 x_t6 ∷ []

unfoldable pub load_slot : Frame → ℕ → ℕ → List Instr
load_slot fr r v = load_off r (slot_off fr v)

unfoldable pub store_slot : Frame → ℕ → ℕ → List Instr
store_slot fr r v = store_off r (slot_off fr v)

unfoldable pub load_val : Frame → Val → ℕ → List Instr
load_val fr (imm n) r = li r n ∷ []
load_val fr (reg v) r = load_slot fr r v

-- The instructions on t0 and t1 for a binary operator.
unfoldable pub alu : Op → List Instr
alu Op.add = Instr.add x_t0 x_t0 x_t1 ∷ []
alu Op.sub = Instr.sub x_t0 x_t0 x_t1 ∷ []
alu Op.mul = Instr.mul x_t0 x_t0 x_t1 ∷ []
alu Op.div = Instr.div x_t0 x_t0 x_t1 ∷ []
alu Op.rem = Instr.rem x_t0 x_t0 x_t1 ∷ []
alu Op.lt = Instr.slt x_t0 x_t0 x_t1 ∷ []
alu Op.gt = Instr.slt x_t0 x_t1 x_t0 ∷ []
alu Op.le = Instr.slt x_t0 x_t1 x_t0 ∷ Instr.xori x_t0 x_t0 1 ∷ []
alu Op.ge = Instr.slt x_t0 x_t0 x_t1 ∷ Instr.xori x_t0 x_t0 1 ∷ []
alu Op.eq = Instr.sub x_t0 x_t0 x_t1 ∷ Instr.seqz x_t0 x_t0 ∷ []
alu Op.ne = Instr.sub x_t0 x_t0 x_t1 ∷ Instr.snez x_t0 x_t0 ∷ []
alu _ = []

unfoldable pub emit_binary : Frame → Op → ℕ → Val → Val → List Instr
emit_binary fr op d a b =
    load_val fr a x_t0 ++ (load_val fr b x_t1 ++ (alu op ++ store_slot fr x_t0 d))

-- `for (i = n - 1; i >= 8; i--)`: the arguments from the ninth on, the last one first.
unfoldable pub stack_args : Frame → ℕ → List Val → List Instr
stack_args fr off [] = []
stack_args fr off (v ∷ vs) =
    stack_args fr (off + 4) vs ++ (load_val fr v x_t0 ++ store_off x_t0 off)

unfoldable pub reg_args : Frame → ℕ → List Val → List Instr
reg_args fr r [] = []
reg_args fr r (v ∷ vs) = load_val fr v r ++ reg_args fr (r + 1) vs

unfoldable pub take {ℓ} : {A : Type ℓ} → ℕ → List A → List A
take zero xs = []
take (suc n) [] = []
take (suc n) (x ∷ xs) = x ∷ take n xs

unfoldable pub drop {ℓ} : {A : Type ℓ} → ℕ → List A → List A
drop zero xs = xs
drop (suc n) [] = []
drop (suc n) (x ∷ xs) = drop n xs

unfoldable pub emit_call : Frame → FuncRef → Option ℕ → List Val → List Instr
unfolding stack_args reg_args take drop
emit_call fr f d args =
    stack_args fr 0 (drop 8 args)
    ++ (reg_args fr x_a0 (take 8 args)
        ++ (Instr.call f.name ∷ elim d [ none ↦ [] | some v ↦ store_slot fr x_a0 v ]))

-- `none` where a destination, a global or a callee is missing (-1 or null in the source).
unfoldable pub emit_op :
    Frame → Op → Option ℕ → Val → Val → Option ℕ → Option FuncRef → List Val → Option (List Instr)
emit_op fr Op.mv d a b g f args = bind d (λ r. some (load_val fr a x_t0 ++ store_slot fr x_t0 r))
emit_op fr Op.load_global d a b g f args =
    bind g (λ n. bind d (λ r. some (lui_hi x_t0 n ∷ lw_lo x_t0 n x_t0 ∷ store_slot fr x_t0 r)))
emit_op fr Op.store_global d a b g f args =
    bind g (λ n. some (load_val fr a x_t0 ++ lui_hi x_t1 n ∷ sw_lo x_t0 n x_t1 ∷ []))
emit_op fr Op.neg d a b g f args =
    bind d (λ r. some (load_val fr a x_t0 ++ Instr.neg x_t0 x_t0 ∷ store_slot fr x_t0 r))
emit_op fr Op.not d a b g f args =
    bind d (λ r. some (load_val fr a x_t0 ++ Instr.seqz x_t0 x_t0 ∷ store_slot fr x_t0 r))
emit_op fr Op.call d a b g f args = bind f (λ c. some (emit_call fr c d args))
emit_op fr op d a b g f args = bind d (λ r. some (emit_binary fr op r a b))

unfoldable pub emit_inst : Frame → Inst → Option (List Instr)
emit_inst fr i = emit_op fr i.op i.dst i.a i.b i.gid i.callee i.args

unfoldable pub emit_insts : Frame → List Inst → Option (List Instr)
emit_insts fr [] = some []
emit_insts fr (i ∷ is) = bind (emit_inst fr i) (λ c. bind (emit_insts fr is) (λ cs. some (c ++ cs)))

unfoldable pub emit_epilogue : Frame → List Instr
emit_epilogue fr =
    load_off x_ra fr.ra_off
    ++ ((if fits12 fr.frame_size
          then Instr.addi x_sp x_sp fr.frame_size ∷ []
          else li x_t6 fr.frame_size ∷ Instr.add x_sp x_sp x_t6 ∷ [])
        ++ Instr.ret ∷ [])

unfoldable pub emit_term : Frame → String → BasicBlock → Term → Option (List Instr)
unfolding emit_epilogue
emit_term fr f bb Term.jmp = bind bb.succ0 (λ t. some (Instr.j f t ∷ []))
emit_term fr f bb Term.br = bind bb.succ0 (λ t.
    bind bb.succ1 (λ e. some (load_val fr bb.cond x_t0 ++ Instr.bnez x_t0 f t ∷ Instr.j f e ∷ [])))
emit_term fr f bb Term.ret =
    some ((if bb.ret_has_val then load_val fr bb.ret_val x_a0 else []) ++ emit_epilogue fr)
emit_term fr f bb Term.none_yet = some (emit_epilogue fr)

abbrev pub lines : List Instr → List Line
lines [] = []
lines (i ∷ is) = instr i ∷ lines is

unfoldable pub emit_blocks : Frame → String → List BasicBlock → Option (List Line)
unfolding emit_insts emit_term
emit_blocks fr f [] = some []
emit_blocks fr f (bb ∷ bbs) = bind (emit_insts fr bb.insts) (λ is.
    bind (emit_term fr f bb bb.term) (λ tm.
      bind (emit_blocks fr f bbs)
        (λ rest. some (block_label f bb.id ∷ (lines is ++ (lines tm ++ rest))))))

-- `std::max(maxStackArgs, (int)in.args.size() - 8)`, from 0.
abbrev max_ℕ : ℕ → ℕ → ℕ
max_ℕ a b = if ltb a b then b else a

abbrev call_args : Op → List Val → ℕ
call_args Op.call args = length args - 8
call_args _ args = 0

unfoldable pub insts_stack_args : List Inst → ℕ
insts_stack_args [] = 0
insts_stack_args (i ∷ is) = max_ℕ (call_args i.op i.args) (insts_stack_args is)

unfoldable pub max_stack_args : List BasicBlock → ℕ
unfolding insts_stack_args
max_stack_args [] = 0
max_stack_args (bb ∷ bbs) = max_ℕ (insts_stack_args bb.insts) (max_stack_args bbs)

unfoldable pub frame_of : IrFunc → Frame
unfolding max_stack_args align16
frame_of f =
    let area = max_stack_args f.blocks * 4 in
    let ra = area + f.num_vregs * 4 in
    record { out_arg_area = area; ra_off = ra; frame_size = align16 (ra + 4) }

-- The incoming parameters: a0 to a7, then the caller's stack.
unfoldable pub emit_params : Frame → ℕ → List ℕ → List Instr
emit_params fr i [] = []
emit_params fr i (v ∷ vs) =
    (if ltb i 8
      then store_slot fr (x_a0 + i) v
      else load_off x_t0 (fr.frame_size + (i - 8) * 4) ++ store_slot fr x_t0 v)
    ++ emit_params fr (i + 1) vs

unfoldable pub emit_prologue : Frame → List Instr
emit_prologue fr =
    (if fits12_neg fr.frame_size
      then Instr.addi x_sp x_sp (neg32 fr.frame_size) ∷ []
      else li x_t6 fr.frame_size ∷ Instr.sub x_sp x_sp x_t6 ∷ [])
    ++ store_off x_ra fr.ra_off

unfoldable pub emit_func : IrFunc → Option (List Line)
unfolding emit_blocks emit_params emit_prologue
emit_func f =
    let fr = frame_of f in
    bind (emit_blocks fr f.name f.blocks) (λ body. some (
      globl f.name
      ∷ p2align 1
      ∷ label f.name
      ∷ (lines (emit_prologue fr ++ emit_params fr 0 (take f.num_params f.param_regs))
          ++ (body ++ blank ∷ []))))

unfoldable pub emit_data : List Global → List Line
emit_data [] = []
emit_data (g ∷ gs) = globl g.name ∷ p2align 2 ∷ label g.name ∷ word g.init ∷ emit_data gs

unfoldable pub emit_funcs : List IrFunc → Option (List Line)
unfolding emit_func
emit_funcs [] = some []
emit_funcs (f ∷ fs) = bind (emit_func f) (λ c. bind (emit_funcs fs) (λ cs. some (c ++ cs)))

abbrev pub data_section : List Global → List Line
data_section [] = []
data_section (g ∷ gs) = section_data ∷ emit_data (g ∷ gs)

unfoldable pub generate_asm_naive : IrModule → Option (List Line)
unfolding emit_data emit_funcs
generate_asm_naive m =
    bind (emit_funcs m.funcs) (λ code. some (data_section m.globals ++ section_text ∷ code))
