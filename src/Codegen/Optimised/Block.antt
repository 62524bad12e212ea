-- ===== src/Codegen/Optimised/Block.antt =====
-- src/codegen/OptCodeGen.cpp, the code of a block: the comparison before a branch and the instruction
-- before a return are taken into the terminator.
use toy_c_cp.Prelude.{
  ℕ, ◌+◌, Bool, true, false, ◌&&◌, Option, none, some, String, List, [], ◌∷◌, ◌++◌, leb, ◌==◌,
  if◌then◌else◌,
}
use toy_c_cp.Ir.{Val, reg, Op, Inst, Term, BasicBlock}
use toy_c_cp.Ir.Meaning.{bind}
use toy_c_cp.Rv.{
  x_ra, x_sp, x_a0, x_t6, scratch0, scratch1, Instr, li, addi, j, bnez, beqz, blt, bge, beq, bne,
  ret,
}
use toy_c_cp.Codegen.Optimised.Access.{Context, load_off, to_reg, materialize}
use toy_c_cp.Codegen.Optimised.Inst.{emit_inst, emit_insts}

abbrev pub is_cmp : Op → Bool
is_cmp Op.lt = true
is_cmp Op.gt = true
is_cmp Op.le = true
is_cmp Op.ge = true
is_cmp Op.eq = true
is_cmp Op.ne = true
is_cmp _ = false

unfoldable pub invert_cmp : Op → Op
invert_cmp Op.lt = Op.ge
invert_cmp Op.ge = Op.lt
invert_cmp Op.gt = Op.le
invert_cmp Op.le = Op.gt
invert_cmp Op.eq = Op.ne
invert_cmp Op.ne = Op.eq
invert_cmp op = op

-- The branch for a comparison of two registers.
unfoldable pub branch_on : Op → ℕ → ℕ → String → ℕ → List Instr
branch_on Op.lt a b f n = blt a b f n ∷ []
branch_on Op.ge a b f n = bge a b f n ∷ []
branch_on Op.gt a b f n = blt b a f n ∷ []
branch_on Op.le a b f n = bge b a f n ∷ []
branch_on Op.eq a b f n = beq a b f n ∷ []
branch_on Op.ne a b f n = bne a b f n ∷ []
branch_on _ a b f n = []

unfoldable pub emit_branch_cmp : Context → Op → Val → Val → String → ℕ → Bool → Option (List Instr)
unfolding to_reg invert_cmp branch_on
emit_branch_cmp c op a b f n negate = bind (to_reg c a scratch0) (λ (ra, is).
    bind (to_reg c b scratch1)
      (λ (rb, js). some (is ++ (js ++ branch_on (if negate then invert_cmp op else op) ra rb f n))))

abbrev pub load_callees : ℕ → List ℕ → List Instr
load_callees off [] = []
load_callees off (r ∷ rs) = load_off r off ++ load_callees (off + 4) rs

unfoldable pub emit_epilogue : Context → List Instr
unfolding load_off
emit_epilogue c =
    load_callees c.callee_base c.alloc.used_callee
    ++ ((if c.alloc.is_leaf then [] else load_off x_ra c.ra_off)
        ++ ((if c.frame_size == 0
              then []
              else if leb c.frame_size 2047
              then addi x_sp x_sp c.frame_size ∷ []
              else li x_t6 c.frame_size ∷ Instr.add x_sp x_sp x_t6 ∷ [])
            ++ ret ∷ []))

-- `fused` and `retFuse`.
pub data Fusion : Type 0 where
  unfused : Fusion
  into_branch : Inst → Fusion
  into_return : Inst → Fusion

abbrev pub last_inst : List Inst → Option Inst
last_inst [] = none
last_inst (i ∷ []) = some i
last_inst (i ∷ k ∷ is) = last_inst (k ∷ is)

abbrev pub but_last : List Inst → List Inst
but_last [] = []
but_last (i ∷ []) = []
but_last (i ∷ k ∷ is) = i ∷ but_last (k ∷ is)

-- `last.dst == v.reg && useCount_[last.dst] == 1`.
abbrev pub only_use : Context → Option ℕ → Val → Bool
only_use c (some d) (reg r) = d == r && c.use_count d == 1
only_use c _ _ = false

abbrev pub fusion_with : Context → BasicBlock → Term → Option Inst → Fusion
fusion_with c bb Term.br (some i) =
    if is_cmp i.op && only_use c i.dst bb.cond then into_branch i else unfused
fusion_with c bb Term.ret (some i) =
    if bb.ret_has_val && only_use c i.dst bb.ret_val then into_return i else unfused
fusion_with c bb _ _ = unfused

unfoldable pub fusion_of : Context → BasicBlock → Fusion
fusion_of c bb = fusion_with c bb bb.term (last_inst bb.insts)

-- The block that follows in the output; -1 behind the last one.
abbrev pub is_next : Option ℕ → ℕ → Bool
is_next none n = false
is_next (some k) n = n == k

-- A branch to `t`, and else to `e`, by the code that branches to a block, as it is or negated.
unfoldable pub emit_br :
    String → Option ℕ → ℕ → ℕ → (ℕ → Bool → Option (List Instr)) → Option (List Instr)
emit_br f next t e branch =
    if is_next next e
    then branch t false
    else if is_next next t
    then branch e true
    else bind (branch t false) (λ is. some (is ++ j f e ∷ []))

unfoldable pub branch_zero : Context → Val → String → ℕ → Bool → Option (List Instr)
unfolding to_reg
branch_zero c v f n negate =
    bind (to_reg c v scratch0)
      (λ (r, is). some (is ++ (if negate then beqz r f n ∷ [] else bnez r f n ∷ [])))

unfoldable pub emit_cond : Context → String → Option ℕ → Val → ℕ → ℕ → Fusion → Option (List Instr)
unfolding emit_br emit_branch_cmp branch_zero
emit_cond c f next v t e (into_branch i) =
    emit_br f next t e (λ n negate. emit_branch_cmp c i.op i.a i.b f n negate)
emit_cond c f next v t e _ = emit_br f next t e (branch_zero c v f)

unfoldable pub emit_ret : Context → BasicBlock → Fusion → Option (List Instr)
unfolding emit_inst materialize
emit_ret c bb (into_return i) = emit_inst c (some x_a0) i
emit_ret c bb _ = if bb.ret_has_val then materialize c bb.ret_val x_a0 else some []

-- `none` where a successor is missing (-1).
unfoldable pub emit_term :
    Context → String → BasicBlock → Option ℕ → Fusion → Term → Option (List Instr)
unfolding emit_cond emit_ret emit_epilogue
emit_term c f bb next fusion Term.jmp =
    bind bb.succ0 (λ t. some (if is_next next t then [] else j f t ∷ []))
emit_term c f bb next fusion Term.br =
    bind bb.succ0 (λ t. bind bb.succ1 (λ e. emit_cond c f next bb.cond t e fusion))
emit_term c f bb next fusion Term.ret =
    bind (emit_ret c bb fusion) (λ is. some (is ++ emit_epilogue c))
emit_term c f bb next fusion Term.none_yet = some (emit_epilogue c)

-- The instructions that are not taken into the terminator.
abbrev pub own_insts : Fusion → List Inst → List Inst
own_insts unfused is = is
own_insts _ is = but_last is

-- A block behind its label.
unfoldable pub emit_block : Context → String → BasicBlock → Option ℕ → Option (List Instr)
unfolding fusion_of emit_insts emit_term
emit_block c f bb next =
    let fusion = fusion_of c bb in
    bind (emit_insts c (own_insts fusion bb.insts))
      (λ is. bind (emit_term c f bb next fusion bb.term) (λ js. some (is ++ js)))
