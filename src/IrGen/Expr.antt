-- ===== src/IrGen/Expr.antt =====
-- src/ir/IRGen.cpp, IRGen::genExpr and IRGen::genCond. The two call one another on one node, so
-- what a node does with its parts is a helper that takes the parts' code.
use toy_c_cp.Prelude.{ℕ, Bool, true, false, Option, none, some, List, [], ◌∷◌, ◌==◌, if◌then◌else◌}
use toy_c_cp.Ast.{
  BinOp, UnOp, Expr, Exprs, Info, Symbol, SymbolKind, FuncRef, number, var, binary, logical, unary,
  call, nil, cons,
}
use toy_c_cp.Ir.{Val, imm, reg, Op, inst, mv_inst}
use toy_c_cp.IrGen.State.{
  M, ◌>>=◌, ◌>>◌, pure, the, new_vreg, new_block, start_block, emit, term_jmp, term_br, symbol,
}

unfoldable pub map_bin : BinOp → Op
map_bin BinOp.add = Op.add
map_bin BinOp.sub = Op.sub
map_bin BinOp.mul = Op.mul
map_bin BinOp.div = Op.div
map_bin BinOp.rem = Op.rem
map_bin BinOp.lt = Op.lt
map_bin BinOp.gt = Op.gt
map_bin BinOp.le = Op.le
map_bin BinOp.ge = Op.ge
map_bin BinOp.eq = Op.eq
map_bin BinOp.ne = Op.ne

unfoldable pub gen_symbol : SymbolKind → Symbol → M Val
gen_symbol SymbolKind.global_var s = do
  gid ← the s.global_id
  t ← new_vreg
  emit (record (inst Op.load_global) { dst = some t; gid = some gid })
  pure (reg t)
gen_symbol _ s = do r ← the s.ir_id; pure (reg r)

unfoldable pub gen_var : Option ℕ → M Val
unfolding gen_symbol
gen_var p = do s ← symbol p; gen_symbol s.kind s

unfoldable pub gen_binary : BinOp → M Val → M Val → M Val
unfolding map_bin
gen_binary op l r = do
  la ← l
  lb ← r
  t ← new_vreg
  emit (record (inst (map_bin op)) { dst = some t; a = la; b = lb })
  pure (reg t)

unary_inst : Op → M Val → M Val
unary_inst op e = do
  a ← e
  t ← new_vreg
  emit (record (inst op) { dst = some t; a = a })
  pure (reg t)

unfoldable pub gen_unary : UnOp → M Val → M Val
unfolding unary_inst
gen_unary UnOp.plus e = e
gen_unary UnOp.neg e = unary_inst Op.neg e
gen_unary UnOp.not e = unary_inst Op.not e

-- `c` is the code that jumps to its first argument if the condition holds, else to its second.
unfoldable pub gen_logical : (ℕ → ℕ → M (Unit {0})) → M Val
gen_logical c = do
  res ← new_vreg
  t ← new_block
  f ← new_block
  end ← new_block
  c t f
  start_block t
  emit (mv_inst res (imm 1))
  term_jmp end
  start_block f
  emit (mv_inst res (imm 0))
  term_jmp end
  start_block end
  pure (reg res)

unfoldable pub call_result : FuncRef → M (Option ℕ × Val)
call_result f = if f.returns_void then pure (none, imm 0) else do t ← new_vreg; pure (some t, reg t)

unfoldable pub gen_call : Option FuncRef → M (List Val) → M Val
unfolding call_result
gen_call target args = do
  f ← the target
  vs ← args
  (dst, ret) ← call_result f
  emit (record (inst Op.call) { dst = dst; callee = some f; args = vs })
  pure ret

unfoldable pub cond_logical :
    Bool → (ℕ → ℕ → M (Unit {0})) → (ℕ → ℕ → M (Unit {0})) → ℕ → ℕ → M (Unit {0})
cond_logical true l r t f = do mid ← new_block; l t mid; start_block mid; r t f
cond_logical false l r t f = do mid ← new_block; l mid f; start_block mid; r t f

unfoldable pub cond_value : M Val → ℕ → ℕ → M (Unit {0})
cond_value m t f = do v ← m; term_br v t f

unfoldable pub cond_unary : UnOp → M Val → (ℕ → ℕ → M (Unit {0})) → ℕ → ℕ → M (Unit {0})
unfolding cond_value gen_unary
cond_unary UnOp.not m c t f = c f t
cond_unary op m c t f = cond_value (gen_unary op m) t f

-- `if (e->isConst) return Val::I(e->constValue);`
unfoldable pub const_or : Info → M Val → M Val
const_or i m = if i.is_const then pure (imm i.const_value) else m

-- `if (e->isConst) { termJmp(e->constValue != 0 ? tBB : fBB); return; }`
unfoldable pub jump_or : Info → ℕ → ℕ → M (Unit {0}) → M (Unit {0})
jump_or i t f m = if i.is_const then term_jmp (if i.const_value == 0 then f else t) else m

unfoldable mutual
  unfolding gen_var gen_binary gen_unary gen_logical gen_call cond_logical cond_value cond_unary
      const_or jump_or

  pub gen_expr : Expr → M Val
  gen_expr (number i v) = const_or i (pure (imm 0))
  gen_expr (var i n p) = const_or i (gen_var p)
  gen_expr (binary i op l r) = const_or i (gen_binary op (gen_expr l) (gen_expr r))
  gen_expr (logical i is_or l r) =
      const_or i (gen_logical (cond_logical is_or (gen_cond l) (gen_cond r)))
  gen_expr (unary i op e) = const_or i (gen_unary op (gen_expr e))
  gen_expr (call i n args target) = const_or i (gen_call target (gen_args args))

  pub gen_args : Exprs → M (List Val)
  gen_args nil = pure []
  gen_args (cons e es) = do v ← gen_expr e; vs ← gen_args es; pure (v ∷ vs)

  pub gen_cond : Expr → ℕ → ℕ → M (Unit {0})
  gen_cond (number i v) t f = jump_or i t f (cond_value (pure (imm 0)) t f)
  gen_cond (var i n p) t f = jump_or i t f (cond_value (gen_var p) t f)
  gen_cond (binary i op l r) t f =
      jump_or i t f (cond_value (gen_binary op (gen_expr l) (gen_expr r)) t f)
  gen_cond (logical i is_or l r) t f =
      jump_or i t f (cond_logical is_or (gen_cond l) (gen_cond r) t f)
  gen_cond (unary i op e) t f = jump_or i t f (cond_unary op (gen_expr e) (gen_cond e) t f)
  gen_cond (call i n args target) t f =
      jump_or i t f (cond_value (gen_call target (gen_args args)) t f)
