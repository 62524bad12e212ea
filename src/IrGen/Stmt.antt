-- ===== src/IrGen/Stmt.antt =====
-- src/ir/IRGen.cpp, IRGen::genStmt.
use toy_c_cp.Prelude.{ℕ, true, false, Option, some, ◌==◌, if◌then◌else◌}
use toy_c_cp.Ast.{
  Stmt, Stmts, Info, Symbol, SymbolKind, info_of, block, empty, expr_stmt, assign, var_decl,
  if_then, if_else, while, break, continue, return_void, return_value, done, seq,
}
use toy_c_cp.Ir.{Val, imm, Op, inst, mv_inst}
use toy_c_cp.IrGen.State.{
  M, ◌>>=◌, ◌>>◌, pure, the, new_vreg, new_block, start_block, emit, term_jmp, term_ret, symbol,
  set_ir_id, push_loop, pop_loop, cur_loop,
}
use toy_c_cp.IrGen.Expr.{gen_expr, gen_cond}

unfoldable pub store_symbol : SymbolKind → Symbol → Val → M (Unit {0})
store_symbol SymbolKind.global_var s v = do
  gid ← the s.global_id
  emit (record (inst Op.store_global) { gid = some gid; a = v })
store_symbol _ s v = do r ← the s.ir_id; emit (mv_inst r v)

unfoldable pub gen_assign : Option ℕ → M Val → M (Unit {0})
unfolding store_symbol
gen_assign p e = do v ← e; s ← symbol p; store_symbol s.kind s v

unfoldable pub gen_decl : Option ℕ → M Val → M (Unit {0})
gen_decl p e = do v ← new_vreg; set_ir_id p v; init ← e; emit (mv_inst v init)

unfoldable pub gen_if_then : (ℕ → ℕ → M (Unit {0})) → M (Unit {0}) → M (Unit {0})
gen_if_then c t = do
  tb ← new_block
  jb ← new_block
  c tb jb
  start_block tb
  t
  term_jmp jb
  start_block jb

unfoldable pub gen_if_else : (ℕ → ℕ → M (Unit {0})) → M (Unit {0}) → M (Unit {0}) → M (Unit {0})
gen_if_else c t f = do
  tb ← new_block
  jb ← new_block
  eb ← new_block
  c tb eb
  start_block tb
  t
  term_jmp jb
  start_block eb
  f
  term_jmp jb
  start_block jb

unfoldable pub gen_while : (ℕ → ℕ → M (Unit {0})) → M (Unit {0}) → M (Unit {0})
gen_while c b = do
  bb ← new_block
  cb ← new_block
  ab ← new_block
  term_jmp cb
  push_loop (record { continue_bb = cb; break_bb = ab })
  start_block bb
  b
  term_jmp cb
  pop_loop
  start_block cb
  c bb ab
  start_block ab

-- `if (i->cond->isConst)`: only the branch that is taken is translated.
unfoldable pub static_if : Info → M (Unit {0}) → M (Unit {0}) → M (Unit {0}) → M (Unit {0})
static_if i t f dynamic = if i.is_const then if i.const_value == 0 then f else t else dynamic

unfoldable mutual
  unfolding gen_assign gen_decl gen_if_then gen_if_else gen_while static_if info_of

  pub gen_stmt : Stmt → M (Unit {0})
  gen_stmt (block l ss) = gen_stmts ss
  gen_stmt (empty l) = pure tt
  gen_stmt (expr_stmt l e) = do v ← gen_expr e; pure tt
  gen_stmt (var_decl l c n e p) = if c then pure tt else gen_decl p (gen_expr e)
  gen_stmt (assign l n p e) = gen_assign p (gen_expr e)
  gen_stmt (if_then l c t) =
      static_if (info_of c) (gen_stmt t) (pure tt) (gen_if_then (gen_cond c) (gen_stmt t))
  gen_stmt (if_else l c t f) =
      static_if (info_of c) (gen_stmt t) (gen_stmt f)
        (gen_if_else (gen_cond c) (gen_stmt t) (gen_stmt f))
  gen_stmt (while l c b) = gen_while (gen_cond c) (gen_stmt b)
  gen_stmt (break l) = do lp ← cur_loop; term_jmp lp.break_bb
  gen_stmt (continue l) = do lp ← cur_loop; term_jmp lp.continue_bb
  gen_stmt (return_void l) = term_ret false (imm 0)
  gen_stmt (return_value l e) = do v ← gen_expr e; term_ret true v

  pub gen_stmts : Stmts → M (Unit {0})
  gen_stmts done = pure tt
  gen_stmts (seq s ss) = do gen_stmt s; gen_stmts ss
