-- ===== src/Sema/Stmt.antt =====
-- src/sema/Sema.cpp, Sema::analyzeStmt and Sema::analyzeFunc.
pub mod Balance
use toy_c_cp.Prelude.{
  ℕ, ◌+◌, ◌-◌, Bool, true, false, not, Option, none, some, String, List, [], ◌∷◌, ◌==◌,
  if◌then◌else◌,
}
use toy_c_cp.Ast.{
  Stmt, Stmts, Expr, Symbol, SymbolKind, FuncDef, Param, info_of, block, empty, expr_stmt, assign,
  var_decl, if_then, if_else, while, break, continue, return_void, return_value, done, seq,
}
use toy_c_cp.Sema.Scope.{
  State, Analysed, ok, thrown, ◌>>=◌, ◌>>◌, reject_if, lookup, declare, push_scope, pop_scope,
  undeclared, assign_const, nonconst_local, break_outside, continue_outside,
}
use toy_c_cp.Sema.Expr.{analyze_expr, deref}

-- `lookup` and the two checks on the target of an assignment.
unfoldable pub is_const_symbol : Option Symbol → Bool
is_const_symbol none = false
is_const_symbol (some sym) = sym.is_const

unfoldable pub resolve_target : State → ℕ → String → Option ℕ → Analysed ℕ
unfolding deref is_const_symbol
resolve_target s l n none = thrown l (undeclared n)
resolve_target s l n (some id) = do
  reject_if (is_const_symbol (deref s id)) l (assign_const n)
  ok id

-- The symbol of a local declaration; `e` is its analysed initializer.
unfoldable pub declare_local : ℕ → Bool → String → Expr → State → Analysed (State × ℕ)
unfolding declare info_of
declare_local l true n e s = do
  let i = info_of e
  reject_if (not i.is_const) l (nonconst_local n)
  ok (
      declare n SymbolKind.const
        (λ sym. record sym { is_const = true; const_value = i.const_value }) s)
declare_local l false n e s = ok (declare n SymbolKind.local_var (λ sym. sym) s)

abbrev pub enter_loop : State → State
enter_loop s = record s { loop_depth = s.loop_depth + 1 }

abbrev pub leave_loop : State → State
leave_loop s = record s { loop_depth = s.loop_depth - 1 }

unfoldable mutual
  unfolding resolve_target declare_local push_scope pop_scope

  pub analyze_stmt : State → Stmt → Analysed (State × Stmt)
  analyze_stmt s (block l ss) = do
    (s', ss') ← analyze_stmts (push_scope s) ss
    ok (pop_scope s', block l ss')
  analyze_stmt s (empty l) = ok (s, empty l)
  analyze_stmt s (expr_stmt l e) = do e' ← analyze_expr s e; ok (s, expr_stmt l e')
  analyze_stmt s (assign l n sym e) = do
    id ← resolve_target s l n (lookup s n)
    e' ← analyze_expr s e
    ok (s, assign l n (some id) e')
  analyze_stmt s (var_decl l c n e sym) = do
    e' ← analyze_expr s e
    (s', id) ← declare_local l c n e' s
    ok (s', var_decl l c n e' (some id))
  analyze_stmt s (if_then l c t) = do
    c' ← analyze_expr s c
    (s', t') ← analyze_stmt s t
    ok (s', if_then l c' t')
  analyze_stmt s (if_else l c t f) = do
    c' ← analyze_expr s c
    (s', t') ← analyze_stmt s t
    (s'', f') ← analyze_stmt s' f
    ok (s'', if_else l c' t' f')
  analyze_stmt s (while l c b) = do
    c' ← analyze_expr s c
    (s', b') ← analyze_stmt (enter_loop s) b
    ok (leave_loop s', while l c' b')
  analyze_stmt s (break l) = do reject_if (s.loop_depth == 0) l break_outside; ok (s, break l)
  analyze_stmt s (continue l) = do
    reject_if (s.loop_depth == 0) l continue_outside
    ok (s, continue l)
  analyze_stmt s (return_void l) = ok (s, return_void l)
  analyze_stmt s (return_value l e) = do e' ← analyze_expr s e; ok (s, return_value l e')

  pub analyze_stmts : State → Stmts → Analysed (State × Stmts)
  analyze_stmts s done = ok (s, done)
  analyze_stmts s (seq st ss) = do
    (s', st') ← analyze_stmt s st
    (s'', ss') ← analyze_stmts s' ss
    ok (s'', seq st' ss')

unfoldable pub declare_params : State → List Param → State × List Param
unfolding declare
declare_params s [] = (s, [])
declare_params s (p ∷ ps) =
    let (s', id) = declare p.name SymbolKind.param (λ sym. sym) s in
    let (s'', ps') = declare_params s' ps in (s'', record p { sym = some id } ∷ ps')

-- The body is a `BlockStmt`, so it opens a scope of its own below the parameters'.
unfoldable pub analyze_func : State → FuncDef → Analysed (State × FuncDef)
unfolding declare_params push_scope pop_scope
analyze_func s fn = do
  let declared = declare_params (push_scope s) fn.params
  (s', body') ← analyze_stmts (push_scope declared.0) fn.body
  ok (pop_scope (pop_scope s'), record fn { params = declared.1; body = body' })
