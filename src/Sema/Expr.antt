-- ===== src/Sema/Expr.antt =====
-- src/sema/Sema.cpp, Sema::analyzeExpr: it resolves the names of an expression and marks what folds
-- to a constant. The annotated tree is the result; the analysis's state is only read.
pub mod Folding
use toy_c_cp.Prelude.{
  ℕ, Bool, true, false, ◌&&◌, ◌||◌, not, Option, none, some, String, List, get_elem?, suc, ◌==◌,
  if◌then◌else◌,
}
use toy_c_cp.Ast.{
  BinOp, Expr, Exprs, Info, Symbol, FuncRef, info_of, set_const, number, var, binary, logical,
  unary, call, nil, cons,
}
use toy_c_cp.Sema.Eval.{eval_bin, eval_un}
use toy_c_cp.Sema.Scope.{
  State, Analysed, ok, thrown, ◌>>=◌, ◌>>◌, reject_if, find, lookup, undeclared, undeclared_func,
  arity, div_by_zero,
}

-- The symbol behind a `Symbol*`.
unfoldable pub deref : State → ℕ → Option Symbol
deref s id = get_elem? s.arena id

-- `if (sym->isConst) { v->isConst = true; v->constValue = sym->constValue; }`
unfoldable pub mark_var : Info → Option Symbol → Info
mark_var i none = i
mark_var i (some sym) = if sym.is_const then set_const i sym.const_value else i

unfoldable pub resolve_var : State → Info → String → Option ℕ → Analysed Expr
unfolding deref mark_var
resolve_var s i n none = thrown i.line (undeclared n)
resolve_var s i n (some id) = ok (var (mark_var i (deref s id)) n (some id))

-- The result of `evalBin` on two constant operands: a division by zero is an error.
unfoldable pub store_fold : Info → Option ℕ → Analysed Info
store_fold i none = thrown i.line div_by_zero
store_fold i (some v) = ok (set_const i v)

unfoldable pub fold_binary : Info → BinOp → Info → Info → Analysed Info
unfolding store_fold
fold_binary i op l r =
    if l.is_const && r.is_const
    then store_fold i (eval_bin op l.const_value r.const_value)
    else ok i

unfoldable pub fold_logical : Info → Bool → Info → Info → Info
fold_logical i is_or l r =
    if l.is_const
    then if is_or && not (l.const_value == 0)
      then set_const i 1
      else if not is_or && l.const_value == 0
      then set_const i 0
      else if r.is_const
      then set_const i (if r.const_value == 0 then 0 else 1)
      else i
    else i

unfoldable pub num_args : Exprs → ℕ
num_args nil = 0
num_args (cons e es) = suc (num_args es)

-- `funcs_.find(callee)` and the check of the number of arguments.
unfoldable pub resolve_call : Info → String → ℕ → Option FuncRef → Analysed FuncRef
resolve_call i n k none = thrown i.line (undeclared_func n)
resolve_call i n k (some f) = do
  reject_if (not (k == f.num_params)) i.line (arity n f.num_params)
  ok f

unfoldable mutual
  unfolding resolve_var fold_binary fold_logical num_args resolve_call eval_bin eval_un info_of

  pub analyze_expr : State → Expr → Analysed Expr
  analyze_expr s (number i v) = ok (number i v)
  analyze_expr s (var i n sym) = resolve_var s i n (lookup s n)
  analyze_expr s (binary i op l r) = do
    l' ← analyze_expr s l
    r' ← analyze_expr s r
    i' ← fold_binary i op (info_of l') (info_of r')
    ok (binary i' op l' r')
  analyze_expr s (logical i is_or l r) = do
    l' ← analyze_expr s l
    r' ← analyze_expr s r
    ok (logical (fold_logical i is_or (info_of l') (info_of r')) is_or l' r')
  analyze_expr s (unary i op e) = do
    e' ← analyze_expr s e
    let a = info_of e'
    ok (unary (if a.is_const then set_const i (eval_un op a.const_value) else i) op e')
  analyze_expr s (call i n args target) = do
    f ← resolve_call i n (num_args args) (find n s.funcs)
    args' ← analyze_args s args
    ok (call i n args' (some f))

  pub analyze_args : State → Exprs → Analysed Exprs
  analyze_args s nil = ok nil
  analyze_args s (cons e es) = do e' ← analyze_expr s e; es' ← analyze_args s es; ok (cons e' es')
