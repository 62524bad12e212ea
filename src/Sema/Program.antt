-- ===== src/Sema/Program.antt =====
-- src/sema/Sema.cpp, Sema::analyze: the globals and the function table first, then the bodies.
pub mod Main
use toy_c_cp.Prelude.{
  ℕ, ◌+◌, Bool, true, false, not, ◌||◌, Option, none, some, str_eq, [], ◌∷◌, length, ◌==◌,
  if◌then◌else◌,
}
use toy_c_cp.Ast.{SymbolKind, GlobalVar, FuncDef, FuncRef, global, func, Module, info_of}
use toy_c_cp.Sema.Scope.{
  State, Analysed, ok, ◌>>=◌, ◌>>◌, reject_if, find, declare, push_scope, pop_scope, initial,
  nonconst_global, redefinition, bad_main, missing_main,
}
use toy_c_cp.Sema.Expr.{analyze_expr}
use toy_c_cp.Sema.Stmt.{analyze_func}

-- The symbol of a global: a constant, or a variable with the next number.
unfoldable pub declare_global : GlobalVar → ℕ → State → State × ℕ
unfolding declare
declare_global g v s =
    if g.is_const
    then declare g.name SymbolKind.const (λ sym. record sym { is_const = true; const_value = v }) s
    else declare g.name SymbolKind.global_var
        (λ sym. record sym { global_id = some s.global_count })
        (record s { global_count = s.global_count + 1 })

unfoldable pub analyze_global : State → GlobalVar → Analysed (State × GlobalVar)
unfolding declare_global info_of
analyze_global s g = do
  init' ← analyze_expr s g.init
  let i = info_of init'
  reject_if (not i.is_const) g.line (nonconst_global g.name)
  let declared = declare_global g i.const_value s
  ok (declared.0, record g { init = init'; init_value = i.const_value; sym = some declared.1 })

abbrev pub func_ref : FuncDef → FuncRef
func_ref fn = record {
  name = fn.name;
  returns_void = fn.returns_void;
  num_params = length fn.params;
}

unfoldable pub is_some {ℓ} : {A : Type ℓ} → Option A → Bool
is_some none = false
is_some (some a) = true

-- The state and whether `main` was met.
unfoldable pub register_func : State → FuncDef → Analysed (State × Bool)
unfolding find is_some
register_func s fn = do
  reject_if (is_some (find fn.name s.funcs)) fn.line (redefinition fn.name)
  let is_main = str_eq fn.name "main"
  let bad = if is_main then fn.returns_void || not (length fn.params == 0) else false
  reject_if bad fn.line bad_main
  ok (record s { funcs = (fn.name, func_ref fn) ∷ s.funcs }, is_main)

-- The first loop over the items.
unfoldable pub analyze_globals : State → Bool → Module → Analysed (State × Bool × Module)
unfolding analyze_global register_func
analyze_globals s has_main [] = ok (s, has_main, [])
analyze_globals s has_main (global g ∷ items) = do
  (s', g') ← analyze_global s g
  (s'', m, items') ← analyze_globals s' has_main items
  ok (s'', m, global g' ∷ items')
analyze_globals s has_main (func fn ∷ items) = do
  (s', is_main) ← register_func s fn
  (s'', m, items') ← analyze_globals s' (has_main || is_main) items
  ok (s'', m, func fn ∷ items')

-- The second loop, over the function bodies.
unfoldable pub analyze_funcs : State → Module → Analysed (State × Module)
unfolding analyze_func
analyze_funcs s [] = ok (s, [])
analyze_funcs s (global g ∷ items) = do
  (s', items') ← analyze_funcs s items
  ok (s', global g ∷ items')
analyze_funcs s (func fn ∷ items) = do
  (s', fn') ← analyze_func s fn
  (s'', items') ← analyze_funcs s' items
  ok (s'', func fn' ∷ items')

-- The final state, whose `global_count` and arena the next pass reads, and the annotated module.
unfoldable pub analyze : Module → Analysed (State × Module)
unfolding analyze_globals analyze_funcs push_scope pop_scope
analyze m = do
  (s, has_main, m') ← analyze_globals (push_scope initial) false m
  reject_if (not has_main) 0 missing_main
  (s', m'') ← analyze_funcs s m'
  ok (pop_scope s', m'')
