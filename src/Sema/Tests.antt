-- ===== src/Sema/Tests.antt =====
-- The analysis of small trees, and the code of one of them.
use toy_c_cp.Prelude.{ℕ, ◌≡◌, refl, true, false, none, some, [], ◌∷◌, ◌++◌}
use toy_c_cp.Ast.{
  Expr, Stmt, number, var, logical, block, var_decl, while, break, done, seq, SymbolKind,
  new_symbol, number_info, plain_info, info_of,
}
use toy_c_cp.Sema.Scope.{State, ok, initial, lookup}
use toy_c_cp.Sema.Expr.{analyze_expr}
use toy_c_cp.Sema.Expr.Folding.{value_of, analyze_expr-const}
use toy_c_cp.Sema.Program.{analyze, func_ref}
use toy_c_cp.Sema.Program.Main.{HasMain, analyze-HasMain}
use toy_c_cp.Sema.Scope.{thrown, missing_main}
use toy_c_cp.Ast.{FuncDef, func, Module, return_value}
use toy_c_cp.Sema.Stmt.{analyze_stmts, analyze_stmt}
use toy_c_cp.Sema.Stmt.Balance.{Balanced, JumpsIn, analyze_stmt-Balanced}

abbrev num : ℕ → Expr
num n = number (number_info 1 n) n

-- 1 || x, where x is not constant: the left side decides.
abbrev decided : Expr
decided = logical (plain_info 1) true (num 5) (var (plain_info 1) "x" none)

-- A variable x in the global scope.
abbrev with_x : State
with_x = record initial {
  arena = new_symbol "x" SymbolKind.global_var ∷ [];
  scopes = (("x", 0) ∷ []) ∷ [];
}

abbrev decided' : Expr
decided' =
    logical (record { line = 1; is_const = true; const_value = 1 }) true (num 5)
      (var (plain_info 1) "x" (some 0))

decided-analyze_expr : analyze_expr with_x decided ≡ ok decided'
unfolding analyze_expr lookup
decided-analyze_expr = refl

analyze_expr-const_example : some 1 ≡ value_of with_x decided
unfolding info_of
analyze_expr-const_example =
    analyze_expr-const with_x decided (refl, (refl, refl), refl) decided-analyze_expr

-- while (x) { int y = x; break; }
abbrev looping : Stmt
looping =
    while 1 (var (plain_info 1) "x" none)
      (block 1 (seq (var_decl 2 false "y" (var (plain_info 2) "x" none) none) (seq (break 3) done)))

abbrev looping' : Stmt
looping' = while 1 (var (plain_info 1) "x" (some 0)) (
    block 1
      (seq (var_decl 2 false "y" (var (plain_info 2) "x" (some 0)) (some 1)) (seq (break 3) done)))

abbrev with_x_y : State
with_x_y = record with_x { arena = with_x.arena ++ new_symbol "y" SymbolKind.local_var ∷ [] }

looping-analyze_stmt : analyze_stmt with_x looping ≡ ok (with_x_y, looping')
unfolding analyze_stmt analyze_expr lookup
looping-analyze_stmt = refl

analyze_stmt-Balanced_example : Balanced with_x with_x_y × JumpsIn 0 looping'
analyze_stmt-Balanced_example =
    analyze_stmt-Balanced with_x with_x_y looping looping' looping-analyze_stmt

-- int main() { return 0; }
abbrev main_def : FuncDef
main_def = record {
  returns_void = false;
  name = "main";
  params = [];
  body_line = 1;
  body = seq (return_value 1 (num 0)) done;
  line = 1;
}

abbrev tiny : Module
tiny = func main_def ∷ []

tiny-analyze : analyze tiny ≡ ok (record initial { funcs = ("main", func_ref main_def) ∷ [] }, tiny)
unfolding analyze analyze_stmts analyze_expr
tiny-analyze = refl

analyze-HasMain_example : HasMain tiny
analyze-HasMain_example = analyze-HasMain tiny tiny-analyze

empty_program : analyze [] ≡ thrown 0 missing_main
unfolding analyze
empty_program = refl
