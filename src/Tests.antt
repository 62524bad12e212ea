-- ===== src/Tests.antt =====
-- One program through Sema, IRGen and the naive back end.
use toy_c_cp.Prelude.{ℕ, ◌≡◌, refl, false, Option, none, some, String, [], ◌∷◌, get_elem?}
use toy_c_cp.Ast.{
  BinOp, Expr, number, var, binary, logical, assign, var_decl, while, return_value, done, seq,
  global, func, Module, number_info, plain_info,
}
use toy_c_cp.Sema.Scope.{State, lookup, Analysed, ok, thrown}
use toy_c_cp.Sema.Program.{analyze}
use toy_c_cp.Ir.{IrModule, compute_cfg}
use toy_c_cp.Ir.Meaning.{bind, run, exec_block, exec_insts, exec_inst, exec_op, eval_op, finish}
use toy_c_cp.Ir.Meaning.Sample.{no_calls}
use toy_c_cp.Word.{add32, slt}
use toy_c_cp.Sema.Expr.{analyze_expr}
use toy_c_cp.Sema.Stmt.{analyze_stmts}
use toy_c_cp.IrGen.State.{
  new_block, start_block, new_vreg, set_ir_id, symbol, emit, term_jmp, push_loop, pop_loop, term_br,
  term_ret,
}
use toy_c_cp.IrGen.Expr.{gen_expr}
use toy_c_cp.IrGen.Stmt.{gen_stmts}
use toy_c_cp.IrGen.Program.{generate}

abbrev num : ℕ → Expr
num n = number (number_info 1 n) n

abbrev name : String → Expr
name n = var (plain_info 1) n none

abbrev bin : BinOp → Expr → Expr → Expr
bin op a b = binary (plain_info 1) op a b

-- int g = 2 + 1; int main() { int x = g; while (x < 7 && x) x = x + 1; return x; }
abbrev program : Module
program =
    global (record {
      is_const = false;
      name = "g";
      init = bin BinOp.add (num 2) (num 1);
      sym = none;
      init_value = 0;
      line = 1;
    })
    ∷ func (record {
      returns_void = false;
      name = "main";
      params = [];
      body_line = 1;
      body = seq (var_decl 1 false "x" (name "g") none) (
          seq
            (while 1 (logical (plain_info 1) false (bin BinOp.lt (name "x") (num 7)) (name "x"))
              (assign 1 "x" none (bin BinOp.add (name "x") (num 1))))
            (seq (return_value 1 (name "x")) done));
      line = 1;
    })
    ∷ []

translated : Analysed (State × Module) → Option IrModule
translated (ok (s, m)) = generate s.arena m s.global_count
translated (thrown l e) = none

-- The first function from a store whose globals are 3.
started : Option IrModule → Option (Option ℕ × (ℕ → ℕ))
started none = none
started (some m) =
    bind (get_elem? m.funcs 0)
      (λ f. run no_calls 40 f.blocks 0 (record { regs = λ r. 0; globals = λ g. 3 }))

program-started : started (translated (analyze program)) ≡ some (some 7, λ g. 3)
unfolding started translated analyze generate run analyze_expr analyze_stmts lookup new_block
    start_block gen_stmts new_vreg set_ir_id gen_expr symbol emit term_jmp push_loop pop_loop
    term_br term_ret compute_cfg exec_block exec_insts exec_inst exec_op eval_op finish add32 slt
program-started = refl
