-- ===== src/IrGen/Program.antt =====
-- src/ir/IRGen.cpp, IRGen::genFunc and IRGen::generate.
use toy_c_cp.Prelude.{
  ℕ, zero, suc, Bool, false, not, Option, none, some, List, [], ◌∷◌, length, modify, get_elem?,
  if◌then◌else◌,
}
use toy_c_cp.Ast.{Symbol, Param, FuncDef, GlobalVar, global, func, Module}
use toy_c_cp.Ir.{imm, IrFunc, Global, IrModule, compute_cfg}
use toy_c_cp.IrGen.State.{
  Gen, M, ◌>>=◌, ◌>>◌, pure, new_vreg, new_block, start_block, term_ret, set_ir_id,
}
use toy_c_cp.IrGen.Stmt.{gen_stmts}

abbrev pub fresh : Bool → List Symbol → Gen
fresh void arena = record {
  blocks = [];
  cur_bb = 0;
  sealed = false;
  next_vreg = 0;
  returns_void = void;
  loops = [];
  arena = arena;
}

unfoldable pub gen_params : List Param → M (List ℕ)
gen_params [] = pure []
gen_params (p ∷ ps) = do v ← new_vreg; set_ir_id p.sym v; vs ← gen_params ps; pure (v ∷ vs)

-- A function that falls off its end returns 0, or nothing if it is void.
unfoldable pub close_body : M (Unit {0})
close_body g = if g.sealed then some (tt, g) else term_ret (not g.returns_void) (imm 0) g

unfoldable pub gen_body : FuncDef → M (List ℕ)
unfolding gen_params close_body
gen_body fn = do
  regs ← gen_params fn.params
  entry ← new_block
  start_block entry
  gen_stmts fn.body
  close_body
  pure regs

-- The function and the arena with the registers of its symbols.
unfoldable pub gen_func : List Symbol → FuncDef → Option (IrFunc × List Symbol)
unfolding gen_body
gen_func arena fn = elim (gen_body fn (fresh fn.returns_void arena)) [
  | none ↦ none
  | some (regs, g) ↦ some (
    compute_cfg (record {
      name = fn.name;
      returns_void = fn.returns_void;
      num_params = length fn.params;
      param_regs = regs;
      blocks = g.blocks;
      num_vregs = g.next_vreg;
    }),
    g.arena,
  )
]

-- `mod.globals[id] = {name, initValue}`, at the number of the variable's symbol.
abbrev place_global : List Symbol → GlobalVar → List Global → List Global
place_global arena g gs = elim g.sym [
  | none ↦ gs
  | some p ↦ elim (get_elem? arena p) [
    | none ↦ gs
    | some s ↦ elim s.global_id [
      | none ↦ gs
      | some id ↦ modify gs id (λ _. record { name = g.name; init = g.init_value })
    ]
  ]
]

unfoldable pub gen_globals : List Symbol → Module → List Global → List Global
gen_globals arena [] gs = gs
gen_globals arena (global g ∷ items) gs =
    gen_globals arena items (if g.is_const then gs else place_global arena g gs)
gen_globals arena (func fn ∷ items) gs = gen_globals arena items gs

unfoldable pub blank_globals : ℕ → List Global
blank_globals zero = []
blank_globals (suc n) = record { name = ""; init = 0 } ∷ blank_globals n

unfoldable pub gen_funcs : List Symbol → Module → Option (List IrFunc)
unfolding gen_func
gen_funcs arena [] = some []
gen_funcs arena (global g ∷ items) = gen_funcs arena items
gen_funcs arena (func fn ∷ items) = elim (gen_func arena fn) [
  | none ↦ none
  | some (f, arena') ↦ elim (gen_funcs arena' items) [ none ↦ none | some fs ↦ some (f ∷ fs) ]
]

unfoldable pub generate : List Symbol → Module → ℕ → Option IrModule
unfolding gen_funcs gen_globals blank_globals
generate arena m global_count = elim (gen_funcs arena m) [
  | none ↦ none
  | some fs ↦
      some (record { globals = gen_globals arena m (blank_globals global_count); funcs = fs })
]
