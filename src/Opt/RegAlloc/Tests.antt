-- ===== src/Opt/RegAlloc/Tests.antt =====
-- The allocation of registers on small functions.
use toy_c_cp.Prelude.{
  ℕ, ◌≡◌, ◌≢◌, refl, ◌∙◌, Bool, true, false, some, List, [], ◌∷◌, if◌then◌else◌, arith, Bool-cases,
  inl, inr,
}
use toy_c_cp.Ir.{Op, imm, reg, Inst, inst, Term, BasicBlock, new_basic_block, IrFunc}
use toy_c_cp.Rv.Pools.{is_callee_saved}
use toy_c_cp.Opt.Dce.{use_count, inst_uses, term_uses}
use toy_c_cp.Opt.RegAlloc.Liveness.{liveness}
use toy_c_cp.Opt.RegAlloc.Graph.{members_from, move_source}
use toy_c_cp.Opt.RegAlloc.Colour.{allocate_registers}
use toy_c_cp.Opt.RegAlloc.Valid.{Permutes, Placed}
use toy_c_cp.Opt.RegAlloc.Solved.{Equations, liveness-Equations}
use toy_c_cp.Opt.RegAlloc.Needed.{Needed, read_now}
use toy_c_cp.Opt.RegAlloc.Sound.{
  allocate_registers-apart, allocate_registers-kept, allocate_registers-Placed,
}

-- Sorting by insertion.
unfoldable insert : (ℕ → ℕ → Bool) → ℕ → List ℕ → List ℕ
insert before x [] = x ∷ []
insert before x (y ∷ ys) =
    let rest = insert before x ys in if before y x then y ∷ rest else x ∷ y ∷ ys

unfoldable insertion_sort : (ℕ → ℕ → Bool) → List ℕ → List ℕ
unfolding insert
insertion_sort before [] = []
insertion_sort before (x ∷ xs) = insert before x (insertion_sort before xs)

insert-count :
    (before : ℕ → ℕ → Bool) (x : ℕ) (ys : List ℕ) (z : ℕ)
    → use_count z (insert before x ys) ≡ use_count z (x ∷ ys)
unfolding insert use_count
insert-count before x [] z = refl
insert-count before x (y ∷ ys) z = elim (Bool-cases (before y x)) [
  | inl earlier ↦ rw earlier (omega (arith, insert-count before x ys z))
  | inr later ↦ rw later refl
]

insertion_sort-Permutes : Permutes insertion_sort
unfolding insertion_sort use_count
insertion_sort-Permutes before [] z = refl
insertion_sort-Permutes before (x ∷ xs) z =
    insert-count before x (insertion_sort before xs) z
    ∙ omega (arith, insertion_sort-Permutes before xs z)

-- int f(int x) { return x + f(1); }
abbrev call_inst : Inst
call_inst = record (inst Op.call) { dst = some 1; args = imm 1 ∷ [] }

abbrev add_inst : Inst
add_inst = record (inst Op.add) { dst = some 2; a = reg 0; b = reg 1 }

abbrev body : BasicBlock
body = record (new_basic_block 0) {
  insts = call_inst ∷ add_inst ∷ [];
  term = Term.ret;
  ret_has_val = true;
  ret_val = reg 2;
}

abbrev recursive : IrFunc
recursive = record {
  name = "f";
  returns_void = false;
  num_params = 1;
  param_regs = 0 ∷ [];
  blocks = body ∷ [];
  num_vregs = 3;
}

-- The parameter lives across the call, and is kept in s0; the result of the call is in t0.
param_in_s0 : (allocate_registers insertion_sort recursive).reg 0 ≡ some 8
unfolding allocate_registers insertion_sort inst_uses members_from term_uses
param_in_s0 = refl

result_in_t0 : (allocate_registers insertion_sort recursive).reg 1 ≡ some 5
unfolding allocate_registers insertion_sort inst_uses members_from term_uses
result_in_t0 = refl

param_read : Needed recursive 0 (add_inst ∷ []) body
unfolding inst_uses
param_read = read_now (inl refl)

allocate_registers-apart_example : (allocate_registers insertion_sort recursive).reg 0 ≢ some 5
unfolding move_source
allocate_registers-apart_example =
    allocate_registers-apart insertion_sort recursive 0 body [] call_inst (add_inst ∷ []) 1 0 5
      insertion_sort-Permutes refl refl refl (omega arith) (omega arith) (omega arith) param_read
      refl result_in_t0

allocate_registers-kept_example : is_callee_saved 8 ≡ true
allocate_registers-kept_example =
    allocate_registers-kept insertion_sort recursive 0 body [] call_inst (add_inst ∷ []) 0 8
      insertion_sort-Permutes refl refl refl (omega arith) refl param_read param_in_s0

allocate_registers-Placed_example : Placed (allocate_registers insertion_sort recursive) 2
allocate_registers-Placed_example =
    allocate_registers-Placed insertion_sort recursive 2 insertion_sort-Permutes (omega arith)

liveness-Equations_example : Equations 3 0 body (liveness recursive)
liveness-Equations_example = liveness-Equations recursive 0 body refl
