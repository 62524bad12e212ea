-- ===== src/Codegen/Optimised/Access.antt =====
-- src/codegen/OptCodeGen.cpp, the state of a function and the code that moves values between registers,
-- the frame and immediates.
use toy_c_cp.Prelude.{
  ℕ, ◌+◌, ◌*◌, Bool, ◌||◌, Option, none, some, List, [], ◌∷◌, ◌++◌, leb, ◌==◌, if◌then◌else◌,
}
use toy_c_cp.Ir.{Val, imm, reg}
use toy_c_cp.Ir.Meaning.{bind}
use toy_c_cp.Rv.{x_zero, x_sp, x_a7, scratch0, Instr, li, lw, sw, mv}
use toy_c_cp.Opt.RegAlloc.Colour.{Allocation}

-- The members that emitFunc sets: `A_`, the offsets in the frame, and `useCount_`; with `opt_`.
pub record Context : Type 0 where
  pub alloc : Allocation
  pub spill_base : ℕ
  pub callee_base : ℕ
  pub ra_off : ℕ
  pub frame_size : ℕ
  pub use_count : ℕ → ℕ
  pub opt : Bool

-- `fits12` on an `int32_t`, and on its negative as a `long`.
abbrev pub fits12 : ℕ → Bool
fits12 n = leb n 2047 || leb 4294965248 n

abbrev pub fits12_neg : ℕ → Bool
fits12_neg n = leb n 2048 || leb 4294965249 n

unfoldable pub load_off : ℕ → ℕ → List Instr
load_off r off =
    if leb off 2047
    then lw r off x_sp ∷ []
    else li x_a7 off ∷ Instr.add x_a7 x_sp x_a7 ∷ lw r 0 x_a7 ∷ []

unfoldable pub store_off : ℕ → ℕ → List Instr
store_off r off =
    if leb off 2047
    then sw r off x_sp ∷ []
    else li x_a7 off ∷ Instr.add x_a7 x_sp x_a7 ∷ sw r 0 x_a7 ∷ []

-- `none` for a register that has no slot (-1).
abbrev pub spill_off : Context → ℕ → Option ℕ
spill_off c v = bind (c.alloc.spill_slot v) (λ k. some (c.spill_base + k * 4))

abbrev pub load_spill : Context → ℕ → ℕ → Option (List Instr)
load_spill c r v = bind (spill_off c v) (λ off. some (load_off r off))

abbrev pub store_spill : Context → ℕ → ℕ → Option (List Instr)
store_spill c r v = bind (spill_off c v) (λ off. some (store_off r off))

-- The cases of `A_.reg[v]`, which is `none` for -1.
abbrev pub reg_or_load : Context → ℕ → ℕ → Option ℕ → Option (ℕ × List Instr)
reg_or_load c v scratch (some p) = some (p, [])
reg_or_load c v scratch none = bind (load_spill c scratch v) (λ is. some (scratch, is))

abbrev pub move_or_load : Context → ℕ → ℕ → Option ℕ → Option (List Instr)
move_or_load c v r (some p) = some (if p == r then [] else mv r p ∷ [])
move_or_load c v r none = load_spill c r v

abbrev pub reg_or : ℕ → Option ℕ → ℕ
reg_or scratch (some p) = p
reg_or scratch none = scratch

abbrev pub nothing_or_store : Context → ℕ → ℕ → Option ℕ → Option (List Instr)
nothing_or_store c v r (some p) = some []
nothing_or_store c v r none = store_spill c r v

-- The register that holds the value, behind the code that puts it there.
unfoldable pub to_reg : Context → Val → ℕ → Option (ℕ × List Instr)
to_reg c (imm n) scratch = if n == 0 then some (x_zero, []) else some (scratch, li scratch n ∷ [])
to_reg c (reg v) scratch = reg_or_load c v scratch (c.alloc.reg v)

unfoldable pub materialize : Context → Val → ℕ → Option (List Instr)
materialize c (imm n) r = some (li r n ∷ [])
materialize c (reg v) r = move_or_load c v r (c.alloc.reg v)

-- `dstOverride_` is the argument `over`.
unfoldable pub dst_reg : Context → Option ℕ → ℕ → ℕ → ℕ
dst_reg c (some r) v scratch = r
dst_reg c none v scratch = reg_or scratch (c.alloc.reg v)

unfoldable pub write_back : Context → Option ℕ → ℕ → ℕ → Option (List Instr)
write_back c (some o) v r = some []
write_back c none v r = nothing_or_store c v r (c.alloc.reg v)

-- An operand in a register, an operation from it to the register of the destination, and the store of
-- a destination that has none. The operation gets the two registers.
unfoldable pub on_one :
    Context → Option ℕ → ℕ → Val → (ℕ → ℕ → Option (List Instr)) → Option (List Instr)
unfolding to_reg dst_reg write_back
on_one c over d v code = bind (to_reg c v scratch0) (λ (ra, is).
    let rd = dst_reg c over d scratch0 in
    bind (code rd ra) (λ js. bind (write_back c over d rd) (λ ks. some (is ++ (js ++ ks)))))
