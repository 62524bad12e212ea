-- ===== src/Codegen/Optimised/Inst.antt =====
-- src/codegen/OptCodeGen.cpp, the code of an instruction.
use toy_c_cp.Prelude.{ℕ, ◌+◌, Bool, Option, none, some, List, [], ◌∷◌, ◌++◌, ◌==◌, if◌then◌else◌}
use toy_c_cp.Word.{neg32}
use toy_c_cp.Ast.{FuncRef}
use toy_c_cp.Ir.{Val, imm, reg, Op, Inst}
use toy_c_cp.Ir.Meaning.{bind}
use toy_c_cp.Rv.{x_a0, scratch0, scratch1, Instr, mv, addi, slti, seqz, snez, lui_hi, lw_lo, sw_lo}
use toy_c_cp.Codegen.Naive.{take, drop}
use toy_c_cp.Codegen.Optimised.Access.{
  Context, fits12, fits12_neg, store_off, store_spill, to_reg, materialize, dst_reg, write_back,
  on_one,
}
use toy_c_cp.Codegen.Optimised.Constant.{emit_mul_const, emit_div_const, emit_mod_const}

-- The instructions for an operator on registers.
unfoldable pub alu : Op → ℕ → ℕ → ℕ → List Instr
alu Op.add d a b = Instr.add d a b ∷ []
alu Op.sub d a b = Instr.sub d a b ∷ []
alu Op.mul d a b = Instr.mul d a b ∷ []
alu Op.div d a b = Instr.div d a b ∷ []
alu Op.rem d a b = Instr.rem d a b ∷ []
alu Op.lt d a b = Instr.slt d a b ∷ []
alu Op.gt d a b = Instr.slt d b a ∷ []
alu Op.le d a b = Instr.slt d b a ∷ Instr.xori d d 1 ∷ []
alu Op.ge d a b = Instr.slt d a b ∷ Instr.xori d d 1 ∷ []
alu Op.eq d a b = Instr.sub d a b ∷ Instr.seqz d d ∷ []
alu Op.ne d a b = Instr.sub d a b ∷ Instr.snez d d ∷ []
alu _ d a b = []

-- Where no path for an immediate is taken.
unfoldable pub emit_plain : Context → Option ℕ → Op → ℕ → Val → Val → Option (List Instr)
unfolding to_reg dst_reg write_back
emit_plain c over op d a b = bind (to_reg c a scratch0) (λ (ra, is).
    bind (to_reg c b scratch1) (λ (rb, js).
      let rd = dst_reg c over d scratch0 in
      bind (write_back c over d rd) (λ ks. some (is ++ (js ++ (alu op rd ra rb ++ ks))))))

-- The path for an operand that is an immediate with some property, or else the other one.
abbrev pub try_imm :
    (ℕ → Bool) → Val → (ℕ → Option (List Instr)) → Option (List Instr) → Option (List Instr)
try_imm p (imm n) path other = if p n then path n else other
try_imm p (reg v) path other = other

-- One instruction with an immediate.
abbrev pub with_imm : (ℕ → ℕ → ℕ → Instr) → ℕ → ℕ → ℕ → Option (List Instr)
with_imm i n rd ra = some (i rd ra n ∷ [])

unfoldable pub emit_add : Context → Option ℕ → ℕ → Val → Val → Option (List Instr)
unfolding on_one emit_plain
emit_add c over d a b =
    try_imm fits12 b (λ n. on_one c over d a (with_imm addi n))
      (try_imm fits12 a (λ n. on_one c over d b (with_imm addi n)) (emit_plain c over Op.add d a b))

unfoldable pub emit_sub : Context → Option ℕ → ℕ → Val → Val → Option (List Instr)
unfolding on_one emit_plain neg32
emit_sub c over d a b =
    try_imm fits12_neg b (λ n. on_one c over d a (with_imm addi (neg32 n)))
      (emit_plain c over Op.sub d a b)

unfoldable pub emit_lt : Context → Option ℕ → ℕ → Val → Val → Option (List Instr)
unfolding on_one emit_plain
emit_lt c over d a b =
    try_imm fits12 b (λ n. on_one c over d a (with_imm slti n)) (emit_plain c over Op.lt d a b)

-- `Eq` and `Ne` with 0, by the instruction for it.
unfoldable pub emit_test :
    Context → Option ℕ → Op → (ℕ → ℕ → Instr) → ℕ → Val → Val → Option (List Instr)
unfolding on_one emit_plain
emit_test c over op i d a b =
    try_imm (λ n. n == 0) b (λ n. on_one c over d a (λ rd ra. some (i rd ra ∷ [])))
      (emit_plain c over op d a b)

unfoldable pub emit_mul : Context → Option ℕ → ℕ → Val → Val → Option (List Instr)
unfolding on_one emit_plain emit_mul_const
emit_mul c over d (imm n) b = on_one c over d b (λ rd ra. some (emit_mul_const rd ra n))
emit_mul c over d (reg v) (imm n) = on_one c over d (reg v) (λ rd ra. some (emit_mul_const rd ra n))
emit_mul c over d (reg v) (reg w) = emit_plain c over Op.mul d (reg v) (reg w)

-- Division and remainder: by a constant only under `opt_`.
unfoldable pub emit_by :
    Context
    → Option ℕ
    → Op
    → (ℕ → ℕ → ℕ → Option (List Instr))
    → ℕ
    → Val
    → Val
    → Option (List Instr)
unfolding on_one emit_plain
emit_by c over op code d a b =
    try_imm (λ n. c.opt) b (λ n. on_one c over d a (λ rd ra. code rd ra n))
      (emit_plain c over op d a b)

unfoldable pub emit_binary :
    Context → Option ℕ → Op → ℕ → Val → Val → Option ℕ → Bool → Option (List Instr)
unfolding emit_add emit_sub emit_lt emit_test emit_mul emit_by emit_div_const emit_mod_const
    emit_plain
emit_binary c over Op.add d a b hint unsigned = emit_add c over d a b
emit_binary c over Op.sub d a b hint unsigned = emit_sub c over d a b
emit_binary c over Op.lt d a b hint unsigned = emit_lt c over d a b
emit_binary c over Op.eq d a b hint unsigned = emit_test c over Op.eq seqz d a b
emit_binary c over Op.ne d a b hint unsigned = emit_test c over Op.ne snez d a b
emit_binary c over Op.mul d a b hint unsigned = emit_mul c over d a b
emit_binary c over Op.div d a b hint unsigned =
    emit_by c over Op.div (emit_div_const c hint unsigned) d a b
emit_binary c over Op.rem d a b hint unsigned =
    emit_by c over Op.rem (emit_mod_const c hint unsigned) d a b
emit_binary c over op d a b hint unsigned = emit_plain c over op d a b

-- The arguments from the ninth on, the last one first.
unfoldable pub stack_args : Context → ℕ → List Val → Option (List Instr)
unfolding materialize store_off
stack_args c off [] = some []
stack_args c off (v ∷ vs) =
    bind (stack_args c (off + 4) vs)
      (λ is. bind (materialize c v scratch0) (λ js. some (is ++ (js ++ store_off scratch0 off))))

unfoldable pub reg_args : Context → ℕ → List Val → Option (List Instr)
unfolding materialize
reg_args c r [] = some []
reg_args c r (v ∷ vs) =
    bind (materialize c v r) (λ is. bind (reg_args c (r + 1) vs) (λ js. some (is ++ js)))

abbrev pub move_from_a0 : ℕ → List Instr
move_from_a0 r = if r == x_a0 then [] else mv r x_a0 ∷ []

unfoldable pub call_result : Context → Option ℕ → Option ℕ → Option (List Instr)
call_result c over none = some []
call_result c (some o) (some d) = some (move_from_a0 o)
call_result c none (some d) = elim (c.alloc.reg d) [
  | some p ↦ some (move_from_a0 p)
  | none ↦ store_spill c x_a0 d
]

unfoldable pub emit_call : Context → Option ℕ → FuncRef → Option ℕ → List Val → Option (List Instr)
unfolding stack_args reg_args call_result take drop
emit_call c over f d args = bind (stack_args c 0 (drop 8 args)) (λ is.
    bind (reg_args c x_a0 (take 8 args))
      (λ js. bind (call_result c over d) (λ ks. some (is ++ (js ++ Instr.call f.name ∷ ks)))))

-- `none` where a destination, a global, a callee or a place is missing (-1 or null in the source).
unfoldable pub emit_op :
    Context
    → Option ℕ
    → Op
    → Option ℕ
    → Val
    → Val
    → Option ℕ
    → Option FuncRef
    → List Val
    → Option ℕ
    → Bool
    → Option (List Instr)
unfolding to_reg materialize dst_reg write_back on_one emit_binary emit_call
emit_op c over Op.mv d a b g f args hint unsigned = bind d (λ v.
    let rd = dst_reg c over v scratch0 in
    bind (materialize c a rd) (λ is. bind (write_back c over v rd) (λ js. some (is ++ js))))
emit_op c over Op.load_global d a b g f args hint unsigned = bind g (λ n. bind d (λ v.
    let rd = dst_reg c over v scratch0 in
    bind (write_back c over v rd) (λ is. some (lui_hi rd n ∷ lw_lo rd n rd ∷ is))))
emit_op c over Op.store_global d a b g f args hint unsigned = bind g (λ n.
    bind (to_reg c a scratch0)
      (λ (ra, is). some (is ++ lui_hi scratch1 n ∷ sw_lo ra n scratch1 ∷ [])))
emit_op c over Op.neg d a b g f args hint unsigned =
    bind d (λ v. on_one c over v a (λ rd ra. some (Instr.neg rd ra ∷ [])))
emit_op c over Op.not d a b g f args hint unsigned =
    bind d (λ v. on_one c over v a (λ rd ra. some (seqz rd ra ∷ [])))
emit_op c over Op.call d a b g f args hint unsigned = bind f (λ fn. emit_call c over fn d args)
emit_op c over op d a b g f args hint unsigned =
    bind d (λ v. emit_binary c over op v a b hint unsigned)

unfoldable pub emit_inst : Context → Option ℕ → Inst → Option (List Instr)
unfolding emit_op
emit_inst c over i =
    emit_op c over i.op i.dst i.a i.b i.gid i.callee i.args i.magic_vreg i.unsigned_div

unfoldable pub emit_insts : Context → List Inst → Option (List Instr)
unfolding emit_inst
emit_insts c [] = some []
emit_insts c (i ∷ is) =
    bind (emit_inst c none i) (λ js. bind (emit_insts c is) (λ ks. some (js ++ ks)))
