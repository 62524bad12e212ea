-- ===== src/Opt/ConstFold.antt =====
-- src/opt/Passes.cpp, constFold: constant operands and algebraic identities.
pub mod Laws
pub mod Step
pub mod Sound
pub mod Agreement
use toy_c_cp.Prelude.{
  ℕ, ◌+◌, ◌*◌, Bool, true, false, not, ◌&&◌, ◌||◌, Option, none, some, List, [], ◌∷◌, ltb, leb,
  ◌==◌, if◌then◌else◌,
}
use toy_c_cp.Word.{
  half_mod, minus_one, add32, sub32, mul32, neg32, sdiv, srem, slt, of_bool, biased, magnitude,
  is_neg,
}
use toy_c_cp.Ir.{Val, imm, reg, Op, Inst, BasicBlock, IrFunc, is_imm, is_reg}

-- The compiler's own `int32_t` arithmetic: a result, no folding, or signed overflow, which is
-- undefined behaviour of the compiler itself.
pub data Folded : Type 0 where
  folded : ℕ → Folded
  kept undefined : Folded

abbrev checked : Bool → ℕ → Folded
checked overflow v = if overflow then undefined else folded v

-- A signed result below -2 ^ 31 or at least 2 ^ 31, on the operands shifted by 2 ^ 31.
unfoldable pub add_overflows : ℕ → ℕ → Bool
add_overflows a b = ltb (biased a + biased b) half_mod || leb (3 * half_mod) (biased a + biased b)

unfoldable pub sub_overflows : ℕ → ℕ → Bool
sub_overflows a b = ltb (biased a + half_mod) (biased b) || leb (biased b + half_mod) (biased a)

unfoldable pub same_sign : Bool → Bool → Bool
same_sign true b = b
same_sign false b = not b

unfoldable pub mul_overflows : ℕ → ℕ → Bool
unfolding same_sign
mul_overflows a b =
    let m = magnitude a * magnitude b in
    if same_sign (is_neg a) (is_neg b) then leb half_mod m else ltb half_mod m

unfoldable pub div_overflows : ℕ → ℕ → Bool
div_overflows a b = a == half_mod && b == minus_one

-- The first `switch`: both operands are constants.
unfoldable pub fold_values : Op → ℕ → ℕ → Folded
unfolding add_overflows sub_overflows mul_overflows div_overflows
fold_values Op.add a b = checked (add_overflows a b) (add32 a b)
fold_values Op.sub a b = checked (sub_overflows a b) (sub32 a b)
fold_values Op.mul a b = checked (mul_overflows a b) (mul32 a b)
fold_values Op.div a b = if b == 0 then kept else checked (div_overflows a b) (sdiv a b)
fold_values Op.rem a b = if b == 0 then kept else checked (div_overflows a b) (srem a b)
fold_values Op.lt a b = folded (of_bool (slt a b))
fold_values Op.gt a b = folded (of_bool (slt b a))
fold_values Op.le a b = folded (of_bool (not (slt b a)))
fold_values Op.ge a b = folded (of_bool (not (slt a b)))
fold_values Op.eq a b = folded (of_bool (a == b))
fold_values Op.ne a b = folded (of_bool (not (a == b)))
fold_values _ a b = kept

abbrev pub is_binary : Op → Bool
is_binary Op.neg = false
is_binary Op.not = false
is_binary Op.mv = false
is_binary Op.load_global = false
is_binary Op.store_global = false
is_binary Op.call = false
is_binary _ = true

abbrev pub is_imm_of : Val → ℕ → Bool
is_imm_of (imm n) k = n == k
is_imm_of (reg _) k = false

abbrev pub same_reg : Val → Val → Bool
same_reg (reg r) (reg q) = r == q
same_reg _ _ = false

-- What an identity makes of the instruction.
pub data Rewrite : Type 0 where
  to_mv to_neg : Val → Rewrite
  leave : Rewrite

abbrev to_mv_i : ℕ → Rewrite
to_mv_i n = to_mv (imm n)

-- The second `switch`.
unfoldable pub identity : Op → Val → Val → Rewrite
identity Op.add a b = if is_imm_of a 0 then to_mv b else if is_imm_of b 0 then to_mv a else leave
identity Op.sub a b =
    if is_imm_of b 0
    then to_mv a
    else if is_imm_of a 0
    then to_neg b
    else if same_reg a b
    then to_mv_i 0
    else leave
identity Op.mul a b =
    if is_imm_of a 0 || is_imm_of b 0
    then to_mv_i 0
    else if is_imm_of a 1
    then to_mv b
    else if is_imm_of b 1
    then to_mv a
    else if is_imm_of a minus_one
    then to_neg b
    else if is_imm_of b minus_one
    then to_neg a
    else leave
identity Op.div a b =
    if is_imm_of b 1
    then to_mv a
    else if is_imm_of b minus_one
    then to_neg a
    else if same_reg a b
    then to_mv_i 1
    else leave
identity Op.rem a b =
    if is_imm_of b 1 || is_imm_of b minus_one
    then to_mv_i 0
    else if same_reg a b
    then to_mv_i 0
    else leave
identity Op.lt a b = if same_reg a b then to_mv_i 0 else leave
identity Op.gt a b = if same_reg a b then to_mv_i 0 else leave
identity Op.le a b = if same_reg a b then to_mv_i 1 else leave
identity Op.ge a b = if same_reg a b then to_mv_i 1 else leave
identity Op.eq a b = if same_reg a b then to_mv_i 1 else leave
identity Op.ne a b = if same_reg a b then to_mv_i 0 else leave
identity _ a b = leave

-- The last two tests: a unary operator on a constant. `-INT_MIN` overflows.
unfoldable pub fold_unary : Op → Val → Folded
fold_unary Op.neg (imm n) = checked (n == half_mod) (neg32 n)
fold_unary Op.not (imm n) = folded (if n == 0 then 1 else 0)
fold_unary _ _ = kept

abbrev pub as_mv : Inst → Val → Inst
as_mv i v = record i { op = Op.mv; a = v; b = imm 0 }

abbrev pub as_neg : Inst → Val → Inst
as_neg i v = record i { op = Op.neg; a = v; b = imm 0 }

-- The instruction, and whether it was changed; `none` is undefined behaviour.
abbrev pub apply_rewrite : Inst → Rewrite → Option (Bool × Inst)
apply_rewrite i (to_mv v) = some (true, as_mv i v)
apply_rewrite i (to_neg v) = some (true, as_neg i v)
apply_rewrite i leave = some (false, i)

abbrev pub apply_folded : Inst → Folded → Option (Bool × Inst) → Option (Bool × Inst)
apply_folded i (folded n) rest = some (true, as_mv i (imm n))
apply_folded i kept rest = rest
apply_folded i undefined rest = none

unfoldable pub fold_operands : Op → Val → Val → Folded
unfolding fold_values
fold_operands op (imm a) (imm b) = fold_values op a b
fold_operands op _ _ = kept

unfoldable pub fold_inst : Inst → Option (Bool × Inst)
unfolding fold_operands identity fold_unary
fold_inst i =
    if is_binary i.op
    then apply_folded i (fold_operands i.op i.a i.b) (apply_rewrite i (identity i.op i.a i.b))
    else apply_folded i (fold_unary i.op i.a) (some (false, i))

-- Two results, changed if one of them was; undefined if one of them was.
abbrev pub both {ℓ} :
    {A B C : Type ℓ} → (A → B → C) → Option (Bool × A) → Option (Bool × B) → Option (Bool × C)
both f none n = none
both f (some p) none = none
both f (some (any, a)) (some (more, b)) = some (any || more, f a b)

unfoldable pub fold_insts : List Inst → Option (Bool × List Inst)
fold_insts [] = some (false, [])
fold_insts (i ∷ is) = both (λ j js. j ∷ js) (fold_inst i) (fold_insts is)

abbrev pub with_insts : BasicBlock → List Inst → List BasicBlock → List BasicBlock
with_insts bb is bbs = record bb { insts = is } ∷ bbs

unfoldable pub fold_blocks : List BasicBlock → Option (Bool × List BasicBlock)
fold_blocks [] = some (false, [])
fold_blocks (bb ∷ bbs) = both (with_insts bb) (fold_insts bb.insts) (fold_blocks bbs)

abbrev pub with_blocks : IrFunc → Option (Bool × List BasicBlock) → Option (Bool × IrFunc)
with_blocks fn none = none
with_blocks fn (some (any, bbs)) = some (any, record fn { blocks = bbs })

unfoldable pub const_fold : IrFunc → Option (Bool × IrFunc)
const_fold fn = with_blocks fn (fold_blocks fn.blocks)
