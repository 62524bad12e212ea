-- ===== src/Sema/Eval.antt =====
-- src/sema/Sema.cpp, evalBin and evalUn: an operator on two constants.
use toy_c_cp.Prelude.{ℕ, ◌&&◌, Option, none, some, ◌==◌, if◌then◌else◌, not}
use toy_c_cp.Word.{add32, sub32, mul32, neg32, sdiv, srem, slt, of_bool, half_mod, minus_one}
use toy_c_cp.Ast.{BinOp, UnOp}

-- `none` where the source sets `divByZero`. The two guards on INT_MIN and -1 stand as there.
unfoldable pub eval_bin : BinOp → ℕ → ℕ → Option ℕ
eval_bin BinOp.add a b = some (add32 a b)
eval_bin BinOp.sub a b = some (sub32 a b)
eval_bin BinOp.mul a b = some (mul32 a b)
eval_bin BinOp.div a b =
    if b == 0
    then none
    else if a == half_mod && b == minus_one
    then some half_mod
    else some (sdiv a b)
eval_bin BinOp.rem a b =
    if b == 0 then none else if a == half_mod && b == minus_one then some 0 else some (srem a b)
eval_bin BinOp.lt a b = some (of_bool (slt a b))
eval_bin BinOp.gt a b = some (of_bool (slt b a))
eval_bin BinOp.le a b = some (of_bool (not (slt b a)))
eval_bin BinOp.ge a b = some (of_bool (not (slt a b)))
eval_bin BinOp.eq a b = some (of_bool (a == b))
eval_bin BinOp.ne a b = some (of_bool (not (a == b)))

unfoldable pub eval_un : UnOp → ℕ → ℕ
eval_un UnOp.plus a = a
eval_un UnOp.neg a = neg32 a
eval_un UnOp.not a = if a == 0 then 1 else 0
