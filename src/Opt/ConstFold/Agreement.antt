-- ===== src/Opt/ConstFold/Agreement.antt =====
-- The two places that fold constants, evalBin of src/sema/Sema.cpp and constFold, agree.
use toy_c_cp.Prelude.{
  ℕ, ◌+◌, ◌-◌, ◌*◌, ◌%◌, ◌≡◌, refl, ap, Bool, true, false, Option, none, some, ◌==◌, ◌&&◌,
  if◌then◌else◌,
}
use toy_c_cp.Word.{add32, sub32, mul32, word_mod, half_mod, minus_one, sdiv, srem}
use toy_c_cp.Ast.{BinOp}
use toy_c_cp.Sema.Eval.{eval_bin}
use toy_c_cp.IrGen.Expr.{map_bin}
use toy_c_cp.Opt.ConstFold.{Folded, folded, kept, undefined, fold_values, div_overflows}

-- What is left of a result that does not fit: its last 32 bits. The quotient -2 ^ 31 / -1 becomes
-- -2 ^ 31, and the remainder is 0.
abbrev pub wrapped : BinOp → ℕ → ℕ → ℕ
wrapped BinOp.add a b = (a + b) % word_mod
wrapped BinOp.sub a b = (a + word_mod - b) % word_mod
wrapped BinOp.mul a b = a * b % word_mod
wrapped BinOp.div a b = half_mod
wrapped _ a b = 0

-- The analysis has the folded value, none where nothing is folded, and the wrapped one at an overflow.
abbrev pub Agrees : ℕ → Folded → Option ℕ → Type 0
Agrees w (folded v) o = o ≡ some v
Agrees w kept o = o ≡ none
Agrees w undefined o = o ≡ some w

checked-Agrees :
    (overflow : Bool) (v w : ℕ)
    → v ≡ w
    → Agrees w (if overflow then undefined else folded v) (some v)
checked-Agrees true v w h = ap some h
checked-Agrees false v w h = refl

div_by-Agrees :
    (z over : Bool) (v w : ℕ)
    → Agrees w
        (if z then kept else if over then undefined else folded v)
        (if z then none else if over then some w else some v)
div_by-Agrees true over v w = refl
div_by-Agrees false true v w = refl
div_by-Agrees false false v w = refl

-- constFold and the analysis agree on every operator and pair of operands: where constFold has a value
-- the analysis has it too, where constFold leaves a division by zero the analysis has none, and where
-- the compiler's own arithmetic overflows the analysis has the result of 32 bits, with - 2 ^ 31 for
-- - 2 ^ 31 / - 1 and 0 for the remainder.
pub fold_values-eval_bin :
    (op : BinOp) (a b : ℕ)
    → Agrees (wrapped op a b) (fold_values (map_bin op) a b) (eval_bin op a b)
unfolding fold_values eval_bin map_bin div_overflows add32 sub32 mul32
fold_values-eval_bin BinOp.add a b = checked-Agrees _ _ _ refl
fold_values-eval_bin BinOp.sub a b = checked-Agrees _ _ _ refl
fold_values-eval_bin BinOp.mul a b = checked-Agrees _ _ _ refl
fold_values-eval_bin BinOp.div a b =
    div_by-Agrees (b == 0) (a == half_mod && b == minus_one) (sdiv a b) half_mod
fold_values-eval_bin BinOp.rem a b =
    div_by-Agrees (b == 0) (a == half_mod && b == minus_one) (srem a b) 0
fold_values-eval_bin BinOp.lt a b = refl
fold_values-eval_bin BinOp.gt a b = refl
fold_values-eval_bin BinOp.le a b = refl
fold_values-eval_bin BinOp.ge a b = refl
fold_values-eval_bin BinOp.eq a b = refl
fold_values-eval_bin BinOp.ne a b = refl
