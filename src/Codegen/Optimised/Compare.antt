-- ===== src/Codegen/Optimised/Compare.antt =====
-- Which way the branch instructions of the back end are left, and that invertCmp negates.
use toy_c_cp.Prelude.{
  ℕ, ◌≡◌, refl, sym, ap, Bool, true, false, not, some, [], ◌∷◌, String, ◌==◌, if◌then◌else◌,
}
use toy_c_cp.Word.{slt, of_bool}
use toy_c_cp.Ir.{Op}
use toy_c_cp.Ir.Meaning.{eval_op}
use toy_c_cp.Rv.{Instr, bnez, beqz}
use toy_c_cp.Rv.Machine.{Machine, Linker}
use toy_c_cp.Rv.Exit.{Exit, at_end, jumped, taken, proceed, exec_exit}
use toy_c_cp.Codegen.Optimised.Block.{is_cmp, invert_cmp, branch_on}

-- Whether a comparison holds, by the value of its operator.
abbrev pub holds_cmp : Op → ℕ → ℕ → Bool
holds_cmp Op.lt a b = slt a b
holds_cmp Op.gt a b = slt b a
holds_cmp Op.le a b = not (slt b a)
holds_cmp Op.ge a b = not (slt a b)
holds_cmp Op.eq a b = a == b
holds_cmp Op.ne a b = not (a == b)
holds_cmp _ a b = false

pub eval_op-cmp :
    (op : Op) (a b : ℕ) → is_cmp op ≡ true → eval_op op a b ≡ some (of_bool (holds_cmp op a b))
unfolding eval_op
eval_op-cmp Op.lt a b h = refl
eval_op-cmp Op.gt a b h = refl
eval_op-cmp Op.le a b h = refl
eval_op-cmp Op.ge a b h = refl
eval_op-cmp Op.eq a b h = refl
eval_op-cmp Op.ne a b h = refl
eval_op-cmp op a b h = absurd (cc)

pub not_twice : (b : Bool) → not (not b) ≡ b
not_twice true = refl
not_twice false = refl

-- invertCmp negates a comparison.
pub invert_cmp-negates :
    (op : Op) (a b : ℕ) → is_cmp op ≡ true → holds_cmp (invert_cmp op) a b ≡ not (holds_cmp op a b)
unfolding invert_cmp
invert_cmp-negates Op.lt a b h = refl
invert_cmp-negates Op.gt a b h = refl
invert_cmp-negates Op.le a b h = sym (not_twice (slt b a))
invert_cmp-negates Op.ge a b h = sym (not_twice (slt a b))
invert_cmp-negates Op.eq a b h = refl
invert_cmp-negates Op.ne a b h = sym (not_twice (a == b))
invert_cmp-negates op a b h = absurd (cc)

-- The way out of code that ends in a branch.
abbrev pub way : Bool → ℕ → Exit
way b n = if b then jumped n else at_end

pub one-exit :
    (lk : Linker) (i : Instr) (b : Bool) (n : ℕ) (m : Machine)
    → taken i m ≡ some (way b n)
    → exec_exit lk (i ∷ []) m ≡ some (way b n, m)
unfolding exec_exit
one-exit lk i true n m e = ap (proceed lk (λ m'. some (at_end, m')) i m) e
one-exit lk i false n m e = ap (proceed lk (λ m'. some (at_end, m')) i m) e

pub swapped : (b : Bool) (n : ℕ) → (if b then at_end else jumped n) ≡ way (not b) n
swapped true n = refl
swapped false n = refl

pub branch_on-exit :
    (lk : Linker) (op : Op) (ra rb : ℕ) (f : String) (n : ℕ) (m : Machine)
    → is_cmp op ≡ true
    → exec_exit lk (branch_on op ra rb f n) m ≡ some (way (holds_cmp op (m.x ra) (m.x rb)) n, m)
unfolding branch_on taken
branch_on-exit lk Op.lt ra rb f n m h = one-exit lk _ _ n m refl
branch_on-exit lk Op.gt ra rb f n m h = one-exit lk _ _ n m refl
branch_on-exit lk Op.le ra rb f n m h =
    one-exit lk _ _ n m (ap some (swapped (slt (m.x rb) (m.x ra)) n))
branch_on-exit lk Op.ge ra rb f n m h =
    one-exit lk _ _ n m (ap some (swapped (slt (m.x ra) (m.x rb)) n))
branch_on-exit lk Op.eq ra rb f n m h = one-exit lk _ _ n m refl
branch_on-exit lk Op.ne ra rb f n m h = one-exit lk _ _ n m (ap some (swapped (m.x ra == m.x rb) n))
branch_on-exit lk op ra rb f n m h = absurd (cc)

abbrev pub signed_way : Bool → Bool → Bool
signed_way negate b = if negate then not b else b

pub negated :
    (negate : Bool) (op : Op) (a b : ℕ)
    → is_cmp op ≡ true
    → holds_cmp (if negate then invert_cmp op else op) a b ≡ signed_way negate (holds_cmp op a b)
negated true op a b h = invert_cmp-negates op a b h
negated false op a b h = refl

pub negated-is_cmp :
    (negate : Bool) (op : Op)
    → is_cmp op ≡ true
    → is_cmp (if negate then invert_cmp op else op) ≡ true
unfolding invert_cmp
negated-is_cmp false op h = h
negated-is_cmp true Op.lt h = refl
negated-is_cmp true Op.gt h = refl
negated-is_cmp true Op.le h = refl
negated-is_cmp true Op.ge h = refl
negated-is_cmp true Op.eq h = refl
negated-is_cmp true Op.ne h = refl
negated-is_cmp true op h = absurd (cc)

pub zero-exit :
    (lk : Linker) (negate : Bool) (r : ℕ) (f : String) (n : ℕ) (m : Machine)
    → exec_exit lk (if negate then beqz r f n ∷ [] else bnez r f n ∷ []) m
      ≡ some (way (signed_way negate (not (m.x r == 0))) n, m)
unfolding taken
zero-exit lk true r f n m =
    one-exit lk (beqz r f n) (not (not (m.x r == 0))) n m
      (ap (λ b. some (way b n)) (sym (not_twice (m.x r == 0))))
zero-exit lk false r f n m =
    one-exit lk (bnez r f n) (not (m.x r == 0)) n m (ap some (swapped (m.x r == 0) n))
