-- ===== src/Codegen/Optimised/Constant/Divide.antt =====
-- The code for a quotient or a remainder by a power of two.
use native.Mathlib.Nat.{zero-div, pow-le-pow_right}
use toy_c_cp.Prelude.{
  ℕ, zero, suc, ◌-◌, ◌*◌, ◌/◌, ◌%◌, ◌^◌, ◌≤◌, ◌<◌, ◌≡◌, ◌≢◌, refl, sym, ap, ◌∙◌, Bool, true, false,
  some, none, List, [], ◌∷◌, ◌==◌, arith, Bool-cases, inl, inr, if◌then◌else◌, if-case, ◌&&◌,
}
use toy_c_cp.Word.{IsWord, word_mod, half_mod, add32, sub32, is_neg, magnitude, sdiv, srem}
use toy_c_cp.Codegen.Optimised.Constant.{
  log2exact, at_least_one, exponent, emit_pow2_bias, div_pow2, rem_pow2,
}
use toy_c_cp.Codegen.Optimised.Constant.Shift.{
  bias, last_ones, power_sum, sra_biased, sdiv-signed, srem-signed,
}
use toy_c_cp.Codegen.Optimised.Constant.Multiply.{signed, neg_if-Computes}
use toy_c_cp.Codegen.Optimised.Computed.{
  Computes, Unchanged-then, then-Computes, set_scratch1-Unchanged, set_scratch1_twice,
  set_x-Computed,
}
use toy_c_cp.Ir.Meaning.{bind}
use toy_c_cp.Rv.{Instr, x_zero, scratch1, srai, slli}
use toy_c_cp.Rv.Machine.{Machine, Linker, set_x, sra, exec_instr, exec_code}

-- Every power of two below 2 ^ 32, by evaluation.
abbrev found_below : ℕ → Bool
found_below zero = true
found_below (suc n) = elim (log2exact (2 ^ n)) [ none ↦ false | some k ↦ k == n ] && found_below n

found_table : found_below 32 ≡ true
unfolding log2exact
found_table = refl

log2exact_found : (n k : ℕ) → found_below n ≡ true → k < n → log2exact (2 ^ k) ≡ some k
log2exact_found zero k h l = absurd (omega arith)
log2exact_found (suc n) k h l = ground (arith, log2exact_found n k)

pub exponent_found : (k : ℕ) → 0 < k → k < 32 → exponent (2 ^ k) ≡ some k
exponent_found zero p l = absurd (omega arith)
exponent_found (suc k) p l = ap at_least_one (log2exact_found 32 (suc k) found_table l)

-- Shifted to the right by 31, a number has the digit of its sign in every place.
sign_digits : (x : ℕ) → IsWord x → sra x 31 ≡ (if is_neg x then word_mod - 1 else 0)
unfolding sra is_neg
sign_digits x w = ground arith

bias_two : (x : ℕ) → IsWord x → x / 2 ^ 31 ≡ bias 2 x
unfolding is_neg
bias_two x w = ground arith

bias_more :
    (p q x : ℕ) → 2 ≤ p → p ≤ half_mod → q * p ≡ word_mod → IsWord x → sra x 31 / q ≡ bias p x
bias_more p q x two low split w = ap (λ y. y / q) (sign_digits x w) ∙ elim (Bool-cases (is_neg x)) [
  | inl neg ↦ rw neg (last_ones p q two low split)
  | inr pos ↦ rw pos (zero-div q)
]

-- For k from 1 to 31.
module _ (k : ℕ) (pos : 0 < k) (low : k < 32) where
  two_le : 2 ≤ 2 ^ k
  two_le = pow-le-pow_right {n = 2} (omega arith) {i = 1} {j = k} (omega arith)

  le_half : 2 ^ k ≤ half_mod
  le_half = pow-le-pow_right {n = 2} (omega arith) {i = k} {j = 31} (omega arith)

  split : 2 ^ (32 - k) * 2 ^ k ≡ word_mod
  split = power_sum (32 - k) k ∙ ap (λ n. 2 ^ n) {y = 32} (omega arith)

  module _ (lk : Linker) (ra : ℕ) (n6 : ra ≢ scratch1) (m : Machine) (wx : IsWord (m.x ra)) where
    abbrev biased_machine : Machine
    biased_machine = set_x scratch1 (bias (2 ^ k) (m.x ra)) m

    emit_pow2_bias-exec : exec_code lk (emit_pow2_bias scratch1 ra k) m ≡ some biased_machine
    unfolding emit_pow2_bias exec_code exec_instr
    emit_pow2_bias-exec =
        if-case (λ code. exec_code lk code m ≡ some biased_machine) (k == 1)
          (λ one.
            ap (λ b. some (set_x scratch1 b m))
              (bias_two (m.x ra) wx
                ∙ ap (λ n. bias (2 ^ n) (m.x ra)) {x = 1} {y = k} (ground arith)))
          (λ more.
            ap some (set_scratch1_twice _ (sra (m.x ra) 31 / 2 ^ (32 - k)) m)
            ∙ ap (λ b. some (set_x scratch1 b m))
                (bias_more (2 ^ k) (2 ^ (32 - k)) (m.x ra) two_le le_half split wx))

    abbrev sum : ℕ
    sum = add32 (m.x ra) (bias (2 ^ k) (m.x ra))

    -- After the bias, its sum with the dividend in t6.
    abbrev summed : Machine
    summed = set_x scratch1 sum biased_machine

    add-exec : exec_instr lk (Instr.add scratch1 ra scratch1) biased_machine ≡ some summed
    unfolding exec_instr
    add-exec =
        ap (λ y. some (set_x scratch1 (add32 y (bias (2 ^ k) (m.x ra))) biased_machine))
          (ground arith)

    quotient : sra sum k ≡ signed (is_neg (m.x ra)) (magnitude (m.x ra) / 2 ^ k)
    quotient = sra_biased (2 ^ k) (2 ^ (32 - k)) two_le le_half split k (m.x ra) refl wx

    -- After the shifts to the right and back to the left.
    abbrev multiplied : Machine
    multiplied = set_x scratch1 (sra sum k * 2 ^ k % word_mod) (set_x scratch1 (sra sum k) summed)

    kept : multiplied.x ra ≡ m.x ra
    kept = ground arith

    abbrev rem_tail : ℕ → List Instr
    rem_tail rd =
        srai scratch1 scratch1 k ∷ slli scratch1 scratch1 k ∷ Instr.sub rd ra scratch1 ∷ []

    module _ (rd c : ℕ) (nz : rd ≢ x_zero) (size : magnitude c ≡ 2 ^ k) where
      pub div_pow2-Computes : Computes lk (div_pow2 rd ra c k) rd (sdiv (m.x ra) c) m
      unfolding exec_code exec_instr
      div_pow2-Computes =
          then-Computes lk (emit_pow2_bias scratch1 ra k) _ rd _ m biased_machine
            emit_pow2_bias-exec (set_scratch1-Unchanged rd _ m)
            (neg_if-Computes lk rd nz (is_neg c)
              (Instr.add scratch1 ra scratch1 ∷ srai rd scratch1 k ∷ []) (sra sum k)
              (sdiv (m.x ra) c) biased_machine summed
              (ap (λ o. bind o (exec_code lk (srai rd scratch1 k ∷ []))) add-exec)
              (set_scratch1-Unchanged rd sum biased_machine)
              (ap (signed (is_neg c)) (
                  quotient ∙ ap (λ p. signed (is_neg (m.x ra)) (magnitude (m.x ra) / p)) (sym size))
                ∙ sdiv-signed (m.x ra) c wx))

      pub rem_pow2-Computes : Computes lk (rem_pow2 rd ra k) rd (srem (m.x ra) c) m
      unfolding exec_code exec_instr
      rem_pow2-Computes =
          then-Computes lk (emit_pow2_bias scratch1 ra k) _ rd _ m biased_machine
            emit_pow2_bias-exec (set_scratch1-Unchanged rd _ m)
            (
              _,
              ap (λ o. bind o (exec_code lk (rem_tail rd))) add-exec,
              set_x-Computed rd _ (srem (m.x ra) c) biased_machine multiplied nz
                  (ap (λ y. sub32 y (sra sum k * 2 ^ k % word_mod)) kept
                    ∙ ap (λ y. sub32 (m.x ra) (y * 2 ^ k % word_mod)) quotient
                    ∙ ap
                        (λ p.
                          sub32 (m.x ra)
                            (signed (is_neg (m.x ra)) (magnitude (m.x ra) / p) * p % word_mod))
                        (sym size)
                    ∙ srem-signed (m.x ra) c wx)
                  (Unchanged-then rd _ _ _ (set_scratch1-Unchanged rd sum biased_machine) (
                    Unchanged-then rd _ _ _ (set_scratch1-Unchanged rd (sra sum k) summed)
                      (set_scratch1-Unchanged rd _ _))),
            )
