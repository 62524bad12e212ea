-- ===== src/Codegen/Optimised/Constant/Shift.antt =====
-- Signed division by a power of two, by shifts: rounding towards 0 takes a bias on negative numbers.
use native.Mathlib.Nat.{
  div-le_self, one-mul, le-mul_of_pos_right, lt_of_mul-lt-mul_right, pow-suc, div-add-mod', mod-lt,
  div-eq_of_lt-le, div-eq_of_lt,
}
use toy_c_cp.Prelude.{
  ℕ, zero, suc, ◌+◌, ◌-◌, ◌*◌, ◌/◌, ◌%◌, ◌^◌, ◌≤◌, ◌<◌, ◌≡◌, refl, ap, ◌∙◌, Bool, true, false,
  arith, leb, Bool-cases, inl, inr, if◌then◌else◌,
}
use toy_c_cp.Word.{IsWord, word_mod, half_mod, add32, sub32, neg32, is_neg, magnitude, sdiv, srem}
use toy_c_cp.Word.Laws.{neg32-neg32}
use toy_c_cp.Rv.Machine.{sra}
use toy_c_cp.Codegen.Optimised.Constant.Multiply.{signed}

pub power_sum : (k j : ℕ) → 2 ^ k * 2 ^ j ≡ 2 ^ (k + j)
power_sum zero j = ap (λ x. x) (one-mul (2 ^ j)) ∙ ap (λ x. 2 ^ x) (omega arith)
power_sum (suc k) j =
    let ih = power_sum k j in
    let twice : 2 ^ suc k * 2 ^ j ≡ 2 * (2 ^ k * 2 ^ j) = grind (arith, pow-suc 2 k) in
    let next : 2 ^ (suc k + j) ≡ 2 * 2 ^ (k + j) =
      ap (λ x. 2 ^ x) {y = suc (k + j)} (omega arith) ∙ omega (arith, pow-suc 2 (k + j)) in
    omega (arith, twice, ih, next)

sum_times : (p a b s : ℕ) → a + b ≡ s → a * p + b * p ≡ s * p
sum_times p a b s e =
    let parts : a * p + b * p ≡ (a + b) * p = grind arith in parts ∙ ap (λ t. t * p) e

magnitude-IsWord : (x : ℕ) → IsWord x → IsWord (magnitude x)
unfolding magnitude is_neg
magnitude-IsWord x w = ground arith

abbrev pub bias : ℕ → ℕ → ℕ
bias p x = if is_neg x then p - 1 else 0

-- With p q = 2 ^ 32, for p = 2 ^ k.
module _ (p q : ℕ) (two : 2 ≤ p) (low : p ≤ half_mod) (split : q * p ≡ word_mod) where
  one_more : (a : ℕ) → (a + 1) * p ≡ a * p + p
  one_more a = omega (arith, sum_times p a 1 (a + 1) refl)

  word_over : word_mod / p ≡ q
  word_over = div-eq_of_lt-le p (omega (arith, split)) (omega (arith, one_more q))

  quotient_bits :
      (n : ℕ)
      → p ≤ n
      → n ≤ half_mod
      → ((word_mod - n + p - 1) / p ≡ q - n / p) × (0 < n / p) × (n / p < q)
  quotient_bits n l h =
      let d : ℕ = n / p in
      let parts = div-add-mod' n p in
      let small = mod-lt n {m = p} (omega arith) in
      let below : d < q = lt_of_mul-lt-mul_right p (omega arith) in
      let whole = sum_times p (q - d) d q (omega arith) in
      let more : 1 * p < (d + 1) * p = omega (arith, one_more d) in
      let above : 0 < d = omega (arith, lt_of_mul-lt-mul_right p more) in
      (div-eq_of_lt-le p (omega arith) (omega (arith, one_more (q - d))), above, below)

  q_pos : 0 < q
  q_pos = lt_of_mul-lt-mul_right p (omega (arith, split))

  q_low : q ≤ word_mod
  q_low = omega (arith, split, le-mul_of_pos_right {m = p} q (omega arith))

  pub last_ones : (word_mod - 1) / q ≡ p - 1
  last_ones =
      let parts = sum_times q (p - 1) 1 p (omega arith) in
      let turned : p * q ≡ q * p = grind arith in
      div-eq_of_lt-le q (omega (arith, q_pos))
        (omega (arith, q_pos, sum_times q (p - 1) 1 (p - 1 + 1) refl))

  sra-neg : (a k : ℕ) → 2 ^ k ≡ p → is_neg a ≡ true → sra a k ≡ a / p + (word_mod - q)
  unfolding sra
  sra-neg a k e neg = rw (neg, e, word_over) refl

  sra-pos : (a k : ℕ) → 2 ^ k ≡ p → is_neg a ≡ false → sra a k ≡ a / p
  unfolding sra
  sra-pos a k e pos = rw (pos, e) refl

  -- The shift to the right of a biased number.
  sra_biased-neg :
      (k x : ℕ)
      → 2 ^ k ≡ p
      → IsWord x
      → is_neg x ≡ true
      → sra (add32 x (p - 1)) k ≡ neg32 (magnitude x / p)
  unfolding add32 neg32 magnitude is_neg
  sra_biased-neg k x e w neg =
      let n : ℕ = word_mod - x in
      let large : half_mod ≤ x = ground arith in
      elim (Bool-cases (leb p n)) [
        | inl over ↦
            let same : add32 x (p - 1) ≡ word_mod - n + p - 1 = ground arith in
            let (bits, above, below) = quotient_bits n (ground arith) (omega arith) in
            let at = sra-neg (word_mod - n + p - 1) k e (ground arith) in
            ap (λ y. sra y k) same ∙ at ∙ rw neg (omega (arith, q_low))
        | inr under ↦
            let same : add32 x (p - 1) ≡ p - 1 - n = ground arith in
            let none = div-eq_of_lt {n = n} {m = p} (ground arith) in
            let none' = div-eq_of_lt {n = p - 1 - n} {m = p} (omega arith) in
            let at = sra-pos (p - 1 - n) k e (ground arith) in
            ap (λ y. sra y k) same ∙ at ∙ rw neg (omega arith)
      ]

  sra_biased-pos :
      (k x : ℕ) → 2 ^ k ≡ p → IsWord x → is_neg x ≡ false → sra (add32 x 0) k ≡ magnitude x / p
  unfolding add32 magnitude is_neg
  sra_biased-pos k x e w pos =
      let same : add32 x 0 ≡ x = omega arith in rw pos (ap (λ y. sra y k) same ∙ sra-pos x k e pos)

  -- The shift of a biased number divides, rounding towards 0.
  pub sra_biased :
      (k x : ℕ)
      → 2 ^ k ≡ p
      → IsWord x
      → sra (add32 x (bias p x)) k ≡ signed (is_neg x) (magnitude x / p)
  sra_biased k x e w = elim (Bool-cases (is_neg x)) [
    | inl neg ↦ rw neg (sra_biased-neg k x e w neg)
    | inr pos ↦ rw pos (sra_biased-pos k x e w pos)
  ]

signed_twice :
    (a b : Bool) (q : ℕ)
    → IsWord q
    → signed b (signed a q) ≡ (if a then (if b then q else neg32 q) else if b then neg32 q else q)
signed_twice true true q w = neg32-neg32 q w
signed_twice true false q w = refl
signed_twice false true q w = refl
signed_twice false false q w = refl

-- Signed division by way of the sizes.
pub sdiv-signed :
    (x c : ℕ)
    → IsWord x
    → signed (is_neg c) (signed (is_neg x) (magnitude x / magnitude c)) ≡ sdiv x c
unfolding sdiv
sdiv-signed x c w =
    let small = div-le_self (magnitude x) (magnitude c) in
    signed_twice (is_neg x) (is_neg c) _ (omega (arith, magnitude-IsWord x w))

negative-times : (d p : ℕ) → d ≤ word_mod → neg32 d * p % word_mod ≡ neg32 (d * p % word_mod)
unfolding neg32
negative-times d p l =
    let whole = sum_times p (word_mod - d) d word_mod (omega arith) in
    let zero_times : 0 * p ≡ 0 = omega arith in ground (arith, whole, zero_times)

minus_negative :
    (x n t r : ℕ)
    → x ≡ word_mod - n
    → t + r ≡ n
    → 0 < n
    → n < word_mod
    → sub32 x (neg32 (t % word_mod)) ≡ neg32 r
unfolding sub32 neg32
minus_negative x n t r e p pos l = omega arith

minus_multiple : (x t r : ℕ) → t + r ≡ x → IsWord x → sub32 x (t % word_mod) ≡ r
unfolding sub32
minus_multiple x t r p w = omega arith

rem_parts :
    (b : Bool) (x n p : ℕ)
    → IsWord x
    → x ≡ (if b then word_mod - n else n)
    → n < word_mod
    → sub32 x (signed b (n / p) * p % word_mod) ≡ signed b (n % p)
rem_parts true x n p w e l =
    let low = div-le_self n p in
    ap (sub32 x) (negative-times (n / p) p (omega arith))
    ∙ minus_negative x n (n / p * p) (n % p) e (div-add-mod' n p) (omega arith) l
rem_parts false x n p w e l =
    minus_multiple x (n / p * p) (n % p) (omega (arith, div-add-mod' n p)) w

signed-magnitude :
    (x : ℕ) → IsWord x → x ≡ (if is_neg x then word_mod - magnitude x else magnitude x)
unfolding magnitude is_neg
signed-magnitude x w = ground arith

-- The quotient times the divisor, taken from the dividend.
pub srem-signed :
    (x c : ℕ)
    → IsWord x
    → sub32 x (signed (is_neg x) (magnitude x / magnitude c) * magnitude c % word_mod) ≡ srem x c
unfolding srem
srem-signed x c w =
    rem_parts (is_neg x) x (magnitude x) (magnitude c) w (signed-magnitude x w)
      (magnitude-IsWord x w)
