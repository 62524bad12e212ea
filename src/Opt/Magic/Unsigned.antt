-- ===== src/Opt/Magic/Unsigned.antt =====
-- What a division by the unsigned magic number gives.
use toy_c_cp.Prelude.{
  ℕ, suc, ◌+◌, ◌-◌, ◌*◌, ◌/◌, ◌%◌, ◌^◌, ◌≤◌, ◌<◌, ◌≡◌, sym, ap, ◌∙◌, ◌↔◌, arith, ltb, lt→ltb, true,
}
use native.Mathlib.Nat.{
  div-one, le_of_mul-le-mul_right, lt_of_mul-lt-mul_right, div-eq_of_lt-le, div-add-mod',
}
use native.Mathlib.Decide.{dec_lt}
use toy_c_cp.Word.{word_mod}
use toy_c_cp.Opt.Magic.{ceil_div, unsigned_from, unsigned_magic}

-- The number 2 ^ 32 / d, rounded up.
abbrev pub multiplier_for : ℕ → ℕ
multiplier_for d = (word_mod + d - 1) / d

ceil_div-zero : (d : ℕ) → d < word_mod → ceil_div d 0 ≡ multiplier_for d
unfolding ceil_div
ceil_div-zero d h = ap (λ x. x / d) (omega arith)

multiplier-lt : (d : ℕ) → 2 ≤ d → d < word_mod → multiplier_for d < word_mod
multiplier-lt d h l = grind arith

unsigned_from-first :
    (rounds d k : ℕ)
    → ltb (ceil_div d k) word_mod ≡ true
    → unsigned_from (suc rounds) d k ≡ record { multiplier = ceil_div d k; shift = k }
unfolding unsigned_from
unsigned_from-first rounds d k h = rw h

-- For every divisor from 2 to 2 ^ 32 - 1 the loop stops at its first round, with 2 ^ 32 / d rounded up
-- as the multiplier and 0 as the shift.
pub unsigned_magic-shift :
    (d : ℕ)
    → 2 ≤ d
    → d < word_mod
    → unsigned_magic d ≡ record { multiplier = multiplier_for d; shift = 0 }
unfolding unsigned_magic
unsigned_magic-shift d h l =
    unsigned_from-first 32 d 0 (rw (ceil_div-zero d l) (lt→ltb _ _ (multiplier-lt d h l)))
    ∙ ap (λ m. record { multiplier = m; shift = 0 }) (ceil_div-zero d l)

-- src/codegen/OptCodeGen.cpp, emitMagicQuotient for an unsigned division: mulhu, then srli.
unfoldable pub magic_quotient : ℕ → ℕ → ℕ
magic_quotient n d = n * (unsigned_magic d).multiplier / word_mod / 2 ^ (unsigned_magic d).shift

-- How far the multiplier is above 2 ^ 32 / d, times d.
abbrev pub excess : ℕ → ℕ
excess d = multiplier_for d * d - word_mod

multiplier_excess : (d : ℕ) → 0 < d → multiplier_for d * d ≡ word_mod + excess d
multiplier_excess d h = grind arith

magic_quotient_lem :
    (n d : ℕ) → 2 ≤ d → d < word_mod → magic_quotient n d ≡ n * multiplier_for d / word_mod
unfolding magic_quotient
magic_quotient_lem n d h l =
    (λ i.
      n
      * (unsigned_magic-shift d h l i).multiplier
      / word_mod
      / 2 ^ (unsigned_magic-shift d h l i).shift)
    ∙ div-one _

-- n M d = (n / d) 2 ^ 32 d + (n % d) 2 ^ 32 + n e.
product_parts :
    (n d m e q r : ℕ)
    → m * d ≡ word_mod + e
    → q * d + r ≡ n
    → n * m * d ≡ q * word_mod * d + (r * word_mod + n * e)
product_parts n d m e q r p k =
    let a : n * m * d ≡ n * (m * d) = grind arith in
    let b : n * (m * d) ≡ n * (word_mod + e) = rw p in
    let c : n * word_mod ≡ (q * d + r) * word_mod = rw k in a ∙ b ∙ grind arith

-- The numbers of one division, with the identity above.
module _ (n d m e q r : ℕ) (p : m * d ≡ word_mod + e) (k : q * d + r ≡ n) (pos : 0 < d) where
  quotient-low : q * word_mod ≤ n * m
  quotient-low = le_of_mul-le-mul_right {k = d} (omega (arith, product_parts n d m e q r p k)) pos

  quotient-exact : r * word_mod + n * e < d * word_mod → n * m / word_mod ≡ q
  quotient-exact h =
      let below : n * m * d < (q + 1) * word_mod * d =
        rw (product_parts n d m e q r p k) (omega arith) in
      div-eq_of_lt-le word_mod quotient-low (lt_of_mul-lt-mul_right d below)

  quotient-wrong : d * word_mod ≤ r * word_mod + n * e → q < n * m / word_mod
  quotient-wrong h =
      let above : (q + 1) * word_mod * d ≤ n * m * d =
        rw (product_parts n d m e q r p k) (omega arith) in
      let over : (q + 1) * word_mod ≤ n * m = le_of_mul-le-mul_right {k = d} above pos in
      omega arith

-- For a divisor d from 2 to 2 ^ 32 - 1, the quotient by the unsigned magic number is n / d for precisely
-- the n with (n % d) 2 ^ 32 + n e < d 2 ^ 32, where e is the excess of the multiplier.
pub magic_quotient-exact_iff :
    (n d : ℕ)
    → 2 ≤ d
    → d < word_mod
    → (magic_quotient n d ≡ n / d) ↔ (n % d * word_mod + n * excess d < d * word_mod)
magic_quotient-exact_iff n d h l = (exact→bound, bound→exact)
  where
    parts : n / d * d + n % d ≡ n
    parts = div-add-mod' n d

    mult : multiplier_for d * d ≡ word_mod + excess d
    mult = multiplier_excess d (omega arith)

    bound→exact : n % d * word_mod + n * excess d < d * word_mod → magic_quotient n d ≡ n / d
    bound→exact b =
        magic_quotient_lem n d h l
        ∙ quotient-exact n d (multiplier_for d) (excess d) (n / d) (n % d) mult parts (omega arith)
            b

    exact→bound : magic_quotient n d ≡ n / d → n % d * word_mod + n * excess d < d * word_mod
    exact→bound e = elim (dec_lt (n % d * word_mod + n * excess d) (d * word_mod)) [
      | yes b ↦ b
      | no c ↦
          let wrong =
            quotient-wrong n d (multiplier_for d) (excess d) (n / d) (n % d) mult parts
              (omega arith) (omega arith) in
          let same = sym (magic_quotient_lem n d h l) ∙ e in absurd (omega arith)
    ]
