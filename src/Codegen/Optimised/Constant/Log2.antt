-- ===== src/Codegen/Optimised/Constant/Log2.antt =====
-- The exponent that log2exact finds.
use Prim.Native.Nat.{min, digits, bit_and, bit_and-bitwise}
use native.Mathlib.Nat.{pow-suc, one-le-pow, pow-le-pow_right}
use toy_c_cp.Prelude.{
  ℕ, zero, suc, ◌-◌, ◌/◌, ◌%◌, ◌^◌, ◌≤◌, ◌<◌, ◌≡◌, refl, sym, ap, ◌∙◌, true, some, none, Option,
  arith, ltb, ◌==◌, Bool-cases, inl, inr,
}
use mathlib.Core.Option.{some-injective}
use toy_c_cp.Word.{word_mod}
use toy_c_cp.Codegen.Optimised.Constant.{halvings, log2exact, at_least_one, exponent}

-- `a & b`, digit by digit, on fuel.
abbrev common : ℕ → ℕ → ℕ → ℕ
common n a b = digits (λ b. zero) min n a b

common_self : (n w : ℕ) → w ≤ n → common n w w ≡ 0 → w ≡ 0
common_self zero w l h = omega arith
common_self (suc n) zero l h = refl
common_self (suc n) (suc w) l h =
    let half = common_self n (suc w / 2) (omega arith) in
    let zero_half : common n (suc w / 2) (suc w / 2) ≡ 0 = omega arith in
    omega (arith, half zero_half)

common_pred : (n a : ℕ) → 0 < a → a ≤ n → common n a (a - 1) ≡ 0 → (j : ℕ) × (a ≡ 2 ^ j)
common_pred zero a p l h = absurd (omega arith)
common_pred (suc n) zero p l h = absurd (omega arith)
common_pred (suc n) (suc a) p l h =
    let zero_half : common n (suc a / 2) ((suc a - 1) / 2) ≡ 0 = omega arith in
    elim (Bool-cases (suc a % 2 == 0)) [
      | inl even ↦
          let two : suc a % 2 ≡ 0 = ground arith in
          let pred : (suc a - 1) / 2 ≡ suc a / 2 - 1 = omega arith in
          let (j, e) =
            common_pred n (suc a / 2) (omega arith) (omega arith)
              (ap (common n (suc a / 2)) (sym pred) ∙ zero_half) in
          (suc j, omega (arith, e, pow-suc 2 j))
      | inr odd ↦
          let one : suc a % 2 ≡ 1 = ground arith in
          let pred : (suc a - 1) / 2 ≡ suc a / 2 = omega arith in
          let none_left =
            common_self n (suc a / 2) (omega arith)
              (ap (common n (suc a / 2)) (sym pred) ∙ zero_half) in
          (0, omega arith)
    ]

halvings-power : (fuel j : ℕ) → j ≤ fuel → halvings fuel (2 ^ j) ≡ j
unfolding halvings
halvings-power zero j l = omega arith
halvings-power (suc fuel) zero l = refl
halvings-power (suc fuel) (suc j) l =
    let half : 2 ^ suc j / 2 ≡ 2 ^ j = omega (arith, pow-suc 2 j) in
    let above : ltb 1 (2 ^ suc j) ≡ true =
      ground (arith, pow-suc 2 j, one-le-pow j 2 (omega arith)) in
    rw (above, half) (ap suc (halvings-power fuel j (omega arith)))

-- A power of two below 2 ^ 32 has an exponent below 32.
power-below : (j : ℕ) → 2 ^ j < word_mod → j < 32
power-below j l = elim (Bool-cases (ltb j 32)) [
  | inl small ↦ ground arith
  | inr large ↦
      let more : 2 ^ 32 ≤ 2 ^ j = pow-le-pow_right (omega arith) {i = 32} (ground arith) in
      absurd (omega arith)
]

pub log2exact-power : (v k : ℕ) → v < word_mod → log2exact v ≡ some k → (v ≡ 2 ^ k) × (k < 32)
unfolding log2exact
log2exact-power v k l e = elim (Bool-cases (v == 0)) [
  | inl z ↦ absurd (ground arith)
  | inr nz ↦ elim (Bool-cases (bit_and v (v - 1) == 0)) [
    | inr other ↦ absurd (ground arith)
    | inl one ↦
        let disjoint : bit_and v (v - 1) ≡ 0 = ground arith in
        let (j, p) =
          common_pred v v (ground arith) (omega arith)
            (sym (bit_and-bitwise v (v - 1)) ∙ disjoint) in
        let below : j < 32 = power-below j (rw (← p) l) in
        let found : halvings 32 v ≡ j = ap (halvings 32) p ∙ halvings-power 32 j (omega arith) in
        let same : halvings 32 v ≡ k = ground arith in
        let jk : j ≡ k = sym found ∙ same in (p ∙ ap (λ x. 2 ^ x) jk, omega arith)
  ]
]

at_least_one-some : (o : Option ℕ) (k : ℕ) → at_least_one o ≡ some k → (o ≡ some k) × (0 < k)
at_least_one-some none k e = absurd (cc)
at_least_one-some (some zero) k e = absurd (cc)
at_least_one-some (some (suc j)) k e = (e, omega (arith, some-injective _ _ e))

pub exponent-power :
    (v k : ℕ) → v < word_mod → exponent v ≡ some k → (v ≡ 2 ^ k) × (0 < k) × (k < 32)
exponent-power v k l e =
    let (found, pos) = at_least_one-some (log2exact v) k e in
    let (power, small) = log2exact-power v k l found in (power, pos, small)
