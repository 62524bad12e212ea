-- ===== src/Word.antt =====
-- `int32_t` and `uint32_t` as they stand in ast/AST.h, ir/IR.h and sema/Sema.cpp: a bit pattern,
-- a native number below 2 ^ 32. A cast between the two types is then the identity.
pub mod Laws
use toy_c_cp.Prelude.{
  ℕ, ◌+◌, ◌-◌, ◌*◌, ◌/◌, ◌%◌, ◌<◌, Bool, true, false, ltb, leb, ◌==◌, if◌then◌else◌, ◌&&◌, not,
}

-- 2 ^ 32 and 2 ^ 31; the pattern of INT_MIN is `half_mod`, that of -1 is `minus_one`.
abbrev pub word_mod : ℕ
word_mod = 4294967296

abbrev pub half_mod : ℕ
half_mod = 2147483648

abbrev pub minus_one : ℕ
minus_one = 4294967295

abbrev pub IsWord : ℕ → Type 0
IsWord a = a < word_mod

abbrev pub of_bool : Bool → ℕ
of_bool b = if b then 1 else 0

unfoldable pub add32 : ℕ → ℕ → ℕ
add32 a b = (a + b) % word_mod

unfoldable pub sub32 : ℕ → ℕ → ℕ
sub32 a b = (a + word_mod - b) % word_mod

unfoldable pub mul32 : ℕ → ℕ → ℕ
mul32 a b = (a * b) % word_mod

unfoldable pub neg32 : ℕ → ℕ
neg32 a = (word_mod - a) % word_mod

-- The sign bit, and the absolute value as an unsigned number.
unfoldable pub is_neg : ℕ → Bool
is_neg a = leb half_mod a

unfoldable pub magnitude : ℕ → ℕ
unfolding is_neg
magnitude a = if is_neg a then word_mod - a else a

-- The value plus 2 ^ 31: the signed order of two patterns is the order of these numbers.
unfoldable pub biased : ℕ → ℕ
biased a = if leb half_mod a then a - half_mod else a + half_mod

unfoldable pub slt : ℕ → ℕ → Bool
unfolding biased
slt a b = ltb (biased a) (biased b)

-- C++ signed `/` and `%` for a divisor other than 0: rounding towards 0, the remainder with the
-- sign of the dividend.
unfoldable pub sdiv : ℕ → ℕ → ℕ
unfolding is_neg magnitude neg32
sdiv a b =
    let q = magnitude a / magnitude b in
    if is_neg a then if is_neg b then q else neg32 q else if is_neg b then neg32 q else q

unfoldable pub srem : ℕ → ℕ → ℕ
unfolding is_neg magnitude neg32
srem a b = let r = magnitude a % magnitude b in if is_neg a then neg32 r else r
