-- ===== src/Opt/Magic.antt =====
-- src/opt/Passes.cpp and src/codegen/OptCodeGen.cpp, unsignedMagic and signedMagic (the two files
-- hold the same text): the numbers for a division by a constant.
pub mod Unsigned
use toy_c_cp.Prelude.{
  ℕ, zero, suc, ◌+◌, ◌-◌, ◌*◌, ◌/◌, ◌%◌, ◌^◌, Bool, true, false, not, ◌&&◌, ◌||◌, Option, none,
  some, ltb, leb, ◌==◌, if◌then◌else◌,
}
use toy_c_cp.Word.{word_mod, half_mod, is_neg, magnitude, neg32}

pub record MagicNumber : Type 0 where
  pub multiplier : ℕ
  pub shift : ℕ

abbrev u64_mod : ℕ
u64_mod = 18446744073709551616

-- `1ULL << (32 + k)`; the sum with d - 1 is taken modulo 2 ^ 64.
unfoldable pub ceil_div : ℕ → ℕ → ℕ
ceil_div d k = (word_mod * 2 ^ k + d - 1) % u64_mod / d

-- The loop over `k`, with the rounds that are left.
unfoldable pub unsigned_from : ℕ → ℕ → ℕ → MagicNumber
unsigned_from zero d k = record { multiplier = 0; shift = 0 }
unsigned_from (suc rounds) d k =
    let rest = unsigned_from rounds d (k + 1) in
    let m = ceil_div d k in if ltb m word_mod then record { multiplier = m; shift = k } else rest

unfoldable pub unsigned_magic : ℕ → MagicNumber
unsigned_magic d = unsigned_from 33 d 0

-- The state of the `do` loop of signedMagic, all `uint32_t`.
pub record Search : Type 0 where
  pub p : ℕ
  pub q1 : ℕ
  pub r1 : ℕ
  pub q2 : ℕ
  pub r2 : ℕ

-- `q *= 2; r *= 2; if (r >= n) { q++; r -= n; }`
unfoldable pub double_q : ℕ → ℕ → ℕ → ℕ
double_q n q r = (2 * q % word_mod + (if leb n (2 * r % word_mod) then 1 else 0)) % word_mod

unfoldable pub double_r : ℕ → ℕ → ℕ
double_r n r = if leb n (2 * r % word_mod) then 2 * r % word_mod - n else 2 * r % word_mod

unfoldable pub search_step : ℕ → ℕ → Search → Search
unfolding double_q double_r
search_step anc ad s = record {
  p = s.p + 1;
  q1 = double_q anc s.q1 s.r1;
  r1 = double_r anc s.r1;
  q2 = double_q ad s.q2 s.r2;
  r2 = double_r ad s.r2;
}

-- `q1 < delta || (q1 == delta && r1 == 0)`
unfoldable pub goes_on : ℕ → Search → Bool
goes_on ad s = let delta = ad - s.r2 in ltb s.q1 delta || s.q1 == delta && s.r1 == 0

unfoldable pub search : ℕ → ℕ → ℕ → Search → Search
search zero anc ad s = s
search (suc fuel) anc ad s =
    let s' = search_step anc ad s in
    let rest = search fuel anc ad s' in if goes_on ad s' then rest else s'

unfoldable pub signed_magic : ℕ → MagicNumber
unfolding search search_step goes_on is_neg magnitude neg32
signed_magic d =
    let ad = magnitude d in
    let t = half_mod + (if is_neg d then 1 else 0) in
    let anc = t - 1 - t % ad in
    let s = search 33 anc ad (record {
      p = 31;
      q1 = half_mod / anc;
      r1 = half_mod % anc;
      q2 = half_mod / ad;
      r2 = half_mod % ad;
    }) in
    let m = (s.q2 + 1) % word_mod in
    record { multiplier = if is_neg d then neg32 m else m; shift = s.p - 32 }
