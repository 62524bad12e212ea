-- ===== src/Word/Laws.antt =====
-- Laws of 32-bit words that the passes and the code generator use.
use toy_c_cp.Prelude.{ℕ, ◌/◌, ◌%◌, ◌≤◌, ◌≡◌, ◌≢◌, false, arith}
use toy_c_cp.Word.{IsWord, minus_one, add32, sub32, mul32, neg32, magnitude, slt, sdiv, srem}

pub add32-zero : (a : ℕ) → IsWord a → add32 a 0 ≡ a
unfolding add32
add32-zero a h = omega arith

pub zero-add32 : (a : ℕ) → IsWord a → add32 0 a ≡ a
unfolding add32
zero-add32 a h = omega arith

pub sub32-zero : (a : ℕ) → IsWord a → sub32 a 0 ≡ a
unfolding sub32
sub32-zero a h = omega arith

pub zero-sub32 : (a : ℕ) → IsWord a → sub32 0 a ≡ neg32 a
unfolding sub32 neg32
zero-sub32 a h = omega arith

pub sub32_self : (a : ℕ) → IsWord a → sub32 a a ≡ 0
unfolding sub32
sub32_self a h = omega arith

pub mul32-one : (a : ℕ) → IsWord a → mul32 a 1 ≡ a
unfolding mul32
mul32-one a h = omega arith

pub one-mul32 : (a : ℕ) → IsWord a → mul32 1 a ≡ a
unfolding mul32
one-mul32 a h = omega arith

pub mul32-minus_one : (a : ℕ) → IsWord a → mul32 a minus_one ≡ neg32 a
unfolding mul32 neg32
mul32-minus_one a h = omega arith

pub minus_one-mul32 : (a : ℕ) → IsWord a → mul32 minus_one a ≡ neg32 a
unfolding mul32 neg32
minus_one-mul32 a h = omega arith

pub neg32-neg32 : (a : ℕ) → IsWord a → neg32 (neg32 a) ≡ a
unfolding neg32
neg32-neg32 a h = omega arith

pub sdiv-one : (a : ℕ) → IsWord a → sdiv a 1 ≡ a
unfolding sdiv
sdiv-one a h = ground arith

pub sdiv-minus_one : (a : ℕ) → IsWord a → sdiv a minus_one ≡ neg32 a
unfolding sdiv
sdiv-minus_one a h = ground arith

pub srem-one : (a : ℕ) → srem a 1 ≡ 0
unfolding srem
srem-one a = ground arith

pub srem-minus_one : (a : ℕ) → srem a minus_one ≡ 0
unfolding srem
srem-minus_one a = ground arith

pub slt_self : (a : ℕ) → slt a a ≡ false
unfolding slt
slt_self a = ground arith

div-le : (m n : ℕ) → m / n ≤ m
div-le m n = grind arith

pub sdiv-lt : (a b : ℕ) → IsWord a → b ≢ 0 → IsWord (sdiv a b)
unfolding sdiv
sdiv-lt a b h k = ground (arith, div-le (magnitude a) (magnitude b))

pub srem-lt : (a b : ℕ) → IsWord a → IsWord b → b ≢ 0 → IsWord (srem a b)
unfolding srem
srem-lt a b h l k = ground arith

div_self : (m : ℕ) → m ≢ 0 → m / m ≡ 1
div_self m h = grind arith

mod_self : (m : ℕ) → m % m ≡ 0
mod_self m = grind arith

magnitude-ne-zero : (a : ℕ) → IsWord a → a ≢ 0 → magnitude a ≢ 0
unfolding magnitude
magnitude-ne-zero a h k = ground arith

pub sdiv_self : (a : ℕ) → IsWord a → a ≢ 0 → sdiv a a ≡ 1
unfolding sdiv
sdiv_self a h k = rw (div_self (magnitude a) (magnitude-ne-zero a h k)) (ground arith)

pub srem_self : (a : ℕ) → IsWord a → a ≢ 0 → srem a a ≡ 0
unfolding srem
srem_self a h k = rw (mod_self (magnitude a)) (ground arith)

pub mul32-zero : (a : ℕ) → mul32 a 0 ≡ 0
unfolding mul32
mul32-zero a = omega arith

pub zero-mul32 : (a : ℕ) → mul32 0 a ≡ 0
unfolding mul32
zero-mul32 a = omega arith
