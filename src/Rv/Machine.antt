-- ===== src/Rv/Machine.antt =====
-- What the instructions do, by the RISC-V manual: a register file, and a memory of words of four bytes
-- that are read and written as a whole at the multiples of 4. An access anywhere else, which the manual
-- lets trap, has no step here, and neither have jumps and calls.
use Prim.Native.Nat.{bit_xor}
use toy_c_cp.Prelude.{
  ℕ, ◌+◌, ◌-◌, ◌*◌, ◌/◌, ◌%◌, ◌^◌, ◌≡◌, refl, sym, ap, ◌∙◌, fun_ext, Option, none, some, List, [],
  ◌∷◌, ◌++◌, ◌==◌, if◌then◌else◌,
}
use toy_c_cp.Word.{
  word_mod, minus_one, add32, sub32, mul32, neg32, sdiv, srem, slt as signed_lt, of_bool, is_neg,
  magnitude,
}
use toy_c_cp.Ir.Meaning.{update, bind}
use toy_c_cp.Rv.{
  Instr, li, lw, sw, add, sub, mul, div, rem, slt, addi, xori, neg, seqz, snez, mv, slti, slli,
  srli, srai, mulh, mulhu, lui_hi, lw_lo, sw_lo,
}

pub record Machine : Type 0 where
  pub x : ℕ → ℕ
  pub mem : ℕ → ℕ

-- The addresses of the globals, and what the linker makes of %hi and %lo.
pub record Linker : Type 0 where
  pub address : ℕ → ℕ
  pub hi : ℕ → ℕ
  pub lo : ℕ → ℕ
  pub hi_lo : (g : ℕ) → (hi g + lo g) % word_mod ≡ address g

-- Register 0 stays 0.
abbrev pub set_x : ℕ → ℕ → Machine → Machine
set_x rd v m = if rd == 0 then m else record m { x = update m.x rd v }

abbrev pub set_mem : ℕ → ℕ → Machine → Machine
set_mem a v m = record m { mem = update m.mem a v }

-- Division by 0 gives -1, and the remainder is the dividend.
unfoldable pub rv_div : ℕ → ℕ → ℕ
rv_div a b = if b == 0 then minus_one else sdiv a b

unfoldable pub rv_rem : ℕ → ℕ → ℕ
rv_rem a b = if b == 0 then a else srem a b

-- The shift to the right that repeats the sign bit.
unfoldable pub sra : ℕ → ℕ → ℕ
unfolding is_neg
sra a k = if is_neg a then a / 2 ^ k + (word_mod - word_mod / 2 ^ k) else a / 2 ^ k

-- The upper word of the signed product, whose 64 bits are 2 ^ 64 less its size where the signs differ.
unfoldable pub mul_high : ℕ → ℕ → ℕ
unfolding is_neg magnitude
mul_high a b =
    let p = magnitude a * magnitude b in
    let same = p / word_mod in
    let differ = (word_mod * word_mod - p) / word_mod % word_mod in
    if is_neg a then (if is_neg b then same else differ) else if is_neg b then differ else same

-- A load or a store at address `a`, which goes on with `n` if the address is aligned.
abbrev pub aligned : ℕ → Machine → Option Machine
aligned a n = if a % 4 == 0 then some n else none

pub aligned-some : (a : ℕ) (n : Machine) → a % 4 ≡ 0 → aligned a n ≡ some n
aligned-some a n h = rw h

bind_assoc :
    {A B C : Type 0} (m : Option A) (f : A → Option B) (g : B → Option C)
    → bind (bind m f) g ≡ bind m (λ a. bind (f a) g)
bind_assoc none f g = refl
bind_assoc (some a) f g = refl

module _ (lk : Linker) where
  unfoldable pub exec_instr : Instr → Machine → Option Machine
  unfolding rv_div rv_rem sra mul_high
  exec_instr (li rd v) m = some (set_x rd v m)
  exec_instr (lw rd off rs) m =
      aligned ((m.x rs + off) % word_mod) (set_x rd (m.mem ((m.x rs + off) % word_mod)) m)
  exec_instr (sw rv off rs) m =
      aligned ((m.x rs + off) % word_mod) (set_mem ((m.x rs + off) % word_mod) (m.x rv) m)
  exec_instr (add rd a b) m = some (set_x rd (add32 (m.x a) (m.x b)) m)
  exec_instr (sub rd a b) m = some (set_x rd (sub32 (m.x a) (m.x b)) m)
  exec_instr (mul rd a b) m = some (set_x rd (mul32 (m.x a) (m.x b)) m)
  exec_instr (div rd a b) m = some (set_x rd (rv_div (m.x a) (m.x b)) m)
  exec_instr (rem rd a b) m = some (set_x rd (rv_rem (m.x a) (m.x b)) m)
  exec_instr (slt rd a b) m = some (set_x rd (of_bool (signed_lt (m.x a) (m.x b))) m)
  exec_instr (addi rd a v) m = some (set_x rd (add32 (m.x a) v) m)
  exec_instr (xori rd a v) m = some (set_x rd (bit_xor (m.x a) v) m)
  exec_instr (neg rd a) m = some (set_x rd (neg32 (m.x a)) m)
  exec_instr (seqz rd a) m = some (set_x rd (if m.x a == 0 then 1 else 0) m)
  exec_instr (snez rd a) m = some (set_x rd (if m.x a == 0 then 0 else 1) m)
  exec_instr (mv rd a) m = some (set_x rd (m.x a) m)
  exec_instr (slti rd a v) m = some (set_x rd (of_bool (signed_lt (m.x a) v)) m)
  exec_instr (slli rd a k) m = some (set_x rd (m.x a * 2 ^ k % word_mod) m)
  exec_instr (srli rd a k) m = some (set_x rd (m.x a / 2 ^ k) m)
  exec_instr (srai rd a k) m = some (set_x rd (sra (m.x a) k) m)
  exec_instr (mulh rd a b) m = some (set_x rd (mul_high (m.x a) (m.x b)) m)
  exec_instr (mulhu rd a b) m = some (set_x rd (m.x a * m.x b / word_mod) m)
  exec_instr (lui_hi rd g) m = some (set_x rd (lk.hi g) m)
  exec_instr (lw_lo rd g rs) m =
      aligned ((m.x rs + lk.lo g) % word_mod) (set_x rd (m.mem ((m.x rs + lk.lo g) % word_mod)) m)
  exec_instr (sw_lo rv g rs) m =
      aligned ((m.x rs + lk.lo g) % word_mod) (set_mem ((m.x rs + lk.lo g) % word_mod) (m.x rv) m)
  exec_instr _ m = none

  unfoldable pub exec_code : List Instr → Machine → Option Machine
  exec_code [] m = some m
  exec_code (i ∷ is) m = bind (exec_instr i m) (exec_code is)

  pub exec_code-append :
      (is js : List Instr) (m : Machine)
      → exec_code (is ++ js) m ≡ bind (exec_code is m) (exec_code js)
  unfolding exec_code
  exec_code-append [] js m = refl
  exec_code-append (i ∷ is) js m =
      ap (bind (exec_instr i m)) (fun_ext (exec_code-append is js))
      ∙ sym (bind_assoc (exec_instr i m) (exec_code is) (exec_code js))
