-- ===== src/Codegen/Naive/Access.antt =====
-- The code that moves values between registers, the frame and immediates.
use toy_c_cp.Prelude.{ℕ, ◌+◌, ◌%◌, ◌<◌, ◌≡◌, ◌≢◌, refl, some, arith, Bool-cases, inl, inr}
use toy_c_cp.Word.{word_mod, add32}
use toy_c_cp.Ir.Meaning.{update}
use toy_c_cp.Rv.{x_sp, x_t6, x_zero}
use toy_c_cp.Rv.Machine.{Machine, Linker, set_x, set_mem, exec_instr, exec_code}
use toy_c_cp.Codegen.Naive.{load_off, store_off, fits12}

-- Register `r` has got the value `v`; t6 may have changed.
pub record Loaded (r v : ℕ) (m m' : Machine) : Type 0 where
  pub loaded : m'.x r ≡ v
  pub same_mem : m'.mem ≡ m.mem
  pub same_x : (q : ℕ) → q ≢ r → q ≢ x_t6 → m'.x q ≡ m.x q

-- The word at address `a` has become `v`; t6 may have changed.
pub record Stored (a v : ℕ) (m m' : Machine) : Type 0 where
  pub stored : m'.mem ≡ update m.mem a v
  pub same_x : (q : ℕ) → q ≢ x_t6 → m'.x q ≡ m.x q

-- After `li t6, off; add t6, sp, t6`.
abbrev far : ℕ → Machine → Machine
far off m = set_x x_t6 (m.x x_sp + off) (set_x x_t6 off m)

module _ (lk : Linker) where
  pub load_off-Loaded :
      (r off : ℕ) (m : Machine)
      → r ≢ x_zero
      → m.x x_sp + off < word_mod
      → (m.x x_sp + off) % 4 ≡ 0
      → (m' : Machine) × (exec_code lk (load_off r off) m ≡ some m')
        × Loaded r (m.mem (m.x x_sp + off)) m m'
  unfolding load_off exec_code exec_instr add32
  load_off-Loaded r off m nz fit al = elim (Bool-cases (fits12 off)) [
    | inl short ↦ (
      set_x r (m.mem (m.x x_sp + off)) m,
      ground arith,
      record { loaded = ground arith; same_mem = ground arith; same_x = λ q n n6. ground arith },
    )
    | inr long ↦ (
      set_x r (m.mem (m.x x_sp + off)) (far off m),
      ground arith,
      record { loaded = ground arith; same_mem = ground arith; same_x = λ q n n6. ground arith },
    )
  ]

  pub store_off-Stored :
      (r off : ℕ) (m : Machine)
      → r ≢ x_t6
      → m.x x_sp + off < word_mod
      → (m.x x_sp + off) % 4 ≡ 0
      → (m' : Machine) × (exec_code lk (store_off r off) m ≡ some m')
        × Stored (m.x x_sp + off) (m.x r) m m'
  unfolding store_off exec_code exec_instr add32
  store_off-Stored r off m n6 fit al = elim (Bool-cases (fits12 off)) [
    | inl short ↦ (
      set_mem (m.x x_sp + off) (m.x r) m,
      ground arith,
      record { stored = refl; same_x = λ q n. refl },
    )
    | inr long ↦ (
      set_mem (m.x x_sp + off) (m.x r) (far off m),
      ground arith,
      record { stored = refl; same_x = λ q n. ground arith },
    )
  ]
