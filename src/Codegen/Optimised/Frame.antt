-- ===== src/Codegen/Optimised/Frame.antt =====
-- Loads from the frame and stores to it, with a7 for the offsets that do not fit.
use toy_c_cp.Prelude.{ℕ, ◌+◌, ◌%◌, ◌<◌, ◌≡◌, ◌≢◌, refl, some, arith, Bool-cases, inl, inr, leb}
use toy_c_cp.Word.{word_mod, add32}
use toy_c_cp.Ir.Meaning.{update}
use toy_c_cp.Rv.{x_sp, x_a7, x_zero}
use toy_c_cp.Rv.Machine.{Machine, Linker, set_x, set_mem, exec_instr, exec_code}
use toy_c_cp.Codegen.Optimised.Access.{load_off, store_off}
use toy_c_cp.Codegen.Optimised.Computed.{Unchanged}

-- The word at address `a` has become `v`; a7 may have changed.
pub record Stored (a v : ℕ) (m n : Machine) : Type 0 where
  pub stored : n.mem ≡ update m.mem a v
  pub same_x : (q : ℕ) → q ≢ x_a7 → n.x q ≡ m.x q

-- The memory, and every register but `r` and a7.
pub record Touched (r : ℕ) (m n : Machine) : Type 0 where
  pub same_mem : n.mem ≡ m.mem
  pub same_x : (q : ℕ) → q ≢ r → q ≢ x_a7 → n.x q ≡ m.x q

pub Touched-Unchanged : {r : ℕ} {m n : Machine} → Touched r m n → Unchanged r m n
Touched-Unchanged t = record {
  same_mem = t.same_mem;
  same_x = λ q n k. t.same_x q n (ground arith);
}

-- After `li a7, off; add a7, sp, a7`.
abbrev far : ℕ → Machine → Machine
far off m = set_x x_a7 (m.x x_sp + off) (set_x x_a7 off m)

module _ (lk : Linker) where
  pub load_off-Touched :
      (r off : ℕ) (m : Machine)
      → r ≢ x_zero
      → m.x x_sp + off < word_mod
      → (m.x x_sp + off) % 4 ≡ 0
      → (n : Machine) × (exec_code lk (load_off r off) m ≡ some n)
        × (n.x r ≡ m.mem (m.x x_sp + off))
        × Touched r m n
  unfolding load_off exec_code exec_instr add32
  load_off-Touched r off m nz fit al = elim (Bool-cases (leb off 2047)) [
    | inl short ↦ (
      set_x r (m.mem (m.x x_sp + off)) m,
      ground arith,
      ground arith,
      record { same_mem = ground arith; same_x = λ q n k. ground arith },
    )
    | inr long ↦ (
      set_x r (m.mem (m.x x_sp + off)) (far off m),
      ground arith,
      ground arith,
      record { same_mem = ground arith; same_x = λ q n k. ground arith },
    )
  ]

  pub store_off-Stored :
      (r off : ℕ) (m : Machine)
      → r ≢ x_a7
      → m.x x_sp + off < word_mod
      → (m.x x_sp + off) % 4 ≡ 0
      → (n : Machine) × (exec_code lk (store_off r off) m ≡ some n)
        × Stored (m.x x_sp + off) (m.x r) m n
  unfolding store_off exec_code exec_instr add32
  store_off-Stored r off m n7 fit al = elim (Bool-cases (leb off 2047)) [
    | inl short ↦ (
      set_mem (m.x x_sp + off) (m.x r) m,
      ground arith,
      record { stored = refl; same_x = λ q n. refl },
    )
    | inr long ↦ (
      set_mem (m.x x_sp + off) (m.x r) (far off m),
      ground arith,
      record { stored = refl; same_x = λ q n. ground arith },
    )
  ]
