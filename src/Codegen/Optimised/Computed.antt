-- ===== src/Codegen/Optimised/Computed.antt =====
-- What the code for an operation on registers leaves as it was.
use toy_c_cp.Prelude.{
  ℕ, ◌≡◌, ◌≢◌, refl, ◌∙◌, fun_ext, Bool, false, ◌||◌, some, List, ◌++◌, ◌==◌, arith,
}
use toy_c_cp.Ir.Meaning.{update}
use toy_c_cp.Rv.{x_a6, x_a7, x_zero, scratch0, scratch1, Instr}
use toy_c_cp.Rv.Machine.{Machine, Linker, set_x, exec_code, exec_code-append}

abbrev pub is_scratch : ℕ → Bool
is_scratch q = q == x_a6 || q == x_a7 || q == scratch0 || q == scratch1

-- The memory, and every register but `r` and those for values in between.
pub record Unchanged (r : ℕ) (m n : Machine) : Type 0 where
  pub same_mem : n.mem ≡ m.mem
  pub same_x : (q : ℕ) → q ≢ r → is_scratch q ≡ false → n.x q ≡ m.x q

-- Register `r` has got the value `v`.
pub record Computed (r v : ℕ) (m n : Machine) : Type 0 where
  pub result : n.x r ≡ v
  pub unchanged : Unchanged r m n

pub Unchanged-self : (r : ℕ) (m : Machine) → Unchanged r m m
Unchanged-self r m = record { same_mem = refl; same_x = λ q n k. refl }

pub Unchanged-then : (r : ℕ) (m n o : Machine) → Unchanged r m n → Unchanged r n o → Unchanged r m o
Unchanged-then r m n o h k = record {
  same_mem = k.same_mem ∙ h.same_mem;
  same_x = λ q ne s. k.same_x q ne s ∙ h.same_x q ne s;
}

pub set_x-Unchanged : (r v : ℕ) (m : Machine) → Unchanged r m (set_x r v m)
set_x-Unchanged r v m = record { same_mem = ground arith; same_x = λ q n k. ground arith }

pub set_scratch1-Unchanged : (r v : ℕ) (m : Machine) → Unchanged r m (set_x scratch1 v m)
set_scratch1-Unchanged r v m = record { same_mem = refl; same_x = λ q n k. ground arith }

pub set_x-Computed :
    (r v w : ℕ) (m n : Machine)
    → r ≢ x_zero
    → v ≡ w
    → Unchanged r m n
    → Computed r w m (set_x r v n)
set_x-Computed r v w m n nz e h = record {
  result = ground arith;
  unchanged = Unchanged-then r m n (set_x r v n) h (set_x-Unchanged r v n);
}

update_twice : (f : ℕ → ℕ) (k u v : ℕ) → update (update f k u) k v ≡ update f k v
update_twice f k u v = fun_ext (λ x. ground arith)

pub set_scratch1_twice :
    (u v : ℕ) (m : Machine) → set_x scratch1 v (set_x scratch1 u m) ≡ set_x scratch1 v m
set_scratch1_twice u v m = λ i. record m { x = update_twice m.x scratch1 u v i }

module _ (lk : Linker) where
  -- The code runs, and puts the value in the register.
  abbrev pub Computes : List Instr → ℕ → ℕ → Machine → Type 0
  Computes code r v m = (n : Machine) × (exec_code lk code m ≡ some n) × Computed r v m n

  pub then_code :
      (is js : List Instr) (m n : Machine) {o : Machine}
      → exec_code lk is m ≡ some n
      → exec_code lk js n ≡ some o
      → exec_code lk (is ++ js) m ≡ some o
  then_code is js m n p q = exec_code-append lk is js m ∙ (rw p q)

  pub then-Computes :
      (is js : List Instr) (r v : ℕ) (m n : Machine)
      → exec_code lk is m ≡ some n
      → Unchanged r m n
      → Computes js r v n
      → Computes (is ++ js) r v m
  then-Computes is js r v m n e h (o, p, c) = (
    o,
    then_code is js m n e p,
    record { result = c.result; unchanged = Unchanged-then r m n o h c.unchanged },
  )
