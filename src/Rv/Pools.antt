-- ===== src/Rv/Pools.antt =====
-- src/codegen/Regs.h, the registers that the allocation hands out.
use toy_c_cp.Prelude.{ℕ, Bool, ◌&&◌, ◌||◌, List, [], ◌∷◌, leb, ◌==◌}

-- t0 to t4.
abbrev pub caller_saved_pool : List ℕ
caller_saved_pool = 5 ∷ 6 ∷ 7 ∷ 28 ∷ 29 ∷ []

-- s0 to s11.
abbrev pub callee_saved_pool : List ℕ
callee_saved_pool = 8 ∷ 9 ∷ 18 ∷ 19 ∷ 20 ∷ 21 ∷ 22 ∷ 23 ∷ 24 ∷ 25 ∷ 26 ∷ 27 ∷ []

abbrev pub is_callee_saved : ℕ → Bool
is_callee_saved x = x == 8 || x == 9 || (leb 18 x && leb x 27)
