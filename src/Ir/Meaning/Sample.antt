-- ===== src/Ir/Meaning/Sample.antt =====
-- Callees, a store and an instruction for the tests.
use toy_c_cp.Prelude.{ℕ, zero, suc, ◌<◌, none, some, arith}
use toy_c_cp.Word.{word_mod}
use toy_c_cp.Ir.{Val, Op, Inst, inst}
use toy_c_cp.Ir.Meaning.{Store, Callee}
use toy_c_cp.Ir.Meaning.Words.{IsWordStore, IsWordCallee}

abbrev pub no_calls : Callee
no_calls f vs gs = none

pub no_calls-IsWord : IsWordCallee no_calls
no_calls-IsWord f vs gs hv hg v gs' e = absurd (cc)

-- Register 0 holds 7, the others and the globals 0.
abbrev pub sevens : Store
sevens = record { regs = λ r. elim r [ zero ↦ 7 | suc _ ↦ 0 ]; globals = λ g. 0 }

pub sevens-IsWord : IsWordStore sevens
sevens-IsWord = record { regs_fit = fits; globals_fit = λ g. omega arith }
  where
    fits : (r : ℕ) → sevens.regs r < word_mod
    fits zero = omega arith
    fits (suc r) = omega arith

abbrev pub binary_inst : Op → ℕ → Val → Val → Inst
binary_inst op d x y = record (inst op) { dst = some d; a = x; b = y }
