-- ===== src/Opt/MarkUnsigned/Tests.antt =====
-- markUnsignedDiv on small functions.
use toy_c_cp.Prelude.{◌≡◌, refl, true, false, some, none, arith}
use toy_c_cp.Ir.Meaning.{Store, Callee}
use toy_c_cp.Opt.MarkUnsigned.{needs_magic, mark_unsigned_div, mark_all}
use toy_c_cp.Opt.MarkUnsigned.Settled.{AllSettled, mark_all-AllSettled}
use toy_c_cp.Opt.MarkUnsigned.Negative.{shrinking, dividend_is_neg, mark_unsigned_div-negative}

magic_of_7 : needs_magic 7 ≡ true
unfolding needs_magic
magic_of_7 = refl

no_magic_of_8 : needs_magic 8 ≡ false
unfolding needs_magic
no_magic_of_8 = refl

abbrev no_calls : Callee
no_calls f args globals = none

abbrev zeros : Store
zeros = record { regs = λ r. 0; globals = λ g. 0 }

mark_all-AllSettled_example :
    AllSettled 3
      (mark_all 3 (shrinking false 10).blocks).flags
      (mark_all 3 (shrinking false 10).blocks).visited
mark_all-AllSettled_example = mark_all-AllSettled 3 (shrinking false 10).blocks

mark_unsigned_div-negative_example :
    (mark_unsigned_div (shrinking false 10) ≡ shrinking true 10)
    × (dividend_is_neg no_calls 10 zeros ≡ some true)
mark_unsigned_div-negative_example =
    mark_unsigned_div-negative no_calls zeros 10 (omega arith) (omega arith)
