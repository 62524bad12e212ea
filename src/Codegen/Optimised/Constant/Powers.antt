-- ===== src/Codegen/Optimised/Constant/Powers.antt =====
-- What emitDivConst and emitModConst put out for a divisor whose size is a power of two, and for 0.
use toy_c_cp.Prelude.{
  ℕ, zero, suc, ◌^◌, ◌<◌, ◌≡◌, ◌≢◌, refl, sym, ap, ◌∙◌, subst, Bool, Option, some, List, ◌==◌,
  arith, if-case, Bool-cases, inl, inr,
}
use toy_c_cp.Word.{IsWord, minus_one, neg32, magnitude, is_neg, sdiv, srem}
use toy_c_cp.Word.Laws.{sdiv-one, sdiv-minus_one, srem-one, srem-minus_one}
use toy_c_cp.Rv.{Instr, x_zero, scratch1, li}
use toy_c_cp.Rv.Machine.{Machine, Linker, exec_instr}
use toy_c_cp.Codegen.Optimised.Access.{Context}
use toy_c_cp.Codegen.Optimised.Computed.{Computes}
use toy_c_cp.Codegen.Optimised.Constant.{exponent, div_by, rem_by, emit_div_const, emit_mod_const}
use toy_c_cp.Codegen.Optimised.Constant.Multiply.{move-Computes, one_instr-Computes}
use toy_c_cp.Codegen.Optimised.Constant.Divide.{
  exponent_found, div_pow2-Computes, rem_pow2-Computes,
}

magnitude_one : (c : ℕ) → IsWord c → magnitude c ≡ 1 → c ≢ 1 → c ≡ minus_one
unfolding magnitude is_neg
magnitude_one c w e n = ground arith

-- Code is put out, and it leaves the value in the register.
abbrev pub Emits : Linker → Machine → ℕ → ℕ → Option (List Instr) → Type 0
Emits lk m rd v out = (code : List Instr) × (out ≡ some code) × Computes lk code rd v m

module _ (lk : Linker) (ctx : Context) (hint : Option ℕ) (unsigned : Bool) (rd ra c : ℕ)
    (nz : rd ≢ x_zero) (n6 : ra ≢ scratch1) (m : Machine) (wx : IsWord (m.x ra))
    (wc : IsWord c) where
  div_by-Emits :
      (k : ℕ)
      → k < 32
      → magnitude c ≡ 2 ^ k
      → c ≢ 1
      → c ≢ minus_one
      → Emits lk m rd (sdiv (m.x ra) c) (div_by ctx hint unsigned rd ra c (exponent (magnitude c)))
  unfolding div_by
  div_by-Emits zero l e n1 nm = absurd (nm (magnitude_one c wc e n1))
  div_by-Emits (suc k) l e n1 nm =
      subst (λ o. Emits lk m rd (sdiv (m.x ra) c) (div_by ctx hint unsigned rd ra c o))
        (sym (ap exponent e ∙ exponent_found (suc k) (omega arith) l))
        (_, refl, div_pow2-Computes (suc k) (omega arith) l lk ra n6 m wx rd c nz e)

  -- A division by 2 ^ k or by - 2 ^ k, for k from 0 to 31: emitDivConst puts out code that leaves in the
  -- destination the quotient of C, rounded towards 0, and changes no memory and no allocated register
  -- but the destination, if that is not register 0 and the dividend is a word that does not stand in t6.
  pub emit_div_const-Emits :
      (k : ℕ)
      → k < 32
      → magnitude c ≡ 2 ^ k
      → Emits lk m rd (sdiv (m.x ra) c) (emit_div_const ctx hint unsigned rd ra c)
  unfolding emit_div_const exec_instr
  emit_div_const-Emits k l e =
      if-case (Emits lk m rd (sdiv (m.x ra) c)) (c == 1)
        (λ one. (
          _,
          refl,
          move-Computes lk rd nz ra (sdiv (m.x ra) c) m
              (sym (sdiv-one (m.x ra) wx) ∙ ap (sdiv (m.x ra)) (ground arith)),
        ))
        (λ n1.
          if-case (Emits lk m rd (sdiv (m.x ra) c)) (c == minus_one)
            (λ mone. (
              _,
              refl,
              one_instr-Computes lk rd nz (Instr.neg rd ra) (neg32 (m.x ra)) (sdiv (m.x ra) c) m
                  refl (sym (sdiv-minus_one (m.x ra) wx) ∙ ap (sdiv (m.x ra)) (ground arith)),
            ))
            (λ nm. div_by-Emits k l e (ground arith) (ground arith)))

  rem_by-Emits :
      (k : ℕ)
      → k < 32
      → magnitude c ≡ 2 ^ k
      → magnitude c ≢ 1
      → Emits lk m rd (srem (m.x ra) c) (rem_by ctx hint unsigned rd ra c (exponent (magnitude c)))
  unfolding rem_by
  rem_by-Emits zero l e n1 = absurd (n1 e)
  rem_by-Emits (suc k) l e n1 =
      subst (λ o. Emits lk m rd (srem (m.x ra) c) (rem_by ctx hint unsigned rd ra c o))
        (sym (ap exponent e ∙ exponent_found (suc k) (omega arith) l))
        (_, refl, rem_pow2-Computes (suc k) (omega arith) l lk ra n6 m wx rd c nz e)

  srem_unit : magnitude c ≡ 1 → 0 ≡ srem (m.x ra) c
  srem_unit e = elim (Bool-cases (c == 1)) [
    | inl one ↦ sym (srem-one (m.x ra)) ∙ ap (srem (m.x ra)) (ground arith)
    | inr n1 ↦
        sym (srem-minus_one (m.x ra))
        ∙ ap (srem (m.x ra)) (sym (magnitude_one c wc e (ground arith)))
  ]

  -- A remainder by 2 ^ k or by - 2 ^ k, for k from 0 to 31: emitModConst puts out code that leaves in the
  -- destination the remainder of C, with the sign of the dividend, and changes no memory and no allocated
  -- register but the destination, if that is not register 0 and the dividend is a word that does not
  -- stand in t6.
  pub emit_mod_const-Emits :
      (k : ℕ)
      → k < 32
      → magnitude c ≡ 2 ^ k
      → Emits lk m rd (srem (m.x ra) c) (emit_mod_const ctx hint unsigned rd ra c)
  unfolding emit_mod_const exec_instr
  emit_mod_const-Emits k l e =
      if-case (Emits lk m rd (srem (m.x ra) c)) (magnitude c == 1)
        (λ one. (
          _,
          refl,
          one_instr-Computes lk rd nz (li rd 0) 0 (srem (m.x ra) c) m refl
              (srem_unit (ground arith)),
        ))
        (λ n1. rem_by-Emits k l e (ground arith))
