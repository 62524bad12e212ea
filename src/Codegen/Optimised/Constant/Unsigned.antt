-- ===== src/Codegen/Optimised/Constant/Unsigned.antt =====
-- What emitDivConst puts out for a division that markUnsignedDiv has marked.
use toy_c_cp.Prelude.{
  ℕ, ◌+◌, ◌*◌, ◌/◌, ◌%◌, ◌≤◌, ◌<◌, ◌≡◌, ◌≢◌, refl, sym, ap, ◌∙◌, subst, true, Option, some, none,
  List, [], ◌∷◌, ◌++◌, ◌==◌, arith, if-case,
}
use native.Mathlib.Nat.{div-one}
use toy_c_cp.Word.{minus_one, word_mod, half_mod, sdiv, is_neg, magnitude}
use toy_c_cp.Rv.{Instr, x_zero, x_a7, scratch1, li, mulhu}
use toy_c_cp.Rv.Machine.{Machine, Linker, set_x, exec_code, exec_instr}
use toy_c_cp.Opt.Magic.{unsigned_magic}
use toy_c_cp.Opt.Magic.Unsigned.{
  multiplier_for, excess, magic_quotient, unsigned_magic-shift, magic_quotient-exact_iff,
}
use toy_c_cp.Codegen.Optimised.Access.{Context}
use toy_c_cp.Codegen.Optimised.Computed.{Unchanged, then-Computes}
use toy_c_cp.Codegen.Optimised.Constant.{
  exponent, magic_of, move, div_by, unsigned_quotient, emit_magic_quotient, emit_div_const,
}
use toy_c_cp.Codegen.Optimised.Constant.Multiply.{move-Computes}
use toy_c_cp.Codegen.Optimised.Constant.Powers.{Emits}

magnitude_self : (c : ℕ) → c < half_mod → magnitude c ≡ c
unfolding magnitude is_neg
magnitude_self c h = ground arith

minus_one_high : (c : ℕ) → (c == minus_one) ≡ true → half_mod ≤ c
minus_one_high c h = ground arith

sdiv-unsigned : (a b : ℕ) → a < half_mod → b < half_mod → sdiv a b ≡ a / b
unfolding sdiv magnitude is_neg
sdiv-unsigned a b h k = ground arith

module _ (lk : Linker) (ctx : Context) (rd ra c : ℕ) (nz : rd ≢ x_zero) (n6 : ra ≢ scratch1)
    (m : Machine) (low : 2 ≤ c) (top : c < half_mod) where
  -- The multiplier in t6, and the upper word of the product in a7.
  abbrev load_and_multiply : List Instr
  load_and_multiply = li scratch1 (multiplier_for c) ∷ mulhu x_a7 ra scratch1 ∷ []

  magic_of-found : magic_of unsigned_magic c ≡ some (unsigned_magic c)
  magic_of-found = ground arith

  unsigned_quotient-code :
      unsigned_quotient ctx none rd ra c ≡ some (load_and_multiply ++ move rd x_a7)
  unfolding unsigned_quotient
  unsigned_quotient-code = rw (magic_of-found, unsigned_magic-shift c low (omega arith)) refl

  abbrev multiplied : Machine
  multiplied =
      set_x x_a7 (m.x ra * multiplier_for c / word_mod) (set_x scratch1 (multiplier_for c) m)

  load_and_multiply-exec : exec_code lk load_and_multiply m ≡ some multiplied
  unfolding exec_code exec_instr
  load_and_multiply-exec =
      ap
        (λ v.
          some (set_x x_a7 (v * multiplier_for c / word_mod) (set_x scratch1 (multiplier_for c) m)))
        {x = (set_x scratch1 (multiplier_for c) m).x ra} {y = m.x ra} (ground arith)

  multiplied-Unchanged : Unchanged rd m multiplied
  multiplied-Unchanged = record { same_mem = refl; same_x = λ q n k. ground arith }

  magic_quotient-high : m.x ra * multiplier_for c / word_mod ≡ magic_quotient (m.x ra) c
  unfolding magic_quotient
  magic_quotient-high =
      rw (unsigned_magic-shift c low (omega arith))
        (sym (div-one (m.x ra * multiplier_for c / word_mod)))

  abbrev Shape : Option (List Instr) → Type 0
  Shape o = o ≡ some (load_and_multiply ++ move rd x_a7)

  emit_div_const-shape :
      exponent c ≡ none
      → emit_div_const ctx none true rd ra c ≡ some (load_and_multiply ++ move rd x_a7)
  unfolding emit_div_const div_by emit_magic_quotient magnitude is_neg
  emit_div_const-shape e =
      if-case Shape (c == 1) (λ one. absurd (ground arith))
        (λ n1.
          if-case Shape (c == minus_one) (λ mone. absurd (omega (arith, minus_one_high c mone)))
            (λ nm.
              subst (λ o. Shape (div_by ctx none true rd ra c o))
                (sym (ap exponent (magnitude_self c top) ∙ e))
                (if-case Shape (c == 0) (λ z. absurd (ground arith))
                  (λ n0. unsigned_quotient-code))))

  -- A division that is marked as unsigned, by a constant from 3 to 2 ^ 31 - 1 that is no power of two
  -- and has no register for its magic number: emitDivConst puts out code that leaves in the destination
  -- the quotient of C, and changes no memory and no other allocated register, if the dividend n is not
  -- negative and n % c * 2 ^ 32 + n * e < c * 2 ^ 32, where e is the excess of the multiplier, the
  -- destination is not register 0 and the dividend does not stand in t6.
  pub emit_div_const-unsigned :
      exponent c ≡ none
      → m.x ra < half_mod
      → m.x ra % c * word_mod + m.x ra * excess c < c * word_mod
      → Emits lk m rd (sdiv (m.x ra) c) (emit_div_const ctx none true rd ra c)
  emit_div_const-unsigned e pos bound = (
    _,
    emit_div_const-shape e,
    then-Computes lk load_and_multiply (move rd x_a7) rd (sdiv (m.x ra) c) m multiplied
        load_and_multiply-exec multiplied-Unchanged
        (move-Computes lk rd nz x_a7 (sdiv (m.x ra) c) multiplied (
          magic_quotient-high
          ∙ (magic_quotient-exact_iff (m.x ra) c low (omega arith)).1 bound
          ∙ sym (sdiv-unsigned (m.x ra) c pos top))),
  )
