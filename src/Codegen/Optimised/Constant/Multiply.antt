-- ===== src/Codegen/Optimised/Constant/Multiply.antt =====
-- The code for a product by a constant computes the product.
use native.Mathlib.Nat.{one-le-pow}
use toy_c_cp.Prelude.{
  ℕ, ◌+◌, ◌-◌, ◌*◌, ◌%◌, ◌^◌, ◌≤◌, ◌<◌, ◌≡◌, ◌≢◌, refl, sym, ap, ◌∙◌, Bool, true, false, some, none,
  List, [], ◌∷◌, ◌++◌, ◌==◌, arith, Bool-cases, inl, inr, if◌then◌else◌, leb, if-case, Option,
}
use toy_c_cp.Word.{
  IsWord, word_mod, half_mod, minus_one, add32, sub32, mul32, neg32, is_neg, magnitude,
}
use toy_c_cp.Word.Laws.{mul32-zero, mul32-one, mul32-minus_one}
use toy_c_cp.Ir.Meaning.{bind}
use toy_c_cp.Rv.{Instr, li, x_zero, scratch1, slli}
use toy_c_cp.Rv.Machine.{Machine, Linker, set_x, exec_instr, exec_code}
use toy_c_cp.Codegen.Optimised.Computed.{
  Unchanged, Computes, Unchanged-self, Unchanged-then, set_x-Unchanged, set_scratch1-Unchanged,
  set_x-Computed, then_code,
}
use toy_c_cp.Codegen.Optimised.Constant.{
  exponent, neg_if, mul_shifted, mul_above, mul_below, mul_loaded, move, by_shape, mul_shapes,
  emit_mul_const,
}
use toy_c_cp.Codegen.Optimised.Constant.Log2.{exponent-power}

mul_split : (x a b s : ℕ) → a + b ≡ s → x * a + x * b ≡ x * s
mul_split x a b s e =
    let parts : x * a + x * b ≡ x * (a + b) = grind arith in parts ∙ ap (λ t. x * t) e

mul32-negative : (x a : ℕ) → a ≤ word_mod → mul32 x (word_mod - a) ≡ neg32 (mul32 x a)
unfolding mul32 neg32
mul32-negative x a l = omega (arith, mul_split x (word_mod - a) a word_mod (omega arith))

-- Negated where the sign asks for it.
abbrev pub signed : Bool → ℕ → ℕ
signed negative v = if negative then neg32 v else v

signed-mul32 : (x c : ℕ) → IsWord c → signed (is_neg c) (mul32 x (magnitude c)) ≡ mul32 x c
unfolding is_neg magnitude
signed-mul32 x c h = elim (Bool-cases (leb half_mod c)) [
  | inl neg ↦
      rw neg (sym (mul32-negative x (word_mod - c) (omega arith)) ∙ ap (mul32 x) (omega arith))
  | inr pos ↦ rw pos refl
]

magnitude-bounds : (c : ℕ) → IsWord c → c ≢ 0 → (0 < magnitude c) × (magnitude c ≤ half_mod)
unfolding magnitude is_neg
magnitude-bounds c h n = elim (Bool-cases (leb half_mod c)) [
  | inl neg ↦ rw neg (omega arith, ground arith)
  | inr pos ↦ rw pos (omega arith, ground arith)
]

mul32_above : (x p : ℕ) → add32 (x * p % word_mod) x ≡ mul32 x (p + 1)
unfolding add32 mul32
mul32_above x p = omega (arith, mul_split x p 1 (p + 1) refl)

mul32_below : (x p : ℕ) → IsWord x → 0 < p → sub32 (x * p % word_mod) x ≡ mul32 x (p - 1)
unfolding sub32 mul32
mul32_below x p h l = omega (arith, mul_split x (p - 1) 1 p (omega arith))

module _ (lk : Linker) (rd : ℕ) (nz : rd ≢ x_zero) where
  -- A value in `rd`, and the negation behind it.
  pub neg_if-Computes :
      (negative : Bool) (is : List Instr) (v w : ℕ) (m n : Machine)
      → exec_code lk is m ≡ some (set_x rd v n)
      → Unchanged rd m n
      → signed negative v ≡ w
      → Computes lk (is ++ neg_if negative rd) rd w m
  unfolding exec_code exec_instr
  neg_if-Computes true is v w m n e h p = (
    set_x rd (neg32 ((set_x rd v n).x rd)) (set_x rd v n),
    then_code lk is (neg_if true rd) m (set_x rd v n) e refl,
    set_x-Computed rd _ w m (set_x rd v n) nz
        (ap neg32 (set_x-Computed rd v v m n nz refl h).result ∙ p)
        (Unchanged-then rd m n (set_x rd v n) h (set_x-Unchanged rd v n)),
  )
  neg_if-Computes false is v w m n e h p =
      (set_x rd v n, then_code lk is [] m (set_x rd v n) e refl, set_x-Computed rd v w m n nz p h)

  pub move-Computes : (ra v : ℕ) (m : Machine) → m.x ra ≡ v → Computes lk (move rd ra) rd v m
  unfolding exec_code exec_instr
  move-Computes ra v m e =
      if-case (λ code. Computes lk code rd v m) (rd == ra)
        (λ same.
          (m, refl, record { result = ap m.x (ground arith) ∙ e; unchanged = Unchanged-self rd m }))
        (λ other. (_, refl, set_x-Computed rd _ v m m nz e (Unchanged-self rd m)))

  pub one_instr-Computes :
      (i : Instr) (v w : ℕ) (m : Machine)
      → exec_instr lk i m ≡ some (set_x rd v m)
      → v ≡ w
      → Computes lk (i ∷ []) rd w m
  unfolding exec_code
  one_instr-Computes i v w m step e =
      (_, ap (λ o. bind o some) step, set_x-Computed rd v w m m nz e (Unchanged-self rd m))

  module _ (ra c : ℕ) (n6 : ra ≢ scratch1) (m : Machine) (wx : IsWord (m.x ra))
      (wc : IsWord c) where
    abbrev product : ℕ
    product = mul32 (m.x ra) c

    abbrev shifted : ℕ → Machine
    shifted k = set_x scratch1 (m.x ra * 2 ^ k % word_mod) m

    kept : (k : ℕ) → (shifted k).x ra ≡ m.x ra
    kept k = ground arith

    sign_restored : (v : ℕ) → v ≡ mul32 (m.x ra) (magnitude c) → signed (is_neg c) v ≡ product
    sign_restored v e = ap (signed (is_neg c)) e ∙ signed-mul32 (m.x ra) c wc

    mul_shifted-Computes :
        (k : ℕ) → magnitude c ≡ 2 ^ k → Computes lk (mul_shifted rd ra c k) rd product m
    unfolding exec_code exec_instr mul32
    mul_shifted-Computes k e =
        neg_if-Computes (is_neg c) (slli rd ra k ∷ []) _ product m m refl (Unchanged-self rd m)
          (sign_restored _ (ap (mul32 (m.x ra)) (sym e)))

    -- The sum or the difference of t6 and the factor.
    from_shifted-Computes :
        (i : Instr) (f : ℕ → ℕ → ℕ) (k : ℕ)
        → ((n : Machine) → exec_instr lk i n ≡ some (set_x rd (f (n.x scratch1) (n.x ra)) n))
        → f (m.x ra * 2 ^ k % word_mod) (m.x ra) ≡ mul32 (m.x ra) (magnitude c)
        → Computes lk (slli scratch1 ra k ∷ i ∷ neg_if (is_neg c) rd) rd product m
    unfolding exec_code exec_instr
    from_shifted-Computes i f k step e =
        let t6 = m.x ra * 2 ^ k % word_mod in
        neg_if-Computes (is_neg c) (slli scratch1 ra k ∷ i ∷ []) (f t6 (m.x ra)) product m
          (shifted k)
          (ap (λ o. bind o some) (step (shifted k))
            ∙ ap (λ y. some (set_x rd (f t6 y) (shifted k))) (kept k))
          (set_scratch1-Unchanged rd _ m) (sign_restored _ e)

    mul_above-Computes :
        (k : ℕ) → magnitude c ≡ 2 ^ k + 1 → Computes lk (mul_above rd ra c k) rd product m
    unfolding exec_instr
    mul_above-Computes k e =
        from_shifted-Computes (Instr.add rd scratch1 ra) add32 k (λ n. refl)
          (mul32_above (m.x ra) (2 ^ k) ∙ ap (mul32 (m.x ra)) (sym e))

    mul_below-Computes :
        (k : ℕ) → magnitude c ≡ 2 ^ k - 1 → Computes lk (mul_below rd ra c k) rd product m
    unfolding exec_instr
    mul_below-Computes k e =
        from_shifted-Computes (Instr.sub rd scratch1 ra) sub32 k (λ n. refl)
          (mul32_below (m.x ra) (2 ^ k) wx (one-le-pow k 2 (omega arith))
            ∙ ap (mul32 (m.x ra)) (sym e))

    mul_loaded-Computes : Computes lk (mul_loaded rd ra c) rd product m
    unfolding exec_code exec_instr
    mul_loaded-Computes = (
      _,
      refl,
      set_x-Computed rd _ product m (set_x scratch1 c m) nz (ap (λ y. mul32 y c) (ground arith))
          (set_scratch1-Unchanged rd c m),
    )

    by_shape-Computes :
        (p q r : Option ℕ)
        → ((k : ℕ) → p ≡ some k → magnitude c ≡ 2 ^ k)
        → ((k : ℕ) → q ≡ some k → magnitude c ≡ 2 ^ k + 1)
        → ((k : ℕ) → r ≡ some k → magnitude c ≡ 2 ^ k - 1)
        → Computes lk (by_shape rd ra c p q r) rd product m
    by_shape-Computes (some k) q r h1 h2 h3 = mul_shifted-Computes k (h1 k refl)
    by_shape-Computes none (some k) r h1 h2 h3 = mul_above-Computes k (h2 k refl)
    by_shape-Computes none none (some k) h1 h2 h3 = mul_below-Computes k (h3 k refl)
    by_shape-Computes none none none h1 h2 h3 = mul_loaded-Computes

    mul_shapes-Computes : c ≢ 0 → Computes lk (mul_shapes rd ra c) rd product m
    unfolding mul_shapes
    mul_shapes-Computes nc =
        let a = magnitude c in
        let (pos, low) = magnitude-bounds c wc nc in
        by_shape-Computes (exponent a) (exponent (a - 1)) (exponent (a + 1))
          (λ k e. (exponent-power a k (omega arith) e).0)
          (λ k e. omega (arith, (exponent-power (a - 1) k (omega arith) e).0))
          (λ k e. omega (arith, (exponent-power (a + 1) k (omega arith) e).0))

    abbrev Multiplies : List Instr → Type 0
    Multiplies code = Computes lk code rd product m

    -- The code for a product by a constant leaves in its destination the product modulo 2 ^ 32, and
    -- leaves the memory and the allocated registers as they were, if the destination is not register 0
    -- and the factor is a word that does not stand in t6.
    pub emit_mul_const-Computes : Computes lk (emit_mul_const rd ra c) rd product m
    unfolding emit_mul_const exec_instr
    emit_mul_const-Computes =
        if-case Multiplies (c == 0)
          (λ e.
            one_instr-Computes (li rd 0) 0 product m refl
              (sym (mul32-zero (m.x ra)) ∙ ap (mul32 (m.x ra)) (ground arith)))
          (λ n0.
            if-case Multiplies (c == 1)
              (λ e.
                move-Computes ra product m
                  (sym (mul32-one (m.x ra) wx) ∙ ap (mul32 (m.x ra)) (ground arith)))
              (λ n1.
                if-case Multiplies (c == minus_one)
                  (λ e.
                    one_instr-Computes (Instr.neg rd ra) (neg32 (m.x ra)) product m refl
                      (sym (mul32-minus_one (m.x ra) wx) ∙ ap (mul32 (m.x ra)) (ground arith)))
                  (λ n2. mul_shapes-Computes (ground arith))))
