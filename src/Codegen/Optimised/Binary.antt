-- ===== src/Codegen/Optimised/Binary.antt =====
-- The code for a binary operator, on the paths for immediates and on the plain one.
use toy_c_cp.Prelude.{
  ℕ, ◌<◌, ◌≡◌, ◌≢◌, refl, sym, ap, ◌∙◌, subst, Bool, true, Option, some, List, [], ◌∷◌, arith, ◌^◌,
  ◌==◌, if-case, if◌then◌else◌,
}
use mathlib.Core.Option.{some-injective}
use toy_c_cp.Word.{IsWord, magnitude, add32, sub32, mul32, neg32, sdiv, srem, slt, of_bool}
use toy_c_cp.Ir.{Val, imm, reg, Op}
use toy_c_cp.Ir.Meaning.{Store, value, eval_op}
use toy_c_cp.Rv.{Instr, x_zero, scratch1, addi, slti, seqz, snez}
use toy_c_cp.Rv.Machine.{Machine, Linker, set_x, exec_instr}
use toy_c_cp.Codegen.Optimised.Access.{Context, fits12, fits12_neg, on_one}
use toy_c_cp.Codegen.Optimised.Computed.{Computes}
use toy_c_cp.Codegen.Optimised.Holds.{IsLayout, Holds, ValIn}
use toy_c_cp.Codegen.Optimised.Constant.{emit_mul_const, emit_div_const, emit_mod_const}
use toy_c_cp.Codegen.Optimised.Constant.Multiply.{emit_mul_const-Computes}
use toy_c_cp.Codegen.Optimised.Constant.Powers.{Emits, emit_div_const-Emits, emit_mod_const-Emits}
use toy_c_cp.Codegen.Optimised.Inst.{
  try_imm, with_imm, emit_plain, emit_add, emit_sub, emit_lt, emit_test, emit_mul, emit_by,
  emit_binary,
}
use toy_c_cp.Codegen.Optimised.Operate.{
  NonZero, Worked, Operates, instr-Operates, on_one-Worked, emit_plain-Worked,
}

try_imm-case {κ} :
    (P : Option (List Instr) → Type κ) (p : ℕ → Bool) (b : Val) {path : ℕ → Option (List Instr)}
    {other : Option (List Instr)}
    → ((n : ℕ) → b ≡ imm n → p n ≡ true → P (path n))
    → P other
    → P (try_imm p b path other)
try_imm-case P p (imm n) h k = if-case P (p n) (λ e. h n refl e) (λ e. k)
try_imm-case P p (reg v) h k = k

-- A divisor for which the back end puts out a multiplication by a magic number is left aside: a
-- constant that is not 0 and whose size is no power of two, under the option.
abbrev pub NoMagic : Context → Op → Val → Type 0
NoMagic c Op.div (imm n) = c.opt ≡ true → (k : ℕ) × (k < 32) × (magnitude n ≡ 2 ^ k)
NoMagic c Op.rem (imm n) = c.opt ≡ true → (k : ℕ) × (k < 32) × (magnitude n ≡ 2 ^ k)
NoMagic c op b = Unit

emit_mul-case {κ} :
    (P : Option (List Instr) → Type κ) (c : Context) (over : Option ℕ) (d : ℕ) (a b : Val)
    → ((n : ℕ) → a ≡ imm n → P (on_one c over d b (λ rd ra. some (emit_mul_const rd ra n))))
    → ((n : ℕ) → b ≡ imm n → P (on_one c over d a (λ rd ra. some (emit_mul_const rd ra n))))
    → P (emit_plain c over Op.mul d a b)
    → P (emit_mul c over d a b)
unfolding emit_mul
emit_mul-case P c over d (imm n) b h k l = h n refl
emit_mul-case P c over d (reg v) (imm n) h k l = k n refl
emit_mul-case P c over d (reg v) (reg u) h k l = l

add32-neg32 : (x n : ℕ) → IsWord x → IsWord n → add32 x (neg32 n) ≡ sub32 x n
unfolding add32 neg32 sub32
add32-neg32 x n wx wn = omega arith

mul32_comm : (x y : ℕ) → mul32 x y ≡ mul32 y x
unfolding mul32
mul32_comm x y = grind arith

module _ (lk : Linker) (c : Context) (ng sp : ℕ) (lay : IsLayout lk c ng sp) (live : ℕ → Type 0)
    (s : Store) (over : Option ℕ) (nz : NonZero over) (d : ℕ) (a b : Val) (la : ValIn live a)
    (lb : ValIn live b) (wa : IsWord (value s a)) (wb : IsWord (value s b)) (m : Machine)
    (h : Holds lk c ng sp live s m) (w : ℕ) where
  abbrev Works : Option (List Instr) → Type 0
  Works o = (out : List Instr) → o ≡ some out → Worked lk c ng sp lay live s over nz d w m out

  plain :
      (op : Op) → eval_op op (value s a) (value s b) ≡ some w → Works (emit_plain c over op d a b)
  plain op e out p =
      emit_plain-Worked lk c ng sp lay live s over nz d op a b w m out la lb wa wb h e p

  one :
      (v : Val) (code : ℕ → ℕ → Option (List Instr))
      → ValIn live v
      → Operates lk c ng sp lay live s over nz d v w code
      → Works (on_one c over d v code)
  one v code lv op out p = on_one-Worked lk c ng sp lay live s over nz d v code w m out lv h op p

  emit_add-Works : add32 (value s a) (value s b) ≡ w → Works (emit_add c over d a b)
  unfolding emit_add exec_instr eval_op add32
  emit_add-Works e =
      try_imm-case Works fits12 b
        (λ n eb fit. one a (with_imm addi n) la (
          instr-Operates lk c ng sp lay live s over nz d a w (λ rd ra. addi rd ra n)
            (λ x. add32 x n) (λ rd ra o. refl)
            (ap (λ v. add32 (value s a) (value s v)) (sym eb) ∙ e)))
        (try_imm-case Works fits12 a
          (λ n ea fit. one b (with_imm addi n) lb (
            instr-Operates lk c ng sp lay live s over nz d b w (λ rd ra. addi rd ra n)
              (λ x. add32 x n) (λ rd ra o. refl)
              (ap (λ v. add32 (value s b) (value s v)) (sym ea) ∙ omega arith ∙ e)))
          (plain Op.add (ap some e)))

  emit_sub-Works : sub32 (value s a) (value s b) ≡ w → Works (emit_sub c over d a b)
  unfolding emit_sub exec_instr eval_op
  emit_sub-Works e =
      try_imm-case Works fits12_neg b
        (λ n eb fit. one a (with_imm addi (neg32 n)) la (
          instr-Operates lk c ng sp lay live s over nz d a w (λ rd ra. addi rd ra (neg32 n))
            (λ x. add32 x (neg32 n)) (λ rd ra o. refl)
            (add32-neg32 (value s a) n wa (subst (λ v. IsWord (value s v)) eb wb)
              ∙ ap (λ v. sub32 (value s a) (value s v)) (sym eb)
              ∙ e)))
        (plain Op.sub (ap some e))

  emit_lt-Works : of_bool (slt (value s a) (value s b)) ≡ w → Works (emit_lt c over d a b)
  unfolding emit_lt exec_instr eval_op
  emit_lt-Works e =
      try_imm-case Works fits12 b
        (λ n eb fit. one a (with_imm slti n) la (
          instr-Operates lk c ng sp lay live s over nz d a w (λ rd ra. slti rd ra n)
            (λ x. of_bool (slt x n)) (λ rd ra o. refl)
            (ap (λ v. of_bool (slt (value s a) (value s v))) (sym eb) ∙ e)))
        (plain Op.lt (ap some e))

  emit_test-Works :
      (op : Op) (i : ℕ → ℕ → Instr) (f : ℕ → ℕ)
      → ((rd ra : ℕ) (n : Machine) → exec_instr lk (i rd ra) n ≡ some (set_x rd (f (n.x ra)) n))
      → (value s b ≡ 0 → f (value s a) ≡ w)
      → eval_op op (value s a) (value s b) ≡ some w
      → Works (emit_test c over op i d a b)
  unfolding emit_test
  emit_test-Works op i f step e ev =
      try_imm-case Works (λ n. n == 0) b
        (λ n eb z.
          one a (λ rd ra. some (i rd ra ∷ [])) la
            (instr-Operates lk c ng sp lay live s over nz d a w i f step
              (e (ap (value s) eb ∙ ground arith))))
        (plain op ev)

  by_factor :
      (v : Val) (n : ℕ)
      → IsWord n
      → IsWord (value s v)
      → mul32 (value s v) n ≡ w
      → Operates lk c ng sp lay live s over nz d v w (λ rd ra. some (emit_mul_const rd ra n))
  by_factor v n wn wv e rd ra o js nzd n6 val p =
      subst (λ k. Computes lk k rd w o) (some-injective _ _ p)
        (subst (λ r. Computes lk (emit_mul_const rd ra n) rd r o) (ap (λ x. mul32 x n) val ∙ e)
          (emit_mul_const-Computes lk rd nzd ra n n6 o (subst IsWord (sym val) wv) wn))

  by_power :
      (v : Val) (f : ℕ → ℕ) (code : ℕ → ℕ → Option (List Instr))
      → ((rd ra : ℕ) (o : Machine)
          → rd ≢ x_zero
          → ra ≢ scratch1
          → IsWord (o.x ra)
          → Emits lk o rd (f (o.x ra)) (code rd ra))
      → IsWord (value s v)
      → f (value s v) ≡ w
      → Operates lk c ng sp lay live s over nz d v w code
  by_power v f code gives wv e rd ra o js nzd n6 val p =
      let (k, q, t) = gives rd ra o nzd n6 (subst IsWord (sym val) wv) in
      subst (λ k'. Computes lk k' rd w o) (some-injective _ _ (sym q ∙ p))
        (subst (λ x. Computes lk k rd x o) (ap f val ∙ e) t)

  emit_mul-Works : mul32 (value s a) (value s b) ≡ w → Works (emit_mul c over d a b)
  unfolding eval_op
  emit_mul-Works e =
      emit_mul-case Works c over d a b
        (λ n ea.
          let wn = subst (λ v. IsWord (value s v)) ea wa in
          one b _ lb (
            by_factor b n wn wb
              (mul32_comm (value s b) n ∙ ap (λ v. mul32 (value s v) (value s b)) (sym ea) ∙ e)))
        (λ n eb.
          let wn = subst (λ v. IsWord (value s v)) eb wb in
          one a _ la (by_factor a n wn wa (ap (λ v. mul32 (value s a) (value s v)) (sym eb) ∙ e)))
        (plain Op.mul (ap some e))

  -- Division and remainder, by what is put out for a power of two.
  emit_by-Works :
      (op : Op) (f : ℕ → ℕ → ℕ) (code : ℕ → ℕ → ℕ → Option (List Instr))
      → ((k n rd ra : ℕ) (o : Machine)
          → rd ≢ x_zero
          → ra ≢ scratch1
          → IsWord (o.x ra)
          → IsWord n
          → k < 32
          → magnitude n ≡ 2 ^ k
          → Emits lk o rd (f (o.x ra) n) (code rd ra n))
      → ((n : ℕ) → b ≡ imm n → c.opt ≡ true → (k : ℕ) × (k < 32) × (magnitude n ≡ 2 ^ k))
      → f (value s a) (value s b) ≡ w
      → eval_op op (value s a) (value s b) ≡ some w
      → Works (emit_by c over op code d a b)
  unfolding emit_by
  emit_by-Works op f code gives power e ev =
      try_imm-case Works (λ n. c.opt) b
        (λ n eb o.
          let (k, lk32, size) = power n eb o in
          let wn = subst (λ v. IsWord (value s v)) eb wb in
          one a (λ rd ra. code rd ra n) la
            (by_power a (λ x. f x n) (λ rd ra. code rd ra n)
              (λ rd ra m' nzd n6 wx. gives k n rd ra m' nzd n6 wx wn lk32 size) wa
              (ap (λ v. f (value s a) (value s v)) (sym eb) ∙ e)))
        (plain op ev)

  pub emit_binary-Works :
      (op : Op) (hint : Option ℕ) (unsigned : Bool)
      → NoMagic c op b
      → eval_op op (value s a) (value s b) ≡ some w
      → Works (emit_binary c over op d a b hint unsigned)
  unfolding emit_binary eval_op exec_instr
  emit_binary-Works Op.add hint unsigned nm e = emit_add-Works (some-injective _ _ e)
  emit_binary-Works Op.sub hint unsigned nm e = emit_sub-Works (some-injective _ _ e)
  emit_binary-Works Op.lt hint unsigned nm e = emit_lt-Works (some-injective _ _ e)
  emit_binary-Works Op.eq hint unsigned nm e =
      emit_test-Works Op.eq seqz (λ x. if x == 0 then 1 else 0) (λ rd ra n. refl)
        (λ z. ground arith) e
  emit_binary-Works Op.ne hint unsigned nm e =
      emit_test-Works Op.ne snez (λ x. if x == 0 then 0 else 1) (λ rd ra n. refl)
        (λ z. ground arith) e
  emit_binary-Works Op.mul hint unsigned nm e = emit_mul-Works (some-injective _ _ e)
  emit_binary-Works Op.div hint unsigned nm e =
      emit_by-Works Op.div sdiv (emit_div_const c hint unsigned)
        (λ k n rd ra o nzd n6 wx wn l size.
          emit_div_const-Emits lk c hint unsigned rd ra n nzd n6 o wx wn k l size)
        (λ n eb. subst (NoMagic c Op.div) eb nm) (ground arith) e
  emit_binary-Works Op.rem hint unsigned nm e =
      emit_by-Works Op.rem srem (emit_mod_const c hint unsigned)
        (λ k n rd ra o nzd n6 wx wn l size.
          emit_mod_const-Emits lk c hint unsigned rd ra n nzd n6 o wx wn k l size)
        (λ n eb. subst (NoMagic c Op.rem) eb nm) (ground arith) e
  emit_binary-Works op hint unsigned nm e = plain op e
