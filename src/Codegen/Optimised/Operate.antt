-- ===== src/Codegen/Optimised/Operate.antt =====
-- The code for an operation on one or two operands, up to the store of a destination on the stack.
use toy_c_cp.Prelude.{
  ℕ, ◌≡◌, ◌≢◌, refl, sym, ap, ◌∙◌, subst, false, Option, some, none, List, [], ◌∷◌, ◌++◌, ◌⊎◌, inl,
  inr, arith,
}
use mathlib.Core.Option.{some-injective}
use toy_c_cp.Word.{IsWord}
use toy_c_cp.Ir.{Val, Op}
use toy_c_cp.Ir.Meaning.{Store, value, bind, eval_op}
use toy_c_cp.Ir.Meaning.Refine.{bind-eq-some}
use toy_c_cp.Rv.{Instr, x_zero, x_a7, scratch0, scratch1}
use toy_c_cp.Rv.Machine.{Machine, Linker, set_x, exec_instr, exec_code, exec_code-append}
use toy_c_cp.Codegen.Optimised.Constant.Multiply.{one_instr-Computes}
use toy_c_cp.Codegen.Optimised.Access.{Context, to_reg, dst_reg, write_back, reg_or, on_one}
use toy_c_cp.Codegen.Optimised.Computed.{is_scratch, Computed, Computes}
use toy_c_cp.Codegen.Optimised.Frame.{Touched-Unchanged}
use toy_c_cp.Codegen.Optimised.Holds.{IsLayout, Holds, ValIn, Holds-Unchanged, to_reg-Got}
use toy_c_cp.Codegen.Optimised.Inst.{alu, emit_plain}
use toy_c_cp.Codegen.Optimised.Alu.{alu-Computes}

-- A register that takes the result in place of the destination is not register 0.
abbrev pub NonZero : Option ℕ → Type 0
NonZero none = Unit
NonZero (some r) = r ≢ x_zero

pub not_scratch1 : (r : ℕ) → (r ≡ scratch0) ⊎ (is_scratch r ≡ false) → r ≢ scratch1
not_scratch1 r (inl e) = omega arith
not_scratch1 r (inr e) = ground arith

pub not_a7 : (r : ℕ) → (r ≡ scratch0) ⊎ (is_scratch r ≡ false) → r ≢ x_a7
not_a7 r (inl e) = omega arith
not_a7 r (inr e) = ground arith

module _ (lk : Linker) (c : Context) (ng sp : ℕ) (lay : IsLayout lk c ng sp) (live : ℕ → Type 0)
    (s : Store) (over : Option ℕ) (nz : NonZero over) (d : ℕ) where
  abbrev pub target : ℕ
  target = dst_reg c over d scratch0

  -- The code comes to a machine that has the value in the register of the destination, and has then to
  -- do `ks`, which is what writeBack puts out.
  pub record Worked (w : ℕ) (m : Machine) (out : List Instr) : Type 0 where
    pub ks : List Instr
    pub ready : Machine
    pub done : Machine
    pub runs : exec_code lk out m ≡ exec_code lk ks done
    pub holds : Holds lk c ng sp live s ready
    pub computed : Computed target w ready done
    pub back : write_back c over d target ≡ some ks

  pub skip :
      (is js : List Instr) (m n : Machine)
      → exec_code lk is m ≡ some n
      → exec_code lk (is ++ js) m ≡ exec_code lk js n
  skip is js m n e = exec_code-append lk is js m ∙ ap (λ o. bind o (exec_code lk js)) e

  reg_or-nonzero : (o : Option ℕ) → c.alloc.reg d ≡ o → reg_or scratch0 o ≢ x_zero
  reg_or-nonzero none e = omega arith
  reg_or-nonzero (some p) e = (lay.pooled d p e).no_zero

  pub target-nonzero : (o : Option ℕ) → NonZero o → dst_reg c o d scratch0 ≢ x_zero
  unfolding dst_reg
  target-nonzero (some r) h = h
  target-nonzero none h = reg_or-nonzero (c.alloc.reg d) refl

  -- What an operation on one operand has to do: from a register other than t6 to the destination.
  abbrev pub Operates : Val → ℕ → (ℕ → ℕ → Option (List Instr)) → Type 0
  Operates v w code =
      (rd ra : ℕ) (n : Machine) (js : List Instr)
      → rd ≢ x_zero
      → ra ≢ scratch1
      → n.x ra ≡ value s v
      → code rd ra ≡ some js
      → Computes lk js rd w n

  -- An operation by one instruction.
  pub instr-Operates :
      (v : Val) (w : ℕ) (i : ℕ → ℕ → Instr) (f : ℕ → ℕ)
      → ((rd ra : ℕ) (n : Machine) → exec_instr lk (i rd ra) n ≡ some (set_x rd (f (n.x ra)) n))
      → f (value s v) ≡ w
      → Operates v w (λ rd ra. some (i rd ra ∷ []))
  instr-Operates v w i f step e rd ra n js nzd n6 val p =
      subst (λ k. Computes lk k rd w n) (some-injective _ _ p)
        (one_instr-Computes lk rd nzd (i rd ra) (f (n.x ra)) w n (step rd ra n) (ap f val ∙ e))

  pub on_one-Worked :
      (v : Val) (code : ℕ → ℕ → Option (List Instr)) (w : ℕ) (m : Machine) (out : List Instr)
      → ValIn live v
      → Holds lk c ng sp live s m
      → Operates v w code
      → on_one c over d v code ≡ some out
      → Worked w m out
  unfolding on_one
  on_one-Worked v code w m out l h op e =
      let ((ra, is), e1, q1) = bind-eq-some (to_reg c v scratch0) _ e in
      let (js, e2, q2) = bind-eq-some (code target ra) _ q1 in
      let (ks, e3, q3) = bind-eq-some (write_back c over d target) _ q2 in
      let (n, p1, val, t, place) = to_reg-Got lk c ng sp lay v scratch0 (ra, is) refl l h e1 in
      let (n', p2, k) = op target ra n js (target-nonzero over nz) (not_scratch1 ra place) val e2 in
      record {
        ks = ks;
        ready = n;
        done = n';
        runs =
            ap (λ o. exec_code lk o m) (sym (some-injective _ _ q3))
            ∙ skip is (js ++ ks) m n p1
            ∙ skip js ks n n' p2;
        holds = Holds-Unchanged lk c ng sp lay scratch0 refl h (Touched-Unchanged t);
        computed = k;
        back = e3;
      }

  pub emit_plain-Worked :
      (op : Op) (a b : Val) (w : ℕ) (m : Machine) (out : List Instr)
      → ValIn live a
      → ValIn live b
      → IsWord (value s a)
      → IsWord (value s b)
      → Holds lk c ng sp live s m
      → eval_op op (value s a) (value s b) ≡ some w
      → emit_plain c over op d a b ≡ some out
      → Worked w m out
  unfolding emit_plain
  emit_plain-Worked op a b w m out la lb wa wb h ev e =
      let ((ra, is), e1, q1) = bind-eq-some (to_reg c a scratch0) _ e in
      let ((rb, js), e2, q2) = bind-eq-some (to_reg c b scratch1) _ q1 in
      let (ks, e3, q3) = bind-eq-some (write_back c over d target) _ q2 in
      let (n, p1, val_a, t, place) = to_reg-Got lk c ng sp lay a scratch0 (ra, is) refl la h e1 in
      let h1 = Holds-Unchanged lk c ng sp lay scratch0 refl h (Touched-Unchanged t) in
      let (n2, p2, val_b, t2, place2) =
        to_reg-Got lk c ng sp lay b scratch1 (rb, js) refl lb h1 e2 in
      let val_a' : n2.x ra ≡ value s a =
        t2.same_x ra (not_scratch1 ra place) (not_a7 ra place) ∙ val_a in
      let (n', p3, k) =
        alu-Computes lk target ra rb (target-nonzero over nz) n2 op w (subst IsWord (sym val_a') wa)
          (subst IsWord (sym val_b) wb) ((λ i. eval_op op (val_a' i) (val_b i)) ∙ ev) in
      record {
        ks = ks;
        ready = n2;
        done = n';
        runs =
            ap (λ o. exec_code lk o m) (sym (some-injective _ _ q3))
            ∙ skip is _ m n p1
            ∙ skip js _ n n2 p2
            ∙ skip (alu op target ra rb) ks n2 n' p3;
        holds = Holds-Unchanged lk c ng sp lay scratch1 refl h1 (Touched-Unchanged t2);
        computed = k;
        back = e3;
      }
