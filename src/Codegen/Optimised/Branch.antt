-- ===== src/Codegen/Optimised/Branch.antt =====
-- The code of a branch goes the way of the branch, with the comparison before it taken in or not.
use mathlib.Core.Option.{some-injective}
use toy_c_cp.Prelude.{
  ℕ, ◌≡◌, refl, sym, ap, ◌∙◌, subst, Bool, true, false, not, Option, none, some, List, [], ◌∷◌,
  ◌++◌, String, ◌⊎◌, inl, inr, ◌==◌, if-case, if◌then◌else◌, arith,
}
use toy_c_cp.Word.{of_bool}
use toy_c_cp.Ir.{Val, Op, Inst}
use toy_c_cp.Ir.Meaning.{Store, value, eval_op}
use toy_c_cp.Ir.Meaning.Refine.{bind-eq-some}
use toy_c_cp.Rv.{Instr, j, scratch0, scratch1}
use toy_c_cp.Rv.Machine.{Machine, Linker}
use toy_c_cp.Rv.Exit.{
  Exit, at_end, jumped, taken, exec_exit, exec_exit-straight, exec_exit-ended, exec_exit-jumped,
}
use toy_c_cp.Codegen.Optimised.Access.{Context, to_reg}
use toy_c_cp.Codegen.Optimised.Frame.{Touched-Unchanged}
use toy_c_cp.Codegen.Optimised.Holds.{IsLayout, Holds, ValIn, Holds-Unchanged, to_reg-Got}
use toy_c_cp.Codegen.Optimised.Block.{
  is_cmp, invert_cmp, branch_on, emit_branch_cmp, unfused, into_branch, is_next, emit_br,
  branch_zero, emit_cond,
}
use toy_c_cp.Codegen.Optimised.Operate.{not_scratch1, not_a7}
use toy_c_cp.Codegen.Optimised.Compare.{
  branch_on-exit, eval_op-cmp, holds_cmp, negated, negated-is_cmp, signed_way, way, zero-exit,
}

-- The way leads to the block, by a jump or as the one that follows.
abbrev pub Reaches : Option ℕ → Exit → ℕ → Type 0
Reaches next x n = (x ≡ jumped n) ⊎ ((x ≡ at_end) × (next ≡ some n))

is_next-some : (next : Option ℕ) (n : ℕ) → is_next next n ≡ true → next ≡ some n
is_next-some none n h = absurd (cc)
is_next-some (some k) n h = ap some (ground arith)

of_bool-branch : (b : Bool) (t e : ℕ) → (if b then t else e) ≡ (if of_bool b == 0 then e else t)
of_bool-branch true t e = refl
of_bool-branch false t e = refl

not-branch : (b : Bool) (t e : ℕ) → (if not b then t else e) ≡ (if b then e else t)
not-branch true t e = refl
not-branch false t e = refl

module _ (lk : Linker) (c : Context) (ng sp : ℕ) (lay : IsLayout lk c ng sp) (live : ℕ → Type 0)
    (s : Store) (m : Machine) (h : Holds lk c ng sp live s m) where
  -- The code is left in this way, on a machine that still holds the store.
  abbrev pub Leaves : Exit → List Instr → Type 0
  Leaves x code = (o : Machine) × (exec_exit lk code m ≡ some (x, o)) × Holds lk c ng sp live s o

  emit_branch_cmp-Leaves :
      (op : Op) (a b : Val) (f : String) (n : ℕ) (negate : Bool) (code : List Instr)
      → is_cmp op ≡ true
      → ValIn live a
      → ValIn live b
      → emit_branch_cmp c op a b f n negate ≡ some code
      → Leaves (way (signed_way negate (holds_cmp op (value s a) (value s b))) n) code
  unfolding emit_branch_cmp
  emit_branch_cmp-Leaves op a b f n negate code cmp la lb e =
      let ((ra, is), e1, q1) = bind-eq-some (to_reg c a scratch0) _ e in
      let ((rb, js), e2, q2) = bind-eq-some (to_reg c b scratch1) _ q1 in
      let (m1, p1, val_a, t1, place) = to_reg-Got lk c ng sp lay a scratch0 (ra, is) refl la h e1 in
      let h1 = Holds-Unchanged lk c ng sp lay scratch0 refl h (Touched-Unchanged t1) in
      let (m2, p2, val_b, t2, place2) =
        to_reg-Got lk c ng sp lay b scratch1 (rb, js) refl lb h1 e2 in
      let val_a' : m2.x ra ≡ value s a =
        t2.same_x ra (not_scratch1 ra place) (not_a7 ra place) ∙ val_a in
      let op' : Op = if negate then invert_cmp op else op in
      (
        m2,
        ap (λ k. exec_exit lk k m) (sym (some-injective _ _ q2))
            ∙ exec_exit-straight lk is (js ++ branch_on op' ra rb f n) m m1 p1
            ∙ exec_exit-straight lk js (branch_on op' ra rb f n) m1 m2 p2
            ∙ branch_on-exit lk op' ra rb f n m2 (negated-is_cmp negate op cmp)
            ∙ (λ i. some (way (holds_cmp op' (val_a' i) (val_b i)) n, m2))
            ∙ ap (λ x. some (way x n, m2)) (negated negate op (value s a) (value s b) cmp),
        Holds-Unchanged lk c ng sp lay scratch1 refl h1 (Touched-Unchanged t2),
      )

  branch_zero-Leaves :
      (v : Val) (f : String) (n : ℕ) (negate : Bool) (code : List Instr)
      → ValIn live v
      → branch_zero c v f n negate ≡ some code
      → Leaves (way (signed_way negate (not (value s v == 0))) n) code
  unfolding branch_zero
  branch_zero-Leaves v f n negate code lv e =
      let ((r, is), e1, q1) = bind-eq-some (to_reg c v scratch0) _ e in
      let (o, p, val, t, place) = to_reg-Got lk c ng sp lay v scratch0 (r, is) refl lv h e1 in
      (
        o,
        ap (λ k. exec_exit lk k m) (sym (some-injective _ _ q1))
            ∙ exec_exit-straight lk is _ m o p
            ∙ zero-exit lk negate r f n o
            ∙ ap (λ x. some (way (signed_way negate (not (x == 0))) n, o)) val,
        Holds-Unchanged lk c ng sp lay scratch0 refl h (Touched-Unchanged t),
      )

  -- The code ends up at a block.
  abbrev pub GoesTo : Option ℕ → ℕ → List Instr → Type 0
  GoesTo next n code = (x : Exit) × Reaches next x n × Leaves x code

  Leaves-GoesTo :
      (next : Option ℕ) (b : Bool) (t e : ℕ) (code : List Instr)
      → next ≡ some e
      → Leaves (way b t) code
      → GoesTo next (if b then t else e) code
  Leaves-GoesTo next true t e code nx l = (jumped t, inl refl, l)
  Leaves-GoesTo next false t e code nx l = (at_end, inr (refl, nx), l)

  Leaves-jump :
      (next : Option ℕ) (b : Bool) (f : String) (t e : ℕ) (code : List Instr)
      → Leaves (way b t) code
      → GoesTo next (if b then t else e) (code ++ j f e ∷ [])
  unfolding exec_exit taken
  Leaves-jump next true f t e code (o, p, ho) =
      (jumped t, inl refl, (o, exec_exit-jumped lk code (j f e ∷ []) m o t p, ho))
  Leaves-jump next false f t e code (o, p, ho) =
      (jumped e, inl refl, (o, exec_exit-ended lk code (j f e ∷ []) m o p, ho))

  negated-GoesTo :
      (next : Option ℕ) (b : Bool) (t e : ℕ) (code : List Instr)
      → next ≡ some t
      → Leaves (way (not b) e) code
      → GoesTo next (if b then t else e) code
  negated-GoesTo next true t e code nx l = (at_end, inr (refl, nx), l)
  negated-GoesTo next false t e code nx l = (jumped e, inl refl, l)

  emit_br-GoesTo :
      (b : Bool) (f : String) (next : Option ℕ) (t e : ℕ) (branch : ℕ → Bool → Option (List Instr))
      (code : List Instr)
      → ((n : ℕ) (negate : Bool) (is : List Instr)
          → branch n negate ≡ some is
          → Leaves (way (signed_way negate b) n) is)
      → emit_br f next t e branch ≡ some code
      → GoesTo next (if b then t else e) code
  unfolding emit_br
  emit_br-GoesTo b f next t e branch code br p =
      if-case (λ o. o ≡ some code → GoesTo next (if b then t else e) code) (is_next next e)
        (λ ne q. Leaves-GoesTo next b t e code (is_next-some next e ne) (br t false code q))
        (λ no.
          if-case (λ o. o ≡ some code → GoesTo next (if b then t else e) code) (is_next next t)
            (λ nt q. negated-GoesTo next b t e code (is_next-some next t nt) (br e true code q))
            (λ no' q.
              let (is, p1, q1) = bind-eq-some (branch t false) (λ is. some (is ++ j f e ∷ [])) q in
              subst (GoesTo next (if b then t else e)) (some-injective _ _ q1)
                (Leaves-jump next b f t e is (br t false is p1))))
        p

  -- A branch on a comparison that is taken in leads where the comparison and the branch would: to `t`
  -- if it holds and else to `e`, by a jump or by going on to the block that follows, and the machine
  -- holds the store as before.
  pub emit_cond-fused :
      (f : String) (next : Option ℕ) (v : Val) (t e : ℕ) (i : Inst) (w : ℕ) (code : List Instr)
      → is_cmp i.op ≡ true
      → ValIn live i.a
      → ValIn live i.b
      → eval_op i.op (value s i.a) (value s i.b) ≡ some w
      → emit_cond c f next v t e (into_branch i) ≡ some code
      → GoesTo next (if w == 0 then e else t) code
  unfolding emit_cond
  emit_cond-fused f next v t e i w code cmp la lb ev p =
      let holds : Bool = holds_cmp i.op (value s i.a) (value s i.b) in
      let same : of_bool holds ≡ w =
        some-injective _ _ (sym (eval_op-cmp i.op (value s i.a) (value s i.b) cmp) ∙ ev) in
      subst (λ n. GoesTo next n code)
        (of_bool-branch holds t e ∙ ap (λ x. if x == 0 then e else t) same)
        (emit_br-GoesTo holds f next t e _ code
          (λ n negate is q. emit_branch_cmp-Leaves i.op i.a i.b f n negate is cmp la lb q) p)

  -- A branch on a value leads to `t` if the value is not 0 and else to `e`, and the machine holds the
  -- store as before.
  pub emit_cond-plain :
      (f : String) (next : Option ℕ) (v : Val) (t e : ℕ) (code : List Instr)
      → ValIn live v
      → emit_cond c f next v t e unfused ≡ some code
      → GoesTo next (if value s v == 0 then e else t) code
  unfolding emit_cond
  emit_cond-plain f next v t e code lv p =
      subst (λ n. GoesTo next n code) (not-branch (value s v == 0) t e)
        (emit_br-GoesTo (not (value s v == 0)) f next t e _ code
          (λ n negate is q. branch_zero-Leaves v f n negate is lv q) p)
