-- ===== src/Opt/Dce/Step.antt =====
-- An instruction on two stores that agree on the registers that are read.
use mathlib.Core.Path.{subst}
use mathlib.Core.Option.{some-injective}
use toy_c_cp.Prelude.{
  ℕ, ◌+◌, ◌≡◌, ◌≢◌, refl, ap, true, false, Option, none, some, List, [], ◌∷◌, ◌++◌, arith, ◌==◌,
  if◌then◌else◌, ==_iff,
}
use toy_c_cp.Word.{neg32}
use toy_c_cp.Ast.{FuncRef}
use toy_c_cp.Ir.{Val, imm, reg, Op, Inst}
use toy_c_cp.Ir.Meaning.{
  Store, Callee, bind, value, values, write, update, eval_op, load, after_call, exec_op, exec_inst,
}
use toy_c_cp.Ir.Meaning.Refine.{bind-eq-some}
use toy_c_cp.Opt.Dce.{
  val_uses, opt_uses, args_uses, op_uses, inst_uses, use_count, has_side_effect, unused_dst,
  is_dead,
}

-- The members of `xs` are among those of `us`.
abbrev pub Within : List ℕ → List ℕ → Type 0
Within xs us = (r : ℕ) → use_count r xs ≢ 0 → use_count r us ≢ 0

pub record Agree (us : List ℕ) (s t : Store) : Type 0 where
  pub same_regs : (r : ℕ) → use_count r us ≢ 0 → s.regs r ≡ t.regs r
  pub same_globals : s.globals ≡ t.globals

pub use_count-append :
    (r : ℕ) (xs ys : List ℕ) → use_count r (xs ++ ys) ≡ use_count r xs + use_count r ys
unfolding use_count
use_count-append r [] ys = omega arith
use_count-append r (x ∷ xs) ys = omega (arith, use_count-append r xs ys)

pub Within-left : (xs ys us : List ℕ) → Within (xs ++ ys) us → Within xs us
Within-left xs ys us h r k = h r (omega (arith, use_count-append r xs ys))

pub Within-right : (xs ys us : List ℕ) → Within (xs ++ ys) us → Within ys us
Within-right xs ys us h r k = h r (omega (arith, use_count-append r xs ys))

module _ (us : List ℕ) (s t : Store) (h : Agree us s t) where
  pub value-Agree : (v : Val) → Within (val_uses v) us → value s v ≡ value t v
  unfolding use_count
  value-Agree (imm n) w = refl
  value-Agree (reg r) w = h.same_regs r (w r (ground arith))

  values-Agree : (vs : List Val) → Within (args_uses vs) us → values s vs ≡ values t vs
  unfolding args_uses
  values-Agree [] w = refl
  values-Agree (v ∷ vs) w = cc (
    value-Agree v (Within-left (val_uses v) (args_uses vs) us w),
    values-Agree vs (Within-right (val_uses v) (args_uses vs) us w),
  )

pub write-Agree :
    (us : List ℕ) (s t : Store) (d : Option ℕ) (v w : ℕ)
    → Agree us s t
    → v ≡ w
    → Agree us (write d v s) (write d w t)
write-Agree us s t none v w h e = h
write-Agree us s t (some d) v w h e = record {
  same_regs = λ r k. ground (arith, h.same_regs r k);
  same_globals = h.same_globals;
}

-- A write to a register that nothing reads.
pub write_dead-Agree :
    (us : List ℕ) (s t : Store) (d : ℕ) (v : ℕ)
    → Agree us s t
    → use_count d us ≡ 0
    → Agree us (write (some d) v s) t
write_dead-Agree us s t d v h e = record {
  same_regs = λ r k. ground (arith, h.same_regs r k, ap (λ x. use_count x us) {x = r} {y = d});
  same_globals = h.same_globals;
}

module _ (callee : Callee) where
  -- Without a side effect only the destination changes.
  exec_op-pure :
      (op : Op) (d : Option ℕ) (a b : Val) (g : Option ℕ) (f : Option FuncRef) (args : List Val)
      (s s' : Store)
      → has_side_effect op ≡ false
      → exec_op callee op d a b g f args s ≡ some s'
      → (v : ℕ) × (write d v s ≡ s')
  unfolding exec_op
  exec_op-pure Op.mv d a b g f args s s' p e = (_, some-injective _ _ e)
  exec_op-pure Op.neg d a b g f args s s' p e = (_, some-injective _ _ e)
  exec_op-pure Op.not d a b g f args s s' p e = (_, some-injective _ _ e)
  exec_op-pure Op.call d a b g f args s s' p e = absurd (cc)
  exec_op-pure Op.store_global d a b g f args s s' p e = absurd (cc)
  exec_op-pure Op.load_global d a b g f args s s' p e =
      let (v, ev, e1) = bind-eq-some (load g s) (λ v. some (write d v s)) e in
      (v, some-injective _ _ e1)
  exec_op-pure op d a b g f args s s' p e =
      let (v, ev, e1) =
        bind-eq-some (eval_op op (value s a) (value s b)) (λ v. some (write d v s)) e in
      (v, some-injective _ _ e1)

  module _ (us : List ℕ) (s t : Store) (h : Agree us s t) where
    write-some-Agree :
        (d : Option ℕ) (v w : ℕ) (s' : Store)
        → v ≡ w
        → some (write d v s) ≡ some s'
        → (t' : Store) × (some (write d w t) ≡ some t') × Agree us s' t'
    write-some-Agree d v w s' p e = (
      write d w t,
      refl,
      subst (λ x. Agree us x (write d w t)) (some-injective _ _ e) (write-Agree us s t d v w h p),
    )

    binary-Agree :
        (op : Op) (d : Option ℕ) (a b : Val) (s' : Store)
        → Within (val_uses a ++ val_uses b) us
        → bind (eval_op op (value s a) (value s b)) (λ v. some (write d v s)) ≡ some s'
        → (t' : Store) × (bind (eval_op op (value t a) (value t b)) (λ v. some (write d v t))
            ≡ some t')
          × Agree us s' t'
    binary-Agree op d a b s' w e =
        let (v, ev, e1) =
          bind-eq-some (eval_op op (value s a) (value s b)) (λ v. some (write d v s)) e in
        let pa = value-Agree us s t h a (Within-left (val_uses a) (val_uses b) us w) in
        let pb = value-Agree us s t h b (Within-right (val_uses a) (val_uses b) us w) in
        rw (← pa, ← pb, ev) (write-some-Agree d v v s' refl e1)

    exec_op-Agree :
        (op : Op) (d : Option ℕ) (a b : Val) (g : Option ℕ) (f : Option FuncRef) (args : List Val)
        (s' : Store)
        → Within (op_uses op a b args) us
        → exec_op callee op d a b g f args s ≡ some s'
        → (t' : Store) × (exec_op callee op d a b g f args t ≡ some t') × Agree us s' t'
    unfolding exec_op op_uses
    exec_op-Agree Op.mv d a b g f args s' w e =
        write-some-Agree d _ _ s' (value-Agree us s t h a w) e
    exec_op-Agree Op.neg d a b g f args s' w e =
        write-some-Agree d _ _ s' (ap neg32 (value-Agree us s t h a w)) e
    exec_op-Agree Op.not d a b g f args s' w e =
        write-some-Agree d _ _ s' (ap (λ x. if x == 0 then 1 else 0) (value-Agree us s t h a w)) e
    exec_op-Agree Op.load_global d a b none f args s' w e = absurd (cc)
    exec_op-Agree Op.load_global d a b (some g) f args s' w e =
        write-some-Agree d _ _ s' (ap (λ k. k g) h.same_globals) e
    exec_op-Agree Op.store_global d a b none f args s' w e = absurd (cc)
    exec_op-Agree Op.store_global d a b (some g) f args s' w e = (
      record t { globals = update t.globals g (value t a) },
      refl,
      subst (λ x. Agree us x (record t { globals = update t.globals g (value t a) }))
          (some-injective _ _ e)
          (record {
            same_regs = h.same_regs;
            same_globals = λ i. update (h.same_globals i) g (value-Agree us s t h a w i);
          }),
    )
    exec_op-Agree Op.call d a b g none args s' w e = absurd (cc)
    exec_op-Agree Op.call d a b g (some f) args s' w e =
        let (r, er, e1) =
          bind-eq-some (callee f (values s args) s.globals) (λ r. some (after_call d s r)) e in
        let e2 : callee f (values t args) t.globals ≡ some r =
          rw (← values-Agree us s t h args w, ← h.same_globals) er in
        let agree : Agree us (record s { globals = r.1 }) (record t { globals = r.1 }) = record {
          same_regs = h.same_regs;
          same_globals = refl;
        } in
        (
          after_call d t r,
          rw e2,
          subst (λ x. Agree us x (after_call d t r)) (some-injective _ _ e1)
              (write-Agree us (record s { globals = r.1 }) (record t { globals = r.1 }) d r.0 r.0
                agree refl),
        )
    exec_op-Agree op d a b g f args s' w e = binary-Agree op d a b s' w e

  pub exec_inst-Agree :
      (us : List ℕ) (s t s' : Store) (i : Inst)
      → Agree us s t
      → Within (inst_uses i) us
      → exec_inst callee i s ≡ some s'
      → (t' : Store) × (exec_inst callee i t ≡ some t') × Agree us s' t'
  unfolding exec_inst inst_uses
  exec_inst-Agree us s t s' i h w e =
      exec_op-Agree us s t h i.op i.dst i.a i.b i.gid i.callee i.args s'
        (Within-left (op_uses i.op i.a i.b i.args) (opt_uses i.magic_vreg) us w) e

  -- A dead instruction can be left out.
  pub exec_dead-Agree :
      (us : List ℕ) (s t s' : Store) (i : Inst)
      → Agree us s t
      → is_dead us i ≡ true
      → exec_inst callee i s ≡ some s'
      → Agree us s' t
  unfolding exec_inst is_dead
  exec_dead-Agree us s t s' i h dead e =
      let (v, p) = exec_op-pure i.op i.dst i.a i.b i.gid i.callee i.args s s' (ground arith) e in
      subst (λ x. Agree us x t) p (skip i.dst v (ground arith))
    where
      skip : (d : Option ℕ) (v : ℕ) → unused_dst us d ≡ true → Agree us (write d v s) t
      skip none v u = h
      skip (some d) v u = write_dead-Agree us s t d v h ((==_iff (use_count d us) 0).0 u)
