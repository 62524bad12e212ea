-- ===== src/Codegen/Optimised/Write.antt =====
-- The destination of an instruction gets its value, in its register or on the stack.
use toy_c_cp.Prelude.{
  ℕ, ◌+◌, ◌<◌, ◌≡◌, ◌≢◌, refl, sym, ap, ◌∙◌, subst, false, Option, some, none, List, [], ◌⊎◌, inl,
  inr, ◌==◌, arith, Bool-cases,
}
use mathlib.Core.Option.{some-injective}
use toy_c_cp.Word.{word_mod}
use toy_c_cp.Ir.Meaning.{Store, write, update}
use toy_c_cp.Ir.Meaning.Refine.{bind-eq-some}
use toy_c_cp.Rv.{Instr, x_sp, x_zero, x_a7, scratch0}
use toy_c_cp.Rv.Machine.{Machine, Linker, exec_code}
use toy_c_cp.Codegen.Optimised.Access.{
  Context, spill_off, store_off, reg_or, nothing_or_store, dst_reg, write_back,
}
use toy_c_cp.Codegen.Optimised.Computed.{is_scratch, Computed}
use toy_c_cp.Codegen.Optimised.Frame.{store_off-Stored}
use toy_c_cp.Codegen.Optimised.Holds.{IsPooled, IsLayout, Holds, Apart, Survives}

-- A place that is overwritten with `w`, read by what is apart from it or has the value `w`.
overwritten :
    (f : ℕ → ℕ) (k x w old : ℕ) → f k ≡ w → (x ≢ k → f x ≡ old) → (x ≢ k) ⊎ (old ≡ w) → f x ≡ old
overwritten f k x w old here other (inl ne) = other ne
overwritten f k x w old here other (inr same) = elim (Bool-cases (x == k)) [
  | inl e ↦ ap f (ground arith) ∙ here ∙ sym same
  | inr n ↦ other (ground arith)
]

update_other : (f : ℕ → ℕ) (k w x : ℕ) → x ≢ k → update f k w x ≡ f x
update_other f k w x ne = ground arith

some-none : {A : Type 0} {a : A} {o : Option A} → o ≡ some a → o ≢ none
some-none e n = absurd (cc)

module _ (lk : Linker) (c : Context) (ng sp : ℕ) (lay : IsLayout lk c ng sp)
    (before behind : ℕ → Type 0) (s : Store) (d w : ℕ) (surv : Survives c before behind s d w)
    (n n' : Machine) (h : Holds lk c ng sp before s n) where
  abbrev Ends : List Instr → Type 0
  Ends ks =
      (o : Machine) × (exec_code lk ks n' ≡ some o) × Holds lk c ng sp behind (write (some d) w s) o

  written : (v y : ℕ) → (v ≡ d → y ≡ w) → (v ≢ d → y ≡ s.regs v) → y ≡ update s.regs d w v
  written v y new old = elim (Bool-cases (v == d)) [
    | inl e ↦ rw e (new (ground arith))
    | inr ne ↦ rw ne (old (ground arith))
  ]

  -- Where the destination has a register.
  in_reg-Ends : (p : ℕ) → c.alloc.reg d ≡ some p → Computed p w n n' → Ends []
  unfolding exec_code
  in_reg-Ends p ep k = (
    n',
    refl,
    record {
      sp_same = k.unchanged.same_x x_sp (λ e. pool.no_sp (sym e)) refl ∙ h.sp_same;
      zero_same = k.unchanged.same_x x_zero (λ e. pool.no_zero (sym e)) refl ∙ h.zero_same;
      in_reg = λ v q l e.
          written v (n'.x q)
            (λ same. ap n'.x (some-injective _ _ (sym e ∙ ap c.alloc.reg same ∙ ep)) ∙ k.result)
            (λ other.
              let (lb, apart) = surv v l other in
              overwritten n'.x p q w (s.regs v) k.result
                (λ nq. k.unchanged.same_x q nq (lay.pooled v q e).no_scratch ∙ h.in_reg v q lb e)
                (not_there v q p ep e apart));
      in_slot = λ v off l e f.
          written v (n'.mem (sp + off))
            (λ same. absurd (some-none ep (ap c.alloc.reg (sym same) ∙ e)))
            (λ other.
              ap (λ g. g (sp + off)) k.unchanged.same_mem ∙ h.in_slot v off (surv v l other).0 e f);
      globals = λ g b. ap (λ f. f (lk.address g)) k.unchanged.same_mem ∙ h.globals g b;
    },
  )
    where
      pool : IsPooled p
      pool = lay.pooled d p ep

      not_there :
          (v q p : ℕ)
          → c.alloc.reg d ≡ some p
          → c.alloc.reg v ≡ some q
          → Apart c d v ⊎ (s.regs v ≡ w)
          → (q ≢ p) ⊎ (s.regs v ≡ w)
      not_there v q p ep e (inl a) = inl (λ same. a.regs_apart p ep (e ∙ ap some same))
      not_there v q p ep e (inr same) = inr same

  -- Where it lies on the stack.
  in_slot-Ends :
      (off : ℕ)
      → c.alloc.reg d ≡ none
      → spill_off c d ≡ some off
      → Computed scratch0 w n n'
      → Ends (store_off scratch0 off)
  in_slot-Ends off ed eo k =
      let sp_kept : n'.x x_sp ≡ sp = k.unchanged.same_x x_sp (omega arith) refl ∙ h.sp_same in
      let fit : n'.x x_sp + off < word_mod = omega (arith, sp_kept, lay.slots_fit d off eo) in
      let (o, p, st) =
        store_off-Stored lk scratch0 off n' (omega arith) fit
          (rw sp_kept (lay.slots_aligned d off eo)) in
      let stored : o.mem ≡ update n.mem (sp + off) w =
        st.stored ∙ (λ i. update (k.unchanged.same_mem i) (sp_kept i + off) (k.result i)) in
      let here : o.mem (sp + off) ≡ w = ap (λ g. g (sp + off)) stored ∙ ground arith in
      let kept = λ (q : ℕ) (n7 : q ≢ x_a7) (n5 : q ≢ scratch0) (sc : is_scratch q ≡ false).
        st.same_x q n7 ∙ k.unchanged.same_x q n5 sc in
      (
        o,
        p,
        record {
          sp_same = kept x_sp (omega arith) (omega arith) refl ∙ h.sp_same;
          zero_same = kept x_zero (omega arith) (omega arith) refl ∙ h.zero_same;
          in_reg = λ v q l e.
              written v (o.x q) (λ same. absurd (some-none e (ap c.alloc.reg same ∙ ed)))
                (λ other.
                  let sc = (lay.pooled v q e).no_scratch in
                  kept q (λ eq. absurd (cc)) (λ eq. absurd (cc)) sc
                  ∙ h.in_reg v q (surv v l other).0 e);
          in_slot = λ v off' l e f.
              written v (o.mem (sp + off'))
                (λ same.
                  let offs : off' ≡ off =
                    some-injective _ _ (sym f ∙ ap (λ u. spill_off c u) same ∙ eo) in
                  ap (λ x. o.mem (sp + x)) offs ∙ here)
                (λ other.
                  let (lb, apart) = surv v l other in
                  overwritten o.mem (sp + off) (sp + off') w (s.regs v) here
                    (λ ne.
                      ap (λ g. g (sp + off')) stored
                      ∙ update_other n.mem (sp + off) w (sp + off') ne
                      ∙ h.in_slot v off' lb e f)
                    (not_there v off' e f apart));
          globals = λ g b.
              ap (λ f. f (lk.address g)) stored
              ∙ ground (arith, h.globals g b, lay.apart d off g eo b);
        },
      )
    where
      not_there :
          (v off' : ℕ)
          → c.alloc.reg v ≡ none
          → spill_off c v ≡ some off'
          → Apart c d v ⊎ (s.regs v ≡ w)
          → (sp + off' ≢ sp + off) ⊎ (s.regs v ≡ w)
      not_there v off' e f (inl a) = inl (λ same. a.slots_apart off off' ed e eo f (omega arith))
      not_there v off' e f (inr same) = inr same

  nothing_or_store-Ends :
      (o : Option ℕ) (ks : List Instr)
      → c.alloc.reg d ≡ o
      → Computed (reg_or scratch0 o) w n n'
      → nothing_or_store c d (reg_or scratch0 o) o ≡ some ks
      → Ends ks
  nothing_or_store-Ends (some p) ks ep k e = subst Ends (some-injective _ _ e) (in_reg-Ends p ep k)
  nothing_or_store-Ends none ks ep k e =
      let (off, eo, e1) = bind-eq-some (spill_off c d) _ e in
      subst Ends (some-injective _ _ e1) (in_slot-Ends off ep eo k)

  -- The store behind an instruction that has computed its value in the register of its destination.
  pub write_back-Ends :
      (ks : List Instr)
      → Computed (dst_reg c none d scratch0) w n n'
      → write_back c none d (dst_reg c none d scratch0) ≡ some ks
      → Ends ks
  unfolding dst_reg write_back
  write_back-Ends ks k e = nothing_or_store-Ends (c.alloc.reg d) ks refl k e
