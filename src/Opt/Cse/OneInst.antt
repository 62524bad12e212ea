-- ===== src/Opt/Cse/OneInst.antt =====
-- cse, one instruction: what is put out does the same, and what is known behind it is true.
use toy_c_cp.Prelude.{
  ℕ, ◌≡◌, refl, ap, sym, ◌∙◌, subst, Bool, true, not, ◌&&◌, ◌||◌, Option, none, some, List, [], ◌∷◌,
  ◌==◌, Bool-cases, inl, inr, arith,
}
use toy_c_cp.Ir.{Val, imm, reg, Op, Inst, is_reg}
use toy_c_cp.Ir.Meaning.{
  Store, Callee, value, values, write, update, eval_op, bind, load, store, invoke, after_call,
  exec_op, exec_inst,
}
use toy_c_cp.Opt.Cse.{
  Avail, Step, make_key, same_key, same_unary, find_value, drop_where, reads, kill_dst, kill_val,
  kill_vals, know_binary, know_unary, know_load, copy_to, look_up, keep_inst, cse_load, cse_store,
  cse_call, cse_unary, cse_binary, cse_step,
}
use toy_c_cp.Opt.Cse.Known.{
  Known, HoldsBinary, HoldsUnary, HoldsLoad, unwritten, eval_unary, All-drop_where, find_value-All,
  op_number-injective, same_val-eq, kill_vals-Known, kill_dst-Known, value-unread, globals-Known,
  tail-Known, kill_val-Known,
}

-- The destination is a value of its own: the instruction does not read it, and no later one writes it.
abbrev pub own_dst : Option ℕ → Val → Val → List Inst → Bool
own_dst none a b is = true
own_dst (some d) a b is = not (reads d a || reads d b) && unwritten d is

-- What is asked of an instruction: the operators with a result that cse remembers have one of their own.
abbrev pub is_temp : Op → Option ℕ → Val → Val → List Inst → Bool
is_temp Op.mv d a b is = true
is_temp Op.load_global d a b is = true
is_temp Op.store_global d a b is = true
is_temp Op.call d a b is = true
is_temp op d a b is = own_dst d a b is

module _ (callee : Callee) (s : Store) (i : Inst) (is : List Inst) (av : Avail)
    (known : Known s (i ∷ is) av) where
  -- The step puts out the same effect, and knows the truth behind it.
  pub record IsSound (effect : Option Store) (st : Step) : Type 0 where
    pub same : exec_inst callee st.out s ≡ effect
    pub behind : (t : Store) → effect ≡ some t → Known t is st.known

  keep-IsSound :
      (effect : Option Store) (after : Avail)
      → exec_inst callee i s ≡ effect
      → ((t : Store) → effect ≡ some t → Known t is after)
      → IsSound effect (keep_inst i after)
  keep-IsSound effect after p h = record { same = p; behind = h }

  -- An instruction that writes a value.
  abbrev writes : Option ℕ → Option Store
  writes o = bind o (λ v. some (write i.dst v s))

  written-Known :
      (o : Option ℕ) (t : Store)
      → writes o ≡ some t
      → (v : ℕ) × (o ≡ some v) × (t ≡ write i.dst v s)
  written-Known none t h = absurd (cc)
  written-Known (some v) t h = (v, refl, cc)

  plain-IsSound :
      (o : Option ℕ)
      → exec_inst callee i s ≡ writes o
      → IsSound (writes o) (keep_inst i (kill_dst i.dst av))
  plain-IsSound o p =
      keep-IsSound (writes o) _ p
        λ t h. let (v, e, f) = written-Known o t h in rw f (kill_dst-Known i v s is av known)

  exec_copy :
      (dst : Option ℕ) (r : ℕ) → exec_inst callee (copy_to dst r) s ≡ some (write dst (s.regs r) s)
  unfolding exec_inst exec_op
  exec_copy none r = refl
  exec_copy (some d) r = refl

  look_up-IsSound :
      (found : Option ℕ) (know : Option ℕ → Avail → Avail) (o : Option ℕ)
      → exec_inst callee i s ≡ writes o
      → ((r : ℕ) → found ≡ some r → o ≡ some (s.regs r))
      → ((v : ℕ) → o ≡ some v → Known (write i.dst v s) is (know i.dst (kill_dst i.dst av)))
      → IsSound (writes o) (look_up found know i av)
  look_up-IsSound none know o p f g = record {
    same = p;
    behind = λ t h. let (v, e, q) = written-Known o t h in rw q (g v e);
  }
  look_up-IsSound (some r) know o p f g = record {
    same = exec_copy i.dst r ∙ sym (ap writes (f r refl));
    behind = λ t h. let (v, e, q) = written-Known o t h in rw q (kill_dst-Known i v s is av known);
  }

  written : (d v : ℕ) → (write (some d) v s).regs d ≡ v
  written d v = ground arith

  -- A binary operator.
  know_binary-Known :
      (dst : Option ℕ) (v : ℕ)
      → i.dst ≡ dst
      → own_dst dst i.a i.b is ≡ true
      → eval_op i.op (value s i.a) (value s i.b) ≡ some v
      → Known (write dst v s) is (kill_dst dst av)
      → Known (write dst v s) is (know_binary (make_key i) dst (kill_dst dst av))
  know_binary-Known none v e h p k = k
  know_binary-Known (some d) v e h p k = record {
    binary = (
      (
        rw
            (
              value-unread d v s i.a (ground (arith, h)),
              value-unread d v s i.b (ground (arith, h)),
              written d v,
            )
            p,
        ground (arith, h),
      ),
      k.binary,
    );
    unary = k.unary;
    loads = k.loads;
  }

  binary_found :
      (r : ℕ)
      → find_value (same_key (make_key i)) av.binary ≡ some r
      → eval_op i.op (value s i.a) (value s i.b) ≡ some (s.regs r)
  binary_found r e =
      let (k, same, (p, u)) =
        find_value-All (HoldsBinary s (i ∷ is)) (same_key (make_key i)) av.binary r known.binary
          e in
      rw
        (
          op_number-injective i.op k.op (ground (arith, same)),
          same_val-eq i.a k.a (ground (arith, same)),
          same_val-eq i.b k.b (ground (arith, same)),
        )
        p

  cse_binary-IsSound :
      own_dst i.dst i.a i.b is ≡ true
      → exec_inst callee i s ≡ writes (eval_op i.op (value s i.a) (value s i.b))
      → IsSound (writes (eval_op i.op (value s i.a) (value s i.b))) (cse_binary i av)
  unfolding cse_binary
  cse_binary-IsSound h p = elim (Bool-cases (is_reg i.a || is_reg i.b)) [
    | inl some_reg ↦ rw some_reg (
        look_up-IsSound (find_value (same_key (make_key i)) av.binary) (know_binary (make_key i)) _
          p binary_found
          (λ v e. know_binary-Known i.dst v refl h e (kill_dst-Known i v s is av known)))
    | inr constants ↦ rw constants (plain-IsSound _ p)
  ]

  know_unary-Known :
      (op : Op) (x : ℕ) (dst : Option ℕ) (v : ℕ)
      → i.dst ≡ dst
      → own_dst dst (reg x) i.b is ≡ true
      → eval_unary op (s.regs x) ≡ some v
      → Known (write dst v s) is (kill_dst dst av)
      → Known (write dst v s) is (know_unary (op, x) dst (kill_dst dst av))
  know_unary-Known op x none v e h p k = k
  know_unary-Known op x (some d) v e h p k = record {
    binary = k.binary;
    unary = (
      (rw (value-unread d v s (reg x) (ground (arith, h)), written d v) p, ground (arith, h)),
      k.unary,
    );
    loads = k.loads;
  }

  unary_found :
      (op : Op) (x r : ℕ)
      → find_value (same_unary (op, x)) av.unary ≡ some r
      → eval_unary op (s.regs x) ≡ some (s.regs r)
  unary_found op x r e =
      let (k, same, (p, u)) =
        find_value-All (HoldsUnary s (i ∷ is)) (same_unary (op, x)) av.unary r known.unary e in
      let same_x : x ≡ k.1 = ground (arith, same) in
      rw (op_number-injective op k.0 (ground (arith, same)), same_x) p

  cse_unary-IsSound :
      (op : Op) (a : Val)
      → own_dst i.dst a i.b is ≡ true
      → exec_inst callee i s ≡ writes (eval_unary op (value s a))
      → IsSound (writes (eval_unary op (value s a))) (cse_unary op a i av)
  unfolding cse_unary
  cse_unary-IsSound op (imm n) h p = plain-IsSound _ p
  cse_unary-IsSound op (reg x) h p =
      look_up-IsSound (find_value (same_unary (op, x)) av.unary) (know_unary (op, x)) _ p
        (unary_found op x)
        (λ v e. know_unary-Known op x i.dst v refl h e (kill_dst-Known i v s is av known))

  know_load-Known :
      (g : ℕ) (dst : Option ℕ) (v : ℕ)
      → s.globals g ≡ v
      → Known (write dst v s) is (kill_dst dst av)
      → Known (write dst v s) is (know_load g dst (kill_dst dst av))
  know_load-Known g none v p k = k
  know_load-Known g (some d) v p k = record {
    binary = k.binary;
    unary = k.unary;
    loads = (p ∙ sym (written d v), k.loads);
  }

  load_found :
      (g r : ℕ) → find_value (λ h. h == g) av.loads ≡ some r → some (s.globals g) ≡ some (s.regs r)
  load_found g r e =
      let (h, same, p) = find_value-All (HoldsLoad s) (λ h. h == g) av.loads r known.loads e in
      let same_g : h ≡ g = ground (arith, same) in ap some (ap s.globals (sym same_g) ∙ p)

  cse_load-IsSound :
      (g : Option ℕ)
      → exec_inst callee i s ≡ writes (load g s)
      → IsSound (writes (load g s)) (cse_load g i av)
  unfolding cse_load
  cse_load-IsSound none p = plain-IsSound none p
  cse_load-IsSound (some g) p =
      look_up-IsSound (find_value (λ h. h == g) av.loads) (know_load g) _ p (load_found g)
        (λ v e. know_load-Known g i.dst v (cc) (kill_dst-Known i v s is av known))

  cse_store-IsSound :
      (g : Option ℕ)
      → exec_inst callee i s ≡ store g (value s i.a) s
      → IsSound (store g (value s i.a) s) (cse_store g i av)
  unfolding cse_store
  cse_store-IsSound none p = keep-IsSound none _ p (λ t h. absurd (cc))
  cse_store-IsSound (some g) p = keep-IsSound _ _ p λ t h.
      let gs = update s.globals g (value s i.a) in
      let kept = drop_where (λ (k, r). k == g) av.loads in
      let others =
        All-drop_where (HoldsLoad s) (HoldsLoad (record s { globals = gs })) (λ (k, r). k == g)
          av.loads (λ (k, r) n e. rw n e) known.loads in
      subst (λ z. Known z is (kill_val i.a (record av { loads = kept }))) (cc)
        (kill_val-Known i.a (record s { globals = gs }) is (record av { loads = kept })
          (globals-Known s gs is av kept (tail-Known i s is av known) others))

  cse_call-IsSound :
      (o : Option (ℕ × (ℕ → ℕ)))
      → exec_inst callee i s ≡ bind o (λ r. some (after_call i.dst s r))
      → IsSound (bind o (λ r. some (after_call i.dst s r))) (cse_call i av)
  unfolding cse_call
  cse_call-IsSound none p = keep-IsSound none _ p (λ t h. absurd (cc))
  cse_call-IsSound (some (v, gs)) p = keep-IsSound _ _ p λ t h.
      let called : Store = record s { globals = gs } in
      subst (λ z. Known z is (kill_dst i.dst (kill_vals i.args (record av { loads = [] })))) (cc)
        (kill_dst-Known i v called is (kill_vals i.args (record av { loads = [] })) (
          kill_vals-Known i.args called (i ∷ is) (record av { loads = [] })
            (globals-Known s gs (i ∷ is) av [] known tt)))

  computed :
      (op : Op)
      → i.op ≡ op
      → own_dst i.dst i.a i.b is ≡ true
      → exec_inst callee i s ≡ writes (eval_op op (value s i.a) (value s i.b))
      → IsSound (writes (eval_op op (value s i.a) (value s i.b))) (cse_binary i av)
  computed op e h p =
      subst (λ o. IsSound (writes (eval_op o (value s i.a) (value s i.b))) (cse_binary i av)) e
        (cse_binary-IsSound h
          (p ∙ ap (λ o. writes (eval_op o (value s i.a) (value s i.b))) (sym e)))

  pub cse_step-IsSound :
      (op : Op)
      → i.op ≡ op
      → is_temp op i.dst i.a i.b is ≡ true
      → IsSound (exec_op callee op i.dst i.a i.b i.gid i.callee i.args s) (cse_step op i av)
  unfolding cse_step exec_inst exec_op eval_op eval_unary
  cse_step-IsSound Op.load_global e h = cse_load-IsSound i.gid (rw e)
  cse_step-IsSound Op.store_global e h = cse_store-IsSound i.gid (rw e)
  cse_step-IsSound Op.call e h =
      cse_call-IsSound (invoke callee i.callee (values s i.args) s.globals) (rw e)
  cse_step-IsSound Op.neg e h = cse_unary-IsSound Op.neg i.a h (rw e)
  cse_step-IsSound Op.not e h = cse_unary-IsSound Op.not i.a h (rw e)
  cse_step-IsSound Op.mv e h = plain-IsSound (some (value s i.a)) (rw e)
  cse_step-IsSound op e h = computed op e h (rw e)
