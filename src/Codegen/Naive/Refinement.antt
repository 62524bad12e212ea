-- ===== src/Codegen/Naive/Refinement.antt =====
-- The code of an instruction, by its operator.
use mathlib.Core.Option.{some-injective}
use toy_c_cp.Prelude.{
  ℕ, ◌+◌, ◌%◌, ◌<◌, ◌≡◌, ◌≢◌, refl, ap, ◌∙◌, subst, Option, none, some, List, [], ◌∷◌, ◌++◌, arith,
  ◌==◌, if◌then◌else◌, All,
}
use toy_c_cp.Word.{IsWord, word_mod, neg32}
use toy_c_cp.Ast.{FuncRef}
use toy_c_cp.Ir.{Val, Op, Inst}
use toy_c_cp.Ir.Meaning.{
  Store, Callee, value, write, update, bind, eval_op, exec_op, exec_inst, exec_insts,
}
use toy_c_cp.Ir.Meaning.Refine.{bind-eq-some}
use toy_c_cp.Ir.Meaning.Words.{
  IsWordStore, IsWordInst, IsWordCallee, value-IsWord, exec_inst-IsWordStore,
}
use toy_c_cp.Rv.{Instr, x_t0, x_t1, lui_hi, lw_lo, sw_lo}
use toy_c_cp.Rv.Machine.{aligned-some, Machine, Linker, set_x, set_mem, exec_instr, exec_code}
use toy_c_cp.Codegen.Naive.{Frame, slot_off, store_slot, load_val, emit_op, emit_inst, emit_insts}
use toy_c_cp.Codegen.Naive.Simulation

module _ (lk : Linker) (fr : Frame) (nv ng sp : ℕ) (lay : Simulation.IsLayout lk fr nv ng sp) where
  abbrev Simulated : List Instr → Store → Machine → Type 0
  Simulated code s m =
      (o : Machine) × (exec_code lk code m ≡ some o) × Simulation.Holds lk fr nv ng sp s o

  -- The address that the linker gives to %hi and %lo of a global.
  global_aligned : (g : ℕ) → g < ng → (lk.hi g + lk.lo g) % word_mod % 4 ≡ 0
  global_aligned g b = rw (lk.hi_lo g) (lay.globals_aligned g b)

  same_ends :
      (c code : List Instr) (s1 s2 : Store) (m : Machine)
      → Simulated c s1 m
      → some c ≡ some code
      → some s1 ≡ some s2
      → Simulated code s2 m
  same_ends c code s1 s2 m h p q =
      subst (λ x. Simulated x s2 m) (some-injective _ _ p)
        (subst (λ t. Simulated c t m) (some-injective _ _ q) h)

  set_t0-Holds :
      (v : ℕ) (s : Store) (m : Machine)
      → Simulation.Holds lk fr nv ng sp s m
      → Simulation.Holds lk fr nv ng sp s (set_x x_t0 v m)
  set_t0-Holds v s m h = record { sp_same = h.sp_same; slots = h.slots; globals = h.globals }

  -- One instruction on t0 between the load and the store.
  unary-Simulated :
      (i : Instr) (f : ℕ → ℕ) (d : ℕ) (a : Val) (s : Store) (m : Machine)
      → ((n : Machine) → exec_instr lk i n ≡ some (set_x x_t0 (f (n.x x_t0)) n))
      → d < nv
      → Simulation.ValBelow nv a
      → Simulation.Holds lk fr nv ng sp s m
      → Simulated
          (load_val fr a x_t0 ++ i ∷ store_slot fr x_t0 d)
          (write (some d) (f (value s a)) s)
          m
  unfolding exec_code
  unary-Simulated i f d a s m step bd ba h =
      let (m1, e1, l1) =
        Simulation.load_val-Loaded lk fr nv ng sp lay a x_t0 s m ba (omega arith) h in
      let h1 = Simulation.Holds-Loaded lk fr nv ng sp lay x_t0 h l1 (omega arith) in
      let m2 : Machine = set_x x_t0 (f (m1.x x_t0)) m1 in
      let (o, e2, h2) =
        Simulation.through_t0 lk fr nv ng sp lay (i ∷ []) d (f (value s a)) s m1 m2 bd
          (set_t0-Holds _ s m1 h1) (rw (step m1)) (ap f l1.loaded) in
      (
        o,
        Simulation.then_code lk fr nv ng sp lay (load_val fr a x_t0) (i ∷ store_slot fr x_t0 d) m m1
            e1 e2,
        h2,
      )

  mv-Simulated :
      (d : ℕ) (a : Val) (s : Store) (m : Machine)
      → d < nv
      → Simulation.ValBelow nv a
      → Simulation.Holds lk fr nv ng sp s m
      → Simulated (load_val fr a x_t0 ++ store_slot fr x_t0 d) (write (some d) (value s a) s) m
  mv-Simulated d a s m bd ba h =
      let (m1, e1, l1) =
        Simulation.load_val-Loaded lk fr nv ng sp lay a x_t0 s m ba (omega arith) h in
      let h1 = Simulation.Holds-Loaded lk fr nv ng sp lay x_t0 h l1 (omega arith) in
      Simulation.through_t0 lk fr nv ng sp lay (load_val fr a x_t0) d (value s a) s m m1 bd h1 e1
        l1.loaded

  load_global-Simulated :
      (d g : ℕ) (s : Store) (m : Machine)
      → d < nv
      → g < ng
      → Simulation.Holds lk fr nv ng sp s m
      → Simulated
          (lui_hi x_t0 g ∷ lw_lo x_t0 g x_t0 ∷ store_slot fr x_t0 d)
          (write (some d) (s.globals g) s)
          m
  unfolding exec_code exec_instr
  load_global-Simulated d g s m bd bg h =
      let word : ℕ = m.mem ((lk.hi g + lk.lo g) % word_mod) in
      let n : Machine = set_x x_t0 word (set_x x_t0 (lk.hi g) m) in
      let held : word ≡ s.globals g = ap m.mem (lk.hi_lo g) ∙ h.globals g bg in
      Simulation.through_t0 lk fr nv ng sp lay (lui_hi x_t0 g ∷ lw_lo x_t0 g x_t0 ∷ []) d
        (s.globals g) s m n bd
        (set_t0-Holds word s (set_x x_t0 (lk.hi g) m) (set_t0-Holds (lk.hi g) s m h))
        (ap (λ o. bind o some) (aligned-some _ n (global_aligned g bg))) held

  store_global-Simulated :
      (g : ℕ) (a : Val) (s : Store) (m : Machine)
      → Simulation.ValBelow nv a
      → g < ng
      → Simulation.Holds lk fr nv ng sp s m
      → Simulated
          (load_val fr a x_t0 ++ lui_hi x_t1 g ∷ sw_lo x_t0 g x_t1 ∷ [])
          (record s { globals = update s.globals g (value s a) })
          m
  unfolding exec_code exec_instr
  store_global-Simulated g a s m ba bg h =
      let (m1, e1, l1) =
        Simulation.load_val-Loaded lk fr nv ng sp lay a x_t0 s m ba (omega arith) h in
      let h1 = Simulation.Holds-Loaded lk fr nv ng sp lay x_t0 h l1 (omega arith) in
      let o : Machine =
        set_mem ((lk.hi g + lk.lo g) % word_mod) (m1.x x_t0) (set_x x_t1 (lk.hi g) m1) in
      let stored : o.mem ≡ update m1.mem (lk.address g) (value s a) =
        (λ i. update m1.mem (lk.hi_lo g i) (l1.loaded i)) in
      (
        o,
        Simulation.then_code lk fr nv ng sp lay (load_val fr a x_t0)
            (lui_hi x_t1 g ∷ sw_lo x_t0 g x_t1 ∷ []) m m1 e1
            (ap (λ o. bind o some) (aligned-some _ o (global_aligned g bg))),
        record {
          sp_same = h1.sp_same;
          slots = λ v b.
              ap (λ k. k (sp + slot_off fr v)) stored
              ∙ ground (arith, h1.slots v b, lay.apart v g b bg);
          globals = λ k b.
              ap (λ w. w (lk.address k)) stored
              ∙ ground (arith, h1.globals k b, lay.distinct k g b bg);
        },
      )

  exec-neg :
      (n : Machine) → exec_instr lk (Instr.neg x_t0 x_t0) n ≡ some (set_x x_t0 (neg32 (n.x x_t0)) n)
  unfolding exec_instr
  exec-neg n = refl

  exec-seqz :
      (n : Machine)
      → exec_instr lk (Instr.seqz x_t0 x_t0) n
        ≡ some (set_x x_t0 (if n.x x_t0 == 0 then 1 else 0) n)
  unfolding exec_instr
  exec-seqz n = refl

  emit_op-Simulated :
      (callee : Callee) (op : Op) (d : Option ℕ) (a b : Val) (g : Option ℕ) (f : Option FuncRef)
      (args : List Val) (code : List Instr) (s t : Store) (m : Machine)
      → op ≢ Op.call
      → Simulation.OptBelow nv d
      → Simulation.ValBelow nv a
      → Simulation.ValBelow nv b
      → Simulation.OptBelow ng g
      → IsWord (value s a)
      → IsWord (value s b)
      → Simulation.Holds lk fr nv ng sp s m
      → emit_op fr op d a b g f args ≡ some code
      → exec_op callee op d a b g f args s ≡ some t
      → Simulated code t m
  unfolding emit_op exec_op
  emit_op-Simulated callee Op.mv none a b g f args code s t m nc bd ba bb bg wa wb h c e =
      absurd (cc)
  emit_op-Simulated callee Op.mv (some d) a b g f args code s t m nc bd ba bb bg wa wb h c e =
      same_ends _ code _ t m (mv-Simulated d a s m bd ba h) c e
  emit_op-Simulated callee Op.neg none a b g f args code s t m nc bd ba bb bg wa wb h c e =
      absurd (cc)
  emit_op-Simulated callee Op.neg (some d) a b g f args code s t m nc bd ba bb bg wa wb h c e =
      same_ends _ code _ t m
        (unary-Simulated (Instr.neg x_t0 x_t0) neg32 d a s m (λ n. exec-neg n) bd ba h) c e
  emit_op-Simulated callee Op.not none a b g f args code s t m nc bd ba bb bg wa wb h c e =
      absurd (cc)
  emit_op-Simulated callee Op.not (some d) a b g f args code s t m nc bd ba bb bg wa wb h c e =
      same_ends _ code _ t m
        (unary-Simulated (Instr.seqz x_t0 x_t0) (λ x. if x == 0 then 1 else 0) d a s m
          (λ n. exec-seqz n) bd ba h)
        c e
  emit_op-Simulated callee Op.load_global d a b none f args code s t m nc bd ba bb bg wa wb h c e =
      absurd (cc)
  emit_op-Simulated callee Op.load_global none a b (some g) f args code s t m nc bd ba bb bg wa wb h
        c e =
      absurd (cc)
  emit_op-Simulated callee Op.load_global (some d) a b (some g) f args code s t m nc bd ba bb bg wa
        wb h c e =
      same_ends _ code _ t m (load_global-Simulated d g s m bd bg h) c e
  emit_op-Simulated callee Op.store_global d a b none f args code s t m nc bd ba bb bg wa wb h c e =
      absurd (cc)
  emit_op-Simulated callee Op.store_global d a b (some g) f args code s t m nc bd ba bb bg wa wb h c
        e =
      same_ends _ code _ t m (store_global-Simulated g a s m ba bg h) c e
  emit_op-Simulated callee Op.call d a b g f args code s t m nc bd ba bb bg wa wb h c e =
      absurd (nc refl)
  emit_op-Simulated callee op none a b g f args code s t m nc bd ba bb bg wa wb h c e = absurd (cc)
  emit_op-Simulated callee op (some d) a b g f args code s t m nc bd ba bb bg wa wb h c e =
      let (v, ev, e1) =
        bind-eq-some (eval_op op (value s a) (value s b)) (λ v. some (write (some d) v s)) e in
      same_ends _ code _ t m
        (Simulation.emit_binary-Holds lk fr nv ng sp lay op d a b v s m bd ba bb wa wb h ev) c e1

  emit_inst-Simulated :
      (callee : Callee) (i : Inst) (code : List Instr) (s t : Store) (m : Machine)
      → i.op ≢ Op.call
      → Simulation.IsInRange nv ng i
      → IsWordStore s
      → IsWordInst i
      → Simulation.Holds lk fr nv ng sp s m
      → emit_inst fr i ≡ some code
      → exec_inst callee i s ≡ some t
      → Simulated code t m
  unfolding emit_inst exec_inst
  emit_inst-Simulated callee i code s t m nc r ws wi h c e =
      emit_op-Simulated callee i.op i.dst i.a i.b i.gid i.callee i.args code s t m nc r.dst_below
        r.a_below r.b_below r.gid_below (value-IsWord s i.a ws wi.a_fits)
        (value-IsWord s i.b ws wi.b_fits) h c e

  emit_insts-Simulated :
      (callee : Callee) (is : List Inst) (code : List Instr) (s t : Store) (m : Machine)
      → IsWordCallee callee
      → All (λ i. (i.op ≢ Op.call) × Simulation.IsInRange nv ng i × IsWordInst i) is
      → IsWordStore s
      → Simulation.Holds lk fr nv ng sp s m
      → emit_insts fr is ≡ some code
      → exec_insts callee is s ≡ some t
      → Simulated code t m
  unfolding emit_insts exec_insts exec_code
  emit_insts-Simulated callee [] code s t m fits ok ws h c e =
      same_ends [] code s t m (m, refl, h) c e
  emit_insts-Simulated callee (i ∷ is) code s t m fits ok ws h c e =
      let (c1, p1, q1) =
        bind-eq-some (emit_inst fr i) (λ k. bind (emit_insts fr is) (λ ks. some (k ++ ks))) c in
      let (c2, p2, q2) = bind-eq-some (emit_insts fr is) (λ ks. some (c1 ++ ks)) q1 in
      let (u, eu, e1) = bind-eq-some (exec_inst callee i s) (exec_insts callee is) e in
      let (n, en, hn) = emit_inst-Simulated callee i c1 s u m ok.0.0 ok.0.1 ws ok.0.2 h p1 eu in
      let wu = exec_inst-IsWordStore callee fits i s u ws ok.0.2 eu in
      let (o, eo, ho) = emit_insts-Simulated callee is c2 u t n fits ok.1 wu hn p2 e1 in
      same_ends (c1 ++ c2) code t t m
        (o, Simulation.then_code lk fr nv ng sp lay c1 c2 m n en eo, ho) q2 refl

-- The naive back end refines the representation on instructions other than calls: from a machine whose
-- frame slots and globals hold a store of words, the emitted code runs to a machine that holds the
-- store after the instructions, whenever they have a result (no division by zero). The layout must be aligned and fit
-- in memory with the globals apart from the slots and from each other, and registers and globals must
-- be in range.
pub emit_insts-refines :
    (callee : Callee) (lk : Linker) (fr : Frame) (nv ng sp : ℕ) (is : List Inst) (code : List Instr)
    (s t : Store) (m : Machine)
    → Simulation.IsLayout lk fr nv ng sp
    → IsWordCallee callee
    → All (λ i. (i.op ≢ Op.call) × Simulation.IsInRange nv ng i × IsWordInst i) is
    → IsWordStore s
    → Simulation.Holds lk fr nv ng sp s m
    → emit_insts fr is ≡ some code
    → exec_insts callee is s ≡ some t
    → (n : Machine) × (exec_code lk code m ≡ some n) × Simulation.Holds lk fr nv ng sp t n
emit_insts-refines callee lk fr nv ng sp is code s t m lay fits ok ws h c e =
    emit_insts-Simulated lk fr nv ng sp lay callee is code s t m fits ok ws h c e
