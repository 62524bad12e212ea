-- ===== src/Codegen/Naive/Simulation.antt =====
-- Each instruction's code does on the machine what the instruction does on virtual registers.
use toy_c_cp.Prelude.{
  ℕ, ◌+◌, ◌%◌, ◌<◌, ◌≡◌, ◌≢◌, refl, sym, ◌∙◌, subst, Option, none, some, List, ◌++◌, arith,
}
use toy_c_cp.Word.{IsWord, word_mod}
use toy_c_cp.Ir.{Val, imm, reg, Op, Inst}
use toy_c_cp.Ir.Meaning.{Store, value, write, update, eval_op}
use toy_c_cp.Rv.{Instr, x_sp, x_t0, x_t1, x_t6, x_zero}
use toy_c_cp.Rv.Machine.{Machine, Linker, set_x, exec_instr, exec_code, exec_code-append}
use toy_c_cp.Codegen.Naive.{Frame, slot_off, load_slot, store_slot, load_val, alu, emit_binary}
use toy_c_cp.Codegen.Naive.Access.{Loaded, load_off-Loaded, store_off-Stored}
use toy_c_cp.Codegen.Naive.Alu.{alu-Loaded}

-- The frame and the globals are aligned to words, the slots lie in memory without wrapping, and the
-- globals lie elsewhere, each at its own address.
pub record IsLayout (lk : Linker) (fr : Frame) (num_vregs num_globals sp : ℕ) : Type 0 where
  pub sp_aligned : sp % 4 ≡ 0
  pub area_aligned : fr.out_arg_area % 4 ≡ 0
  pub globals_aligned : (g : ℕ) → g < num_globals → lk.address g % 4 ≡ 0
  pub slots_fit : (v : ℕ) → v < num_vregs → sp + slot_off fr v < word_mod
  pub apart : (v g : ℕ) → v < num_vregs → g < num_globals → lk.address g ≢ sp + slot_off fr v
  pub distinct : (g h : ℕ) → g < num_globals → h < num_globals → lk.address g ≡ lk.address h → g ≡ h

-- The machine holds the store: the virtual registers in their slots, the globals at their addresses.
pub record Holds (lk : Linker) (fr : Frame) (num_vregs num_globals sp : ℕ) (s : Store) (m : Machine)
    : Type 0 where
  pub sp_same : m.x x_sp ≡ sp
  pub slots : (v : ℕ) → v < num_vregs → m.mem (sp + slot_off fr v) ≡ s.regs v
  pub globals : (g : ℕ) → g < num_globals → m.mem (lk.address g) ≡ s.globals g

abbrev pub OptBelow : ℕ → Option ℕ → Type 0
OptBelow n none = Unit
OptBelow n (some k) = k < n

abbrev pub ValBelow : ℕ → Val → Type 0
ValBelow n (imm _) = Unit
ValBelow n (reg r) = r < n

-- The registers and the global of the instruction exist.
pub record IsInRange (num_vregs num_globals : ℕ) (i : Inst) : Type 0 where
  pub dst_below : OptBelow num_vregs i.dst
  pub a_below : ValBelow num_vregs i.a
  pub b_below : ValBelow num_vregs i.b
  pub gid_below : OptBelow num_globals i.gid

module _ (lk : Linker) (fr : Frame) (nv ng sp : ℕ) (lay : IsLayout lk fr nv ng sp) where
  slot_aligned : (v : ℕ) → (sp + slot_off fr v) % 4 ≡ 0
  unfolding slot_off
  slot_aligned v = omega (arith, lay.sp_aligned, lay.area_aligned)

  pub then_code :
      (is js : List Instr) (m n : Machine) {o : Machine}
      → exec_code lk is m ≡ some n
      → exec_code lk js n ≡ some o
      → exec_code lk (is ++ js) m ≡ some o
  then_code is js m n p q = exec_code-append lk is js m ∙ (rw p q)

  pub Holds-Loaded :
      {s : Store} {m n : Machine} (r : ℕ) {v : ℕ}
      → Holds lk fr nv ng sp s m
      → Loaded r v m n
      → r ≢ x_sp
      → Holds lk fr nv ng sp s n
  Holds-Loaded r h l ne = record {
    sp_same = l.same_x x_sp (λ e. ne (sym e)) (omega arith) ∙ h.sp_same;
    slots = λ v b. rw l.same_mem (h.slots v b);
    globals = λ g b. rw l.same_mem (h.globals g b);
  }

  pub load_val-Loaded :
      (v : Val) (r : ℕ) (s : Store) (m : Machine)
      → ValBelow nv v
      → r ≢ x_zero
      → Holds lk fr nv ng sp s m
      → (n : Machine) × (exec_code lk (load_val fr v r) m ≡ some n) × Loaded r (value s v) m n
  unfolding load_val load_slot exec_code exec_instr
  load_val-Loaded (imm k) r s m b nz h = (
    set_x r k m,
    refl,
    record { loaded = ground arith; same_mem = ground arith; same_x = λ q n n6. ground arith },
  )
  load_val-Loaded (reg k) r s m b nz h =
      let fit : m.x x_sp + slot_off fr k < word_mod = rw h.sp_same (lay.slots_fit k b) in
      let (n, e, l) =
        load_off-Loaded lk r (slot_off fr k) m nz fit (rw h.sp_same (slot_aligned k)) in
      let v : m.mem (m.x x_sp + slot_off fr k) ≡ s.regs k = rw h.sp_same (h.slots k b) in
      (n, e, subst (λ w. Loaded r w m n) v l)

  pub store_slot-Holds :
      (r d : ℕ) (s : Store) (m : Machine) (v : ℕ)
      → d < nv
      → r ≢ x_t6
      → m.x r ≡ v
      → Holds lk fr nv ng sp s m
      → (n : Machine) × (exec_code lk (store_slot fr r d) m ≡ some n)
        × Holds lk fr nv ng sp (write (some d) v s) n
  unfolding store_slot slot_off
  store_slot-Holds r d s m v b n6 e h =
      let fit : m.x x_sp + slot_off fr d < word_mod = rw h.sp_same (lay.slots_fit d b) in
      let (n, p, st) =
        store_off-Stored lk r (slot_off fr d) m n6 fit (rw h.sp_same (slot_aligned d)) in
      let stored : n.mem ≡ update m.mem (sp + slot_off fr d) v =
        st.stored ∙ (λ i. update m.mem (h.sp_same i + slot_off fr d) (e i)) in
      (
        n,
        p,
        record {
          sp_same = st.same_x x_sp (omega arith) ∙ h.sp_same;
          slots = λ w bw. rw stored (ground (arith, h.slots w bw));
          globals = λ g bg. rw stored (ground (arith, h.globals g bg, lay.apart d g b bg));
        },
      )

  -- Code that leaves `v` in t0, then a store to the destination's slot.
  pub through_t0 :
      (is : List Instr) (d : ℕ) (v : ℕ) (s : Store) (m n : Machine)
      → d < nv
      → Holds lk fr nv ng sp s n
      → exec_code lk is m ≡ some n
      → n.x x_t0 ≡ v
      → (o : Machine) × (exec_code lk (is ++ store_slot fr x_t0 d) m ≡ some o)
        × Holds lk fr nv ng sp (write (some d) v s) o
  through_t0 is d v s m n b h p e =
      let (o, q, k) = store_slot-Holds x_t0 d s n v b (omega arith) e h in
      (o, then_code is (store_slot fr x_t0 d) m n p q, k)

  pub emit_binary-Holds :
      (op : Op) (d : ℕ) (a b : Val) (v : ℕ) (s : Store) (m : Machine)
      → d < nv
      → ValBelow nv a
      → ValBelow nv b
      → IsWord (value s a)
      → IsWord (value s b)
      → Holds lk fr nv ng sp s m
      → eval_op op (value s a) (value s b) ≡ some v
      → (o : Machine) × (exec_code lk (emit_binary fr op d a b) m ≡ some o)
        × Holds lk fr nv ng sp (write (some d) v s) o
  unfolding emit_binary
  emit_binary-Holds op d a b v s m bd ba bb wa wb h e =
      let (m1, e1, l1) = load_val-Loaded a x_t0 s m ba (omega arith) h in
      let h1 = Holds-Loaded x_t0 h l1 (omega arith) in
      let (m2, e2, l2) = load_val-Loaded b x_t1 s m1 bb (omega arith) h1 in
      let h2 = Holds-Loaded x_t1 h1 l2 (omega arith) in
      let t0 : m2.x x_t0 ≡ value s a = l2.same_x x_t0 (omega arith) (omega arith) ∙ l1.loaded in
      let e' : eval_op op (m2.x x_t0) (m2.x x_t1) ≡ some v = rw (t0, l2.loaded) e in
      let (m3, e3, l3) = alu-Loaded lk m2 op v (rw t0 wa) (rw l2.loaded wb) e' in
      let h3 = Holds-Loaded x_t0 h2 l3 (omega arith) in
      let (m4, e4, h4) = store_slot-Holds x_t0 d s m3 v bd (omega arith) l3.loaded h3 in
      (
        m4,
        then_code (load_val fr a x_t0) _ m m1 e1 (
            then_code (load_val fr b x_t1) _ m1 m2 e2
              (then_code (alu op) (store_slot fr x_t0 d) m2 m3 e3 e4)),
        h4,
      )
