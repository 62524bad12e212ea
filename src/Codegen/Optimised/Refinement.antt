-- ===== src/Codegen/Optimised/Refinement.antt =====
-- The code of a list of instructions on the places of an allocation.
use mathlib.Core.Option.{some-injective}
use toy_c_cp.Prelude.{
  ℕ, ◌+◌, ◌%◌, ◌<◌, ◌≡◌, ◌≢◌, refl, sym, ap, ◌∙◌, subst, Bool, Option, none, some, List, [], ◌∷◌,
  ◌++◌, arith, ◌⊎◌, inl, inr,
}
use toy_c_cp.Word.{IsWord, word_mod}
use toy_c_cp.Ast.{FuncRef}
use toy_c_cp.Ir.{Val, reg, Op}
use toy_c_cp.Ir.Meaning.{Store, Callee, value, update, exec_op}
use toy_c_cp.Ir.Meaning.Refine.{bind-eq-some}
use toy_c_cp.Rv.{Instr, scratch0, scratch1, lui_hi, sw_lo}
use toy_c_cp.Ir.Meaning.{bind}
use toy_c_cp.Rv.Machine.{aligned-some, Machine, Linker, set_x, set_mem, exec_instr, exec_code}
use toy_c_cp.Codegen.Naive.Simulation.{OptBelow}
use toy_c_cp.Codegen.Optimised.Access.{Context, to_reg}
use toy_c_cp.Codegen.Optimised.Computed.{set_scratch1-Unchanged, then_code}
use toy_c_cp.Codegen.Optimised.Frame.{Touched-Unchanged}
use toy_c_cp.Codegen.Optimised.Holds.{
  IsLayout, Holds, ValIn, Apart, Survives, Holds-Unchanged, to_reg-Got,
}
use toy_c_cp.Codegen.Optimised.Write.{write_back-Ends}
use toy_c_cp.Codegen.Optimised.Inst.{emit_op}
use toy_c_cp.Codegen.Optimised.Operate.{not_scratch1}
use toy_c_cp.Codegen.Optimised.Binary.{NoMagic}
use toy_c_cp.Codegen.Optimised.Step.{ReadsIn, Writes, emit_op-Writes}

-- What the allocation owes an instruction: a virtual register that is read behind it is read before it
-- or is its destination, and has no place in common with the destination unless it is copied there.
abbrev pub Keeps : Context → Op → Val → Option ℕ → (ℕ → Type 0) → (ℕ → Type 0) → Type 0
Keeps c op a none before behind = (v : ℕ) → behind v → before v
Keeps c op a (some d) before behind =
    (v : ℕ) → behind v → v ≢ d → before v × (Apart c d v ⊎ ((op ≡ Op.mv) × (a ≡ reg v)))

Keeps-Survives :
    (c : Context) (op : Op) (a : Val) (d w : ℕ) (before behind : ℕ → Type 0) (s : Store)
    → Keeps c op a (some d) before behind
    → (op ≡ Op.mv → value s a ≡ w)
    → Survives c before behind s d w
Keeps-Survives c op a d w before behind s k mv v l ne = (
  (k v l ne).0,
  elim (k v l ne).1 [
    | inl apart ↦ inl apart
    | inr (is_mv, src) ↦ inr (ap (value s) (sym src) ∙ mv is_mv)
  ],
)

-- Only a call and a store do without a destination.
no_destination :
    (c : Context) (op : Op) (a b : Val) (g : Option ℕ) (f : Option FuncRef) (args : List Val)
    (hint : Option ℕ) (unsigned : Bool) (code : List Instr)
    → op ≢ Op.call
    → op ≢ Op.store_global
    → emit_op c none op none a b g f args hint unsigned ≢ some code
unfolding emit_op
no_destination c Op.call a b g f args hint unsigned code nc ns e = nc refl
no_destination c Op.store_global a b g f args hint unsigned code nc ns e = ns refl
no_destination c Op.load_global a b none f args hint unsigned code nc ns e = cc
no_destination c Op.load_global a b (some n) f args hint unsigned code nc ns e = cc
no_destination c op a b g f args hint unsigned code nc ns e = cc

set_other : (k q v : ℕ) (n : Machine) → q ≢ k → (set_x k v n).x q ≡ n.x q
set_other k q v n ne = ground arith

module _ (lk : Linker) (c : Context) (ng sp : ℕ) (lay : IsLayout lk c ng sp) where
  abbrev pub Simulated : (ℕ → Type 0) → List Instr → Store → Machine → Type 0
  Simulated behind code t m =
      (o : Machine) × (exec_code lk code m ≡ some o) × Holds lk c ng sp behind t o

  Writes-Simulated :
      (op : Op) (a : Val) (d : ℕ) (before behind : ℕ → Type 0) (s t : Store) (m : Machine)
      (out : List Instr) (h : Holds lk c ng sp before s m)
      → Keeps c op a (some d) before behind
      → Writes lk c ng sp lay before s none tt d m h op a t out
      → Simulated behind out t m
  Writes-Simulated op a d before behind s t m out h k (w, e, mv, wk) =
      let surv = Keeps-Survives c op a d w before behind s k mv in
      let (o, p, ho) =
        write_back-Ends lk c ng sp lay before behind s d w surv wk.ready wk.done wk.holds wk.ks
          wk.computed wk.back in
      (o, wk.runs ∙ p, subst (λ t'. Holds lk c ng sp behind t' o) (sym e) ho)

  store_global-Simulated :
      (g : ℕ) (a : Val) (before behind : ℕ → Type 0) (s : Store) (m : Machine) (r : ℕ)
      (is : List Instr)
      → ((v : ℕ) → behind v → before v)
      → ValIn before a
      → g < ng
      → Holds lk c ng sp before s m
      → to_reg c a scratch0 ≡ some (r, is)
      → Simulated behind
          (is ++ lui_hi scratch1 g ∷ sw_lo r g scratch1 ∷ [])
          (record s { globals = update s.globals g (value s a) })
          m
  unfolding exec_code exec_instr
  store_global-Simulated g a before behind s m r is keep la bg h e =
      let (n, p, val, t, place) = to_reg-Got lk c ng sp lay a scratch0 (r, is) refl la h e in
      let h1 = Holds-Unchanged lk c ng sp lay scratch0 refl h (Touched-Unchanged t) in
      let n1 : Machine = set_x scratch1 (lk.hi g) n in
      let h2 =
        Holds-Unchanged lk c ng sp lay scratch1 refl h1
          (set_scratch1-Unchanged scratch1 (lk.hi g) n) in
      let kept : n1.x r ≡ value s a =
        set_other scratch1 r (lk.hi g) n (not_scratch1 r place) ∙ val in
      let o : Machine = set_mem ((lk.hi g + lk.lo g) % word_mod) (n1.x r) n1 in
      let stored : o.mem ≡ update n.mem (lk.address g) (value s a) =
        (λ i. update n.mem (lk.hi_lo g i) (kept i)) in
      (
        o,
        then_code lk is _ m n p
            (ap (λ o. bind o some) (aligned-some _ o (rw (lk.hi_lo g) (lay.globals_aligned g bg)))),
        record {
          sp_same = h2.sp_same;
          zero_same = h2.zero_same;
          in_reg = λ v q l ev. h2.in_reg v q (keep v l) ev;
          in_slot = λ v off l ev f.
              ap (λ k. k (sp + off)) stored
              ∙ ground (arith, h1.in_slot v off (keep v l) ev f, lay.apart v off g f bg);
          globals = λ k b.
              ap (λ w. w (lk.address k)) stored
              ∙ ground (arith, h1.globals k b, lay.distinct k g b bg);
        },
      )

  emit_op-Simulated :
      (callee : Callee) (op : Op) (d : Option ℕ) (a b : Val) (g : Option ℕ) (f : Option FuncRef)
      (args : List Val) (hint : Option ℕ) (unsigned : Bool) (before behind : ℕ → Type 0)
      (s t : Store) (m : Machine) (code : List Instr)
      → op ≢ Op.call
      → op ≢ Op.store_global
      → Keeps c op a d before behind
      → ReadsIn before op a b
      → OptBelow ng g
      → IsWord (value s a)
      → IsWord (value s b)
      → NoMagic c op b
      → Holds lk c ng sp before s m
      → emit_op c none op d a b g f args hint unsigned ≡ some code
      → exec_op callee op d a b g f args s ≡ some t
      → Simulated behind code t m
  emit_op-Simulated callee op (some d) a b g f args hint unsigned before behind s t m code nc ns k
        rd bg wa wb nm h e x =
      Writes-Simulated op a d before behind s t m code h k (
        emit_op-Writes lk c ng sp lay before s none tt d m h callee op a b g f args hint unsigned
          code t nc ns rd bg wa wb nm e x)
  emit_op-Simulated callee op none a b g f args hint unsigned before behind s t m code nc ns k rd bg
        wa wb nm h e x =
      absurd (no_destination c op a b g f args hint unsigned code nc ns e)

  store-Simulated :
      (callee : Callee) (d : Option ℕ) (a b : Val) (g : Option ℕ) (f : Option FuncRef)
      (args : List Val) (hint : Option ℕ) (unsigned : Bool) (before behind : ℕ → Type 0)
      (s t : Store) (m : Machine) (code : List Instr)
      → Keeps c Op.store_global a d before behind
      → d ≡ none
      → ValIn before a
      → OptBelow ng g
      → Holds lk c ng sp before s m
      → emit_op c none Op.store_global d a b g f args hint unsigned ≡ some code
      → exec_op callee Op.store_global d a b g f args s ≡ some t
      → Simulated behind code t m
  unfolding emit_op exec_op
  store-Simulated callee d a b none f args hint unsigned before behind s t m code k nd la bg h e x =
      absurd (cc)
  store-Simulated callee d a b (some g) f args hint unsigned before behind s t m code k nd la bg h e
        x =
      let ((r, is), e1, q1) = bind-eq-some (to_reg c a scratch0) _ e in
      let keep = subst (λ o. Keeps c Op.store_global a o before behind) nd k in
      let (o, p, ho) = store_global-Simulated g a before behind s m r is keep la bg h e1 in
      (
        o,
        ap (λ is'. exec_code lk is' m) (sym (some-injective _ _ q1)) ∙ p,
        subst (λ t'. Holds lk c ng sp behind t' o) (some-injective _ _ x) ho,
      )

  pub any-Simulated :
      (callee : Callee) (op : Op) (d : Option ℕ) (a b : Val) (g : Option ℕ) (f : Option FuncRef)
      (args : List Val) (hint : Option ℕ) (unsigned : Bool) (before behind : ℕ → Type 0)
      (s t : Store) (m : Machine) (code : List Instr)
      → op ≢ Op.call
      → (op ≡ Op.store_global → d ≡ none)
      → Keeps c op a d before behind
      → ReadsIn before op a b
      → OptBelow ng g
      → IsWord (value s a)
      → IsWord (value s b)
      → NoMagic c op b
      → Holds lk c ng sp before s m
      → emit_op c none op d a b g f args hint unsigned ≡ some code
      → exec_op callee op d a b g f args s ≡ some t
      → Simulated behind code t m
  any-Simulated callee Op.store_global d a b g f args hint unsigned before behind s t m code nc nd k
        rd bg wa wb nm h e x =
      store-Simulated callee d a b g f args hint unsigned before behind s t m code k (nd refl) rd bg
        h e x
  any-Simulated callee op d a b g f args hint unsigned before behind s t m code nc nd k rd bg wa wb
        nm h e x =
      emit_op-Simulated callee op d a b g f args hint unsigned before behind s t m code nc
        (λ q. absurd (cc)) k rd bg wa wb nm h e x
