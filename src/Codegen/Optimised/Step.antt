-- ===== src/Codegen/Optimised/Step.antt =====
-- The code of an instruction other than a call does on the places of the allocation what the
-- instruction does on virtual registers.
use mathlib.Core.Option.{some-injective}
use toy_c_cp.Prelude.{
  ℕ, ◌+◌, ◌%◌, ◌<◌, ◌≡◌, ◌≢◌, refl, sym, ap, ◌∙◌, subst, Bool, Option, none, some, List, [], ◌∷◌,
  ◌++◌, ◌==◌, if◌then◌else◌,
}
use toy_c_cp.Word.{IsWord, word_mod, neg32}
use toy_c_cp.Ast.{FuncRef}
use toy_c_cp.Ir.{Val, Op}
use toy_c_cp.Ir.Meaning.{Store, Callee, value, write, eval_op, exec_op}
use toy_c_cp.Ir.Meaning.Refine.{bind-eq-some}
use toy_c_cp.Rv.{Instr, x_zero, lui_hi, lw_lo, seqz}
use toy_c_cp.Ir.Meaning.{bind}
use toy_c_cp.Rv.Machine.{aligned-some, Machine, Linker, set_x, exec_instr, exec_code}
use toy_c_cp.Codegen.Naive.Simulation.{OptBelow}
use toy_c_cp.Codegen.Optimised.Access.{Context, materialize, write_back, on_one}
use toy_c_cp.Codegen.Optimised.Computed.{Computes, Unchanged-self, set_x-Unchanged, set_x-Computed}
use toy_c_cp.Codegen.Optimised.Holds.{IsLayout, Holds, ValIn, materialize-Computes}
use toy_c_cp.Codegen.Optimised.Inst.{emit_op}
use toy_c_cp.Codegen.Optimised.Operate.{
  NonZero, Worked, instr-Operates, on_one-Worked, skip, target, target-nonzero,
}
use toy_c_cp.Codegen.Optimised.Binary.{NoMagic, emit_binary-Works}

-- The operands that the operator reads are in the set.
abbrev pub ReadsIn : (ℕ → Type 0) → Op → Val → Val → Type 0
ReadsIn live Op.mv a b = ValIn live a
ReadsIn live Op.neg a b = ValIn live a
ReadsIn live Op.not a b = ValIn live a
ReadsIn live Op.store_global a b = ValIn live a
ReadsIn live Op.load_global a b = Unit
ReadsIn live Op.call a b = Unit
ReadsIn live op a b = ValIn live a × ValIn live b

eval_op-not_mv : (op : Op) (x y w : ℕ) → eval_op op x y ≡ some w → op ≢ Op.mv
unfolding eval_op
eval_op-not_mv op x y w e q =
    let e' : eval_op Op.mv x y ≡ some w = subst (λ o. eval_op o x y ≡ some w) q e in absurd (cc)

module _ (lk : Linker) (c : Context) (ng sp : ℕ) (lay : IsLayout lk c ng sp) (live : ℕ → Type 0)
    (s : Store) (over : Option ℕ) (nz : NonZero over) (d : ℕ) (m : Machine)
    (h : Holds lk c ng sp live s m) where
  -- The code works out the value that the instruction writes; a move writes its operand.
  abbrev pub Writes : Op → Val → Store → List Instr → Type 0
  Writes op a t out =
      (w : ℕ) × (t ≡ write (some d) w s)
      × (op ≡ Op.mv → value s a ≡ w)
      × Worked lk c ng sp lay live s over nz d w m out

  -- Code that works from the machine as it is, and what writeBack puts out.
  direct :
      (w : ℕ) (is ks out : List Instr)
      → Computes lk is (target lk c ng sp lay live s over nz d) w m
      → write_back c over d (target lk c ng sp lay live s over nz d) ≡ some ks
      → some (is ++ ks) ≡ some out
      → Worked lk c ng sp lay live s over nz d w m out
  direct w is ks out (n, p, k) b e = record {
    ks = ks;
    ready = m;
    done = n;
    runs =
        ap (λ o. exec_code lk o m) (sym (some-injective _ _ e))
        ∙ skip lk c ng sp lay live s over nz d is ks m n p;
    holds = h;
    computed = k;
    back = b;
  }

  unary-Writes :
      (op : Op) (v : Val) (i : ℕ → ℕ → Instr) (f : ℕ → ℕ) (t : Store) (out : List Instr)
      → ((rd ra : ℕ) (n : Machine) → exec_instr lk (i rd ra) n ≡ some (set_x rd (f (n.x ra)) n))
      → ValIn live v
      → some (write (some d) (f (value s v)) s) ≡ some t
      → on_one c over d v (λ rd ra. some (i rd ra ∷ [])) ≡ some out
      → op ≢ Op.mv
      → Writes op v t out
  unary-Writes op v i f t out step lv p e not_mv = (
    f (value s v),
    sym (some-injective _ _ p),
    λ q. absurd (not_mv q),
    on_one-Worked lk c ng sp lay live s over nz d v (λ rd ra. some (i rd ra ∷ [])) (f (value s v)) m
        out lv h (instr-Operates lk c ng sp lay live s over nz d v (f (value s v)) i f step refl) e,
  )

  load_global-Computes :
      (g rd : ℕ)
      → rd ≢ x_zero
      → g < ng
      → Computes lk (lui_hi rd g ∷ lw_lo rd g rd ∷ []) rd (s.globals g) m
  unfolding exec_code exec_instr
  load_global-Computes g rd nzd bg =
      let n : Machine = set_x rd (lk.hi g) m in
      let hi : n.x rd ≡ lk.hi g =
        (set_x-Computed rd (lk.hi g) _ m m nzd refl (Unchanged-self rd m)).result in
      (
        _,
        ap (λ o. bind o some)
            (aligned-some _ _ (rw hi (rw (lk.hi_lo g) (lay.globals_aligned g bg)))),
        set_x-Computed rd _ (s.globals g) m n nzd
            (ap n.mem (ap (λ x. (x + lk.lo g) % word_mod) hi)
              ∙ ap (λ f. f ((lk.hi g + lk.lo g) % word_mod))
                  (set_x-Unchanged rd (lk.hi g) m).same_mem
              ∙ ap m.mem (lk.hi_lo g)
              ∙ h.globals g bg)
            (set_x-Unchanged rd (lk.hi g) m),
      )

  -- An instruction with a destination, but a call.
  pub emit_op-Writes :
      (callee : Callee) (op : Op) (a b : Val) (g : Option ℕ) (f : Option FuncRef) (args : List Val)
      (hint : Option ℕ) (unsigned : Bool) (out : List Instr) (t : Store)
      → op ≢ Op.call
      → op ≢ Op.store_global
      → ReadsIn live op a b
      → OptBelow ng g
      → IsWord (value s a)
      → IsWord (value s b)
      → NoMagic c op b
      → emit_op c over op (some d) a b g f args hint unsigned ≡ some out
      → exec_op callee op (some d) a b g f args s ≡ some t
      → Writes op a t out
  unfolding emit_op exec_op exec_instr
  emit_op-Writes callee Op.mv a b g f args hint unsigned out t nc ns rd bg wa wb nm e x =
      let tgt = target lk c ng sp lay live s over nz d in
      let (is, e1, q1) = bind-eq-some (materialize c a tgt) _ e in
      let (ks, e2, q2) = bind-eq-some (write_back c over d tgt) _ q1 in
      (
        value s a,
        sym (some-injective _ _ x),
        λ q. refl,
        direct (value s a) is ks out
            (materialize-Computes lk c ng sp lay a tgt is
              (target-nonzero lk c ng sp lay live s over nz d over nz) rd h e1)
            e2 q2,
      )
  emit_op-Writes callee Op.neg a b g f args hint unsigned out t nc ns rd bg wa wb nm e x =
      unary-Writes Op.neg a Instr.neg neg32 t out (λ r q n. refl) rd x e (λ q. absurd (cc))
  emit_op-Writes callee Op.not a b g f args hint unsigned out t nc ns rd bg wa wb nm e x =
      unary-Writes Op.not a seqz (λ v. if v == 0 then 1 else 0) t out (λ r q n. refl) rd x e
        (λ q. absurd (cc))
  emit_op-Writes callee Op.load_global a b none f args hint unsigned out t nc ns rd bg wa wb nm e
        x =
      absurd (cc)
  emit_op-Writes callee Op.load_global a b (some g) f args hint unsigned out t nc ns rd bg wa wb nm
        e x =
      let tgt = target lk c ng sp lay live s over nz d in
      let (ks, e1, q1) = bind-eq-some (write_back c over d tgt) _ e in
      (
        s.globals g,
        sym (some-injective _ _ x),
        λ q. absurd (cc),
        direct (s.globals g) (lui_hi tgt g ∷ lw_lo tgt g tgt ∷ []) ks out
            (load_global-Computes g tgt (target-nonzero lk c ng sp lay live s over nz d over nz) bg)
            e1 q1,
      )
  emit_op-Writes callee Op.store_global a b g f args hint unsigned out t nc ns rd bg wa wb nm e x =
      absurd (ns refl)
  emit_op-Writes callee Op.call a b g f args hint unsigned out t nc ns rd bg wa wb nm e x =
      absurd (nc refl)
  emit_op-Writes callee op a b g f args hint unsigned out t nc ns rd bg wa wb nm e x =
      let (w, ev, e1) = bind-eq-some (eval_op op (value s a) (value s b)) _ x in
      (
        w,
        sym (some-injective _ _ e1),
        λ q. absurd (eval_op-not_mv op (value s a) (value s b) w ev q),
        emit_binary-Works lk c ng sp lay live s over nz d a b rd.0 rd.1 wa wb m h w op hint unsigned
            nm ev out e,
      )
