-- ===== src/Ir/Meaning/Words.antt =====
-- Stores of 32-bit words stay so: every operator gives a word.
use toy_c_cp.Prelude.{ℕ, ◌≡◌, Option, none, some, List, [], ◌∷◌, arith, All}
use mathlib.Core.Path.{subst}
use mathlib.Core.Option.{some-injective}
use toy_c_cp.Word.{IsWord, add32, sub32, mul32, neg32}
use toy_c_cp.Word.Laws.{sdiv-lt, srem-lt}
use toy_c_cp.Ast.{FuncRef}
use toy_c_cp.Ir.{Val, imm, reg, Op, Inst}
use toy_c_cp.Ir.Meaning.{
  Store, Callee, update, value, values, write, eval_op, bind, after_call, exec_op, exec_inst,
}
use toy_c_cp.Ir.Meaning.Refine.{bind-eq-some}

pub record IsWordStore (s : Store) : Type 0 where
  pub regs_fit : (r : ℕ) → IsWord (s.regs r)
  pub globals_fit : (g : ℕ) → IsWord (s.globals g)

abbrev pub IsWordVal : Val → Type 0
IsWordVal (imm n) = IsWord n
IsWordVal (reg r) = Unit

pub record IsWordInst (i : Inst) : Type 0 where
  pub a_fits : IsWordVal i.a
  pub b_fits : IsWordVal i.b
  pub args_fit : All IsWordVal i.args

-- Callees give words for words.
abbrev pub IsWordCallee : Callee → Type 0
IsWordCallee c =
    (f : FuncRef) (vs : List ℕ) (gs : ℕ → ℕ)
    → All IsWord vs
    → ((g : ℕ) → IsWord (gs g))
    → (v : ℕ) (gs' : ℕ → ℕ) → c f vs gs ≡ some (v, gs')
    → IsWord v × ((g : ℕ) → IsWord (gs' g))

pub value-IsWord : (s : Store) (v : Val) → IsWordStore s → IsWordVal v → IsWord (value s v)
value-IsWord s (imm n) h w = w
value-IsWord s (reg r) h w = h.regs_fit r

values-IsWord :
    (s : Store) (vs : List Val) → IsWordStore s → All IsWordVal vs → All IsWord (values s vs)
values-IsWord s [] h w = tt
values-IsWord s (v ∷ vs) h w = (value-IsWord s v h w.0, values-IsWord s vs h w.1)

update-IsWord :
    (f : ℕ → ℕ) (k v : ℕ) → ((x : ℕ) → IsWord (f x)) → IsWord v → (x : ℕ) → IsWord (update f k v x)
update-IsWord f k v h w x = ground (arith, h x)

write-IsWordStore :
    (d : Option ℕ) (v : ℕ) (s : Store) → IsWordStore s → IsWord v → IsWordStore (write d v s)
write-IsWordStore none v s h w = h
write-IsWordStore (some d) v s h w = record {
  regs_fit = update-IsWord s.regs d v h.regs_fit w;
  globals_fit = h.globals_fit;
}

eval_op-IsWord :
    (op : Op) (a b : ℕ) → IsWord a → IsWord b → (v : ℕ) → eval_op op a b ≡ some v → IsWord v
unfolding eval_op add32 sub32 mul32
eval_op-IsWord Op.add a b ha hb v e = ground arith
eval_op-IsWord Op.div a b ha hb v e = ground (arith, sdiv-lt a b)
eval_op-IsWord Op.rem a b ha hb v e = ground (arith, srem-lt a b)
eval_op-IsWord op a b ha hb v e = ground arith

neg32-IsWord : (a : ℕ) → IsWord (neg32 a)
unfolding neg32
neg32-IsWord a = omega arith

module _ (callee : Callee) (fits : IsWordCallee callee) where
  binary-IsWordStore :
      (op : Op) (d : Option ℕ) (a b : Val) (s t : Store)
      → IsWordStore s
      → IsWordVal a
      → IsWordVal b
      → bind (eval_op op (value s a) (value s b)) (λ v. some (write d v s)) ≡ some t
      → IsWordStore t
  binary-IsWordStore op d a b s t h wa wb e =
      let (v, ev, e1) =
        bind-eq-some (eval_op op (value s a) (value s b)) (λ v. some (write d v s)) e in
      let fit = eval_op-IsWord op _ _ (value-IsWord s a h wa) (value-IsWord s b h wb) v ev in
      subst IsWordStore (some-injective _ _ e1) (write-IsWordStore d v s h fit)

  exec_op-IsWordStore :
      (op : Op) (d : Option ℕ) (a b : Val) (g : Option ℕ) (f : Option FuncRef) (args : List Val)
      (s t : Store)
      → IsWordStore s
      → IsWordVal a
      → IsWordVal b
      → All IsWordVal args
      → exec_op callee op d a b g f args s ≡ some t
      → IsWordStore t
  unfolding exec_op
  exec_op-IsWordStore Op.mv d a b g f args s t h wa wb wargs e =
      subst IsWordStore (some-injective _ _ e) (write-IsWordStore d _ s h (value-IsWord s a h wa))
  exec_op-IsWordStore Op.neg d a b g f args s t h wa wb wargs e =
      subst IsWordStore (some-injective _ _ e) (write-IsWordStore d _ s h (neg32-IsWord _))
  exec_op-IsWordStore Op.not d a b g f args s t h wa wb wargs e =
      subst IsWordStore (some-injective _ _ e) (write-IsWordStore d _ s h (ground arith))
  exec_op-IsWordStore Op.load_global d a b none f args s t h wa wb wargs e = absurd (cc)
  exec_op-IsWordStore Op.load_global d a b (some g) f args s t h wa wb wargs e =
      subst IsWordStore (some-injective _ _ e) (write-IsWordStore d _ s h (h.globals_fit g))
  exec_op-IsWordStore Op.store_global d a b none f args s t h wa wb wargs e = absurd (cc)
  exec_op-IsWordStore Op.store_global d a b (some g) f args s t h wa wb wargs e =
      subst IsWordStore (some-injective _ _ e) (record {
        regs_fit = h.regs_fit;
        globals_fit = update-IsWord s.globals g _ h.globals_fit (value-IsWord s a h wa);
      })
  exec_op-IsWordStore Op.call d a b g none args s t h wa wb wargs e = absurd (cc)
  exec_op-IsWordStore Op.call d a b g (some f) args s t h wa wb wargs e =
      let (r, er, e1) =
        bind-eq-some (callee f (values s args) s.globals) (λ r. some (after_call d s r)) e in
      let fit = fits f _ _ (values-IsWord s args h wargs) h.globals_fit r.0 r.1 er in
      subst IsWordStore (some-injective _ _ e1)
        (write-IsWordStore d r.0 _ (record { regs_fit = h.regs_fit; globals_fit = fit.1 }) fit.0)
  exec_op-IsWordStore op d a b g f args s t h wa wb wargs e =
      binary-IsWordStore op d a b s t h wa wb e

  pub exec_inst-IsWordStore :
      (i : Inst) (s t : Store)
      → IsWordStore s
      → IsWordInst i
      → exec_inst callee i s ≡ some t
      → IsWordStore t
  unfolding exec_inst
  exec_inst-IsWordStore i s t h w e =
      exec_op-IsWordStore i.op i.dst i.a i.b i.gid i.callee i.args s t h w.a_fits w.b_fits
        w.args_fit e
