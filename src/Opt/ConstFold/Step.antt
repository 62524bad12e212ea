-- ===== src/Opt/ConstFold/Step.antt =====
-- constFold keeps what an instruction computes.
use toy_c_cp.Prelude.{
  ℕ, ◌≡◌, refl, sym, ap, ◌∙◌, Bool, true, false, Option, none, some, List, arith, Bool-cases, inl,
  inr,
}
use toy_c_cp.Word.{neg32}
use toy_c_cp.Ast.{FuncRef}
use toy_c_cp.Ir.{Val, imm, reg, Op, Inst}
use toy_c_cp.Ir.Meaning.{Store, Callee, bind, value, write, eval_op, exec_op, exec_inst}
use toy_c_cp.Ir.Meaning.Refine.{bind-eq-some}
use toy_c_cp.Ir.Meaning.Words.{IsWordStore, IsWordInst, value-IsWord}
use toy_c_cp.Opt.ConstFold.{
  Folded, folded, kept, undefined, fold_operands, fold_unary, Rewrite, to_mv, to_neg, leave,
  identity, is_binary, fold_inst, apply_folded, apply_rewrite, as_mv, as_neg,
}
use toy_c_cp.Opt.ConstFold.Laws.{Gives, fold_values-eval_op, identity-Gives}

fold_operands-eval_op :
    (s : Store) (op : Op) (a b : Val) {v w : ℕ}
    → fold_operands op a b ≡ folded v
    → eval_op op (value s a) (value s b) ≡ some w
    → v ≡ w
unfolding fold_operands
fold_operands-eval_op s op (imm a) (imm b) f e = fold_values-eval_op op a b f e
fold_operands-eval_op s op (imm a) (reg b) f e = absurd (cc)
fold_operands-eval_op s op (reg a) b f e = absurd (cc)

unary_reg : (op : Op) (n v : ℕ) → fold_unary op (reg n) ≡ folded v → ⊥
unfolding fold_unary
unary_reg op n v p = ground arith

abbrev second : Inst → Option (Bool × Inst) → Inst
second d none = d
second d (some (_, j)) = j

module _ (callee : Callee) where
  exec_op-binary :
      (op : Op) (d : Option ℕ) (a b : Val) (g : Option ℕ) (f : Option FuncRef) (args : List Val)
      (s : Store)
      → is_binary op ≡ true
      → exec_op callee op d a b g f args s
        ≡ bind (eval_op op (value s a) (value s b)) (λ v. some (write d v s))
  unfolding exec_op
  exec_op-binary op d a b g f args s h = ground arith

  exec_op-unary :
      (op : Op) (d : Option ℕ) (n v : ℕ) (b : Val) (g : Option ℕ) (f : Option FuncRef)
      (args : List Val) (s : Store)
      → fold_unary op (imm n) ≡ folded v
      → exec_op callee op d (imm n) b g f args s ≡ some (write d v s)
  unfolding exec_op fold_unary
  exec_op-unary op d n v b g f args s h = ground arith

  exec-as_mv :
      (i : Inst) (w : Val) (s : Store)
      → exec_inst callee (as_mv i w) s ≡ some (write i.dst (value s w) s)
  unfolding exec_inst exec_op
  exec-as_mv i w s = refl

  exec-as_neg :
      (i : Inst) (w : Val) (s : Store)
      → exec_inst callee (as_neg i w) s ≡ some (write i.dst (neg32 (value s w)) s)
  unfolding exec_inst exec_op
  exec-as_neg i w s = refl

  rewrite-keeps :
      (i j : Inst) (s t : Store) (r : Rewrite) (v : ℕ) {any : Bool}
      → Gives s r v
      → exec_inst callee i s ≡ some t
      → some t ≡ some (write i.dst v s)
      → apply_rewrite i r ≡ some (any, j)
      → exec_inst callee j s ≡ some t
  rewrite-keeps i j s t (to_mv w) v g e h r =
      rw (← ap (second i) r) (exec-as_mv i w s ∙ (rw g (sym h)))
  rewrite-keeps i j s t (to_neg w) v g e h r =
      rw (← ap (second i) r) (exec-as_neg i w s ∙ (rw g (sym h)))
  rewrite-keeps i j s t leave v g e h r = rw (← ap (second i) r) e

  exec_inst-binary :
      (i : Inst) (s : Store)
      → is_binary i.op ≡ true
      → exec_inst callee i s
        ≡ bind (eval_op i.op (value s i.a) (value s i.b)) (λ v. some (write i.dst v s))
  unfolding exec_inst
  exec_inst-binary i s h = exec_op-binary i.op i.dst i.a i.b i.gid i.callee i.args s h

  binary-keeps :
      (i j : Inst) (s t : Store) (f : Folded) {any : Bool}
      → IsWordStore s
      → IsWordInst i
      → is_binary i.op ≡ true
      → fold_operands i.op i.a i.b ≡ f
      → exec_inst callee i s ≡ some t
      → apply_folded i f (apply_rewrite i (identity i.op i.a i.b)) ≡ some (any, j)
      → exec_inst callee j s ≡ some t
  binary-keeps i j s t f h w bin p e r =
      let e' = sym (exec_inst-binary i s bin) ∙ e in
      let (v, ev, e1) =
        bind-eq-some (eval_op i.op (value s i.a) (value s i.b)) (λ v. some (write i.dst v s)) e' in
      let fa = value-IsWord s i.a h w.a_fits in
      let fb = value-IsWord s i.b h w.b_fits in
      by_folded f v ev (sym e1) (identity-Gives s i.a i.b fa fb i.op ev) p r
    where
      by_folded :
          (f : Folded) (v : ℕ) {any : Bool}
          → eval_op i.op (value s i.a) (value s i.b) ≡ some v
          → some t ≡ some (write i.dst v s)
          → Gives s (identity i.op i.a i.b) v
          → fold_operands i.op i.a i.b ≡ f
          → apply_folded i f (apply_rewrite i (identity i.op i.a i.b)) ≡ some (any, j)
          → exec_inst callee j s ≡ some t
      by_folded (folded n) v ev h g p r =
          rw (← ap (second i) r)
            (exec-as_mv i (imm n) s ∙ (rw (fold_operands-eval_op s i.op i.a i.b p ev) (sym h)))
      by_folded kept v ev h g p r = rewrite-keeps i j s t (identity i.op i.a i.b) v g e h r
      by_folded undefined v ev h g p r = absurd (cc)

  unary-keeps :
      (i j : Inst) (s t : Store) (a : Val) (f : Folded) {any : Bool}
      → i.a ≡ a
      → fold_unary i.op a ≡ f
      → exec_inst callee i s ≡ some t
      → apply_folded i f (some (false, i)) ≡ some (any, j)
      → exec_inst callee j s ≡ some t
  unfolding exec_inst
  unary-keeps i j s t (imm n) (folded v) q p e r = rw (← ap (second i) r) (
      exec-as_mv i (imm v) s
      ∙ sym (exec_op-unary i.op i.dst n v i.b i.gid i.callee i.args s p)
      ∙ rw q at e)
  unary-keeps i j s t (reg n) (folded v) q p e r = absurd (unary_reg i.op n v p)
  unary-keeps i j s t a kept q p e r = rw (← ap (second i) r) e
  unary-keeps i j s t a undefined q p e r = absurd (cc)

  -- A step that has a result has the same result after folding.
  pub exec-fold_inst :
      (i j : Inst) (s t : Store) {any : Bool}
      → IsWordStore s
      → IsWordInst i
      → fold_inst i ≡ some (any, j)
      → exec_inst callee i s ≡ some t
      → exec_inst callee j s ≡ some t
  unfolding fold_inst
  exec-fold_inst i j s t h w f e = elim (Bool-cases (is_binary i.op)) [
    | inl bin ↦ binary-keeps i j s t _ h w bin refl e (rw bin at f)
    | inr un ↦ unary-keeps i j s t i.a _ refl refl e (rw un at f)
  ]
