-- ===== src/Opt/ConstFold/Sound.antt =====
-- constFold keeps what a function computes.
use mathlib.Core.Path.{subst}
use mathlib.Core.Option.{some-injective}
use toy_c_cp.Prelude.{ℕ, ◌≡◌, refl, ap, Bool, Option, none, some, List, [], ◌∷◌, All}
use toy_c_cp.Ir.{Val, Inst, Term, BasicBlock, IrFunc}
use toy_c_cp.Ir.Meaning.{
  Store, Callee, Outcome, goto, returned, exec_inst, exec_insts, exec_block, finish, run,
}
use toy_c_cp.Ir.Meaning.Refine.{
  bind-eq-some, finish-goto, Related, BlockRefines, Refines, run-Refines,
}
use toy_c_cp.Ir.Meaning.Words.{IsWordStore, IsWordInst, IsWordCallee, exec_inst-IsWordStore}
use toy_c_cp.Opt.ConstFold.{
  fold_inst, fold_insts, fold_blocks, const_fold, both, with_insts, with_blocks,
}
use toy_c_cp.Opt.ConstFold.Step.{exec-fold_inst}

both-eq-some {ℓ} :
    {A B C : Type ℓ} (f : A → B → C) (m : Option (Bool × A)) (n : Option (Bool × B)) {any : Bool}
    {c : C}
    → both f m n ≡ some (any, c)
    → (a : Bool × A) × (b : Bool × B) × (m ≡ some a) × (n ≡ some b) × (f a.1 b.1 ≡ c)
both-eq-some f none n h = absurd (cc)
both-eq-some f (some p) none h = absurd (cc)
both-eq-some {C} f (some (p, a)) (some (q, b)) {any} {c} h =
    ((p, a), (q, b), refl, refl, ap (λ o. third o) h)
  where
    third : Option (Bool × C) → C
    third none = c
    third (some (_, x)) = x

abbrev pub IsWordBlock : BasicBlock → Type 0
IsWordBlock bb = All IsWordInst bb.insts

abbrev rest_of : Option (Bool × List Inst) → List Inst
rest_of none = []
rest_of (some (_, js)) = js

abbrev blocks_of : Option (Bool × List BasicBlock) → List BasicBlock
blocks_of none = []
blocks_of (some (_, bbs)) = bbs

with_blocks-eq-some :
    (fn : IrFunc) (o : Option (Bool × List BasicBlock)) {any : Bool} {gn : IrFunc}
    → with_blocks fn o ≡ some (any, gn)
    → (b : Bool × List BasicBlock) × (o ≡ some b) × (b.1 ≡ gn.blocks)
with_blocks-eq-some fn none h = absurd (cc)
with_blocks-eq-some fn (some (b, bbs)) {any} {gn} h = ((b, bbs), refl, ap (λ o. body o) h)
  where
    body : Option (Bool × IrFunc) → List BasicBlock
    body none = []
    body (some (_, g)) = g.blocks

finish-IsWordStore :
    (tm : Term) (c : Val) (s0 s1 : Option ℕ) (has : Bool) (rv : Val) (t : Store) (n : ℕ) (s : Store)
    → IsWordStore t
    → finish tm c s0 s1 has rv t ≡ some (goto n s)
    → IsWordStore s
finish-IsWordStore tm c s0 s1 has rv t n s h e =
    subst IsWordStore (finish-goto tm c s0 s1 has rv t n s e) h

-- The same store, of words.
abbrev pub SameWords : Store → Store → Type 0
SameWords s t = (s ≡ t) × IsWordStore s

module _ (callee : Callee) (fits : IsWordCallee callee) where
  exec-fold_insts :
      (is js : List Inst) (s t : Store) {any : Bool}
      → IsWordStore s
      → All IsWordInst is
      → fold_insts is ≡ some (any, js)
      → exec_insts callee is s ≡ some t
      → (exec_insts callee js s ≡ some t) × IsWordStore t
  unfolding fold_insts exec_insts
  exec-fold_insts [] js s t h w f e =
      (rw (← ap (λ o. rest_of o) f) e, subst IsWordStore (some-injective _ _ e) h)
  exec-fold_insts (i ∷ is) js s t h w f e =
      let (u, eu, e1) = bind-eq-some (exec_inst callee i s) (exec_insts callee is) e in
      let (j, ks, fj, fk, p) = both-eq-some (λ j js. j ∷ js) (fold_inst i) (fold_insts is) f in
      let hu = exec_inst-IsWordStore callee fits i s u h w.0 eu in
      let ih = exec-fold_insts is ks.1 u t hu w.1 fk e1 in
      let ej = exec-fold_inst callee i j.1 s u h w.0 fj eu in (rw (← p) (rw ej ih.0), ih.1)

  finish-SameWords :
      (bb : BasicBlock) (t : Store) (o : Outcome)
      → IsWordStore t
      → finish bb.term bb.cond bb.succ0 bb.succ1 bb.ret_has_val bb.ret_val t ≡ some o
      → Related callee SameWords o o
  finish-SameWords bb t (returned v s) h e = (refl, refl)
  finish-SameWords bb t (goto n s) h e = (
    refl,
    (
      refl,
      finish-IsWordStore bb.term bb.cond bb.succ0 bb.succ1 bb.ret_has_val bb.ret_val t n s h e,
    ),
  )

  fold_block-Refines :
      (bb : BasicBlock) (is : List Inst) {any : Bool}
      → IsWordBlock bb
      → fold_insts bb.insts ≡ some (any, is)
      → BlockRefines callee SameWords bb (record bb { insts = is })
  unfolding exec_block
  fold_block-Refines bb is w f s t rel o e =
      let (u, eu, e1) =
        bind-eq-some (exec_insts callee bb.insts s)
          (finish bb.term bb.cond bb.succ0 bb.succ1 bb.ret_has_val bb.ret_val) e in
      let kept = exec-fold_insts bb.insts is s u rel.1 w f eu in
      (o, rw (← rel.0) (rw kept.0 e1), finish-SameWords bb u o kept.1 e1)

  fold_blocks-Refines :
      (bbs cbs : List BasicBlock) {any : Bool}
      → All IsWordBlock bbs
      → fold_blocks bbs ≡ some (any, cbs)
      → Refines callee SameWords bbs cbs
  unfolding fold_blocks
  fold_blocks-Refines [] cbs w f = subst (Refines callee SameWords []) (ap (λ o. blocks_of o) f) tt
  fold_blocks-Refines (bb ∷ bbs) cbs w f =
      let (is, rest, fi, fr, p) =
        both-eq-some (with_insts bb) (fold_insts bb.insts) (fold_blocks bbs) f in
      subst (Refines callee SameWords (bb ∷ bbs)) p
        (fold_block-Refines bb is.1 w.0 fi, fold_blocks-Refines bbs rest.1 w.1 fr)

-- Folding keeps every run that ends: from a store of words, with callees that give words, a function
-- that returns without a division by zero returns the same value and leaves the same globals after
-- constFold, at the same fuel.
pub run-const_fold :
    (callee : Callee) (fn gn : IrFunc) (fuel : ℕ) (s : Store) {any : Bool} {r : Option ℕ × (ℕ → ℕ)}
    → IsWordCallee callee
    → All IsWordBlock fn.blocks
    → IsWordStore s
    → const_fold fn ≡ some (any, gn)
    → run callee fuel fn.blocks 0 s ≡ some r
    → run callee fuel gn.blocks 0 s ≡ some r
unfolding const_fold
run-const_fold callee fn gn fuel s fits w h f e =
    let (bbs, fb, p) = with_blocks-eq-some fn (fold_blocks fn.blocks) f in
    let ref = fold_blocks-Refines callee fits fn.blocks bbs.1 w fb in
    rw (← p) (run-Refines callee SameWords fuel fn.blocks bbs.1 ref 0 s s (refl, h) e)
