-- ===== src/Opt/Dce/Sound.antt =====
-- deadCodeElim keeps what a function returns and what it leaves in the globals.
use mathlib.Core.Path.{subst}
use mathlib.Core.Option.{some-injective}
use toy_c_cp.Prelude.{
  ℕ, zero, suc, ◌+◌, ◌≡◌, refl, ap, Bool, true, false, Option, none, some, List, [], ◌∷◌, ◌++◌,
  ◌==◌, Bool-cases, inl, inr,
}
use toy_c_cp.Ir.{Val, Inst, Term, BasicBlock, IrFunc}
use toy_c_cp.Ir.Meaning.{
  Store, Callee, Outcome, goto, returned, go_to, value, exec_inst, exec_insts, exec_block, finish,
  run,
}
use toy_c_cp.Ir.Meaning.Refine.{bind-eq-some, Related, BlockRefines, Refines, run-Refines}
use toy_c_cp.Opt.Dce.{
  inst_uses, insts_uses, term_uses, blocks_uses, is_dead, sweep_insts, sweep_blocks, sweep, changed,
  sweep_loop, num_insts, dead_code_elim,
}
use toy_c_cp.Opt.Dce.Step.{
  Within, Within-left, Within-right, Agree, value-Agree, exec_inst-Agree, exec_dead-Agree,
}

module _ (callee : Callee) (us : List ℕ) where
  exec_insts-sweep :
      (is : List Inst) (s t s' : Store)
      → Agree us s t
      → Within (insts_uses is) us
      → exec_insts callee is s ≡ some s'
      → (t' : Store) × (exec_insts callee (sweep_insts us is) t ≡ some t') × Agree us s' t'
  unfolding exec_insts sweep_insts insts_uses
  exec_insts-sweep [] s t s' h w e = (t, refl, subst (λ x. Agree us x t) (some-injective _ _ e) h)
  exec_insts-sweep (i ∷ is) s t s' h w e =
      let (u, eu, e1) = bind-eq-some (exec_inst callee i s) (exec_insts callee is) e in
      let w0 = Within-left (inst_uses i) (insts_uses is) us w in
      let w1 = Within-right (inst_uses i) (insts_uses is) us w in
      elim (Bool-cases (is_dead us i)) [
        | inl dead ↦
            rw dead (exec_insts-sweep is u t s' (exec_dead-Agree callee us s t u i h dead eu) w1 e1)
        | inr live ↦
            let (v, ev, hv) = exec_inst-Agree callee us s t u i h w0 eu in
            rw (live, ev) (exec_insts-sweep is u v s' hv w1 e1)
      ]

  go_to-Agree :
      (m : Option ℕ) (s t : Store) (o : Outcome)
      → Agree us s t
      → go_to m s ≡ some o
      → (p : Outcome) × (go_to m t ≡ some p) × Related callee (Agree us) o p
  go_to-Agree none s t o h e = absurd (cc)
  go_to-Agree (some n) s t o h e = (
    goto n t,
    refl,
    subst (λ x. Related callee (Agree us) x (goto n t)) (some-injective _ _ e) (refl, h),
  )

  returned-Agree :
      (v w : Option ℕ) (s t : Store) (o : Outcome)
      → Agree us s t
      → v ≡ w
      → some (returned v s) ≡ some o
      → (p : Outcome) × (some (returned w t) ≡ some p) × Related callee (Agree us) o p
  returned-Agree v w s t o h q e = (
    returned w t,
    refl,
    subst (λ x. Related callee (Agree us) x (returned w t)) (some-injective _ _ e)
        (q, h.same_globals),
  )

  finish-Agree :
      (tm : Term) (c : Val) (s0 s1 : Option ℕ) (has : Bool) (rv : Val) (s t : Store) (o : Outcome)
      → Agree us s t
      → Within (term_uses tm c has rv) us
      → finish tm c s0 s1 has rv s ≡ some o
      → (p : Outcome) × (finish tm c s0 s1 has rv t ≡ some p) × Related callee (Agree us) o p
  unfolding finish term_uses
  finish-Agree Term.none_yet c s0 s1 has rv s t o h w e = absurd (cc)
  finish-Agree Term.jmp c s0 s1 has rv s t o h w e = go_to-Agree s0 s t o h e
  finish-Agree Term.br c s0 s1 has rv s t o h w e =
      let same = value-Agree us s t h c w in
      elim (Bool-cases (value t c == 0)) [
        | inl z ↦ rw z (go_to-Agree s1 s t o h (rw (same, z) at e))
        | inr nz ↦ rw nz (go_to-Agree s0 s t o h (rw (same, nz) at e))
      ]
  finish-Agree Term.ret c s0 s1 true rv s t o h w e =
      returned-Agree _ _ s t o h (ap some (value-Agree us s t h rv w)) e
  finish-Agree Term.ret c s0 s1 false rv s t o h w e = returned-Agree none none s t o h refl e

  sweep_block-Refines :
      (bb : BasicBlock)
      → Within (insts_uses bb.insts ++ term_uses bb.term bb.cond bb.ret_has_val bb.ret_val) us
      → BlockRefines callee (Agree us) bb (record bb { insts = sweep_insts us bb.insts })
  unfolding exec_block
  sweep_block-Refines bb w s t h o e =
      let used = term_uses bb.term bb.cond bb.ret_has_val bb.ret_val in
      let (u, eu, e1) =
        bind-eq-some (exec_insts callee bb.insts s)
          (finish bb.term bb.cond bb.succ0 bb.succ1 bb.ret_has_val bb.ret_val) e in
      let (v, ev, hv) =
        exec_insts-sweep bb.insts s t u h (Within-left (insts_uses bb.insts) used us w) eu in
      rw ev (
        finish-Agree bb.term bb.cond bb.succ0 bb.succ1 bb.ret_has_val bb.ret_val u v o hv
          (Within-right (insts_uses bb.insts) used us w) e1)

  sweep_blocks-Refines :
      (bbs : List BasicBlock)
      → Within (blocks_uses bbs) us
      → Refines callee (Agree us) bbs (sweep_blocks us bbs)
  unfolding sweep_blocks blocks_uses
  sweep_blocks-Refines [] w = tt
  sweep_blocks-Refines (bb ∷ bbs) w =
      let used = insts_uses bb.insts ++ term_uses bb.term bb.cond bb.ret_has_val bb.ret_val in
      (
        sweep_block-Refines bb (Within-left used (blocks_uses bbs) us w),
        sweep_blocks-Refines bbs (Within-right used (blocks_uses bbs) us w),
      )

run-sweep :
    (callee : Callee) (fuel : ℕ) (bbs : List BasicBlock) (s : Store) {r : Option ℕ × (ℕ → ℕ)}
    → run callee fuel bbs 0 s ≡ some r
    → run callee fuel (sweep bbs) 0 s ≡ some r
run-sweep callee fuel bbs s e =
    let us = blocks_uses bbs in
    run-Refines callee (Agree us) fuel bbs (sweep bbs)
      (sweep_blocks-Refines callee us bbs (λ r k. k)) 0 s s
      (record { same_regs = λ r k. refl; same_globals = refl }) e

run-sweep_loop :
    (callee : Callee) (rounds fuel : ℕ) (bbs : List BasicBlock) (s : Store) {r : Option ℕ × (ℕ → ℕ)}
    → run callee fuel bbs 0 s ≡ some r
    → run callee fuel (sweep_loop rounds bbs) 0 s ≡ some r
unfolding sweep_loop
run-sweep_loop callee zero fuel bbs s e = e
run-sweep_loop callee (suc rounds) fuel bbs s e = elim (Bool-cases (changed bbs)) [
  | inl more ↦
      rw more (run-sweep_loop callee rounds fuel (sweep bbs) s (run-sweep callee fuel bbs s e))
  | inr last ↦ rw last (run-sweep callee fuel bbs s e)
]

-- Dead code elimination keeps every run that ends: a function that returns gives the same value and
-- the same globals after deadCodeElim, at the same fuel, whatever its callees do.
pub run-dead_code_elim :
    (callee : Callee) (fn : IrFunc) (fuel : ℕ) (s : Store) {r : Option ℕ × (ℕ → ℕ)}
    → run callee fuel fn.blocks 0 s ≡ some r
    → run callee fuel (dead_code_elim fn).blocks 0 s ≡ some r
unfolding dead_code_elim
run-dead_code_elim callee fn fuel s e =
    run-sweep_loop callee (num_insts fn.blocks + 1) fuel fn.blocks s e
