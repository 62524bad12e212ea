-- ===== src/Opt/Unreachable/Sound.antt =====
-- unreachableElim changes no run from the entry.
use toy_c_cp.Prelude.{
  ℕ, zero, suc, ◌+◌, ◌<◌, ◌≡◌, refl, sym, ap, ◌∙◌, subst, Bool, true, false, Option, none, some,
  List, [], ◌∷◌, ◌++◌, arith, ◌==◌, if◌then◌else◌, length, get_elem?, get_elem?-below, inl, inr,
}
use mathlib.Core.Option.{some-injective}
use toy_c_cp.Ir.{Val, Term, BasicBlock, IrFunc, succs_of, succs_of_term, opt_list}
use toy_c_cp.Ir.Meaning.{
  Store, Callee, Outcome, goto, returned, bind, exec_block, exec_insts, finish, go_to, value, run,
  resume,
}
use toy_c_cp.Ir.Meaning.Refine.{bind-eq-some}
use toy_c_cp.Ir.Meaning.Refine.{bind_congr}
use toy_c_cp.Opt.Unreachable.{succs_at, succs_of_found, reached, clear_from, unreachable_elim}
use toy_c_cp.Opt.Unreachable.Closed.{Mem, Closed, reached-Closed, reached-entry}

get_elem?-clear :
    (c : ℕ) (reach : ℕ → Bool) (bbs : List BasicBlock) (i : ℕ)
    → (i < length bbs → reach (c + i) ≡ true)
    → get_elem? (clear_from c reach bbs) i ≡ get_elem? bbs i
unfolding clear_from
get_elem?-clear c reach [] i h = refl
get_elem?-clear c reach (bb ∷ bbs) zero h =
    let marked : reach c ≡ true = ap reach (omega arith) ∙ h (omega arith) in rw marked
get_elem?-clear c reach (bb ∷ bbs) (suc i) h =
    get_elem?-clear (c + 1) reach bbs i (λ l. ap reach (omega arith) ∙ h (omega arith))

go_to-goto : (o : Option ℕ) (t u : Store) (m : ℕ) → go_to o t ≡ some (goto m u) → o ≡ some m
go_to-goto none t u m e = absurd (cc)
go_to-goto (some k) t u m e = ground arith

branch-succs :
    (zero_cond : Bool) (s0 s1 : Option ℕ) (t u : Store) (m : ℕ)
    → (if zero_cond then go_to s1 t else go_to s0 t) ≡ some (goto m u)
    → Mem m (opt_list s0 ++ opt_list s1)
branch-succs true s0 none t u m e = absurd (cc)
branch-succs true none (some k) t u m e =
    inl (some-injective _ _ (sym (go_to-goto (some k) t u m e)))
branch-succs true (some j) (some k) t u m e =
    inr (inl (some-injective _ _ (sym (go_to-goto (some k) t u m e))))
branch-succs false none s1 t u m e = absurd (cc)
branch-succs false (some j) s1 t u m e =
    inl (some-injective _ _ (sym (go_to-goto (some j) t u m e)))

finish-succs :
    (tm : Term) (c : Val) (s0 s1 : Option ℕ) (has : Bool) (rv : Val) (t u : Store) (m : ℕ)
    → finish tm c s0 s1 has rv t ≡ some (goto m u)
    → Mem m (succs_of_term tm s0 s1)
unfolding finish
finish-succs Term.none_yet c s0 s1 has rv t u m e = absurd (cc)
finish-succs Term.jmp c s0 s1 has rv t u m e = rw (go_to-goto s0 t u m e) (inl refl)
finish-succs Term.br c s0 s1 has rv t u m e = branch-succs (value t c == 0) s0 s1 t u m e
finish-succs Term.ret c s0 s1 has rv t u m e = absurd (cc)

exec_block-succs :
    (callee : Callee) (bb : BasicBlock) (s u : Store) (m : ℕ)
    → exec_block callee bb s ≡ some (goto m u)
    → Mem m (succs_of bb)
unfolding exec_block succs_of
exec_block-succs callee bb s u m e =
    let (t, et, f) =
      bind-eq-some (exec_insts callee bb.insts s)
        (finish bb.term bb.cond bb.succ0 bb.succ1 bb.ret_has_val bb.ret_val) e in
    finish-succs bb.term bb.cond bb.succ0 bb.succ1 bb.ret_has_val bb.ret_val t u m f

module _ (callee : Callee) (bbs : List BasicBlock) (reach : ℕ → Bool)
    (closed : Closed bbs reach) where
  abbrev SameRuns : ℕ → Type 0
  SameRuns fuel =
      (n : ℕ) (s : Store)
      → (n < length bbs → reach n ≡ true)
      → run callee fuel (clear_from 0 reach bbs) n s ≡ run callee fuel bbs n s

  resume-clear :
      (fuel n : ℕ) (bb : BasicBlock) (s : Store)
      → SameRuns fuel
      → (n < length bbs → reach n ≡ true)
      → get_elem? bbs n ≡ some bb
      → (o : Outcome) → exec_block callee bb s ≡ some o
      → resume callee (run callee fuel (clear_from 0 reach bbs)) o
        ≡ resume callee (run callee fuel bbs) o
  unfolding succs_of_found succs_of
  resume-clear fuel n bb s ih h eb (returned v t) e = refl
  resume-clear fuel n bb s ih h eb (goto m t) e =
      let here : Mem m (succs_at bbs n) =
        subst (λ o. Mem m (succs_of_found o)) (sym eb) (exec_block-succs callee bb s t m e) in
      ih m t (λ l. closed n m (h (get_elem?-below bbs n eb)) here l)

  run-clear : (fuel : ℕ) → SameRuns fuel
  unfolding run
  run-clear zero = λ n s h. refl
  run-clear (suc fuel) = λ n s h.
      let before = resume callee (run callee fuel bbs) in
      let after = resume callee (run callee fuel (clear_from 0 reach bbs)) in
      ap (λ o. bind o (λ bb. bind (exec_block callee bb s) after))
        (get_elem?-clear 0 reach bbs n (λ l. ap reach (omega arith) ∙ h l))
      ∙ bind_congr (get_elem? bbs n) (λ bb. bind (exec_block callee bb s) after)
          (λ bb. bind (exec_block callee bb s) before)
          λ bb eb.
            bind_congr (exec_block callee bb s) after before
              (resume-clear fuel n bb s (run-clear fuel) h eb)

-- Emptying the blocks that the entry does not reach changes no run from the entry: with every callee,
-- store and fuel the function has the same result, or none, before and after unreachableElim.
pub run-unreachable_elim :
    (callee : Callee) (fn : IrFunc) (fuel : ℕ) (s : Store)
    → run callee fuel (unreachable_elim fn).blocks 0 s ≡ run callee fuel fn.blocks 0 s
unfolding unreachable_elim
run-unreachable_elim callee fn fuel s =
    run-clear callee fn.blocks (reached fn.blocks) (reached-Closed fn.blocks) fuel 0 s
      (λ l. reached-entry fn.blocks)
