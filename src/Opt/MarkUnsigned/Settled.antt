-- ===== src/Opt/MarkUnsigned/Settled.antt =====
-- The loop of markUnsignedDiv ends when there is nothing left to flag or to mark.
use toy_c_cp.Prelude.{
  ℕ, zero, suc, ◌+◌, ◌<◌, ◌≤◌, ◌≡◌, refl, sym, ◌∙◌, subst, Bool, true, false, not, ◌&&◌, ◌||◌,
  Option, none, some, List, [], ◌∷◌, if◌then◌else◌, arith, All, Bool-cases, inl, inr,
}
use toy_c_cp.Ir.{Inst, BasicBlock}
use toy_c_cp.Opt.Unreachable.Closed.{unmarked, unmarked-set}
use toy_c_cp.Opt.MarkUnsigned.{
  dst_nn, marks, mark_inst, is_new, flag, visit_inst, visit_insts, visit_blocks, mark_loop,
  mark_all,
}

-- The rules for the flags and for the marks ask nothing of the instruction.
abbrev pub settled : ℕ → (ℕ → Bool) → Inst → Bool
settled nv flags i =
    not (is_new nv flags i.dst (dst_nn nv flags i.op i.a i.b))
    && (not (marks nv flags i.op i.a i.b) || i.unsigned_div)

abbrev pub AllSettled : ℕ → (ℕ → Bool) → List BasicBlock → Type 0
AllSettled nv flags = All (λ bb. All (λ i. settled nv flags i ≡ true) bb.insts)

module _ (nv : ℕ) where
  visit_inst-settled :
      (flags : ℕ → Bool) (i : Inst)
      → (visit_inst nv flags i).changed ≡ false
      → ((visit_inst nv flags i).flags ≡ flags)
        × (settled nv flags (visit_inst nv flags i).visited ≡ true)
  unfolding visit_inst mark_inst
  visit_inst-settled flags i h = (
    rw h refl,
    elim (Bool-cases (marks nv flags i.op i.a i.b)) [
      | inl on ↦ rw on (rw (h, on) refl)
      | inr off ↦ rw off (rw (h, off) refl)
    ],
  )

  visit_insts-settled :
      (flags : ℕ → Bool) (is : List Inst)
      → (visit_insts nv flags is).changed ≡ false
      → ((visit_insts nv flags is).flags ≡ flags)
        × All (λ i. settled nv flags i ≡ true) (visit_insts nv flags is).visited
  unfolding visit_insts
  visit_insts-settled flags [] h = (refl, tt)
  visit_insts-settled flags (i ∷ is) h =
      let first = visit_inst-settled flags i (ground (arith, h)) in
      let rest = visit_insts-settled (visit_inst nv flags i).flags is (ground (arith, h)) in
      (
        rest.0 ∙ first.0,
        (
          first.1,
          subst
              (λ f.
                All (λ j. settled nv f j ≡ true)
                  (visit_insts nv (visit_inst nv flags i).flags is).visited)
              first.0 rest.1,
        ),
      )

  visit_blocks-AllSettled :
      (flags : ℕ → Bool) (bbs : List BasicBlock)
      → (visit_blocks nv flags bbs).changed ≡ false
      → ((visit_blocks nv flags bbs).flags ≡ flags)
        × AllSettled nv flags (visit_blocks nv flags bbs).visited
  unfolding visit_blocks
  visit_blocks-AllSettled flags [] h = (refl, tt)
  visit_blocks-AllSettled flags (bb ∷ bbs) h =
      let first = visit_insts-settled flags bb.insts (ground (arith, h)) in
      let rest =
        visit_blocks-AllSettled (visit_insts nv flags bb.insts).flags bbs (ground (arith, h)) in
      (
        rest.0 ∙ first.0,
        (
          first.1,
          subst
              (λ f.
                AllSettled nv f (visit_blocks nv (visit_insts nv flags bb.insts).flags bbs).visited)
              first.0 rest.1,
        ),
      )

  -- One more flag for a visit that changes something.
  abbrev cost : Bool → ℕ
  cost changed = if changed then 1 else 0

  new_flag-cost :
      (flags : ℕ → Bool) (dst : Option ℕ) (nn : Bool)
      → let new = is_new nv flags dst nn in
        unmarked nv (if new then flag dst flags else flags) + cost new ≡ unmarked nv flags
  new_flag-cost flags none nn = omega arith
  new_flag-cost flags (some d) nn = elim (Bool-cases (is_new nv flags (some d) nn)) [
    | inl new ↦ rw new (unmarked-set nv d flags (ground (arith, new)) (ground (arith, new)))
    | inr old ↦ rw old (omega arith)
  ]

  visit_insts-cost :
      (flags : ℕ → Bool) (is : List Inst)
      → unmarked nv (visit_insts nv flags is).flags + cost (visit_insts nv flags is).changed
        ≤ unmarked nv flags
  unfolding visit_insts visit_inst
  visit_insts-cost flags [] = omega arith
  visit_insts-cost flags (i ∷ is) = ground (
    arith,
    new_flag-cost flags i.dst (dst_nn nv flags i.op i.a i.b),
    visit_insts-cost (visit_inst nv flags i).flags is,
  )

  visit_blocks-cost :
      (flags : ℕ → Bool) (bbs : List BasicBlock)
      → unmarked nv (visit_blocks nv flags bbs).flags + cost (visit_blocks nv flags bbs).changed
        ≤ unmarked nv flags
  unfolding visit_blocks
  visit_blocks-cost flags [] = omega arith
  visit_blocks-cost flags (bb ∷ bbs) = ground (
    arith,
    visit_insts-cost flags bb.insts,
    visit_blocks-cost (visit_insts nv flags bb.insts).flags bbs,
  )

  mark_loop-AllSettled :
      (fuel : ℕ) (flags : ℕ → Bool) (bbs : List BasicBlock)
      → unmarked nv flags < fuel
      → AllSettled nv (mark_loop nv fuel flags bbs).flags (mark_loop nv fuel flags bbs).visited
  unfolding mark_loop
  mark_loop-AllSettled zero flags bbs l = absurd (omega arith)
  mark_loop-AllSettled (suc fuel) flags bbs l =
      elim (Bool-cases (visit_blocks nv flags bbs).changed) [
        | inl more ↦ rw more (mark_loop-AllSettled fuel _ _ (less more))
        | inr done ↦
            let (same, all) = visit_blocks-AllSettled flags bbs done in
            rw done
              (subst (λ f. AllSettled nv f (visit_blocks nv flags bbs).visited) (sym same) all)
      ]
    where
      less :
          (visit_blocks nv flags bbs).changed ≡ true
          → unmarked nv (visit_blocks nv flags bbs).flags < fuel
      less more = ground (arith, visit_blocks-cost flags bbs, more)

  unmarked-none : (n : ℕ) → unmarked n (λ r. false) ≡ n
  unfolding unmarked
  unmarked-none zero = refl
  unmarked-none (suc n) = omega (arith, unmarked-none n)

-- The loop of markUnsignedDiv ends within a round a register and one more; then no instruction has a
-- destination that is still to be flagged, and every division that the flags allow is marked.
pub mark_all-AllSettled :
    (nv : ℕ) (bbs : List BasicBlock)
    → AllSettled nv (mark_all nv bbs).flags (mark_all nv bbs).visited
mark_all-AllSettled nv bbs =
    mark_loop-AllSettled nv (suc nv) (λ r. false) bbs (omega (arith, unmarked-none nv nv))
