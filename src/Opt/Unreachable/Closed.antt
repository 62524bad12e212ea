-- ===== src/Opt/Unreachable/Closed.antt =====
-- The search of unreachableElim ends and marks every successor of a marked block.
use toy_c_cp.Prelude.{
  ℕ, zero, suc, ◌+◌, ◌<◌, ◌≤◌, ◌≡◌, refl, ap, ◌∙◌, subst, ltb→lt, Bool, true, false, not, ◌&&◌,
  List, [], ◌∷◌, arith, ltb, ◌==◌, if◌then◌else◌, length, Bool-cases, inl, inr, ◌⊎◌,
}
use toy_c_cp.Ir.{BasicBlock}
use toy_c_cp.Opt.Unreachable.{Worklist, set_flag, visit, visit_all, succs_at, search_from, reached}

-- How many of the blocks below `n` are not marked.
unfoldable pub unmarked : ℕ → (ℕ → Bool) → ℕ
unmarked zero reach = 0
unmarked (suc n) reach = (if reach n then 0 else 1) + unmarked n reach

unmarked-outside :
    (n k : ℕ) (reach : ℕ → Bool) → n ≤ k → unmarked n (set_flag reach k) ≡ unmarked n reach
unfolding unmarked
unmarked-outside zero k reach h = refl
unmarked-outside (suc n) k reach h = ground (arith, unmarked-outside n k reach)

pub unmarked-set :
    (n k : ℕ) (reach : ℕ → Bool)
    → k < n
    → reach k ≡ false
    → unmarked n (set_flag reach k) + 1 ≡ unmarked n reach
unfolding unmarked
unmarked-set zero k reach h e = absurd (omega arith)
unmarked-set (suc n) k reach h e = elim (Bool-cases (n == k)) [
  | inl same ↦
      let equal : n ≡ k = ground arith in
      let kept = unmarked-outside n k reach (omega arith) in
      let free : reach n ≡ false = ap reach equal ∙ e in rw (same, kept, free) (omega arith)
  | inr other ↦ ground (arith, unmarked-set n k reach)
]

-- What is left to do: the stack and the blocks that are not marked.
abbrev left : ℕ → Worklist → ℕ
left n st = length st.stack + unmarked n st.reach

left-visit : (n k : ℕ) (st : Worklist) → left n (visit n k st) ≡ left n st
unfolding visit
left-visit n k st = elim (Bool-cases (ltb k n)) [
  | inl below ↦ elim (Bool-cases (st.reach k)) [
    | inl marked ↦ rw (below, marked)
    | inr free ↦
        let fewer = unmarked-set n k st.reach (ltb→lt k n below) free in
        rw (below, free) (omega arith)
  ]
  | inr out ↦ rw out
]

left-visit_all : (n : ℕ) (ks : List ℕ) (st : Worklist) → left n (visit_all n ks st) ≡ left n st
unfolding visit_all
left-visit_all n [] st = refl
left-visit_all n (k ∷ ks) st = left-visit_all n ks (visit n k st) ∙ left-visit n k st

abbrev pub Mem : ℕ → List ℕ → Type 0
Mem x [] = ⊥
Mem x (y ∷ ys) = (x ≡ y) ⊎ Mem x ys

module _ (n : ℕ) where
  visit-keeps : (k x : ℕ) (st : Worklist) → st.reach x ≡ true → (visit n k st).reach x ≡ true
  unfolding visit
  visit-keeps k x st h = ground arith

  visit-marks : (k : ℕ) (st : Worklist) → k < n → (visit n k st).reach k ≡ true
  unfolding visit
  visit-marks k st h = ground arith

  visit-stays : (k x : ℕ) (st : Worklist) → Mem x st.stack → Mem x (visit n k st).stack
  unfolding visit
  visit-stays k x st h = elim (Bool-cases (ltb k n && not (st.reach k))) [
    | inl new ↦ rw new (inr h)
    | inr old ↦ rw old h
  ]

  visit-new :
      (k x : ℕ) (st : Worklist)
      → (visit n k st).reach x ≡ true
      → (st.reach x ≡ true) ⊎ Mem x (visit n k st).stack
  unfolding visit
  visit-new k x st h = elim (Bool-cases (ltb k n && not (st.reach k))) [
    | inl new ↦ rw new (elim (Bool-cases (x == k)) [
      | inl same ↦ inr (inl (ground arith))
      | inr other ↦ inl (rw (new, other) at h)
    ])
    | inr old ↦ inl (rw old at h)
  ]

  visit_all-keeps :
      (ks : List ℕ) (x : ℕ) (st : Worklist) → st.reach x ≡ true → (visit_all n ks st).reach x ≡ true
  unfolding visit_all
  visit_all-keeps [] x st h = h
  visit_all-keeps (k ∷ ks) x st h = visit_all-keeps ks x (visit n k st) (visit-keeps k x st h)

  visit_all-marks :
      (ks : List ℕ) (x : ℕ) (st : Worklist) → Mem x ks → x < n → (visit_all n ks st).reach x ≡ true
  unfolding visit_all
  visit_all-marks [] x st m h = absurd m
  visit_all-marks (k ∷ ks) x st (inl e) h =
      visit_all-keeps ks x (visit n k st)
        (subst (λ y. (visit n y st).reach x ≡ true) e (visit-marks x st h))
  visit_all-marks (k ∷ ks) x st (inr m) h = visit_all-marks ks x (visit n k st) m h

  visit_all-stays :
      (ks : List ℕ) (x : ℕ) (st : Worklist) → Mem x st.stack → Mem x (visit_all n ks st).stack
  unfolding visit_all
  visit_all-stays [] x st h = h
  visit_all-stays (k ∷ ks) x st h = visit_all-stays ks x (visit n k st) (visit-stays k x st h)

  visit_all-new :
      (ks : List ℕ) (x : ℕ) (st : Worklist)
      → (visit_all n ks st).reach x ≡ true
      → (st.reach x ≡ true) ⊎ Mem x (visit_all n ks st).stack
  unfolding visit_all
  visit_all-new [] x st h = inl h
  visit_all-new (k ∷ ks) x st h = elim (visit_all-new ks x (visit n k st) h) [
    | inr m ↦ inr m
    | inl r ↦ elim (visit-new k x st r) [
      | inl old ↦ inl old
      | inr m ↦ inr (visit_all-stays ks x (visit n k st) m)
    ]
  ]

-- Each marked block is on the stack, or its successors are marked.
abbrev Pending : List BasicBlock → (ℕ → Bool) → List ℕ → Type 0
Pending bbs reach stack =
    (x : ℕ)
    → reach x ≡ true
    → Mem x stack ⊎ ((k : ℕ) → Mem k (succs_at bbs x) → k < length bbs → reach k ≡ true)

abbrev popped : List BasicBlock → ℕ → (ℕ → Bool) → List ℕ → Worklist
popped bbs b reach stack =
    visit_all (length bbs) (succs_at bbs b) (record { reach = reach; stack = stack })

popped-Pending :
    (bbs : List BasicBlock) (b : ℕ) (reach : ℕ → Bool) (stack : List ℕ)
    → Pending bbs reach (b ∷ stack)
    → Pending bbs (popped bbs b reach stack).reach (popped bbs b reach stack).stack
popped-Pending bbs b reach stack h x r =
    let n = length bbs in
    let before : Worklist = record { reach = reach; stack = stack } in
    elim (visit_all-new n (succs_at bbs b) x before r) [
      | inr m ↦ inl m
      | inl old ↦ elim (h x old) [
        | inl (inl e) ↦ inr λ k m l.
            visit_all-marks n (succs_at bbs b) k before (subst (λ y. Mem k (succs_at bbs y)) e m) l
        | inl (inr m) ↦ inl (visit_all-stays n (succs_at bbs b) x before m)
        | inr closed ↦ inr λ k m l. visit_all-keeps n (succs_at bbs b) k before (closed k m l)
      ]
    ]

abbrev pub Closed : List BasicBlock → (ℕ → Bool) → Type 0
Closed bbs reach =
    (x k : ℕ) → reach x ≡ true → Mem k (succs_at bbs x) → k < length bbs → reach k ≡ true

search_from-Closed :
    (fuel : ℕ) (bbs : List BasicBlock) (reach : ℕ → Bool) (stack : List ℕ)
    → length stack + unmarked (length bbs) reach ≤ fuel
    → Pending bbs reach stack
    → Closed bbs (search_from fuel bbs reach stack)
unfolding search_from
search_from-Closed fuel bbs reach [] l h =
    λ x k r m b. elim (h x r) [ inl e ↦ absurd e | inr closed ↦ closed k m b ]
search_from-Closed zero bbs reach (b ∷ stack) l h = absurd (omega arith)
search_from-Closed (suc fuel) bbs reach (b ∷ stack) l h =
    let st = popped bbs b reach stack in
    let same =
      left-visit_all (length bbs) (succs_at bbs b) (record { reach = reach; stack = stack }) in
    search_from-Closed fuel bbs st.reach st.stack (omega arith) (popped-Pending bbs b reach stack h)

search_from-keeps :
    (fuel : ℕ) (bbs : List BasicBlock) (reach : ℕ → Bool) (stack : List ℕ) (x : ℕ)
    → reach x ≡ true
    → search_from fuel bbs reach stack x ≡ true
unfolding search_from
search_from-keeps fuel bbs reach [] x h = h
search_from-keeps zero bbs reach (b ∷ stack) x h = h
search_from-keeps (suc fuel) bbs reach (b ∷ stack) x h =
    let st = popped bbs b reach stack in
    search_from-keeps fuel bbs st.reach st.stack x
      (visit_all-keeps (length bbs) (succs_at bbs b) x (record { reach = reach; stack = stack }) h)

unmarked-entry : (n : ℕ) → unmarked (suc n) (λ x. x == 0) ≡ n
unfolding unmarked
unmarked-entry zero = refl
unmarked-entry (suc n) = ground (arith, unmarked-entry n)

entry-Pending : (bbs : List BasicBlock) → Pending bbs (λ x. x == 0) (0 ∷ [])
entry-Pending bbs x h = inl (inl (ground arith))

-- Every successor of a marked block is marked, and the entry is.
pub reached-Closed : (bbs : List BasicBlock) → Closed bbs (reached bbs)
unfolding reached
reached-Closed [] = λ x k r m l. absurd (omega arith)
reached-Closed (bb ∷ bbs) =
    search_from-Closed (suc (length bbs)) (bb ∷ bbs) (λ x. x == 0) (0 ∷ [])
      (omega (arith, unmarked-entry (length bbs))) (entry-Pending (bb ∷ bbs))

pub reached-entry : (bbs : List BasicBlock) → reached bbs 0 ≡ true
unfolding reached
reached-entry bbs = search_from-keeps (length bbs) bbs (λ x. x == 0) (0 ∷ []) 0 refl
