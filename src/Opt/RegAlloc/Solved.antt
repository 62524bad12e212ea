-- ===== src/Opt/RegAlloc/Solved.antt =====
-- The loop of the liveness analysis ends, and its result solves the equations of the analysis.
use toy_c_cp.Prelude.{
  ℕ, zero, suc, ◌+◌, ◌*◌, ◌<◌, ◌≡◌, refl, ap, sym, ◌∙◌, subst, false, not, ◌&&◌, ◌||◌, some, List,
  [], ◌∷◌, ltb, ◌==◌, length, get_elem?, arith, Bool-cases, inl, inr,
}
use toy_c_cp.Ir.{BasicBlock, IrFunc, succs_of}
use toy_c_cp.Opt.RegAlloc.Liveness.{
  Flags, no_flags, Liveness, any_of, put, differ, block_sets, out_of, in_of, update, round_from,
  live_loop, nothing_live, liveness,
}
use toy_c_cp.Opt.RegAlloc.Growth.{
  Justified, Suffix, total, unset, round-Justified, round-less, differ-same,
}

module _ (nv : ℕ) where
  -- The equations of a block, on the registers of the function.
  abbrev pub Equations : ℕ → BasicBlock → Liveness → Type 0
  Equations k bb st =
      (v : ℕ)
      → v < nv
      → (st.live_out k v ≡ out_of nv bb st.live_in v)
        × (st.live_in k v ≡ in_of nv bb (st.live_out k) v)

  abbrev Alike : Liveness → Liveness → Type 0
  Alike st new =
      (k v : ℕ) → v < nv → (st.live_in k v ≡ new.live_in k v) × (st.live_out k v ≡ new.live_out k v)

  any_of-same :
      (ss : List ℕ) (f g : ℕ → Flags) (v : ℕ)
      → ((k : ℕ) → f k v ≡ g k v)
      → any_of ss f v ≡ any_of ss g v
  unfolding any_of
  any_of-same [] f g v h = refl
  any_of-same (s ∷ ss) f g v h = rw (h s, any_of-same ss f g v h)

  Equations-Alike :
      (k : ℕ) (bb : BasicBlock) (st new : Liveness)
      → Alike st new
      → Equations k bb st
      → Equations k bb new
  unfolding out_of in_of
  Equations-Alike k bb st new s h v l = (
    sym (s k v l).1
        ∙ (h v l).0
        ∙ ap (λ x. ltb v nv && x)
            (any_of-same (succs_of bb) st.live_in new.live_in v (λ j. (s j v l).0)),
    sym (s k v l).0
        ∙ (h v l).1
        ∙ ap (λ x. ltb v nv && ((block_sets bb).uses v || (x && not ((block_sets bb).defs v))))
            (s k v l).1,
  )

  put-same : (b k v : ℕ) (f : Flags) (all : ℕ → Flags) → f v ≡ all b v → all k v ≡ put b f all k v
  put-same b k v f all h = elim (Bool-cases (k == b)) [
    | inl same ↦ let e : k ≡ b = ground arith in rw same (ap (λ z. all z v) e ∙ sym h)
    | inr other ↦ rw other refl
  ]

  update-kept :
      (b : ℕ) (bb : BasicBlock) (st : Liveness)
      → (update nv b bb st).0 ≡ false
      → Alike st (update nv b bb st).1 × Equations b bb st
  unfolding update in_of
  update-kept b bb st d = (
    λ k v l. (
      put-same b k v in_ st.live_in (same_in v l),
      put-same b k v out st.live_out (same_out v l),
    ),
    λ v l. (
      sym (same_out v l),
      sym (same_in v l)
          ∙ ap (λ x. ltb v nv && ((block_sets bb).uses v || (x && not ((block_sets bb).defs v))))
              (same_out v l),
    ),
  )
    where
      out : Flags
      out = out_of nv bb st.live_in

      in_ : Flags
      in_ = in_of nv bb out

      kept : (differ nv out (st.live_out b) || differ nv in_ (st.live_in b)) ≡ false
      kept = d

      same_out : (v : ℕ) → v < nv → out v ≡ st.live_out b v
      same_out v l = differ-same nv v out (st.live_out b) (ground (arith, kept)) l

      same_in : (v : ℕ) → v < nv → in_ v ≡ st.live_in b v
      same_in v l = differ-same nv v in_ (st.live_in b) (ground (arith, kept)) l

  -- The equations of the blocks from a number on.
  abbrev AllEquations : ℕ → List BasicBlock → Liveness → Type 0
  AllEquations b cs st = (k : ℕ) (c : BasicBlock) → get_elem? cs k ≡ some c → Equations (b + k) c st

  round-kept :
      (b : ℕ) (cs : List BasicBlock) (st : Liveness)
      → (round_from nv b cs st).0 ≡ false
      → Alike st (round_from nv b cs st).1 × AllEquations b cs (round_from nv b cs st).1
  unfolding round_from
  round-kept b [] st d = (λ k v l. (refl, refl), λ k c p. cc)
  round-kept b (c ∷ cs) st d =
      let later = round-kept (b + 1) cs st (ground (arith, d)) in
      let this = update-kept b c (round_from nv (b + 1) cs st).1 (ground (arith, d)) in
      (
        λ k v l. ((later.0 k v l).0 ∙ (this.0 k v l).0, (later.0 k v l).1 ∙ (this.0 k v l).1),
        λ k e p. here k e p later this,
      )
    where
      mid : Liveness
      mid = (round_from nv (b + 1) cs st).1

      new : Liveness
      new = (update nv b c mid).1

      same : {e : BasicBlock} → some c ≡ some e → c ≡ e
      same p = cc

      here :
          (k : ℕ) (e : BasicBlock)
          → get_elem? (c ∷ cs) k ≡ some e
          → Alike st mid × AllEquations (b + 1) cs mid
          → Alike mid new × Equations b c mid
          → Equations (b + k) e new
      here zero e p later this =
          subst (λ n. Equations n e new) (omega arith)
            (subst (λ z. Equations b z new) (same p) (Equations-Alike b c mid new this.0 this.1))
      here (suc k) e p later this =
          subst (λ n. Equations n e new) (omega arith)
            (Equations-Alike (b + 1 + k) e mid new this.0 (later.1 k e p))

  live_loop-equations :
      (fuel : ℕ) (bbs : List BasicBlock) (st : Liveness)
      → total nv (length bbs) st < fuel
      → Justified nv bbs st
      → AllEquations 0 bbs (live_loop nv fuel bbs st)
  unfolding live_loop
  live_loop-equations zero bbs st l h = absurd (omega arith)
  live_loop-equations (suc fuel) bbs st l h = elim (Bool-cases (round_from nv 0 bbs st).0) [
    | inl changed ↦ rw changed (
        live_loop-equations fuel bbs (round_from nv 0 bbs st).1
          (omega (arith, round-less nv bbs 0 bbs st whole h changed))
          (round-Justified nv bbs 0 bbs st whole h))
    | inr kept ↦ rw kept ((round-kept 0 bbs st kept).1)
  ]
    where
      whole : Suffix nv bbs 0 bbs
      whole k c p = subst (λ n. get_elem? bbs n ≡ some c) (omega arith) p

  unset-none : (n : ℕ) → unset n no_flags ≡ n
  unfolding unset
  unset-none zero = refl
  unset-none (suc n) = omega (arith, unset-none n)

  total-none : (n : ℕ) → total nv n nothing_live ≡ 2 * (n * nv)
  unfolding total
  total-none zero = omega arith
  total-none (suc n) = rw (unset-none nv, total-none n) (grind arith)

-- The loop of the analysis ends, and in its result each block satisfies the two equations.
pub liveness-Equations :
    (fn : IrFunc) (k : ℕ) (bb : BasicBlock)
    → get_elem? fn.blocks k ≡ some bb
    → Equations fn.num_vregs k bb (liveness fn)
unfolding liveness
liveness-Equations fn k bb p =
    subst (λ n. Equations fn.num_vregs n bb (liveness fn)) {x = 0 + k} (omega arith)
      (live_loop-equations fn.num_vregs (suc (2 * (length fn.blocks * fn.num_vregs))) fn.blocks
        nothing_live (omega (arith, total-none fn.num_vregs (length fn.blocks)))
        (λ j c q. (λ v e. cc, λ v e. cc)) k bb p)
