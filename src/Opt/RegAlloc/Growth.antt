-- ===== src/Opt/RegAlloc/Growth.antt =====
-- A round of the liveness analysis only adds flags, and one that changes something adds one at least.
use toy_c_cp.Prelude.{
  ℕ, zero, suc, ◌+◌, ◌<◌, ◌≤◌, ◌≡◌, refl, ap, sym, subst, true, false, some, List, [], ◌∷◌, ◌==◌,
  if◌then◌else◌, length, get_elem?, get_elem?-below, arith, Bool-cases, inl, inr,
}
use toy_c_cp.Ir.{BasicBlock, succs_of}
use toy_c_cp.Opt.RegAlloc.Liveness.{
  Flags, Liveness, any_of, put, differ, out_of, in_of, update, round_from,
}

abbrev pub Le : Flags → Flags → Type 0
Le f g = (v : ℕ) → f v ≡ true → g v ≡ true

-- The flags below a bound that are not set.
unfoldable pub unset : ℕ → Flags → ℕ
unset zero f = 0
unset (suc n) f = (if f n then 0 else 1) + unset n f

unset-Le : (n : ℕ) (f g : Flags) → Le f g → unset n g ≤ unset n f
unfolding unset
unset-Le zero f g h = omega arith
unset-Le (suc n) f g h = ground (arith, h n, unset-Le n f g h)

unset-differ : (n : ℕ) (f g : Flags) → Le f g → differ n g f ≡ true → unset n g < unset n f
unfolding unset differ
unset-differ zero f g h d = cc
unset-differ (suc n) f g h d = ground (arith, h n, unset-Le n f g h, unset-differ n f g h)

pub differ-same : (n v : ℕ) (f g : Flags) → differ n f g ≡ false → v < n → f v ≡ g v
unfolding differ
differ-same zero v f g d l = absurd (omega arith)
differ-same (suc n) v f g d l = elim (Bool-cases (v == n)) [
  | inl same ↦ let e : v ≡ n = ground arith in subst (λ z. f z ≡ g z) (sym e) (ground arith)
  | inr other ↦ differ-same n v f g (ground arith) (ground arith)
]

any_of-Le :
    (ss : List ℕ) (f g : ℕ → Flags) → ((k : ℕ) → Le (f k) (g k)) → Le (any_of ss f) (any_of ss g)
unfolding any_of
any_of-Le [] f g h v e = cc
any_of-Le (s ∷ ss) f g h v e = ground (arith, h s v, any_of-Le ss f g h v)

-- More is live in the second.
abbrev pub Grown : Liveness → Liveness → Type 0
Grown st new = (k : ℕ) → Le (st.live_in k) (new.live_in k) × Le (st.live_out k) (new.live_out k)

module _ (nv : ℕ) where
  out_of-Le :
      (bb : BasicBlock) (f g : ℕ → Flags)
      → ((k : ℕ) → Le (f k) (g k))
      → Le (out_of nv bb f) (out_of nv bb g)
  unfolding out_of
  out_of-Le bb f g h v e = ground (arith, any_of-Le (succs_of bb) f g h v)

  in_of-Le : (bb : BasicBlock) (f g : Flags) → Le f g → Le (in_of nv bb f) (in_of nv bb g)
  unfolding in_of
  in_of-Le bb f g h v e = ground (arith, h v)

  -- What is live is so by the equations.
  abbrev pub Justified : List BasicBlock → Liveness → Type 0
  Justified bbs st =
      (k : ℕ) (bb : BasicBlock)
      → get_elem? bbs k ≡ some bb
      → Le (st.live_out k) (out_of nv bb st.live_in)
        × Le (st.live_in k) (in_of nv bb (st.live_out k))

  module _ (bbs : List BasicBlock) where
    put-Le : (b k : ℕ) (f : Flags) (all : ℕ → Flags) → Le (all b) f → Le (all k) (put b f all k)
    put-Le b k f all h v e = elim (Bool-cases (k == b)) [
      | inl same ↦ let p : k ≡ b = ground arith in rw same (h v (subst (λ z. all z v ≡ true) p e))
      | inr other ↦ rw other e
    ]

    update-Grown :
        (b : ℕ) (bb : BasicBlock) (st : Liveness)
        → get_elem? bbs b ≡ some bb
        → Justified bbs st
        → Grown st (update nv b bb st).1
    unfolding update
    update-Grown b bb st p h k = (
      put-Le b k (in_of nv bb (out_of nv bb st.live_in)) st.live_in (λ v e.
          in_of-Le bb (st.live_out b) (out_of nv bb st.live_in) (h b bb p).0 v ((h b bb p).1 v e)),
      put-Le b k (out_of nv bb st.live_in) st.live_out (h b bb p).0,
    )

    update-Justified :
        (b : ℕ) (bb : BasicBlock) (st : Liveness)
        → get_elem? bbs b ≡ some bb
        → Justified bbs st
        → Justified bbs (update nv b bb st).1
    unfolding update
    update-Justified b bb st p h k c q = elim (Bool-cases (k == b)) [
      | inl same ↦
          let e : k ≡ b = ground arith in
          let found : c ≡ bb = cc (ap (get_elem? bbs) e) in
          (
            λ v d.
                subst (λ z. out_of nv z new.live_in v ≡ true) (sym found)
                  (out_of-Le bb st.live_in new.live_in grown v (rw same at d)),
            λ v d. rw same (
                subst (λ z. in_of nv z (out_of nv bb st.live_in) v ≡ true) (sym found)
                  (rw same at d)),
          )
      | inr other ↦ (
        λ v e. out_of-Le c st.live_in new.live_in grown v ((h k c q).0 v (rw other at e)),
        λ v d. rw other ((h k c q).1 v (rw other at d)),
      )
    ]
      where
        new : Liveness
        new = (update nv b bb st).1

        grown : (j : ℕ) → Le (st.live_in j) (new.live_in j)
        grown j = (update-Grown b bb st p h j).0

    -- The blocks from a number on.
    abbrev pub Suffix : ℕ → List BasicBlock → Type 0
    Suffix b cs =
        (k : ℕ) (c : BasicBlock) → get_elem? cs k ≡ some c → get_elem? bbs (b + k) ≡ some c

    Suffix-head :
        (b : ℕ) (c : BasicBlock) (cs : List BasicBlock)
        → Suffix b (c ∷ cs)
        → get_elem? bbs b ≡ some c
    Suffix-head b c cs s = subst (λ n. get_elem? bbs n ≡ some c) (omega arith) (s 0 c refl)

    Suffix-tail :
        (b : ℕ) (c : BasicBlock) (cs : List BasicBlock) → Suffix b (c ∷ cs) → Suffix (b + 1) cs
    Suffix-tail b c cs s k d p = subst (λ n. get_elem? bbs n ≡ some d) (omega arith) (s (suc k) d p)

    pub round-Justified :
        (b : ℕ) (cs : List BasicBlock) (st : Liveness)
        → Suffix b cs
        → Justified bbs st
        → Justified bbs (round_from nv b cs st).1
    unfolding round_from
    round-Justified b [] st s h = h
    round-Justified b (c ∷ cs) st s h =
        update-Justified b c _ (Suffix-head b c cs s)
          (round-Justified (b + 1) cs st (Suffix-tail b c cs s) h)

  -- The flags that are not set, of so many blocks.
  unfoldable pub total : ℕ → Liveness → ℕ
  total zero st = 0
  total (suc n) st = unset nv (st.live_in n) + unset nv (st.live_out n) + total n st

  total-Grown : (n : ℕ) (st new : Liveness) → Grown st new → total n new ≤ total n st
  unfolding total
  total-Grown zero st new h = omega arith
  total-Grown (suc n) st new h =
      omega (arith, unset-Le nv _ _ (h n).0, unset-Le nv _ _ (h n).1, total-Grown n st new h)

  total-less :
      (n b : ℕ) (st new : Liveness)
      → Grown st new
      → b < n
      → unset nv (new.live_in b) + unset nv (new.live_out b)
        < unset nv (st.live_in b) + unset nv (st.live_out b)
      → total n new < total n st
  unfolding total
  total-less zero b st new h l d = absurd (omega arith)
  total-less (suc n) b st new h l d = elim (Bool-cases (b == n)) [
    | inl same ↦
        let e : b ≡ n = ground arith in
        let at_n =
          subst
            (λ z.
              unset nv (new.live_in z) + unset nv (new.live_out z)
              < unset nv (st.live_in z) + unset nv (st.live_out z))
            e d in
        omega (arith, at_n, total-Grown n st new h)
    | inr other ↦ omega (
      arith,
      unset-Le nv _ _ (h n).0,
      unset-Le nv _ _ (h n).1,
      total-less n b st new h (ground arith) d,
    )
  ]

  update-less :
      (bbs : List BasicBlock) (b : ℕ) (bb : BasicBlock) (st : Liveness)
      → get_elem? bbs b ≡ some bb
      → Justified bbs st
      → (update nv b bb st).0 ≡ true
      → total (length bbs) (update nv b bb st).1 < total (length bbs) st
  unfolding update
  update-less bbs b bb st p h d =
      total-less (length bbs) b st (update nv b bb st).1 (update-Grown bbs b bb st p h)
        (get_elem?-below bbs b p)
        (rw self (elim (Bool-cases (differ nv out (st.live_out b))) [
          | inl changed ↦ omega (
            arith,
            unset-differ nv (st.live_out b) out more_out changed,
            unset-Le nv (st.live_in b) in_ more_in,
          )
          | inr kept ↦ omega (
            arith,
            unset-Le nv (st.live_out b) out more_out,
            unset-differ nv (st.live_in b) in_ more_in (rw kept at d),
          )
        ]))
    where
      self : (b == b) ≡ true
      self = ground arith

      out : Flags
      out = out_of nv bb st.live_in

      in_ : Flags
      in_ = in_of nv bb out

      more_out : Le (st.live_out b) out
      more_out = (h b bb p).0

      more_in : Le (st.live_in b) in_
      more_in v e = in_of-Le bb (st.live_out b) out more_out v ((h b bb p).1 v e)

  round-le :
      (bbs : List BasicBlock) (b : ℕ) (cs : List BasicBlock) (st : Liveness)
      → Suffix bbs b cs
      → Justified bbs st
      → total (length bbs) (round_from nv b cs st).1 ≤ total (length bbs) st
  unfolding round_from
  round-le bbs b [] st s h = omega arith
  round-le bbs b (c ∷ cs) st s h = omega (
    arith,
    round-le bbs (b + 1) cs st (Suffix-tail bbs b c cs s) h,
    total-Grown (length bbs) _ _ (
        update-Grown bbs b c (round_from nv (b + 1) cs st).1 (Suffix-head bbs b c cs s)
          (round-Justified bbs (b + 1) cs st (Suffix-tail bbs b c cs s) h)),
  )

  pub round-less :
      (bbs : List BasicBlock) (b : ℕ) (cs : List BasicBlock) (st : Liveness)
      → Suffix bbs b cs
      → Justified bbs st
      → (round_from nv b cs st).0 ≡ true
      → total (length bbs) (round_from nv b cs st).1 < total (length bbs) st
  unfolding round_from
  round-less bbs b [] st s h d = cc
  round-less bbs b (c ∷ cs) st s h d = elim (Bool-cases (round_from nv (b + 1) cs st).0) [
    | inl changed ↦ omega (
      arith,
      round-less bbs (b + 1) cs st (Suffix-tail bbs b c cs s) h changed,
      total-Grown (length bbs) _ _
          (update-Grown bbs b c (round_from nv (b + 1) cs st).1 (Suffix-head bbs b c cs s) later),
    )
    | inr kept ↦ omega (
      arith,
      round-le bbs (b + 1) cs st (Suffix-tail bbs b c cs s) h,
      update-less bbs b c (round_from nv (b + 1) cs st).1 (Suffix-head bbs b c cs s) later
          (rw kept at d),
    )
  ]
    where
      later : Justified bbs (round_from nv (b + 1) cs st).1
      later = round-Justified bbs (b + 1) cs st (Suffix-tail bbs b c cs s) h
