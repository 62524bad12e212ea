-- ===== src/Ir/Meaning/Refine.antt =====
-- When one list of blocks may stand for another: block by block, from related stores.
use toy_c_cp.Prelude.{
  ℕ, zero, suc, ◌≡◌, refl, Bool, Option, none, some, List, [], ◌∷◌, get_elem?, arith,
}
use mathlib.Core.Path.{subst}
use mathlib.Core.Option.{some-injective}
use toy_c_cp.Ir.{Val, Term, BasicBlock}
use toy_c_cp.Ir.Meaning.{
  Store, Callee, Outcome, goto, returned, bind, exec_block, run, resume, finish,
}

pub bind-eq-some {ℓ κ} :
    {A : Type ℓ} {B : Type κ} (m : Option A) (f : A → Option B) {b : B}
    → bind m f ≡ some b
    → (a : A) × (m ≡ some a) × (f a ≡ some b)
bind-eq-some none f h = absurd (cc)
bind-eq-some (some a) f h = (a, refl, h)

-- A terminator does not touch the store.
pub finish-goto :
    (tm : Term) (c : Val) (s0 s1 : Option ℕ) (has : Bool) (rv : Val) (t : Store) (n : ℕ) (s : Store)
    → finish tm c s0 s1 has rv t ≡ some (goto n s)
    → t ≡ s
unfolding finish
finish-goto tm c s0 s1 has rv t n s e = ground arith

module _ (callee : Callee) (R : Store → Store → Type 0) where
  abbrev pub Related : Outcome → Outcome → Type 0
  Related (goto n s) (goto m t) = (n ≡ m) × R s t
  Related (returned v s) (returned w t) = (v ≡ w) × (s.globals ≡ t.globals)
  Related _ _ = ⊥

  -- Every outcome of the first block is one of the second.
  abbrev pub BlockRefines : BasicBlock → BasicBlock → Type 0
  BlockRefines x y =
      (s t : Store)
      → R s t
      → (o : Outcome) → exec_block callee x s ≡ some o
      → (p : Outcome) × (exec_block callee y t ≡ some p) × Related o p

  abbrev pub Refines : List BasicBlock → List BasicBlock → Type 0
  Refines [] [] = Unit
  Refines (x ∷ xs) (y ∷ ys) = BlockRefines x y × Refines xs ys
  Refines _ _ = ⊥

  block_at :
      (xs ys : List BasicBlock)
      → Refines xs ys
      → (n : ℕ) {x : BasicBlock} → get_elem? xs n ≡ some x
      → (y : BasicBlock) × (get_elem? ys n ≡ some y) × BlockRefines x y
  block_at [] ys h n e = absurd (cc)
  block_at (x ∷ xs) [] h n e = absurd h
  block_at (x ∷ xs) (y ∷ ys) h zero e =
      (y, refl, subst (λ z. BlockRefines z y) (some-injective _ _ e) h.0)
  block_at (x ∷ xs) (y ∷ ys) h (suc n) e = block_at xs ys h.1 n e

  resume-Related :
      (k l : ℕ → Store → Option (Option ℕ × (ℕ → ℕ))) {r : Option ℕ × (ℕ → ℕ)}
      → ((n : ℕ) (s t : Store) → R s t → k n s ≡ some r → l n t ≡ some r)
      → (o p : Outcome) → Related o p
      → resume callee k o ≡ some r
      → resume callee l p ≡ some r
  resume-Related k l ih (goto n s) (goto m t) rel e = rw (← rel.0) (ih n s t rel.1 e)
  resume-Related k l ih (goto n s) (returned v t) rel e = absurd rel
  resume-Related k l ih (returned v s) (goto m t) rel e = absurd rel
  resume-Related k l ih (returned v s) (returned w t) rel e = rw (← rel.0, ← rel.1) e

  -- A run of the first list that ends is matched by a run of the second with the same result.
  pub run-Refines :
      (fuel : ℕ) (xs ys : List BasicBlock)
      → Refines xs ys
      → (n : ℕ) (s t : Store) → R s t
      → {r : Option ℕ × (ℕ → ℕ)} → run callee fuel xs n s ≡ some r
      → run callee fuel ys n t ≡ some r
  unfolding run
  run-Refines zero xs ys h n s t rel e = absurd (cc)
  run-Refines (suc fuel) xs ys h n s t rel {r} e =
      let (x, ex, e1) = bind-eq-some (get_elem? xs n) _ e in
      let (o, eo, e2) =
        bind-eq-some (exec_block callee x s) (resume callee (run callee fuel xs)) e1 in
      let (y, ey, sim) = block_at xs ys h n ex in
      let (p, ep, rel') = sim s t rel o eo in
      let ih = λ (m : ℕ) (u v : Store) (q : R u v) (w : run callee fuel xs m u ≡ some r).
        run-Refines fuel xs ys h m u v q w in
      rw (ey, ep) (resume-Related (run callee fuel xs) (run callee fuel ys) ih o p rel' e2)

pub bind_congr :
    {A B : Type 0} (m : Option A) (f g : A → Option B)
    → ((a : A) → m ≡ some a → f a ≡ g a)
    → bind m f ≡ bind m g
bind_congr none f g h = refl
bind_congr (some a) f g h = h a refl
