-- ===== src/Opt/RegAlloc/Valid.antt =====
-- The choice of registers: what a graph asks of an allocation, and that the colouring gives it.
use toy_c_cp.Prelude.{
  ℕ, zero, suc, ◌+◌, ◌<◌, ◌≤◌, ◌≡◌, ◌≢◌, refl, sym, ◌∙◌, subst, Bool, true, false, Option, none,
  some, List, [], ◌∷◌, ltb, ◌==◌, arith, Bool-cases, inl, inr, ◌⊎◌,
}
use toy_c_cp.Rv.Pools.{is_callee_saved}
use toy_c_cp.Opt.Dce.{use_count}
use toy_c_cp.Opt.RegAlloc.Liveness.{Flags}
use toy_c_cp.Opt.RegAlloc.Graph.{Graph, members, members_from}
use toy_c_cp.Opt.RegAlloc.Colour.{
  Allocation, allowed_regs, used_by, has, pick, write, assign, colour, no_allocation, all_vregs,
  degree, allocate_with,
}
use toy_c_cp.Ir.{IrFunc}
use toy_c_cp.Opt.RegAlloc.Choice.{pick-Free, has-callee, free_neighbour}

abbrev pub Symmetric : (ℕ → Flags) → Type 0
Symmetric adj = (x y : ℕ) → adj x y ≡ true → adj y x ≡ true

abbrev pub Irreflexive : (ℕ → Flags) → Type 0
Irreflexive adj = (x : ℕ) → adj x x ≡ false

-- Neighbours have different registers.
abbrev pub Apart : ℕ → Graph → (ℕ → Option ℕ) → Type 0
Apart nv g reg = (x y c : ℕ) → x < nv → y < nv → g.adj x y ≡ true → reg x ≡ some c → reg y ≢ some c

-- What lives across a call is in a register that the callee saves.
abbrev pub Kept : Graph → (ℕ → Option ℕ) → Type 0
Kept g reg = (x c : ℕ) → g.call_cross x ≡ true → reg x ≡ some c → is_callee_saved c ≡ true

-- Every register is from one of the two pools.
abbrev pub Pooled : (ℕ → Option ℕ) → Type 0
Pooled reg = (x c : ℕ) → reg x ≡ some c → has c (allowed_regs false) ≡ true

-- Two vregs have different slots, all below the number of slots.
abbrev pub SlotsApart : Allocation → Type 0
SlotsApart a =
    ((x s : ℕ) → a.spill_slot x ≡ some s → s < a.num_spills)
    × ((x y s : ℕ) → a.spill_slot x ≡ some s → a.spill_slot y ≡ some s → x ≡ y)

-- A register or a slot, and not both.
abbrev pub Placed : Allocation → ℕ → Type 0
Placed a x =
    ((c : ℕ) × (a.reg x ≡ some c) × (a.spill_slot x ≡ none))
    ⊎ ((s : ℕ) × (a.reg x ≡ none) × (a.spill_slot x ≡ some s))

pub record Valid (nv : ℕ) (g : Graph) (a : Allocation) : Type 0 where
  pub apart : Apart nv g a.reg
  pub kept : Kept g a.reg
  pub pooled : Pooled a.reg
  pub slots : SlotsApart a
  pub placed : (x : ℕ) → x < nv → Placed a x

-- A register that is written where its neighbours do not have it.
write-Apart :
    (nv : ℕ) (g : Graph) (reg : ℕ → Option ℕ) (v c : ℕ)
    → Symmetric g.adj
    → Irreflexive g.adj
    → used_by (members nv (g.adj v)) reg c ≡ false
    → Apart nv g reg
    → Apart nv g (write v c reg)
write-Apart nv g reg v c sy ir free h x y d l m e p q = elim (Bool-cases (x == v)) [
  | inl here ↦
      let at_v = subst (λ z. g.adj z y ≡ true) (equal x here) e in
      elim (Bool-cases (y == v)) [
        | inl there ↦ cc (subst (λ z. g.adj v z ≡ true) (equal y there) at_v, ir v)
        | inr other ↦ free_neighbour nv g reg v c y free m at_v (rw other at q ∙ sym (rw here at p))
      ]
  | inr other ↦ elim (Bool-cases (y == v)) [
    | inl there ↦
        let at_v = subst (λ z. g.adj z x ≡ true) (equal y there) (sy x y e) in
        free_neighbour nv g reg v c x free l at_v (rw other at p ∙ sym (rw there at q))
    | inr others ↦ h x y d l m e (rw other at p) (rw others at q)
  ]
]
  where
    equal : (z : ℕ) → (z == v) ≡ true → z ≡ v
    equal z s = ground arith

-- The vregs that are left to colour, each once, and the others.
abbrev Progress : ℕ → List ℕ → Allocation → Type 0
Progress nv vs a =
    (x : ℕ)
    → x < nv
    → ((use_count x vs ≡ 1) × (a.reg x ≡ none) × (a.spill_slot x ≡ none))
      ⊎ ((use_count x vs ≡ 0) × Placed a x)

record Coloured (nv : ℕ) (g : Graph) (vs : List ℕ) (a : Allocation) : Type 0 where
  apart : Apart nv g a.reg
  kept : Kept g a.reg
  pooled : Pooled a.reg
  slots : SlotsApart a
  progress : Progress nv vs a

assign-Progress :
    (nv v : ℕ) (vs : List ℕ) (a : Allocation) (o : Option ℕ)
    → Progress nv (v ∷ vs) a
    → Progress nv vs (assign v o a)
unfolding use_count assign
assign-Progress nv v vs a none h x l = elim (Bool-cases (x == v)) [
  | inl here ↦ elim (h x l) [
    | inl (n, r, s) ↦ inr (ground arith, inr (a.num_spills, r, rw here refl))
    | inr (n, p) ↦ absurd (ground arith)
  ]
  | inr other ↦ elim (h x l) [
    | inl (n, r, s) ↦ inl (ground arith, r, rw other s)
    | inr (n, p) ↦ inr (ground arith, rw other p)
  ]
]
assign-Progress nv v vs a (some c) h x l = elim (Bool-cases (x == v)) [
  | inl here ↦ elim (h x l) [
    | inl (n, r, s) ↦ inr (ground arith, inl (c, rw here refl, s))
    | inr (n, p) ↦ absurd (ground arith)
  ]
  | inr other ↦ elim (h x l) [
    | inl (n, r, s) ↦ inl (ground arith, rw other r, s)
    | inr (n, p) ↦ inr (ground arith, rw other p)
  ]
]

new_slot-SlotsApart : (v : ℕ) (a : Allocation) → SlotsApart a → SlotsApart (assign v none a)
unfolding assign
new_slot-SlotsApart v a (below, apart) = (bounded, injective)
  where
    slots : ℕ → Option ℕ
    slots = write v a.num_spills a.spill_slot

    bounded : (x s : ℕ) → slots x ≡ some s → s < a.num_spills + 1
    bounded x s h = elim (Bool-cases (x == v)) [
      | inl here ↦ ground (arith, rw here at h)
      | inr other ↦ omega (arith, below x s (rw other at h))
    ]

    injective : (x y s : ℕ) → slots x ≡ some s → slots y ≡ some s → x ≡ y
    injective x y s h k = elim (Bool-cases (x == v)) [
      | inl here ↦ elim (Bool-cases (y == v)) [
        | inl there ↦ ground arith
        | inr other ↦ let l = below y s (rw other at k) in absurd (ground (arith, l, rw here at h))
      ]
      | inr other ↦ elim (Bool-cases (y == v)) [
        | inl there ↦ let l = below x s (rw other at h) in absurd (ground (arith, l, rw there at k))
        | inr others ↦ apart x y s (rw other at h) (rw others at k)
      ]
    ]

write-Kept :
    (g : Graph) (reg : ℕ → Option ℕ) (v c : ℕ)
    → has c (allowed_regs (g.call_cross v)) ≡ true
    → Kept g reg
    → Kept g (write v c reg)
write-Kept g reg v c allowed h x d crosses p = elim (Bool-cases (x == v)) [
  | inl here ↦
      let e : x ≡ v = ground arith in
      let same : c ≡ d = ground (arith, rw here at p) in
      subst (λ z. is_callee_saved z ≡ true) same
        (has-callee c (
          subst (λ b. has c (allowed_regs b) ≡ true) (subst (λ z. g.call_cross z ≡ true) e crosses)
            allowed))
  | inr other ↦ h x d crosses (rw other at p)
]

allowed_pooled :
    (b : Bool) (c : ℕ) → has c (allowed_regs b) ≡ true → has c (allowed_regs false) ≡ true
unfolding has
allowed_pooled true c h = ground arith
allowed_pooled false c h = h

write-Pooled :
    (reg : ℕ → Option ℕ) (v c : ℕ) (b : Bool)
    → has c (allowed_regs b) ≡ true
    → Pooled reg
    → Pooled (write v c reg)
write-Pooled reg v c b allowed h x d p = elim (Bool-cases (x == v)) [
  | inl here ↦
      let same : c ≡ d = ground (arith, rw here at p) in
      subst (λ z. has z (allowed_regs false) ≡ true) same (allowed_pooled b c allowed)
  | inr other ↦ h x d (rw other at p)
]

assign-Coloured :
    (nv : ℕ) (g : Graph) (v : ℕ) (vs : List ℕ) (a : Allocation) (o : Option ℕ)
    → Symmetric g.adj
    → Irreflexive g.adj
    → pick nv g a v ≡ o
    → Coloured nv g (v ∷ vs) a
    → Coloured nv g vs (assign v o a)
unfolding assign
assign-Coloured nv g v vs a none sy ir p h = record {
  apart = h.apart;
  kept = h.kept;
  pooled = h.pooled;
  slots = new_slot-SlotsApart v a h.slots;
  progress = assign-Progress nv v vs a none h.progress;
}
assign-Coloured nv g v vs a (some c) sy ir p h = record {
  apart = write-Apart nv g a.reg v c sy ir (pick-Free nv g a v c p).0 h.apart;
  kept = write-Kept g a.reg v c (pick-Free nv g a v c p).1 h.kept;
  pooled = write-Pooled a.reg v c (g.call_cross v) (pick-Free nv g a v c p).1 h.pooled;
  slots = h.slots;
  progress = assign-Progress nv v vs a (some c) h.progress;
}

colour-Coloured :
    (nv : ℕ) (g : Graph) (vs : List ℕ) (a : Allocation)
    → Symmetric g.adj
    → Irreflexive g.adj
    → Coloured nv g vs a
    → Coloured nv g [] (colour nv g vs a)
unfolding colour
colour-Coloured nv g [] a sy ir h = h
colour-Coloured nv g (v ∷ vs) a sy ir h =
    colour-Coloured nv g vs _ sy ir (assign-Coloured nv g v vs a (pick nv g a v) sy ir refl h)

members_from-count-below : (n v x : ℕ) → x < v → use_count x (members_from n v (λ y. true)) ≡ 0
unfolding use_count members_from
members_from-count-below zero v x l = refl
members_from-count-below (suc n) v x l =
    ground (arith, members_from-count-below n (v + 1) x (omega arith))

members_from-count :
    (n v x : ℕ) → v ≤ x → x < v + n → use_count x (members_from n v (λ y. true)) ≡ 1
unfolding use_count members_from
members_from-count zero v x l m = absurd (omega arith)
members_from-count (suc n) v x l m = elim (Bool-cases (v == x)) [
  | inl here ↦ ground (arith, members_from-count-below n (v + 1) x (ground arith))
  | inr other ↦ ground (arith, members_from-count n (v + 1) x (ground arith) (omega arith))
]

-- Sorting leaves every number as often as it was.
abbrev pub Permutes : ((ℕ → ℕ → Bool) → List ℕ → List ℕ) → Type 0
Permutes sort =
    (before : ℕ → ℕ → Bool) (xs : List ℕ) (x : ℕ) → use_count x (sort before xs) ≡ use_count x xs

-- If sorting permutes and the graph is symmetric without loops, the allocation is valid for the graph.
pub allocate_with-Valid :
    (sort : (ℕ → ℕ → Bool) → List ℕ → List ℕ) (fn : IrFunc) (g : Graph)
    → Permutes sort
    → Symmetric g.adj
    → Irreflexive g.adj
    → Valid fn.num_vregs g (allocate_with sort fn g)
unfolding allocate_with use_count
allocate_with-Valid sort fn g perm sy ir = record {
  apart = done.apart;
  kept = done.kept;
  pooled = done.pooled;
  slots = done.slots;
  placed =
      λ x l. elim (done.progress x l) [ inl (n, r, s) ↦ absurd (ground arith) | inr (n, p) ↦ p ];
}
  where
    order : List ℕ
    order =
        sort (λ a b. ltb (degree fn.num_vregs g b) (degree fn.num_vregs g a))
          (all_vregs fn.num_vregs)

    done : Coloured fn.num_vregs g [] (colour fn.num_vregs g order (no_allocation g.is_leaf))
    done = colour-Coloured fn.num_vregs g order (no_allocation g.is_leaf) sy ir (record {
      apart = λ x y c l m e p. cc;
      kept = λ x c e p. cc;
      pooled = λ x c p. cc;
      slots = (λ x s p. cc, λ x y s p q. cc);
      progress = λ x l. inl (
        perm _ _ x ∙ members_from-count fn.num_vregs 0 x (omega arith) (omega arith),
        refl,
        refl,
      );
    })
