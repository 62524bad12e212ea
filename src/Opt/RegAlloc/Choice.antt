-- ===== src/Opt/RegAlloc/Choice.antt =====
-- The register that is picked is free and allowed.
use toy_c_cp.Prelude.{
  ℕ, zero, suc, ◌+◌, ◌<◌, ◌≤◌, ◌≡◌, ◌≢◌, refl, ap, sym, ◌∙◌, true, false, Option, none, some, List,
  [], ◌∷◌, ◌==◌, arith, Bool-cases, Option-cases, inl, inr,
}
use toy_c_cp.Rv.Pools.{callee_saved_pool, is_callee_saved}
use toy_c_cp.Opt.Unreachable.Closed.{Mem}
use toy_c_cp.Opt.RegAlloc.Liveness.{Flags}
use toy_c_cp.Opt.RegAlloc.Graph.{Graph, members, members_from}
use toy_c_cp.Opt.RegAlloc.Colour.{
  Allocation, allowed_regs, used_by, has, is_free, partner_reg, first_free, or_else, pick,
}

pub members_from-Mem :
    (n v x : ℕ) (flags : Flags)
    → v ≤ x
    → x < v + n
    → flags x ≡ true
    → Mem x (members_from n v flags)
unfolding members_from
members_from-Mem zero v x flags l h f = absurd (omega arith)
members_from-Mem (suc n) v x flags l h f = elim (Bool-cases (x == v)) [
  | inl same ↦ let e : x ≡ v = ground arith in rw (ap flags (sym e) ∙ f) (inl e)
  | inr other ↦
      let m = members_from-Mem n (v + 1) x flags (ground arith) (omega arith) f in
      elim (Bool-cases (flags v)) [ inl on ↦ rw on (inr m) | inr off ↦ rw off m ]
]

used_by-Mem :
    (ws : List ℕ) (reg : ℕ → Option ℕ) (w c : ℕ)
    → Mem w ws
    → reg w ≡ some c
    → used_by ws reg c ≡ true
unfolding used_by
used_by-Mem [] reg w c m h = absurd m
used_by-Mem (v ∷ ws) reg w c (inl e) h = rw (← e, h) (ground arith)
used_by-Mem (v ∷ ws) reg w c (inr m) h = elim (Option-cases (reg v)) [
  | inl off ↦ rw off (used_by-Mem ws reg w c m h)
  | inr (d, on) ↦ rw on (ground (arith, used_by-Mem ws reg w c m h))
]

-- What is picked is free and allowed.
abbrev pub Free : Flags → List ℕ → ℕ → Type 0
Free used allowed c = (used c ≡ false) × (has c allowed ≡ true)

is_free-Free :
    (used : Flags) (allowed : List ℕ) (o : Option ℕ) (c : ℕ)
    → is_free used allowed o ≡ true
    → o ≡ some c
    → Free used allowed c
is_free-Free used allowed none c h e = cc
is_free-Free used allowed (some d) c h e = ground arith

partner_reg-Free :
    (used : Flags) (allowed : List ℕ) (reg : ℕ → Option ℕ) (ps : List ℕ) (c : ℕ)
    → partner_reg used allowed reg ps ≡ some c
    → Free used allowed c
unfolding partner_reg
partner_reg-Free used allowed reg [] c h = cc
partner_reg-Free used allowed reg (p ∷ ps) c h = elim (Bool-cases (is_free used allowed (reg p))) [
  | inl on ↦ is_free-Free used allowed (reg p) c on (rw on at h)
  | inr off ↦ partner_reg-Free used allowed reg ps c (rw off at h)
]

first_free-Free :
    (used : Flags) (allowed : List ℕ) (c : ℕ)
    → first_free used allowed ≡ some c
    → Free used allowed c
unfolding first_free has
first_free-Free used [] c h = cc
first_free-Free used (x ∷ xs) c h = elim (Bool-cases (used x)) [
  | inl on ↦ let more = first_free-Free used xs c (rw on at h) in (more.0, ground (arith, more.1))
  | inr off ↦ let e : some x ≡ some c = rw off at h in ground arith
]

pub pick-Free :
    (nv : ℕ) (g : Graph) (a : Allocation) (v c : ℕ)
    → pick nv g a v ≡ some c
    → Free (used_by (members nv (g.adj v)) a.reg) (allowed_regs (g.call_cross v)) c
unfolding pick
pick-Free nv g a v c h = chosen (partner_reg used allowed a.reg (g.move_partner v)) refl h
  where
    used : Flags
    used = used_by (members nv (g.adj v)) a.reg

    allowed : List ℕ
    allowed = allowed_regs (g.call_cross v)

    chosen :
        (o : Option ℕ)
        → partner_reg used allowed a.reg (g.move_partner v) ≡ o
        → or_else o (first_free used allowed) ≡ some c
        → Free used allowed c
    chosen none p q = first_free-Free used allowed c q
    chosen (some d) p q = partner_reg-Free used allowed a.reg (g.move_partner v) c (p ∙ q)

pub has-callee : (c : ℕ) → has c callee_saved_pool ≡ true → is_callee_saved c ≡ true
unfolding has
has-callee c h = ground arith

pub free_neighbour :
    (nv : ℕ) (g : Graph) (reg : ℕ → Option ℕ) (v c w : ℕ)
    → used_by (members nv (g.adj v)) reg c ≡ false
    → w < nv
    → g.adj v w ≡ true
    → reg w ≢ some c
free_neighbour nv g reg v c w free l e h = cc (
  free,
  used_by-Mem (members nv (g.adj v)) reg w c
      (members_from-Mem nv 0 w (g.adj v) (omega arith) (omega arith) e) h,
)
