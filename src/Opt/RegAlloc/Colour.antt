-- ===== src/Opt/RegAlloc/Colour.antt =====
-- src/opt/RegAlloc.cpp, the choice of registers.
use toy_c_cp.Prelude.{
  ℕ, ◌+◌, Bool, true, false, not, ◌&&◌, ◌||◌, Option, none, some, List, [], ◌∷◌, ◌++◌, ltb, ◌==◌,
  if◌then◌else◌, length,
}
use toy_c_cp.Ir.{IrFunc}
use toy_c_cp.Rv.Pools.{caller_saved_pool, callee_saved_pool, is_callee_saved}
use toy_c_cp.Opt.RegAlloc.Liveness.{Flags, no_flags, set, liveness}
use toy_c_cp.Opt.RegAlloc.Graph.{Graph, members, graph_of}

-- src/opt/RegAlloc.h; -1 is `none`.
pub record Allocation : Type 0 where
  pub reg : ℕ → Option ℕ
  pub spill_slot : ℕ → Option ℕ
  pub num_spills : ℕ
  pub used_callee : List ℕ
  pub is_leaf : Bool

abbrev pub allowed_regs : Bool → List ℕ
allowed_regs crosses = if crosses then callee_saved_pool else caller_saved_pool ++ callee_saved_pool

abbrev pub add_colour : Option ℕ → Flags → Flags
add_colour none used = used
add_colour (some c) used = set c used

-- The registers that the neighbours have.
unfoldable pub used_by : List ℕ → (ℕ → Option ℕ) → Flags
used_by [] reg = no_flags
used_by (w ∷ ws) reg = add_colour (reg w) (used_by ws reg)

-- `std::find`.
unfoldable pub has : ℕ → List ℕ → Bool
has c [] = false
has c (x ∷ xs) = c == x || has c xs

abbrev pub is_free : Flags → List ℕ → Option ℕ → Bool
is_free used allowed none = false
is_free used allowed (some c) = not (used c) && has c allowed

-- The register of the first partner that is free.
unfoldable pub partner_reg : Flags → List ℕ → (ℕ → Option ℕ) → List ℕ → Option ℕ
unfolding has
partner_reg used allowed reg [] = none
partner_reg used allowed reg (p ∷ ps) =
    let rest = partner_reg used allowed reg ps in
    if is_free used allowed (reg p) then reg p else rest

unfoldable pub first_free : Flags → List ℕ → Option ℕ
first_free used [] = none
first_free used (c ∷ cs) = let rest = first_free used cs in if used c then rest else some c

abbrev pub or_else : Option ℕ → Option ℕ → Option ℕ
or_else (some c) other = some c
or_else none other = other

unfoldable pub pick : ℕ → Graph → Allocation → ℕ → Option ℕ
unfolding used_by partner_reg first_free
pick nv g a v =
    let allowed = allowed_regs (g.call_cross v) in
    let used = used_by (members nv (g.adj v)) a.reg in
    or_else (partner_reg used allowed a.reg (g.move_partner v)) (first_free used allowed)

abbrev pub write : ℕ → ℕ → (ℕ → Option ℕ) → ℕ → Option ℕ
write v c f = λ x. if x == v then some c else f x

-- A register, or a slot on the stack.
unfoldable pub assign : ℕ → Option ℕ → Allocation → Allocation
assign v none a = record a {
  spill_slot = write v a.num_spills a.spill_slot;
  num_spills = a.num_spills + 1;
}
assign v (some c) a = record a { reg = write v c a.reg }

unfoldable pub colour : ℕ → Graph → List ℕ → Allocation → Allocation
unfolding pick assign
colour nv g [] a = a
colour nv g (v ∷ vs) a = colour nv g vs (assign v (pick nv g a v) a)

-- `adj[a].size()`.
abbrev pub degree : ℕ → Graph → ℕ → ℕ
degree nv g v = length (members nv (g.adj v))

abbrev pub all_vregs : ℕ → List ℕ
all_vregs nv = members nv (λ v. true)

abbrev pub no_allocation : Bool → Allocation
no_allocation leaf = record {
  reg = λ v. none;
  spill_slot = λ v. none;
  num_spills = 0;
  used_callee = [];
  is_leaf = leaf;
}

-- `usedCallee`, by number.
unfoldable pub callee_used : List ℕ → (ℕ → Option ℕ) → Flags
callee_used vs reg = λ c. is_callee_saved c && used_by vs reg c

abbrev pub finish : ℕ → Allocation → Allocation
finish nv a = record a { used_callee = members 32 (callee_used (all_vregs nv) a.reg) }

-- `std::sort`, by its test and the list, is not in the program: the order that it gives to vregs of the
-- same degree is left open.
module _ (sort : (ℕ → ℕ → Bool) → List ℕ → List ℕ) where
  unfoldable pub allocate_with : IrFunc → Graph → Allocation
  unfolding colour callee_used
  allocate_with fn g =
      let nv = fn.num_vregs in
      let order = sort (λ a b. ltb (degree nv g b) (degree nv g a)) (all_vregs nv) in
      finish nv (colour nv g order (no_allocation g.is_leaf))

  unfoldable pub allocate_registers : IrFunc → Allocation
  unfolding allocate_with graph_of liveness
  allocate_registers fn = allocate_with fn (graph_of fn (liveness fn))
