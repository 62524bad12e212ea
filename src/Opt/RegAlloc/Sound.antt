-- ===== src/Opt/RegAlloc/Sound.antt =====
-- The allocation keeps the values that are read later, and is valid for the graph of its function.
use toy_c_cp.Prelude.{
  ℕ, ◌<◌, ◌≡◌, ◌≢◌, refl, ◌∙◌, subst, Bool, true, false, Option, none, some, List, [], ◌∷◌, ◌++◌,
  lt→ltb, get_elem?, arith, inl, inr, ◌⊎◌,
}
use toy_c_cp.Ir.{Op, Inst, BasicBlock, IrFunc, succs_of}
use toy_c_cp.Rv.Pools.{is_callee_saved}
use toy_c_cp.Opt.Dce.{inst_uses}
use toy_c_cp.Opt.Unreachable.Closed.{Mem}
use toy_c_cp.Opt.RegAlloc.Liveness.{
  Flags, block_sets, block_term_uses, any_of, out_of, in_of, liveness, no_flags,
}
use toy_c_cp.Opt.RegAlloc.Graph.{
  move_source, is_source, is_dst, erase, live_through, live_before, live_at_end, graph_of,
}
use toy_c_cp.Opt.RegAlloc.Colour.{allocate_registers}
use toy_c_cp.Opt.RegAlloc.Valid.{Permutes, Valid, Placed, allocate_with-Valid}
use toy_c_cp.Opt.RegAlloc.Complete.{graph_of-Covered, graph_of-simple}
use toy_c_cp.Opt.RegAlloc.Solved.{liveness-Equations}
use toy_c_cp.Opt.RegAlloc.Needed.{
  Needed, read_now, read_later, read_at_end, read_behind, add_all-Mem, add_all-keeps,
  live_through-sets,
}

any_of-Mem :
    (ss : List ℕ) (f : ℕ → Flags) (s v : ℕ) → Mem s ss → f s v ≡ true → any_of ss f v ≡ true
unfolding any_of
any_of-Mem [] f s v m h = absurd m
any_of-Mem (t ∷ ss) f s v (inl e) h = let at_t = subst (λ z. f z v ≡ true) e h in ground arith
any_of-Mem (t ∷ ss) f s v (inr m) h = let rest = any_of-Mem ss f s v m h in ground arith

erase-keeps :
    (dst : Option ℕ) (f : Flags) (v : ℕ) → is_dst dst v ≡ false → f v ≡ true → erase dst f v ≡ true
erase-keeps none f v d h = h
erase-keeps (some x) f v d h = ground arith

in_of-holds :
    (nv : ℕ) (bb : BasicBlock) (out : Flags) (v : ℕ)
    → v < nv
    → ((block_sets bb).uses v ≡ true) ⊎ ((out v ≡ true) × ((block_sets bb).defs v ≡ false))
    → in_of nv bb out v ≡ true
unfolding in_of
in_of-holds nv bb out v l (inl u) = let b = lt→ltb v nv l in ground arith
in_of-holds nv bb out v l (inr (o, d)) = let b = lt→ltb v nv l in ground arith

out_of-holds :
    (nv : ℕ) (bb : BasicBlock) (f : ℕ → Flags) (s v : ℕ)
    → v < nv
    → Mem s (succs_of bb)
    → f s v ≡ true
    → out_of nv bb f v ≡ true
unfolding out_of
out_of-holds nv bb f s v l m h = rw (lt→ltb v nv l) (any_of-Mem (succs_of bb) f s v m h)

-- What is live at the start of a block by its instructions is so by the equations.
entry_live :
    (fn : IrFunc) (v : ℕ)
    → v < fn.num_vregs
    → (s : ℕ) (next : BasicBlock) → get_elem? fn.blocks s ≡ some next
    → live_through next.insts (live_at_end ((liveness fn).live_out s) next) v ≡ true
    → (liveness fn).live_in s v ≡ true
unfolding block_sets
entry_live fn v l s next q h =
    (liveness-Equations fn s next q v l).1
    ∙ in_of-holds fn.num_vregs next ((liveness fn).live_out s) v l (
        live_through-sets next.insts next ((liveness fn).live_out s)
          (record { uses = no_flags; defs = no_flags }) v h refl)

-- The analysis finds every value that is read later.
pub Needed-live :
    (fn : IrFunc) (v : ℕ)
    → v < fn.num_vregs
    → (k : ℕ) (bb : BasicBlock) (is : List Inst) → get_elem? fn.blocks k ≡ some bb
    → Needed fn v is bb
    → live_through is (live_at_end ((liveness fn).live_out k) bb) v ≡ true
unfolding live_through live_before
Needed-live fn v l k bb _ p (read_now {i = i} m) = add_all-Mem (inst_uses i) _ v m
Needed-live fn v l k bb _ p (read_later {i = i} {is = is} d h) =
    add_all-keeps (inst_uses i) _ v (erase-keeps i.dst _ v d (Needed-live fn v l k bb is p h))
Needed-live fn v l k bb _ p (read_at_end m) = add_all-Mem (block_term_uses bb) _ v m
Needed-live fn v l k bb _ p (read_behind {next = next} s m q h) =
    add_all-keeps (block_term_uses bb) _ v (
      (liveness-Equations fn k bb p v l).0
      ∙ out_of-holds fn.num_vregs bb (liveness fn).live_in s v l m
          (entry_live fn v l s next q (Needed-live fn v l s next next.insts q h)))

-- The allocation is valid for the graph.
pub allocate_registers-Valid :
    (sort : (ℕ → ℕ → Bool) → List ℕ → List ℕ) (fn : IrFunc)
    → Permutes sort
    → Valid fn.num_vregs (graph_of fn (liveness fn)) (allocate_registers sort fn)
unfolding allocate_registers
allocate_registers-Valid sort fn perm =
    let (sy, ir) = graph_of-simple fn (liveness fn) in
    allocate_with-Valid sort fn (graph_of fn (liveness fn)) perm sy ir

-- If sorting permutes: an instruction that writes a register of the machine does not overwrite the value
-- of another virtual register that is read later, unless it is the move that copies this value.
pub allocate_registers-apart :
    (sort : (ℕ → ℕ → Bool) → List ℕ → List ℕ) (fn : IrFunc) (k : ℕ) (bb : BasicBlock)
    (before : List Inst) (i : Inst) (behind : List Inst) (d v c : ℕ)
    → Permutes sort
    → get_elem? fn.blocks k ≡ some bb
    → bb.insts ≡ before ++ i ∷ behind
    → i.dst ≡ some d
    → d < fn.num_vregs
    → v < fn.num_vregs
    → v ≢ d
    → Needed fn v behind bb
    → is_source (move_source i.op i.a) v ≡ false
    → (allocate_registers sort fn).reg d ≡ some c
    → (allocate_registers sort fn).reg v ≢ some c
allocate_registers-apart sort fn k bb before i behind d v c perm p q e m l ne h s =
    (allocate_registers-Valid sort fn perm).apart d v c m l (
      (graph_of-Covered fn (liveness fn) k bb before i behind p q).conflicts d v e l
        (Needed-live fn v l k bb behind p h) ne s)

-- If sorting permutes: a value that is read behind a call, and is not its result, is on the stack or in a
-- register that the callee saves.
pub allocate_registers-kept :
    (sort : (ℕ → ℕ → Bool) → List ℕ → List ℕ) (fn : IrFunc) (k : ℕ) (bb : BasicBlock)
    (before : List Inst) (i : Inst) (behind : List Inst) (v c : ℕ)
    → Permutes sort
    → get_elem? fn.blocks k ≡ some bb
    → bb.insts ≡ before ++ i ∷ behind
    → i.op ≡ Op.call
    → v < fn.num_vregs
    → is_dst i.dst v ≡ false
    → Needed fn v behind bb
    → (allocate_registers sort fn).reg v ≡ some c
    → is_callee_saved c ≡ true
allocate_registers-kept sort fn k bb before i behind v c perm p q e l ne h =
    (allocate_registers-Valid sort fn perm).kept v c (
      (graph_of-Covered fn (liveness fn) k bb before i behind p q).marked v e
        (Needed-live fn v l k bb behind p h) ne)

-- If sorting permutes: every virtual register of the function has a register or a slot on the stack, and
-- not both.
pub allocate_registers-Placed :
    (sort : (ℕ → ℕ → Bool) → List ℕ → List ℕ) (fn : IrFunc) (v : ℕ)
    → Permutes sort
    → v < fn.num_vregs
    → Placed (allocate_registers sort fn) v
allocate_registers-Placed sort fn v perm l = (allocate_registers-Valid sort fn perm).placed v l
