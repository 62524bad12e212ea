-- ===== src/Codegen/Optimised/Allocated.antt =====
-- The allocation of src/opt/RegAlloc.cpp keeps what the code of the back end relies on.
use mathlib.Core.Option.{some-injective}
use toy_c_cp.Prelude.{
  ℕ, ◌+◌, ◌%◌, ◌<◌, ◌≡◌, ◌≢◌, refl, sym, ap, ◌∙◌, subst, Bool, true, false, Option, none, some,
  List, [], ◌∷◌, ◌++◌, arith, ◌⊎◌, inl, inr, Bool-cases, get_elem?,
}
use toy_c_cp.Word.{word_mod}
use toy_c_cp.Ir.{Val, imm, reg, Op, Inst, BasicBlock, IrFunc}
use toy_c_cp.Ir.Meaning.Refine.{bind-eq-some}
use toy_c_cp.Rv.Machine.{Linker}
use toy_c_cp.Opt.Dce.{val_uses, op_uses, inst_uses, opt_uses}
use toy_c_cp.Opt.Unreachable.Closed.{Mem}
use toy_c_cp.Opt.RegAlloc.Liveness.{Flags, liveness}
use toy_c_cp.Opt.RegAlloc.Graph.{
  move_source, is_source, erase, live_before, live_through, live_at_end, graph_of,
}
use toy_c_cp.Opt.RegAlloc.Colour.{has, allowed_regs, allocate_registers}
use toy_c_cp.Opt.RegAlloc.Valid.{Permutes, Valid}
use toy_c_cp.Opt.RegAlloc.Complete.{graph_of-Covered}
use toy_c_cp.Opt.RegAlloc.Needed.{add_all-Mem, add_all-keeps}
use toy_c_cp.Opt.RegAlloc.Sound.{allocate_registers-Valid}
use toy_c_cp.Codegen.Naive.Simulation.{ValBelow, OptBelow}
use toy_c_cp.Codegen.Optimised.Access.{Context, spill_off}
use toy_c_cp.Codegen.Optimised.Func.{context_of}
use toy_c_cp.Codegen.Optimised.Holds.{IsPooled, IsLayout, ValIn, Apart}
use toy_c_cp.Codegen.Optimised.Step.{ReadsIn}
use toy_c_cp.Codegen.Optimised.Refinement.{Keeps}

pub Mem-left : (x : ℕ) (xs ys : List ℕ) → Mem x xs → Mem x (xs ++ ys)
Mem-left x [] ys m = absurd m
Mem-left x (y ∷ xs) ys (inl e) = inl e
Mem-left x (y ∷ xs) ys (inr m) = inr (Mem-left x xs ys m)

pub Mem-right : (x : ℕ) (xs ys : List ℕ) → Mem x ys → Mem x (xs ++ ys)
Mem-right x [] ys m = m
Mem-right x (y ∷ xs) ys m = inr (Mem-right x xs ys m)

allowed_regs-IsPooled : (c : ℕ) → has c (allowed_regs false) ≡ true → IsPooled c
unfolding has
allowed_regs-IsPooled c h = record {
  no_scratch = ground arith;
  no_zero = ground arith;
  no_sp = ground arith;
}

-- What is read behind instructions, of the registers that the function has.
abbrev pub Alive : IrFunc → Flags → List Inst → ℕ → Type 0
Alive fn out is v = (live_through is out v ≡ true) × (v < fn.num_vregs)

value-In : (live : ℕ → Type 0) (v : Val) → ((r : ℕ) → Mem r (val_uses v) → live r) → ValIn live v
value-In live (imm n) h = tt
value-In live (reg r) h = h r (inl refl)

val_uses-below : (nv : ℕ) (v : Val) → ValBelow nv v → (r : ℕ) → Mem r (val_uses v) → r < nv
val_uses-below nv (imm n) l r m = absurd m
val_uses-below nv (reg q) l r (inl e) = subst (λ x. x < nv) (sym e) l
val_uses-below nv (reg q) l r (inr m) = absurd m

reads-In :
    (flags : Flags) (nv : ℕ) (op : Op) (a b : Val) (args : List Val)
    → ((r : ℕ) → Mem r (op_uses op a b args) → flags r ≡ true)
    → ValBelow nv a
    → ValBelow nv b
    → ReadsIn (λ r. (flags r ≡ true) × (r < nv)) op a b
unfolding op_uses
reads-In flags nv Op.mv a b args h la lb = value-In _ a (λ r m. (h r m, val_uses-below nv a la r m))
reads-In flags nv Op.neg a b args h la lb =
    value-In _ a (λ r m. (h r m, val_uses-below nv a la r m))
reads-In flags nv Op.not a b args h la lb =
    value-In _ a (λ r m. (h r m, val_uses-below nv a la r m))
reads-In flags nv Op.store_global a b args h la lb =
    value-In _ a (λ r m. (h r m, val_uses-below nv a la r m))
reads-In flags nv Op.load_global a b args h la lb = tt
reads-In flags nv Op.call a b args h la lb = tt
reads-In flags nv op a b args h la lb = (
  value-In _ a (λ r m. (h r (Mem-left r (val_uses a) (val_uses b) m), val_uses-below nv a la r m)),
  value-In _ b (λ r m. (h r (Mem-right r (val_uses a) (val_uses b) m), val_uses-below nv b lb r m)),
)

erased : (d v : ℕ) (f : Flags) → v ≢ d → f v ≡ true → erase (some d) f v ≡ true
erased d v f ne h = ground arith

source_is :
    (op : Op) (a : Val) (v : ℕ) → is_source (move_source op a) v ≡ true → (op ≡ Op.mv) × (a ≡ reg v)
unfolding move_source
source_is Op.mv (reg r) v h = (refl, ap reg (ground arith))
source_is Op.mv (imm n) v h = absurd (cc)
source_is op a v h = absurd (cc)

-- The stack pointer and the globals are aligned to words, the slots lie in memory without wrapping, and
-- the globals lie elsewhere, each at its own address.
pub record IsFrame (lk : Linker) (c : Context) (num_globals sp : ℕ) : Type 0 where
  pub sp_aligned : sp % 4 ≡ 0
  pub globals_aligned : (g : ℕ) → g < num_globals → lk.address g % 4 ≡ 0
  pub slots_fit : (v off : ℕ) → spill_off c v ≡ some off → sp + off < word_mod
  pub apart : (v off g : ℕ) → spill_off c v ≡ some off → g < num_globals → lk.address g ≢ sp + off
  pub distinct : (g h : ℕ) → g < num_globals → h < num_globals → lk.address g ≡ lk.address h → g ≡ h

-- The context that a function is compiled in.
abbrev pub compiled : ((ℕ → ℕ → Bool) → List ℕ → List ℕ) → Bool → IrFunc → Context
compiled sort opt fn = context_of opt (allocate_registers sort fn) fn

module _ (sort : (ℕ → ℕ → Bool) → List ℕ → List ℕ) (opt : Bool) (fn : IrFunc)
    (perm : Permutes sort) where
  valid : Valid fn.num_vregs (graph_of fn (liveness fn)) (allocate_registers sort fn)
  valid = allocate_registers-Valid sort fn perm

  -- The slots are words of the frame.
  slot_aligned :
      (sp v off : ℕ)
      → sp % 4 ≡ 0
      → spill_off (compiled sort opt fn) v ≡ some off
      → (sp + off) % 4 ≡ 0
  unfolding context_of
  slot_aligned sp v off h e =
      let (k, ek, e1) = bind-eq-some ((allocate_registers sort fn).spill_slot v) _ e in
      omega (arith, h, some-injective _ _ e1)

  pub compiled-IsLayout :
      (lk : Linker) (ng sp : ℕ)
      → IsFrame lk (compiled sort opt fn) ng sp
      → IsLayout lk (compiled sort opt fn) ng sp
  unfolding context_of
  compiled-IsLayout lk ng sp fr = record {
    pooled = λ v p e. allowed_regs-IsPooled p (valid.pooled v p e);
    slots_aligned = λ v off e. slot_aligned sp v off fr.sp_aligned e;
    globals_aligned = fr.globals_aligned;
    slots_fit = fr.slots_fit;
    apart = fr.apart;
    distinct = fr.distinct;
  }

  -- Two spilled registers at the same offset are the same.
  spill_off-injective :
      (d v a b : ℕ)
      → spill_off (compiled sort opt fn) d ≡ some a
      → spill_off (compiled sort opt fn) v ≡ some b
      → a ≡ b
      → d ≡ v
  unfolding context_of
  spill_off-injective d v a b e f same =
      let (x, ex, e1) = bind-eq-some ((allocate_registers sort fn).spill_slot d) _ e in
      let (y, ey, f1) = bind-eq-some ((allocate_registers sort fn).spill_slot v) _ f in
      let xy : x ≡ y = omega (arith, some-injective _ _ e1, some-injective _ _ f1) in
      valid.slots.1 d v y (ex ∙ ap some xy) ey

  module _ (k : ℕ) (bb : BasicBlock) (at : get_elem? fn.blocks k ≡ some bb) where
    abbrev pub at_end : Flags
    at_end = live_at_end ((liveness fn).live_out k) bb

    -- What an instruction reads is read before it.
    pub Alive-reads :
        (i : Inst) (behind : List Inst)
        → ValBelow fn.num_vregs i.a
        → ValBelow fn.num_vregs i.b
        → ReadsIn (Alive fn at_end (i ∷ behind)) i.op i.a i.b
    unfolding live_through live_before inst_uses
    Alive-reads i behind la lb =
        reads-In _ fn.num_vregs i.op i.a i.b i.args
          (λ r m.
            add_all-Mem (inst_uses i) _ r
              (Mem-left r (op_uses i.op i.a i.b i.args) (opt_uses i.magic_vreg) m))
          la lb

    survives :
        (before : List Inst) (i : Inst) (behind : List Inst) (d v : ℕ)
        → bb.insts ≡ before ++ i ∷ behind
        → i.dst ≡ some d
        → d < fn.num_vregs
        → Alive fn at_end behind v
        → v ≢ d
        → Apart (compiled sort opt fn) d v ⊎ ((i.op ≡ Op.mv) × (i.a ≡ reg v))
    unfolding context_of
    survives before i behind d v p e ld (al, lv) ne =
        elim (Bool-cases (is_source (move_source i.op i.a) v)) [
          | inl source ↦ inr (source_is i.op i.a v source)
          | inr other ↦
              let covered = graph_of-Covered fn (liveness fn) k bb before i behind at p in
              inl (record {
                regs_apart =
                    λ p' q. valid.apart d v p' ld lv (covered.conflicts d v e lv al ne other) q;
                slots_apart =
                    λ a b ed ev ea eb same. ne (sym (spill_off-injective d v a b ea eb same));
              })
        ]

    keeps_at :
        (before : List Inst) (i : Inst) (behind : List Inst) (o : Option ℕ)
        → bb.insts ≡ before ++ i ∷ behind
        → i.dst ≡ o
        → OptBelow fn.num_vregs o
        → Keeps
            (compiled sort opt fn)
            i.op
            i.a
            o
            (Alive fn at_end (i ∷ behind))
            (Alive fn at_end behind)
    unfolding live_through live_before
    keeps_at before i behind none p e l = λ v alive. (
      add_all-keeps (inst_uses i) _ v
          (ap (λ o. erase o (live_through behind at_end) v) e ∙ alive.0),
      alive.1,
    )
    keeps_at before i behind (some d) p e l = λ v alive ne. (
      (
        add_all-keeps (inst_uses i) _ v (
            ap (λ o. erase o (live_through behind at_end) v) e
            ∙ erased d v (live_through behind at_end) ne alive.0),
        alive.1,
      ),
      survives before i behind d v p e l alive ne,
    )

    -- The allocation gives the instruction what it needs.
    pub Alive-Keeps :
        (before : List Inst) (i : Inst) (behind : List Inst)
        → bb.insts ≡ before ++ i ∷ behind
        → OptBelow fn.num_vregs i.dst
        → Keeps
            (compiled sort opt fn)
            i.op
            i.a
            i.dst
            (Alive fn at_end (i ∷ behind))
            (Alive fn at_end behind)
    Alive-Keeps before i behind p l = keeps_at before i behind i.dst p refl l
