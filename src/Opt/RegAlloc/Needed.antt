-- ===== src/Opt/RegAlloc/Needed.antt =====
-- Which values are read later, without the analysis, and that the allocation keeps them.
use toy_c_cp.Prelude.{
  ℕ, ◌≡◌, refl, ap, ◌∙◌, subst, true, false, Option, none, some, List, [], ◌∷◌, ◌==◌, get_elem?,
  arith, Bool-cases, inl, inr, ◌⊎◌,
}
use toy_c_cp.Ir.{Inst, BasicBlock, IrFunc, succs_of}
use toy_c_cp.Opt.Dce.{inst_uses}
use toy_c_cp.Opt.Unreachable.Closed.{Mem}
use toy_c_cp.Opt.RegAlloc.Liveness.{
  Flags, BlockSets, set, use_reg, use_regs, def_reg, insts_sets, block_term_uses,
}
use toy_c_cp.Opt.RegAlloc.Graph.{is_dst, add_all, erase, live_before, live_through, live_at_end}

-- With these instructions of the block still to come, some run of blocks reads the register before it
-- is written.
pub data Needed (fn : IrFunc) (v : ℕ) : List Inst → BasicBlock → Type 0 where
  read_now :
      {i : Inst} {is : List Inst} {bb : BasicBlock} → Mem v (inst_uses i) → Needed fn v (i ∷ is) bb
  read_later :
      {i : Inst} {is : List Inst} {bb : BasicBlock}
      → is_dst i.dst v ≡ false
      → Needed fn v is bb
      → Needed fn v (i ∷ is) bb
  read_at_end : {bb : BasicBlock} → Mem v (block_term_uses bb) → Needed fn v [] bb
  read_behind :
      {bb next : BasicBlock} (s : ℕ)
      → Mem s (succs_of bb)
      → get_elem? fn.blocks s ≡ some next
      → Needed fn v next.insts next
      → Needed fn v [] bb

set-at : (x : ℕ) (f : Flags) → set x f x ≡ true
set-at x f = ground arith

set-keeps : (x v : ℕ) (f : Flags) → f v ≡ true → set x f v ≡ true
set-keeps x v f h = ground arith

pub add_all-keeps : (vs : List ℕ) (f : Flags) (v : ℕ) → f v ≡ true → add_all vs f v ≡ true
unfolding add_all
add_all-keeps [] f v h = h
add_all-keeps (x ∷ vs) f v h = add_all-keeps vs (set x f) v (set-keeps x v f h)

pub add_all-Mem : (vs : List ℕ) (f : Flags) (v : ℕ) → Mem v vs → add_all vs f v ≡ true
unfolding add_all
add_all-Mem [] f v m = absurd m
add_all-Mem (x ∷ vs) f v (inl e) =
    add_all-keeps vs (set x f) v (subst (λ z. set z f v ≡ true) e (set-at v f))
add_all-Mem (x ∷ vs) f v (inr m) = add_all-Mem vs (set x f) v m

add_all-from : (vs : List ℕ) (f : Flags) (v : ℕ) → add_all vs f v ≡ true → Mem v vs ⊎ (f v ≡ true)
unfolding add_all
add_all-from [] f v h = inr h
add_all-from (x ∷ vs) f v h = elim (add_all-from vs (set x f) v h) [
  | inl m ↦ inl (inr m)
  | inr e ↦ elim (Bool-cases (v == x)) [
    | inl same ↦ inl (inl (ground arith))
    | inr other ↦ inr (rw other at e)
  ]
]

-- The sets of a block on the way: a use stays, and uses change no definitions.
use_reg-keeps : (x v : ℕ) (st : BlockSets) → st.uses v ≡ true → (use_reg x st).uses v ≡ true
use_reg-keeps x v st h = elim (Bool-cases (st.defs x)) [
  | inl d ↦ rw d h
  | inr d ↦ rw d (set-keeps x v st.uses h)
]

use_reg-defs : (x : ℕ) (st : BlockSets) → (use_reg x st).defs ≡ st.defs
use_reg-defs x st = elim (Bool-cases (st.defs x)) [ inl d ↦ rw d refl | inr d ↦ rw d refl ]

use_regs-keeps :
    (xs : List ℕ) (v : ℕ) (st : BlockSets) → st.uses v ≡ true → (use_regs xs st).uses v ≡ true
unfolding use_regs
use_regs-keeps [] v st h = h
use_regs-keeps (x ∷ xs) v st h = use_regs-keeps xs v (use_reg x st) (use_reg-keeps x v st h)

use_regs-defs : (xs : List ℕ) (st : BlockSets) → (use_regs xs st).defs ≡ st.defs
unfolding use_regs
use_regs-defs [] st = refl
use_regs-defs (x ∷ xs) st = use_regs-defs xs (use_reg x st) ∙ use_reg-defs x st

use_regs-Mem :
    (xs : List ℕ) (v : ℕ) (st : BlockSets)
    → Mem v xs
    → st.defs v ≡ false
    → (use_regs xs st).uses v ≡ true
unfolding use_regs
use_regs-Mem [] v st m d = absurd m
use_regs-Mem (x ∷ xs) v st (inl e) d =
    use_regs-keeps xs v (use_reg x st)
      (subst (λ z. (use_reg z st).uses v ≡ true) e (rw d (set-at v st.uses)))
use_regs-Mem (x ∷ xs) v st (inr m) d =
    use_regs-Mem xs v (use_reg x st) m (ap (λ f. f v) (use_reg-defs x st) ∙ d)

def_reg-uses : (dst : Option ℕ) (st : BlockSets) → (def_reg dst st).uses ≡ st.uses
def_reg-uses none st = refl
def_reg-uses (some d) st = refl

def_reg-other :
    (dst : Option ℕ) (v : ℕ) (st : BlockSets)
    → is_dst dst v ≡ false
    → (def_reg dst st).defs v ≡ st.defs v
def_reg-other none v st h = refl
def_reg-other (some d) v st h = rw h refl

insts_sets-keeps :
    (is : List Inst) (v : ℕ) (st : BlockSets) → st.uses v ≡ true → (insts_sets is st).uses v ≡ true
unfolding insts_sets
insts_sets-keeps [] v st h = h
insts_sets-keeps (i ∷ is) v st h = insts_sets-keeps is v _ (
    ap (λ f. f v) (def_reg-uses i.dst (use_regs (inst_uses i) st))
    ∙ use_regs-keeps (inst_uses i) v st h)

erase-from :
    (dst : Option ℕ) (f : Flags) (v : ℕ)
    → erase dst f v ≡ true
    → (is_dst dst v ≡ false) × (f v ≡ true)
erase-from none f v h = (refl, h)
erase-from (some d) f v h = (ground arith, ground arith)

-- What is live before a block is used in it, or live behind it and not written in it.
pub live_through-sets :
    (is : List Inst) (bb : BasicBlock) (out : Flags) (st : BlockSets) (v : ℕ)
    → live_through is (live_at_end out bb) v ≡ true
    → st.defs v ≡ false
    → let done = use_regs (block_term_uses bb) (insts_sets is st) in
      (done.uses v ≡ true) ⊎ ((out v ≡ true) × (done.defs v ≡ false))
unfolding live_through live_before insts_sets
live_through-sets [] bb out st v h d = elim (add_all-from (block_term_uses bb) out v h) [
  | inl m ↦ inl (use_regs-Mem (block_term_uses bb) v st m d)
  | inr o ↦ inr (o, ap (λ f. f v) (use_regs-defs (block_term_uses bb) st) ∙ d)
]
live_through-sets (i ∷ is) bb out st v h d = elim (add_all-from (inst_uses i) _ v h) [
  | inl m ↦ inl (
      use_regs-keeps (block_term_uses bb) v _ (
        insts_sets-keeps is v _ (
          ap (λ f. f v) (def_reg-uses i.dst (use_regs (inst_uses i) st))
          ∙ use_regs-Mem (inst_uses i) v st m d)))
  | inr o ↦
      let (other, later) = erase-from i.dst (live_through is (live_at_end out bb)) v o in
      live_through-sets is bb out (def_reg i.dst (use_regs (inst_uses i) st)) v later (
        def_reg-other i.dst v (use_regs (inst_uses i) st) other
        ∙ ap (λ f. f v) (use_regs-defs (inst_uses i) st)
        ∙ d)
]
