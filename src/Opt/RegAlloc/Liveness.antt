-- ===== src/Opt/RegAlloc/Liveness.antt =====
-- src/opt/RegAlloc.cpp, the registers that are live at the ends of the blocks. A vector of flags is a
-- function; its entries from the length on are false.
use toy_c_cp.Prelude.{
  ℕ, zero, suc, ◌+◌, ◌*◌, Bool, true, false, not, ◌&&◌, ◌||◌, Option, none, some, List, [], ◌∷◌,
  ltb, ◌==◌, if◌then◌else◌, length,
}
use toy_c_cp.Ir.{Inst, BasicBlock, IrFunc, succs_of}
use toy_c_cp.Opt.Dce.{inst_uses, term_uses}

abbrev pub Flags : Type 0
Flags = ℕ → Bool

abbrev pub no_flags : Flags
no_flags = λ v. false

abbrev pub set : ℕ → Flags → Flags
set x flags = λ v. if v == x then true else flags v

-- `useB[b]`, and `defined`, with which `defB[b]` is written.
pub record BlockSets : Type 0 where
  pub uses : Flags
  pub defs : Flags

-- `useV`.
abbrev pub use_reg : ℕ → BlockSets → BlockSets
use_reg v st = if st.defs v then st else record st { uses = set v st.uses }

unfoldable pub use_regs : List ℕ → BlockSets → BlockSets
use_regs [] st = st
use_regs (v ∷ vs) st = use_regs vs (use_reg v st)

abbrev pub def_reg : Option ℕ → BlockSets → BlockSets
def_reg none st = st
def_reg (some d) st = record st { defs = set d st.defs }

unfoldable pub insts_sets : List Inst → BlockSets → BlockSets
unfolding use_regs
insts_sets [] st = st
insts_sets (i ∷ is) st = insts_sets is (def_reg i.dst (use_regs (inst_uses i) st))

abbrev pub block_term_uses : BasicBlock → List ℕ
block_term_uses bb = term_uses bb.term bb.cond bb.ret_has_val bb.ret_val

unfoldable pub block_sets : BasicBlock → BlockSets
unfolding insts_sets use_regs
block_sets bb =
    use_regs (block_term_uses bb)
      (insts_sets bb.insts (record { uses = no_flags; defs = no_flags }))

-- `L`, by blocks.
pub record Liveness : Type 0 where
  pub live_in : ℕ → Flags
  pub live_out : ℕ → Flags

-- Some of the blocks has the flag.
unfoldable pub any_of : List ℕ → (ℕ → Flags) → Flags
any_of [] flags v = false
any_of (s ∷ ss) flags v = flags s v || any_of ss flags v

abbrev pub put : ℕ → Flags → (ℕ → Flags) → ℕ → Flags
put b flags all = λ x. if x == b then flags else all x

-- `a != b` on vectors of a length.
unfoldable pub differ : ℕ → Flags → Flags → Bool
differ zero f g = false
differ (suc n) f g = (if f n then not (g n) else g n) || differ n f g

module _ (nv : ℕ) where
  -- `out` and `in` of a block.
  unfoldable pub out_of : BasicBlock → (ℕ → Flags) → Flags
  unfolding any_of succs_of
  out_of bb live_in v = ltb v nv && any_of (succs_of bb) live_in v

  unfoldable pub in_of : BasicBlock → Flags → Flags
  unfolding block_sets
  in_of bb out v = ltb v nv && ((block_sets bb).uses v || (out v && not ((block_sets bb).defs v)))

  -- The body of the `for` loop: whether something changed, and the vectors.
  unfoldable pub update : ℕ → BasicBlock → Liveness → Bool × Liveness
  unfolding out_of in_of differ
  update b bb st =
      let out = out_of bb st.live_in in
      let in_ = in_of bb out in
      (
        differ nv out (st.live_out b) || differ nv in_ (st.live_in b),
        record { live_in = put b in_ st.live_in; live_out = put b out st.live_out },
      )

  -- A round of the `while` loop over the blocks from the number on, the last one first.
  unfoldable pub round_from : ℕ → List BasicBlock → Liveness → Bool × Liveness
  unfolding update
  round_from b [] st = (false, st)
  round_from b (bb ∷ bbs) st =
      let later = round_from (b + 1) bbs st in
      let this = update b bb later.1 in (later.0 || this.0, this.1)

  unfoldable pub live_loop : ℕ → List BasicBlock → Liveness → Liveness
  unfolding round_from
  live_loop zero bbs st = st
  live_loop (suc fuel) bbs st =
      let r = round_from 0 bbs st in let rest = live_loop fuel bbs r.1 in if r.0 then rest else r.1

abbrev pub nothing_live : Liveness
nothing_live = record { live_in = λ b. no_flags; live_out = λ b. no_flags }

-- A round that changes something sets a flag, of which a block and a register have two.
unfoldable pub liveness : IrFunc → Liveness
unfolding live_loop
liveness fn =
    live_loop fn.num_vregs (suc (2 * (length fn.blocks * fn.num_vregs))) fn.blocks nothing_live
