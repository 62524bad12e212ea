-- ===== src/Opt/Propagate.antt =====
-- src/opt/Passes.cpp, copyProp and constProp. Both collect the `Mv` instructions of a whole function
-- in a map from destinations, the last one winning, and replace the registers that other
-- instructions and the terminators read; the walk that they share is `replace_blocks`.
pub mod Loop
use toy_c_cp.Prelude.{
  ℕ, zero, suc, Bool, true, false, not, ◌||◌, Option, none, some, List, [], ◌∷◌, ◌++◌, ltb, leb,
  ◌==◌, if◌then◌else◌,
}
use toy_c_cp.Word.{half_mod}
use toy_c_cp.Ir.{Val, imm, reg, Op, Inst, Term, BasicBlock, IrFunc}

-- An `unordered_map`, the entry written last in front.
unfoldable pub find_entry {ℓ} : {V : Type ℓ} → ℕ → List (ℕ × V) → Option V
find_entry r [] = none
find_entry r ((k, v) ∷ m) = if k == r then some v else find_entry r m

abbrev pub is_mv : Op → Bool
is_mv Op.mv = true
is_mv _ = false

-- `if (in.op == Op::Mv && in.a.isReg()) copyMap[in.dst] = in.a.reg;`
unfoldable pub copy_entry : Op → Option ℕ → Val → List (ℕ × ℕ) → List (ℕ × ℕ)
copy_entry Op.mv (some d) (reg r) m = (d, r) ∷ m
copy_entry _ d a m = m

-- -2048 ≤ imm ≤ 2047 as signed numbers.
abbrev pub fits12 : ℕ → Bool
fits12 n = leb n 2047 || leb 4294965248 n

unfoldable pub const_entry : Op → Option ℕ → Val → List (ℕ × ℕ) → List (ℕ × ℕ)
const_entry Op.mv (some d) (imm n) m = if fits12 n then (d, n) ∷ m else m
const_entry _ d a m = m

unfoldable pub collect_insts :
    (Op → Option ℕ → Val → List (ℕ × ℕ) → List (ℕ × ℕ)) → List Inst → List (ℕ × ℕ) → List (ℕ × ℕ)
collect_insts entry [] m = m
collect_insts entry (i ∷ is) m = collect_insts entry is (entry i.op i.dst i.a m)

unfoldable pub collect :
    (Op → Option ℕ → Val → List (ℕ × ℕ) → List (ℕ × ℕ))
    → List BasicBlock
    → List (ℕ × ℕ)
    → List (ℕ × ℕ)
unfolding collect_insts
collect entry [] m = m
collect entry (bb ∷ bbs) m = collect entry bbs (collect_insts entry bb.insts m)

-- `resolve`: at most `n` steps along the chain of copies.
unfoldable pub resolve : ℕ → List (ℕ × ℕ) → ℕ → ℕ
unfolding find_entry
resolve zero m r = r
resolve (suc n) m r = elim (find_entry r m) [ none ↦ r | some q ↦ resolve n m q ]

unfoldable pub copy_val : List (ℕ × ℕ) → Val → Bool × Val
copy_val m (imm n) = (false, imm n)
copy_val m (reg r) = let q = resolve 64 m r in (not (q == r), reg q)

unfoldable pub const_found : ℕ → Option ℕ → Bool × Val
const_found r none = (false, reg r)
const_found r (some n) = (true, imm n)

unfoldable pub const_val : List (ℕ × ℕ) → Val → Bool × Val
unfolding const_found find_entry
const_val m (imm n) = (false, imm n)
const_val m (reg r) = const_found r (find_entry r m)

module _ (apply : Val → Bool × Val) where
  unfoldable pub replace_args : List Val → Bool × List Val
  replace_args [] = (false, [])
  replace_args (v ∷ vs) = ((apply v).0 || (replace_args vs).0, (apply v).1 ∷ (replace_args vs).1)

  unfoldable pub replace_inst : Inst → Bool × Inst
  unfolding replace_args
  replace_inst i = if is_mv i.op then (false, i) else (
    (apply i.a).0 || (apply i.b).0 || (replace_args i.args).0,
    record i { a = (apply i.a).1; b = (apply i.b).1; args = (replace_args i.args).1 },
  )

  unfoldable pub replace_insts : List Inst → Bool × List Inst
  unfolding replace_inst
  replace_insts [] = (false, [])
  replace_insts (i ∷ is) =
      ((replace_inst i).0 || (replace_insts is).0, (replace_inst i).1 ∷ (replace_insts is).1)

  unfoldable pub replace_term : Term → BasicBlock → Bool × BasicBlock
  replace_term Term.br bb = ((apply bb.cond).0, record bb { cond = (apply bb.cond).1 })
  replace_term Term.ret bb =
      if bb.ret_has_val
      then ((apply bb.ret_val).0, record bb { ret_val = (apply bb.ret_val).1 })
      else (false, bb)
  replace_term _ bb = (false, bb)

  unfoldable pub replace_blocks : List BasicBlock → Bool × List BasicBlock
  unfolding replace_insts replace_term
  replace_blocks [] = (false, [])
  replace_blocks (bb ∷ bbs) =
      let (any, is) = replace_insts bb.insts in
      let (there, bb') = replace_term bb.term (record bb { insts = is }) in
      let (more, bbs') = replace_blocks bbs in (any || there || more, bb' ∷ bbs')

unfoldable pub copy_prop : IrFunc → Bool × IrFunc
unfolding collect copy_entry copy_val resolve replace_blocks
copy_prop fn =
    let (any, bbs) = replace_blocks (copy_val (collect copy_entry fn.blocks [])) fn.blocks in
    (any, record fn { blocks = bbs })

unfoldable pub const_prop : IrFunc → Bool × IrFunc
unfolding collect const_entry const_val replace_blocks
const_prop fn =
    let (any, bbs) = replace_blocks (const_val (collect const_entry fn.blocks [])) fn.blocks in
    (any, record fn { blocks = bbs })
