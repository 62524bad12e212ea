-- ===== src/Opt/Peephole.antt =====
-- src/opt/Passes.cpp, peephole: `Mv x, x` goes, and Neg of a Neg or Not of a Not becomes a copy.
pub mod Not
use toy_c_cp.Prelude.{
  ℕ, Bool, true, false, not, ◌&&◌, ◌||◌, Option, none, some, List, [], ◌∷◌, ◌++◌, ◌==◌,
  if◌then◌else◌,
}
use toy_c_cp.Ir.{Val, imm, reg, Op, Inst, BasicBlock, IrFunc}

abbrev pub same_dst : Option ℕ → ℕ → Bool
same_dst none r = false
same_dst (some d) r = d == r

abbrev pub is_self_mv : Op → Option ℕ → Val → Bool
is_self_mv Op.mv d (reg r) = same_dst d r
is_self_mv _ d a = false

-- The two operators, by the one that is looked for.
abbrev pub is_same_unary : Op → Op → Bool
is_same_unary Op.neg Op.neg = true
is_same_unary Op.not Op.not = true
is_same_unary _ _ = false

abbrev pub as_copy : Inst → Val → Inst
as_copy i v = record {
  op = Op.mv;
  dst = i.dst;
  a = v;
  b = imm 0;
  gid = none;
  callee = none;
  args = [];
  magic_vreg = none;
  unsigned_div = false;
}

-- The search goes back over the instructions that were put out, last one first, to the last
-- definition of `r`; only that one counts.
unfoldable pub copied : Inst → Op → Val → Option Inst
copied i op (reg x) = if is_same_unary i.op op then some (as_copy i (reg x)) else none
copied i op (imm n) = none

unfoldable pub undo_unary : Inst → ℕ → List Inst → Option Inst
undo_unary i r [] = none
undo_unary i r (o ∷ out) = if same_dst o.dst r then copied i o.op o.a else undo_unary i r out

unfoldable pub fold_pair : Inst → Op → Val → List Inst → Option Inst
fold_pair i Op.neg (reg r) out = undo_unary i r out
fold_pair i Op.not (reg r) out = undo_unary i r out
fold_pair i _ _ out = none

abbrev pub step_pair : Inst → Option Inst → List Inst → Bool × List Inst
step_pair i none out = (false, i ∷ out)
step_pair i (some mv) out = (true, mv ∷ out)

unfoldable pub peep_step : Inst → List Inst → Bool × List Inst
unfolding fold_pair undo_unary copied
peep_step i out =
    if is_self_mv i.op i.dst i.a then (true, out) else step_pair i (fold_pair i i.op i.a out) out

-- `out` has the last instruction first.
unfoldable pub peep_insts : List Inst → List Inst → Bool × List Inst
unfolding peep_step
peep_insts out [] = (false, out)
peep_insts out (i ∷ is) =
    let (any, out') = peep_step i out in
    let (more, out'') = peep_insts out' is in (any || more, out'')

unfoldable pub reversed : List Inst → List Inst → List Inst
reversed [] acc = acc
reversed (i ∷ is) acc = reversed is (i ∷ acc)

unfoldable pub peep_block : BasicBlock → Bool × BasicBlock
unfolding peep_insts reversed
peep_block bb =
    let (any, out) = peep_insts [] bb.insts in (any, record bb { insts = reversed out [] })

unfoldable pub peep_blocks : List BasicBlock → Bool × List BasicBlock
unfolding peep_block
peep_blocks [] = (false, [])
peep_blocks (bb ∷ bbs) =
    let (any, bb') = peep_block bb in
    let (more, bbs') = peep_blocks bbs in (any || more, bb' ∷ bbs')

unfoldable pub peephole : IrFunc → Bool × IrFunc
unfolding peep_blocks
peephole fn = let (any, bbs) = peep_blocks fn.blocks in (any, record fn { blocks = bbs })
