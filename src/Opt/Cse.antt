-- ===== src/Opt/Cse.antt =====
-- src/opt/Passes.cpp, cse: a value that a block has computed before is copied.
pub mod Known
pub mod OneInst
pub mod Sound
mod Tests
use toy_c_cp.Prelude.{
  ℕ, Bool, true, false, not, ◌&&◌, ◌||◌, Option, none, some, List, [], ◌∷◌, ◌==◌, if◌then◌else◌,
}
use toy_c_cp.Ir.{Val, imm, reg, Op, Inst, BasicBlock, IrFunc, mv_inst, is_reg}
use toy_c_cp.Opt.ConstFold.{is_binary}

-- The numbers of the enumeration, by which `==` compares.
unfoldable pub op_number : Op → ℕ
op_number Op.add = 0
op_number Op.sub = 1
op_number Op.mul = 2
op_number Op.div = 3
op_number Op.rem = 4
op_number Op.lt = 5
op_number Op.gt = 6
op_number Op.le = 7
op_number Op.ge = 8
op_number Op.eq = 9
op_number Op.ne = 10
op_number Op.neg = 11
op_number Op.not = 12
op_number Op.mv = 13
op_number Op.load_global = 14
op_number Op.store_global = 15
op_number Op.call = 16

-- The parts of a key that its operator== compares. The hash takes no part in this.
pub record BinKey : Type 0 where
  pub op : Op
  pub a : Val
  pub b : Val

abbrev pub same_val : Val → Val → Bool
same_val (imm n) (imm m) = n == m
same_val (reg r) (reg q) = r == q
same_val _ _ = false

abbrev pub same_key : BinKey → BinKey → Bool
same_key k l = op_number k.op == op_number l.op && same_val k.a l.a && same_val k.b l.b

abbrev pub make_key : Inst → BinKey
make_key i = record { op = i.op; a = i.a; b = i.b }

-- `unaryKey` packs the operator and the register into one number.
abbrev pub same_unary : Op × ℕ → Op × ℕ → Bool
same_unary (o, r) (p, q) = op_number o == op_number p && r == q

unfoldable pub find_value : {K : Type 0} → (K → Bool) → List (K × ℕ) → Option ℕ
find_value p [] = none
find_value p ((k, r) ∷ rest) = let later = find_value p rest in if p k then some r else later

-- `erase` of the entries that the test picks.
unfoldable pub drop_where : {A : Type 0} → (A → Bool) → List A → List A
drop_where p [] = []
drop_where p (x ∷ xs) = let rest = drop_where p xs in if p x then rest else x ∷ rest

-- `avail`, `availUnary` and `availLoad`.
pub record Avail : Type 0 where
  pub binary : List (BinKey × ℕ)
  pub unary : List ((Op × ℕ) × ℕ)
  pub loads : List (ℕ × ℕ)

abbrev pub nothing_known : Avail
nothing_known = record { binary = []; unary = []; loads = [] }

abbrev pub reads : ℕ → Val → Bool
reads d (imm n) = false
reads d (reg r) = r == d

-- `killDef`: the values that are computed from `d`, and the globals that are loaded in `d`.
unfoldable pub kill_def : ℕ → Avail → Avail
unfolding drop_where
kill_def d av = record {
  binary = drop_where (λ (k, r). reads d k.a || reads d k.b) av.binary;
  unary = drop_where (λ (k, r). k.1 == d) av.unary;
  loads = drop_where (λ (g, r). r == d) av.loads;
}

abbrev pub kill_dst : Option ℕ → Avail → Avail
kill_dst none av = av
kill_dst (some d) av = kill_def d av

abbrev pub kill_val : Val → Avail → Avail
kill_val (imm n) av = av
kill_val (reg r) av = kill_def r av

unfoldable pub kill_vals : List Val → Avail → Avail
kill_vals [] av = av
kill_vals (v ∷ vs) av = kill_vals vs (kill_val v av)

-- For an instruction without a destination the source would record -1; such an instruction with a key is
-- not generated, and here nothing is recorded.
abbrev pub know_binary : BinKey → Option ℕ → Avail → Avail
know_binary k none av = av
know_binary k (some d) av = record av { binary = (k, d) ∷ av.binary }

abbrev pub know_unary : Op × ℕ → Option ℕ → Avail → Avail
know_unary k none av = av
know_unary k (some d) av = record av { unary = (k, d) ∷ av.unary }

abbrev pub know_load : ℕ → Option ℕ → Avail → Avail
know_load g none av = av
know_load g (some d) av = record av { loads = (g, d) ∷ av.loads }

-- Whether something changed, what is put out, and what is known behind it.
pub record Step : Type 0 where
  pub any : Bool
  pub out : Inst
  pub known : Avail

-- A destination that is missing (-1) stays so in the copy.
abbrev pub copy_to : Option ℕ → ℕ → Inst
copy_to none r = record (mv_inst 0 (reg r)) { dst = none }
copy_to (some d) r = mv_inst d (reg r)

-- The three places that look a value up: a copy if it is there, and else the instruction, behind which
-- it is known.
abbrev pub look_up : Option ℕ → (Option ℕ → Avail → Avail) → Inst → Avail → Step
look_up none know i av = record { any = false; out = i; known = know i.dst (kill_dst i.dst av) }
look_up (some r) know i av = record { any = true; out = copy_to i.dst r; known = kill_dst i.dst av }

abbrev pub keep_inst : Inst → Avail → Step
keep_inst i av = record { any = false; out = i; known = av }

unfoldable pub cse_load : Option ℕ → Inst → Avail → Step
unfolding find_value kill_def
cse_load none i av = keep_inst i (kill_dst i.dst av)
cse_load (some g) i av = look_up (find_value (λ h. h == g) av.loads) (know_load g) i av

unfoldable pub cse_store : Option ℕ → Inst → Avail → Step
unfolding drop_where kill_def
cse_store none i av = keep_inst i (kill_val i.a av)
cse_store (some g) i av =
    keep_inst i (kill_val i.a (record av { loads = drop_where (λ (h, r). h == g) av.loads }))

unfoldable pub cse_call : Inst → Avail → Step
unfolding kill_vals kill_def
cse_call i av = keep_inst i (kill_dst i.dst (kill_vals i.args (record av { loads = [] })))

unfoldable pub cse_unary : Op → Val → Inst → Avail → Step
unfolding find_value kill_def op_number
cse_unary op (imm n) i av = keep_inst i (kill_dst i.dst av)
cse_unary op (reg x) i av =
    look_up (find_value (same_unary (op, x)) av.unary) (know_unary (op, x)) i av

unfoldable pub cse_binary : Inst → Avail → Step
unfolding find_value kill_def op_number
cse_binary i av =
    if is_reg i.a || is_reg i.b
    then look_up (find_value (same_key (make_key i)) av.binary) (know_binary (make_key i)) i av
    else keep_inst i (kill_dst i.dst av)

unfoldable pub cse_step : Op → Inst → Avail → Step
unfolding cse_load cse_store cse_call cse_unary cse_binary kill_def
cse_step Op.load_global i av = cse_load i.gid i av
cse_step Op.store_global i av = cse_store i.gid i av
cse_step Op.call i av = cse_call i av
cse_step Op.neg i av = cse_unary Op.neg i.a i av
cse_step Op.not i av = cse_unary Op.not i.a i av
cse_step Op.mv i av = keep_inst i (kill_dst i.dst av)
cse_step op i av = cse_binary i av

unfoldable pub cse_insts : Avail → List Inst → Bool × List Inst
unfolding cse_step
cse_insts av [] = (false, [])
cse_insts av (i ∷ is) =
    let st = cse_step i.op i av in
    let rest = cse_insts st.known is in (st.any || rest.0, st.out ∷ rest.1)

unfoldable pub cse_blocks : List BasicBlock → Bool × List BasicBlock
unfolding cse_insts
cse_blocks [] = (false, [])
cse_blocks (bb ∷ bbs) =
    let this = cse_insts nothing_known bb.insts in
    let rest = cse_blocks bbs in (this.0 || rest.0, record bb { insts = this.1 } ∷ rest.1)

unfoldable pub cse : IrFunc → Bool × IrFunc
unfolding cse_blocks
cse fn = let r = cse_blocks fn.blocks in (r.0, record fn { blocks = r.1 })
