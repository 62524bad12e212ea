-- ===== src/Ir.antt =====
-- src/ir/IR.h: the three-address representation, and computeCFG of src/ir/IRGen.cpp. A `-1` in the
-- source (no destination, no successor, no hint) is `none`.
pub mod Meaning
use toy_c_cp.Prelude.{
  ℕ, ◌+◌, Bool, true, false, Option, none, some, String, List, [], ◌∷◌, ◌++◌, modify,
}
use toy_c_cp.Ast.{FuncRef}

pub data Val : Type 0 where
  imm reg : ℕ → Val

pub data Op : Type 0 where
  add sub mul div rem lt gt le ge eq ne neg not mv load_global store_global call : Op

pub record Inst : Type 0 where
  pub op : Op
  pub dst : Option ℕ
  pub a : Val
  pub b : Val
  pub gid : Option ℕ
  pub callee : Option FuncRef
  pub args : List Val
  pub magic_vreg : Option ℕ
  pub unsigned_div : Bool

-- `Inst i; i.op = op;`
abbrev pub inst : Op → Inst
inst op = record {
  op = op;
  dst = none;
  a = imm 0;
  b = imm 0;
  gid = none;
  callee = none;
  args = [];
  magic_vreg = none;
  unsigned_div = false;
}

-- `Inst mv; mv.op = Op::Mv; mv.dst = d; mv.a = v;`
abbrev pub mv_inst : ℕ → Val → Inst
mv_inst d v = record (inst Op.mv) { dst = some d; a = v }

pub data Term : Type 0 where
  none_yet jmp br ret : Term

pub record BasicBlock : Type 0 where
  pub id : ℕ
  pub insts : List Inst
  pub term : Term
  pub cond : Val
  pub succ0 : Option ℕ
  pub succ1 : Option ℕ
  pub ret_has_val : Bool
  pub ret_val : Val
  pub preds : List ℕ

abbrev pub new_basic_block : ℕ → BasicBlock
new_basic_block id = record {
  id = id;
  insts = [];
  term = Term.none_yet;
  cond = imm 0;
  succ0 = none;
  succ1 = none;
  ret_has_val = false;
  ret_val = imm 0;
  preds = [];
}

pub record IrFunc : Type 0 where
  pub name : String
  pub returns_void : Bool
  pub num_params : ℕ
  pub param_regs : List ℕ
  pub blocks : List BasicBlock
  pub num_vregs : ℕ

pub record Global : Type 0 where
  pub name : String
  pub init : ℕ

pub record IrModule : Type 0 where
  pub globals : List Global
  pub funcs : List IrFunc

abbrev pub is_imm : Val → Bool
is_imm (imm _) = true
is_imm (reg _) = false

abbrev pub is_reg : Val → Bool
is_reg (imm _) = false
is_reg (reg _) = true

-- The successor numbers that are at least 0.
abbrev pub opt_list : Option ℕ → List ℕ
opt_list none = []
opt_list (some n) = n ∷ []

abbrev pub succs_of_term : Term → Option ℕ → Option ℕ → List ℕ
succs_of_term Term.jmp s0 s1 = opt_list s0
succs_of_term Term.br s0 s1 = opt_list s0 ++ opt_list s1
succs_of_term _ s0 s1 = []

unfoldable pub succs_of : BasicBlock → List ℕ
succs_of bb = succs_of_term bb.term bb.succ0 bb.succ1

clear_preds : List BasicBlock → List BasicBlock
clear_preds [] = []
clear_preds (bb ∷ bbs) = record bb { preds = [] } ∷ clear_preds bbs

-- `fn.blocks[s].preds.push_back(id)` for each successor `s`.
add_pred : ℕ → List ℕ → List BasicBlock → List BasicBlock
add_pred id [] bbs = bbs
add_pred id (s ∷ ss) bbs =
    add_pred id ss (modify bbs s (λ bb. record bb { preds = bb.preds ++ id ∷ [] }))

add_preds : List BasicBlock → List BasicBlock → List BasicBlock
unfolding add_pred succs_of
add_preds [] bbs = bbs
add_preds (bb ∷ rest) bbs = add_preds rest (add_pred bb.id (succs_of bb) bbs)

unfoldable pub compute_cfg : IrFunc → IrFunc
unfolding add_preds clear_preds
compute_cfg fn = record fn { blocks = add_preds fn.blocks (clear_preds fn.blocks) }
