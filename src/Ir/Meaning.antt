-- ===== src/Ir/Meaning.antt =====
-- What the representation of src/ir/IR.h means: a small machine with virtual registers and globals.
-- It is the yardstick for the passes; `none` is a step with no meaning (a division by zero, a
-- number -1 used as an index, a block without a terminator).
pub mod Refine
pub mod Words
pub mod Sample
use toy_c_cp.Prelude.{
  ℕ, zero, suc, Bool, true, false, not, Option, none, some, List, [], ◌∷◌, get_elem?, ◌==◌,
  if◌then◌else◌,
}
use toy_c_cp.Word.{add32, sub32, mul32, neg32, sdiv, srem, slt, of_bool}
use toy_c_cp.Ast.{FuncRef}
use toy_c_cp.Ir.{Val, imm, reg, Op, Inst, Term, BasicBlock}

pub record Store : Type 0 where
  pub regs : ℕ → ℕ
  pub globals : ℕ → ℕ

-- What a call does: from the arguments and the globals to a value and the globals.
abbrev pub Callee : Type 0
Callee = FuncRef → List ℕ → (ℕ → ℕ) → Option (ℕ × (ℕ → ℕ))

abbrev pub update : (ℕ → ℕ) → ℕ → ℕ → ℕ → ℕ
update f k v x = if x == k then v else f x

abbrev pub value : Store → Val → ℕ
value s (imm n) = n
value s (reg r) = s.regs r

abbrev pub values : Store → List Val → List ℕ
values s [] = []
values s (v ∷ vs) = value s v ∷ values s vs

abbrev pub write : Option ℕ → ℕ → Store → Store
write none v s = s
write (some d) v s = record s { regs = update s.regs d v }

-- A binary operator; a division by zero has no result.
unfoldable pub eval_op : Op → ℕ → ℕ → Option ℕ
eval_op Op.add a b = some (add32 a b)
eval_op Op.sub a b = some (sub32 a b)
eval_op Op.mul a b = some (mul32 a b)
eval_op Op.div a b = if b == 0 then none else some (sdiv a b)
eval_op Op.rem a b = if b == 0 then none else some (srem a b)
eval_op Op.lt a b = some (of_bool (slt a b))
eval_op Op.gt a b = some (of_bool (slt b a))
eval_op Op.le a b = some (of_bool (not (slt b a)))
eval_op Op.ge a b = some (of_bool (not (slt a b)))
eval_op Op.eq a b = some (of_bool (a == b))
eval_op Op.ne a b = some (of_bool (not (a == b)))
eval_op _ a b = none

abbrev pub bind {ℓ κ} : {A : Type ℓ} {B : Type κ} → Option A → (A → Option B) → Option B
bind none f = none
bind (some a) f = f a

abbrev pub load : Option ℕ → Store → Option ℕ
load none s = none
load (some g) s = some (s.globals g)

abbrev pub store : Option ℕ → ℕ → Store → Option Store
store none v s = none
store (some g) v s = some (record s { globals = update s.globals g v })

abbrev pub invoke : Callee → Option FuncRef → List ℕ → (ℕ → ℕ) → Option (ℕ × (ℕ → ℕ))
invoke c none vs gs = none
invoke c (some f) vs gs = c f vs gs

abbrev pub after_call : Option ℕ → Store → ℕ × (ℕ → ℕ) → Store
after_call d s (v, gs) = write d v (record s { globals = gs })

pub data Outcome : Type 0 where
  goto : ℕ → Store → Outcome
  returned : Option ℕ → Store → Outcome

abbrev pub go_to : Option ℕ → Store → Option Outcome
go_to none s = none
go_to (some n) s = some (goto n s)

unfoldable pub finish : Term → Val → Option ℕ → Option ℕ → Bool → Val → Store → Option Outcome
finish Term.none_yet c s0 s1 has rv s = none
finish Term.jmp c s0 s1 has rv s = go_to s0 s
finish Term.br c s0 s1 has rv s = if value s c == 0 then go_to s1 s else go_to s0 s
finish Term.ret c s0 s1 has rv s = some (returned (if has then some (value s rv) else none) s)

module _ (callee : Callee) where
  -- The effect of an instruction, by its operator.
  unfoldable pub exec_op :
      Op → Option ℕ → Val → Val → Option ℕ → Option FuncRef → List Val → Store → Option Store
  exec_op Op.mv d a b g f args s = some (write d (value s a) s)
  exec_op Op.neg d a b g f args s = some (write d (neg32 (value s a)) s)
  exec_op Op.not d a b g f args s = some (write d (if value s a == 0 then 1 else 0) s)
  exec_op Op.load_global d a b g f args s = bind (load g s) (λ v. some (write d v s))
  exec_op Op.store_global d a b g f args s = store g (value s a) s
  exec_op Op.call d a b g f args s =
      bind (invoke callee f (values s args) s.globals) (λ r. some (after_call d s r))
  exec_op op d a b g f args s = bind (eval_op op (value s a) (value s b)) (λ v. some (write d v s))

  unfoldable pub exec_inst : Inst → Store → Option Store
  exec_inst i s = exec_op i.op i.dst i.a i.b i.gid i.callee i.args s

  unfoldable pub exec_insts : List Inst → Store → Option Store
  exec_insts [] s = some s
  exec_insts (i ∷ is) s = bind (exec_inst i s) (exec_insts is)

  unfoldable pub exec_block : BasicBlock → Store → Option Outcome
  exec_block bb s =
      bind (exec_insts bb.insts s)
        (finish bb.term bb.cond bb.succ0 bb.succ1 bb.ret_has_val bb.ret_val)

  abbrev pub resume :
      (ℕ → Store → Option (Option ℕ × (ℕ → ℕ))) → Outcome → Option (Option ℕ × (ℕ → ℕ))
  resume k (goto n s) = k n s
  resume k (returned v s) = some (v, s.globals)

  -- The returned value and the globals; `none` also where the fuel does not suffice.
  unfoldable pub run : ℕ → List BasicBlock → ℕ → Store → Option (Option ℕ × (ℕ → ℕ))
  run zero bbs n s = none
  run (suc fuel) bbs n s =
      bind (get_elem? bbs n) (λ bb. bind (exec_block bb s) (resume (run fuel bbs)))
