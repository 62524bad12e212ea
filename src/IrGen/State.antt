-- ===== src/IrGen/State.antt =====
-- src/ir/IRGen.h, the members of IRGen, and the operations of IRGen.cpp on the block under way.
use toy_c_cp.Prelude.{
  ℕ, ◌+◌, Bool, true, false, Option, none, some, List, [], ◌∷◌, ◌++◌, length, modify, get_elem?,
  if◌then◌else◌,
}
use toy_c_cp.Ast.{Symbol}
use toy_c_cp.Ir.{Val, Inst, BasicBlock, new_basic_block, Term}

pub record Loop : Type 0 where
  pub continue_bb : ℕ
  pub break_bb : ℕ

-- `loops` has the innermost loop first. The symbols, whose `irId` is written, are those of the
-- analysis's arena.
pub record Gen : Type 0 where
  pub blocks : List BasicBlock
  pub cur_bb : ℕ
  pub sealed : Bool
  pub next_vreg : ℕ
  pub returns_void : Bool
  pub loops : List Loop
  pub arena : List Symbol

-- `none` is a step with no meaning in C++: a null symbol, an empty loop stack, a register -1.
abbrev pub M : Type 0 → Type 0
M A = Gen → Option (A × Gen)

-- Goes on with the value and the state, if the step had a meaning.
abbrev pub carry_on : {A B : Type 0} → (A → M B) → Option (A × Gen) → Option (B × Gen)
carry_on next none = none
carry_on next (some (a, after)) = next a after

infixl 5 ◌>>=◌ ◌>>◌
abbrev pub ◌>>=◌ : {A B : Type 0} → M A → (A → M B) → M B
step >>= next = λ g. carry_on next (step g)

abbrev pub ◌>>◌ : {B : Type 0} → M (Unit {0}) → M B → M B
step >> rest = step >>= λ _. rest

abbrev pub pure : {A : Type 0} → A → M A
pure a = λ g. some (a, g)

-- A pointer or a number that must be there.
abbrev pub the : {A : Type 0} → Option A → M A
the o g = elim o [ none ↦ none | some a ↦ some (a, g) ]

unfoldable pub new_vreg : M ℕ
new_vreg g = some (g.next_vreg, record g { next_vreg = g.next_vreg + 1 })

unfoldable pub new_block : M ℕ
new_block g =
    some (length g.blocks, record g { blocks = g.blocks ++ new_basic_block (length g.blocks) ∷ [] })

unfoldable pub start_block : ℕ → M (Unit {0})
start_block id g = some (tt, record g { cur_bb = id; sealed = false })

unfoldable pub ensure_open : M (Unit {0})
unfolding new_block start_block
ensure_open g = if g.sealed then (do id ← new_block; start_block id) g else some (tt, g)

unfoldable pub in_block : (BasicBlock → BasicBlock) → Bool → M (Unit {0})
in_block f seal g = some (tt, record g { blocks = modify g.blocks g.cur_bb f; sealed = seal })

unfoldable pub emit : Inst → M (Unit {0})
unfolding ensure_open in_block
emit i = do ensure_open; in_block (λ bb. record bb { insts = bb.insts ++ i ∷ [] }) false

unfoldable pub term_jmp : ℕ → M (Unit {0})
unfolding ensure_open in_block
term_jmp t = do ensure_open; in_block (λ bb. record bb { term = Term.jmp; succ0 = some t }) true

unfoldable pub term_br : Val → ℕ → ℕ → M (Unit {0})
unfolding ensure_open in_block
term_br c t f = do
  ensure_open
  in_block (λ bb. record bb { term = Term.br; cond = c; succ0 = some t; succ1 = some f }) true

unfoldable pub term_ret : Bool → Val → M (Unit {0})
unfolding ensure_open in_block
term_ret has v = do
  ensure_open
  in_block (λ bb. record bb { term = Term.ret; ret_has_val = has; ret_val = v }) true

-- The symbol behind a `Symbol*`, and the write to its `irId`.
unfoldable pub symbol : Option ℕ → M Symbol
symbol p = do id ← the p; λ g. the (get_elem? g.arena id) g

unfoldable pub set_ir_id : Option ℕ → ℕ → M (Unit {0})
set_ir_id p v = do
  id ← the p
  λ g. some (tt, record g { arena = modify g.arena id (λ s. record s { ir_id = some v }) })

unfoldable pub push_loop : Loop → M (Unit {0})
push_loop l g = some (tt, record g { loops = l ∷ g.loops })

unfoldable pub drop_loop : List Loop → List Loop
drop_loop [] = []
drop_loop (_ ∷ ls) = ls

unfoldable pub pop_loop : M (Unit {0})
unfolding drop_loop
pop_loop g = some (tt, record g { loops = drop_loop g.loops })

-- `loops_.back()`.
unfoldable pub top_loop : List Loop → Option Loop
top_loop [] = none
top_loop (l ∷ _) = some l

unfoldable pub cur_loop : M Loop
unfolding top_loop
cur_loop g = the (top_loop g.loops) g
