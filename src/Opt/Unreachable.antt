-- ===== src/Opt/Unreachable.antt =====
-- src/opt/Passes.cpp, unreachableElim: the blocks that the entry does not reach are emptied.
pub mod Closed
pub mod Sound
use toy_c_cp.Prelude.{
  ℕ, zero, suc, ◌+◌, Bool, true, false, not, ◌&&◌, Option, none, some, List, [], ◌∷◌, ltb, ◌==◌,
  if◌then◌else◌, length, get_elem?,
}
use toy_c_cp.Ir.{BasicBlock, IrFunc, succs_of}

-- `reach`, a flag for each block, and `stack`, with the block that was pushed last in front.
pub record Worklist : Type 0 where
  pub reach : ℕ → Bool
  pub stack : List ℕ

abbrev pub set_flag : (ℕ → Bool) → ℕ → ℕ → Bool
set_flag reach k x = if x == k then true else reach x

-- `if (s < n && !reach[s]) { reach[s] = 1; stack.push_back(s); }`
unfoldable pub visit : ℕ → ℕ → Worklist → Worklist
visit n k st =
    if ltb k n && not (st.reach k)
    then record { reach = set_flag st.reach k; stack = k ∷ st.stack }
    else st

unfoldable pub visit_all : ℕ → List ℕ → Worklist → Worklist
unfolding visit
visit_all n [] st = st
visit_all n (k ∷ ks) st = visit_all n ks (visit n k st)

-- The successors of the block with a number.
unfoldable pub succs_of_found : Option BasicBlock → List ℕ
unfolding succs_of
succs_of_found none = []
succs_of_found (some bb) = succs_of bb

abbrev pub succs_at : List BasicBlock → ℕ → List ℕ
succs_at bbs b = succs_of_found (get_elem? bbs b)

-- The `while` loop.
unfoldable pub search_from : ℕ → List BasicBlock → (ℕ → Bool) → List ℕ → ℕ → Bool
unfolding visit_all
search_from fuel bbs reach [] = reach
search_from zero bbs reach (b ∷ stack) = reach
search_from (suc fuel) bbs reach (b ∷ stack) =
    let st = visit_all (length bbs) (succs_at bbs b) (record { reach = reach; stack = stack }) in
    search_from fuel bbs st.reach st.stack

abbrev pub clear_insts : Bool → BasicBlock → BasicBlock
clear_insts true bb = bb
clear_insts false bb = record bb { insts = [] }

unfoldable pub clear_from : ℕ → (ℕ → Bool) → List BasicBlock → List BasicBlock
clear_from b reach [] = []
clear_from b reach (bb ∷ bbs) = clear_insts (reach b) bb ∷ clear_from (b + 1) reach bbs

-- Every block is pushed at most once, so there are at most as many rounds as blocks.
unfoldable pub reached : List BasicBlock → ℕ → Bool
unfolding search_from
reached bbs = search_from (length bbs) bbs (λ x. x == 0) (0 ∷ [])

unfoldable pub unreachable_elim : IrFunc → IrFunc
unfolding clear_from reached
unreachable_elim fn = record fn { blocks = clear_from 0 (reached fn.blocks) fn.blocks }
