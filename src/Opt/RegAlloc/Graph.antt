-- ===== src/Opt/RegAlloc/Graph.antt =====
-- src/opt/RegAlloc.cpp, the registers that interfere, those that live across a call, and the moves.
use toy_c_cp.Prelude.{
  ℕ, zero, suc, ◌+◌, Bool, true, false, not, ◌&&◌, ◌||◌, Option, none, some, List, [], ◌∷◌, ◌++◌,
  ◌==◌, if◌then◌else◌,
}
use toy_c_cp.Ir.{Val, reg, Op, Inst, BasicBlock, IrFunc}
use toy_c_cp.Opt.Dce.{inst_uses}
use toy_c_cp.Opt.RegAlloc.Liveness.{Flags, no_flags, set, block_term_uses, Liveness}

-- A set of vregs is a vector of flags: what is read from the sets does not depend on their order.
pub record Graph : Type 0 where
  pub adj : ℕ → Flags
  pub call_cross : Flags
  pub move_partner : ℕ → List ℕ
  pub is_leaf : Bool

abbrev pub link : ℕ → ℕ → (ℕ → Flags) → ℕ → Flags
link a b adj = λ x y. (x == a && y == b) || (x == b && y == a) || adj x y

abbrev pub add_interf : ℕ → ℕ → Graph → Graph
add_interf a b g = if a == b then g else record g { adj = link a b g.adj }

-- The members below a bound, by number.
unfoldable pub members_from : ℕ → ℕ → Flags → List ℕ
members_from zero v flags = []
members_from (suc n) v flags =
    let rest = members_from n (v + 1) flags in if flags v then v ∷ rest else rest

abbrev pub members : ℕ → Flags → List ℕ
members nv flags = members_from nv 0 flags

-- The source of a move between registers.
unfoldable pub move_source : Op → Val → Option ℕ
move_source Op.mv (reg r) = some r
move_source _ _ = none

abbrev pub is_source : Option ℕ → ℕ → Bool
is_source none v = false
is_source (some r) v = v == r

-- The loop over the live registers at a definition; the source of a move is left out.
unfoldable pub interf_all : ℕ → Option ℕ → List ℕ → Graph → Graph
interf_all d source [] g = g
interf_all d source (v ∷ vs) g =
    interf_all d source vs (if v == d || is_source source v then g else add_interf d v g)

abbrev pub interf_dst : ℕ → Option ℕ → Option ℕ → Flags → Graph → Graph
interf_dst nv none source live g = g
interf_dst nv (some d) source live g = interf_all d source (members nv live) g

abbrev pub is_dst : Option ℕ → ℕ → Bool
is_dst none v = false
is_dst (some d) v = v == d

-- The registers that are live behind a call, but for its result.
abbrev pub cross : Op → Option ℕ → Flags → Graph → Graph
cross Op.call dst live g = record g {
  is_leaf = false;
  call_cross = λ v. (live v && not (is_dst dst v)) || g.call_cross v;
}
cross _ dst live g = g

abbrev pub push_partner : ℕ → ℕ → (ℕ → List ℕ) → ℕ → List ℕ
push_partner a b partners = λ x. if x == a then partners x ++ b ∷ [] else partners x

abbrev pub pair_move : Option ℕ → Option ℕ → Graph → Graph
pair_move (some d) (some r) g = record g {
  move_partner = push_partner r d (push_partner d r g.move_partner);
}
pair_move _ _ g = g

unfoldable pub add_all : List ℕ → Flags → Flags
add_all [] live = live
add_all (v ∷ vs) live = add_all vs (set v live)

abbrev pub erase : Option ℕ → Flags → Flags
erase none live = live
erase (some d) live = λ v. not (v == d) && live v

-- The live registers before an instruction, from those behind it.
unfoldable pub live_before : Inst → Flags → Flags
unfolding add_all
live_before i live = add_all (inst_uses i) (erase i.dst live)

unfoldable pub graph_inst : ℕ → Inst → Flags → Graph → Graph
unfolding interf_all move_source
graph_inst nv i live g =
    let source = move_source i.op i.a in
    pair_move i.dst source (cross i.op i.dst live (interf_dst nv i.dst source live g))

-- The live registers before instructions.
unfoldable pub live_through : List Inst → Flags → Flags
unfolding live_before
live_through [] live = live
live_through (i ∷ is) live = live_before i (live_through is live)

-- The instructions from the last one on.
unfoldable pub graph_insts : ℕ → List Inst → Flags → Graph → Graph
unfolding graph_inst live_through
graph_insts nv [] live g = g
graph_insts nv (i ∷ is) live g = graph_inst nv i (live_through is live) (graph_insts nv is live g)

abbrev pub live_at_end : Flags → BasicBlock → Flags
live_at_end out bb = add_all (block_term_uses bb) out

unfoldable pub graph_blocks : ℕ → ℕ → List BasicBlock → Liveness → Graph → Graph
unfolding graph_insts add_all
graph_blocks nv b [] l g = g
graph_blocks nv b (bb ∷ bbs) l g =
    graph_blocks nv (b + 1) bbs l (graph_insts nv bb.insts (live_at_end (l.live_out b) bb) g)

-- Parameters interfere with each other and with what is live at the entry.
unfoldable pub interf_with : ℕ → List ℕ → Graph → Graph
interf_with p [] g = g
interf_with p (v ∷ vs) g = interf_with p vs (add_interf p v g)

unfoldable pub graph_params : ℕ → List ℕ → Flags → Graph → Graph
unfolding interf_with
graph_params nv [] entry g = g
graph_params nv (p ∷ ps) entry g =
    graph_params nv ps entry (interf_with p (members nv entry) (interf_with p ps g))

abbrev pub empty_graph : Graph
empty_graph = record {
  adj = λ v. no_flags;
  call_cross = no_flags;
  move_partner = λ v. [];
  is_leaf = true;
}

unfoldable pub graph_of : IrFunc → Liveness → Graph
unfolding graph_blocks graph_params
graph_of fn l =
    graph_params fn.num_vregs fn.param_regs (l.live_in 0)
      (graph_blocks fn.num_vregs 0 fn.blocks l empty_graph)
