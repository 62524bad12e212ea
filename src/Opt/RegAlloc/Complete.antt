-- ===== src/Opt/RegAlloc/Complete.antt =====
-- The graph is symmetric without loops, and has an edge wherever a register is written while another
-- one is live.
use toy_c_cp.Prelude.{
  ℕ, zero, suc, ◌+◌, ◌<◌, ◌≡◌, ◌≢◌, refl, ap, sym, ◌∙◌, subst, Bool, true, false, ◌||◌, Option,
  none, some, List, [], ◌∷◌, ◌++◌, ◌==◌, if◌then◌else◌, get_elem?, arith, Bool-cases, inl, inr,
}
use toy_c_cp.Ir.{Op, Inst, BasicBlock, IrFunc}
use toy_c_cp.Opt.Unreachable.Closed.{Mem}
use toy_c_cp.Opt.RegAlloc.Liveness.{Flags, Liveness}
use toy_c_cp.Opt.RegAlloc.Graph.{
  Graph, link, add_interf, members, move_source, is_source, interf_all, interf_dst, is_dst, cross,
  pair_move, graph_inst, graph_insts, live_through, live_at_end, graph_blocks, interf_with,
  graph_params, graph_of, empty_graph,
}
use toy_c_cp.Opt.RegAlloc.Valid.{Symmetric, Irreflexive}
use toy_c_cp.Opt.RegAlloc.Choice.{members_from-Mem}

-- What every step keeps: the shape of the graph, its edges and its marks.
pub record Grows (g h : Graph) : Type 0 where
  pub edges : (x y : ℕ) → g.adj x y ≡ true → h.adj x y ≡ true
  pub marks : (x : ℕ) → g.call_cross x ≡ true → h.call_cross x ≡ true
  pub simple : Symmetric g.adj × Irreflexive g.adj → Symmetric h.adj × Irreflexive h.adj

same-Grows : (g : Graph) → Grows g g
same-Grows g = record { edges = λ x y e. e; marks = λ x e. e; simple = λ h. h }

then-Grows : {f g h : Graph} → Grows f g → Grows g h → Grows f h
then-Grows p q = record {
  edges = λ x y e. q.edges x y (p.edges x y e);
  marks = λ x e. q.marks x (p.marks x e);
  simple = λ h. q.simple (p.simple h);
}

add_interf-Grows : (a b : ℕ) (g : Graph) → Grows g (add_interf a b g)
add_interf-Grows a b g = elim (Bool-cases (a == b)) [
  | inl same ↦ rw same (same-Grows g)
  | inr other ↦ rw other (record {
    edges = λ x y e. rw e (ground arith);
    marks = λ x e. e;
    simple = λ (sy, ir). (λ x y e. linked x y (sy x y) (sy y x) e, λ x. unlinked x other (ir x));
  })
]
  where
    linked :
        (x y : ℕ)
        → (g.adj x y ≡ true → g.adj y x ≡ true)
        → (g.adj y x ≡ true → g.adj x y ≡ true)
        → link a b g.adj x y ≡ true
        → link a b g.adj y x ≡ true
    linked x y f h e = ground arith

    unlinked : (x : ℕ) → (a == b) ≡ false → g.adj x x ≡ false → link a b g.adj x x ≡ false
    unlinked x ne ir = ground arith

-- The edge is there, if it is no loop.
add_interf-edge : (a b : ℕ) (g : Graph) → a ≢ b → (add_interf a b g).adj a b ≡ true
add_interf-edge a b g ne = elim (Bool-cases (a == b)) [
  | inl same ↦ absurd (ne (ground arith))
  | inr other ↦ rw other (ground arith)
]

interf_all-Grows :
    (d : ℕ) (source : Option ℕ) (vs : List ℕ) (g : Graph) → Grows g (interf_all d source vs g)
unfolding interf_all
interf_all-Grows d source [] g = same-Grows g
interf_all-Grows d source (v ∷ vs) g = elim (Bool-cases (v == d || is_source source v)) [
  | inl out ↦ rw out (interf_all-Grows d source vs g)
  | inr apart ↦
      rw apart
        (then-Grows (add_interf-Grows d v g) (interf_all-Grows d source vs (add_interf d v g)))
]

interf_all-edge :
    (d : ℕ) (source : Option ℕ) (vs : List ℕ) (g : Graph) (v : ℕ)
    → Mem v vs
    → v ≢ d
    → is_source source v ≡ false
    → (interf_all d source vs g).adj d v ≡ true
unfolding interf_all
interf_all-edge d source [] g v m ne s = absurd m
interf_all-edge d source (w ∷ vs) g v (inl e) ne s =
    drawn (w == d || is_source source w)
      (subst (λ z. (z == d || is_source source z) ≡ false) e (ground arith))
  where
    edge : (add_interf d w g).adj d v ≡ true
    edge =
        subst (λ z. (add_interf d z g).adj d v ≡ true) e (add_interf-edge d v g (λ p. ne (sym p)))

    drawn :
        (b : Bool)
        → b ≡ false
        → (interf_all d source vs (if b then g else add_interf d w g)).adj d v ≡ true
    drawn true q = cc
    drawn false q = (interf_all-Grows d source vs (add_interf d w g)).edges d v edge
interf_all-edge d source (w ∷ vs) g v (inr m) ne s =
    interf_all-edge d source vs (if w == d || is_source source w then g else add_interf d w g) v m
      ne s

interf_dst-Grows :
    (nv : ℕ) (dst source : Option ℕ) (live : Flags) (g : Graph)
    → Grows g (interf_dst nv dst source live g)
interf_dst-Grows nv none source live g = same-Grows g
interf_dst-Grows nv (some d) source live g = interf_all-Grows d source (members nv live) g

cross-Grows : (op : Op) (dst : Option ℕ) (live : Flags) (g : Graph) → Grows g (cross op dst live g)
cross-Grows Op.call dst live g = record {
  edges = λ x y e. e;
  marks = λ x e. rw e (ground arith);
  simple = λ h. h;
}
cross-Grows op dst live g = same-Grows g

pair_move-Grows : (dst source : Option ℕ) (g : Graph) → Grows g (pair_move dst source g)
pair_move-Grows (some d) (some r) g = record {
  edges = λ x y e. e;
  marks = λ x e. e;
  simple = λ h. h;
}
pair_move-Grows dst source g = same-Grows g

graph_inst-Grows : (nv : ℕ) (i : Inst) (live : Flags) (g : Graph) → Grows g (graph_inst nv i live g)
unfolding graph_inst
graph_inst-Grows nv i live g =
    then-Grows (interf_dst-Grows nv i.dst (move_source i.op i.a) live g)
      (then-Grows (cross-Grows i.op i.dst live _) (pair_move-Grows i.dst (move_source i.op i.a) _))

graph_insts-Grows :
    (nv : ℕ) (is : List Inst) (live : Flags) (g : Graph) → Grows g (graph_insts nv is live g)
unfolding graph_insts
graph_insts-Grows nv [] live g = same-Grows g
graph_insts-Grows nv (i ∷ is) live g =
    then-Grows (graph_insts-Grows nv is live g) (graph_inst-Grows nv i (live_through is live) _)

graph_blocks-Grows :
    (nv b : ℕ) (bbs : List BasicBlock) (l : Liveness) (g : Graph)
    → Grows g (graph_blocks nv b bbs l g)
unfolding graph_blocks
graph_blocks-Grows nv b [] l g = same-Grows g
graph_blocks-Grows nv b (bb ∷ bbs) l g =
    then-Grows (graph_insts-Grows nv bb.insts (live_at_end (l.live_out b) bb) g)
      (graph_blocks-Grows nv (b + 1) bbs l _)

interf_with-Grows : (p : ℕ) (vs : List ℕ) (g : Graph) → Grows g (interf_with p vs g)
unfolding interf_with
interf_with-Grows p [] g = same-Grows g
interf_with-Grows p (v ∷ vs) g = then-Grows (add_interf-Grows p v g) (interf_with-Grows p vs _)

graph_params-Grows :
    (nv : ℕ) (ps : List ℕ) (entry : Flags) (g : Graph) → Grows g (graph_params nv ps entry g)
unfolding graph_params
graph_params-Grows nv [] entry g = same-Grows g
graph_params-Grows nv (p ∷ ps) entry g =
    then-Grows (interf_with-Grows p ps g)
      (then-Grows (interf_with-Grows p (members nv entry) _) (graph_params-Grows nv ps entry _))

pub graph_of-simple :
    (fn : IrFunc) (l : Liveness) → Symmetric (graph_of fn l).adj × Irreflexive (graph_of fn l).adj
unfolding graph_of
graph_of-simple fn l =
    (then-Grows (graph_blocks-Grows fn.num_vregs 0 fn.blocks l empty_graph)
        (graph_params-Grows fn.num_vregs fn.param_regs (l.live_in 0) _)).simple
      (λ x y e. e, λ x. refl)

-- A register that is written while another is live interferes with this, unless it takes its value.
abbrev pub Conflicts : ℕ → Graph → Inst → Flags → Type 0
Conflicts nv g i live =
    (d v : ℕ)
    → i.dst ≡ some d
    → v < nv
    → live v ≡ true
    → v ≢ d
    → is_source (move_source i.op i.a) v ≡ false
    → g.adj d v ≡ true

-- A register that is live behind a call, and not its result, is marked.
abbrev pub Marked : Graph → Inst → Flags → Type 0
Marked g i live =
    (v : ℕ) → i.op ≡ Op.call → live v ≡ true → is_dst i.dst v ≡ false → g.call_cross v ≡ true

interf_dst-Conflicts :
    (nv : ℕ) (i : Inst) (live : Flags) (g : Graph)
    → Conflicts nv (interf_dst nv i.dst (move_source i.op i.a) live g) i live
interf_dst-Conflicts nv i live g d v p l e ne s =
    subst (λ dst. (interf_dst nv dst (move_source i.op i.a) live g).adj d v ≡ true) (sym p)
      (interf_all-edge d (move_source i.op i.a) (members nv live) g v
        (members_from-Mem nv 0 v live (omega arith) (omega arith) e) ne s)

cross-Marked : (i : Inst) (live : Flags) (g : Graph) → Marked (cross i.op i.dst live g) i live
cross-Marked i live g v p e ne =
    subst (λ op. (cross op i.dst live g).call_cross v ≡ true) (sym p) (rw (e, ne) (ground arith))

-- What is behind the instruction `i` of a list.
pub record Covered (nv : ℕ) (g : Graph) (i : Inst) (live : Flags) : Type 0 where
  pub conflicts : Conflicts nv g i live
  pub marked : Marked g i live

grow-Covered :
    {nv : ℕ} {g h : Graph} {i : Inst} {live : Flags}
    → Grows g h
    → Covered nv g i live
    → Covered nv h i live
grow-Covered p c = record {
  conflicts = λ d v e l f ne s. p.edges d v (c.conflicts d v e l f ne s);
  marked = λ v e f ne. p.marks v (c.marked v e f ne);
}

graph_inst-Covered :
    (nv : ℕ) (i : Inst) (live : Flags) (g : Graph) → Covered nv (graph_inst nv i live g) i live
unfolding graph_inst
graph_inst-Covered nv i live g = record {
  conflicts = λ d v e l f ne s.
      (then-Grows (cross-Grows i.op i.dst live _)
          (pair_move-Grows i.dst (move_source i.op i.a) _)).edges
        d v (interf_dst-Conflicts nv i live g d v e l f ne s);
  marked = λ v e f ne.
      (pair_move-Grows i.dst (move_source i.op i.a) _).marks v (cross-Marked i live _ v e f ne);
}

graph_insts-Covered :
    (nv : ℕ) (before : List Inst) (i : Inst) (behind : List Inst) (live : Flags) (g : Graph)
    → Covered nv (graph_insts nv (before ++ i ∷ behind) live g) i (live_through behind live)
unfolding graph_insts
graph_insts-Covered nv [] i behind live g = graph_inst-Covered nv i (live_through behind live) _
graph_insts-Covered nv (j ∷ before) i behind live g =
    grow-Covered (graph_inst-Grows nv j _ _) (graph_insts-Covered nv before i behind live g)

graph_blocks-Covered :
    (nv k b : ℕ) (bbs : List BasicBlock) (l : Liveness) (g : Graph) (bb : BasicBlock)
    (before : List Inst) (i : Inst) (behind : List Inst)
    → get_elem? bbs k ≡ some bb
    → bb.insts ≡ before ++ i ∷ behind
    → Covered nv
        (graph_blocks nv b bbs l g)
        i
        (live_through behind (live_at_end (l.live_out (b + k)) bb))
unfolding graph_blocks
graph_blocks-Covered nv k b [] l g bb before i behind p q = cc
graph_blocks-Covered nv zero b (c ∷ bbs) l g bb before i behind p q =
    grow-Covered (graph_blocks-Grows nv (b + 1) bbs l (graph_insts nv c.insts (live c) g)) (
      subst
        (λ n.
          Covered nv (graph_insts nv c.insts (live c) g) i
            (live_through behind (live_at_end (l.live_out n) bb)))
        (omega arith)
        (subst
          (λ z. Covered nv (graph_insts nv c.insts (live c) g) i (live_through behind (live z)))
          same
          (subst (λ is. Covered nv (graph_insts nv is (live c) g) i (live_through behind (live c)))
            (sym (ap (λ (z : BasicBlock). z.insts) same ∙ q))
            (graph_insts-Covered nv before i behind (live c) g))))
  where
    live : BasicBlock → Flags
    live z = live_at_end (l.live_out b) z

    same : c ≡ bb
    same = cc
graph_blocks-Covered nv (suc k) b (c ∷ bbs) l g bb before i behind p q =
    subst
      (λ n.
        Covered nv
          (graph_blocks nv (b + 1) bbs l (graph_insts nv c.insts (live_at_end (l.live_out b) c) g))
          i (live_through behind (live_at_end (l.live_out n) bb)))
      (omega arith) (graph_blocks-Covered nv k (b + 1) bbs l _ bb before i behind p q)

-- The graph of a function covers each of its instructions.
pub graph_of-Covered :
    (fn : IrFunc) (l : Liveness) (k : ℕ) (bb : BasicBlock) (before : List Inst) (i : Inst)
    (behind : List Inst)
    → get_elem? fn.blocks k ≡ some bb
    → bb.insts ≡ before ++ i ∷ behind
    → Covered fn.num_vregs (graph_of fn l) i (live_through behind (live_at_end (l.live_out k) bb))
unfolding graph_of
graph_of-Covered fn l k bb before i behind p q =
    grow-Covered (graph_params-Grows fn.num_vregs fn.param_regs (l.live_in 0) _) (
      subst
        (λ n.
          Covered fn.num_vregs (graph_blocks fn.num_vregs 0 fn.blocks l empty_graph) i
            (live_through behind (live_at_end (l.live_out n) bb)))
        (omega arith)
        (graph_blocks-Covered fn.num_vregs k 0 fn.blocks l empty_graph bb before i behind p q))
