-- ===== src/Codegen/Optimised/Correct.antt =====
-- The code of the instructions of a block, in the function that it is compiled in.
use mathlib.Core.List.{append_assoc}
use mathlib.Core.Option.{some-injective}
use toy_c_cp.Prelude.{
  ℕ, ◌≡◌, ◌≢◌, sym, ap, ◌∙◌, subst, Bool, none, some, List, [], ◌∷◌, ◌++◌, All, get_elem?,
}
use toy_c_cp.Ir.{Op, Inst, BasicBlock, IrFunc}
use toy_c_cp.Ir.Meaning.{Store, Callee, bind, exec_inst, exec_insts}
use toy_c_cp.Ir.Meaning.Refine.{bind-eq-some}
use toy_c_cp.Ir.Meaning.Words.{
  IsWordStore, IsWordInst, IsWordCallee, value-IsWord, exec_inst-IsWordStore,
}
use toy_c_cp.Rv.{Instr}
use toy_c_cp.Rv.Machine.{Machine, Linker, exec_code}
use toy_c_cp.Opt.RegAlloc.Valid.{Permutes}
use toy_c_cp.Codegen.Naive.Simulation.{IsInRange}
use toy_c_cp.Codegen.Optimised.Access.{Context}
use toy_c_cp.Codegen.Optimised.Computed.{then_code}
use toy_c_cp.Codegen.Optimised.Holds.{IsLayout, Holds}
use toy_c_cp.Codegen.Optimised.Inst.{emit_inst, emit_insts}
use toy_c_cp.Codegen.Optimised.Binary.{NoMagic}
use toy_c_cp.Codegen.Optimised.Step.{ReadsIn}
use toy_c_cp.Codegen.Optimised.Refinement.{Keeps, Simulated, any-Simulated}
use toy_c_cp.Codegen.Optimised.Allocated.{
  Alive, IsFrame, compiled, compiled-IsLayout, at_end, Alive-reads, Alive-Keeps,
}

-- An instruction but a call, with registers and a global that exist, with words for its immediates, and
-- no division by a constant that takes a magic number.
pub record IsPlain (c : Context) (num_vregs num_globals : ℕ) (i : Inst) : Type 0 where
  pub not_call : i.op ≢ Op.call
  pub in_range : IsInRange num_vregs num_globals i
  pub fits : IsWordInst i
  pub no_magic : NoMagic c i.op i.b
  pub store_dst : i.op ≡ Op.store_global → i.dst ≡ none

module _ (lk : Linker) (c : Context) (ng sp nv : ℕ) (lay : IsLayout lk c ng sp)
    (callee : Callee) where
  emit_inst-Simulated :
      (i : Inst) (before behind : ℕ → Type 0) (s t : Store) (m : Machine) (code : List Instr)
      → IsPlain c nv ng i
      → Keeps c i.op i.a i.dst before behind
      → ReadsIn before i.op i.a i.b
      → IsWordStore s
      → Holds lk c ng sp before s m
      → emit_inst c none i ≡ some code
      → exec_inst callee i s ≡ some t
      → Simulated lk c ng sp lay behind code t m
  unfolding emit_inst exec_inst
  emit_inst-Simulated i before behind s t m code ok k rd ws h e x =
      any-Simulated lk c ng sp lay callee i.op i.dst i.a i.b i.gid i.callee i.args i.magic_vreg
        i.unsigned_div before behind s t m code ok.not_call ok.store_dst k rd ok.in_range.gid_below
        (value-IsWord s i.a ws ok.fits.a_fits) (value-IsWord s i.b ws ok.fits.b_fits) ok.no_magic h
        e x

module _ (lk : Linker) (ng sp : ℕ) (callee : Callee) (sort : (ℕ → ℕ → Bool) → List ℕ → List ℕ)
    (opt : Bool) (fn : IrFunc) (perm : Permutes sort) (k : ℕ) (bb : BasicBlock)
    (at : get_elem? fn.blocks k ≡ some bb) (fr : IsFrame lk (compiled sort opt fn) ng sp)
    (words : IsWordCallee callee) where
  abbrev ctx : Context
  ctx = compiled sort opt fn

  -- What is read from the instructions on, or behind the block.
  abbrev pub Live : List Inst → ℕ → Type 0
  Live is = Alive fn (at_end sort opt fn perm k bb at) is

  -- From a machine that holds the live registers of a store of words in the places that the allocation
  -- gives them, and the globals, the code of the rest of a block runs to a machine that holds what is
  -- live behind the block, if the instructions have a result. They must be no calls and no divisions
  -- that take a magic number, with registers and globals that exist; the sort must permute, and the frame
  -- must be aligned and fit in memory, apart from the globals.
  pub emit_insts-compiled :
      (before is : List Inst) (s t : Store) (m : Machine) (code : List Instr)
      → bb.insts ≡ before ++ is
      → All (IsPlain ctx fn.num_vregs ng) is
      → IsWordStore s
      → Holds lk ctx ng sp (Live is) s m
      → emit_insts ctx is ≡ some code
      → exec_insts callee is s ≡ some t
      → (n : Machine) × (exec_code lk code m ≡ some n) × Holds lk ctx ng sp (Live []) t n
  unfolding emit_insts exec_insts exec_code
  emit_insts-compiled before [] s t m code p ok ws h e x = (
    m,
    ap (λ is. exec_code lk is m) (sym (some-injective _ _ e)),
    subst (λ s'. Holds lk ctx ng sp (Live []) s' m) (some-injective _ _ x) h,
  )
  emit_insts-compiled before (i ∷ is) s t m code p ok ws h e x =
      let (js, e1, q1) =
        bind-eq-some (emit_inst ctx none i) (λ js. bind (emit_insts ctx is) (λ ks. some (js ++ ks)))
          e in
      let (ks, e2, q2) = bind-eq-some (emit_insts ctx is) (λ ks. some (js ++ ks)) q1 in
      let (u, x1, y1) = bind-eq-some (exec_inst callee i s) (exec_insts callee is) x in
      let lay = compiled-IsLayout sort opt fn perm lk ng sp fr in
      let keep = Alive-Keeps sort opt fn perm k bb at before i is p ok.0.in_range.dst_below in
      let reads =
        Alive-reads sort opt fn perm k bb at i is ok.0.in_range.a_below ok.0.in_range.b_below in
      let (n, en, hn) =
        emit_inst-Simulated lk ctx ng sp fn.num_vregs lay callee i (Live (i ∷ is)) (Live is) s u m
          js ok.0 keep reads ws h e1 x1 in
      let wu = exec_inst-IsWordStore callee words i s u ws ok.0.fits x1 in
      let (o, eo, ho) =
        emit_insts-compiled (before ++ i ∷ []) is u t n ks
          (p ∙ sym (append_assoc before (i ∷ []) is)) ok.1 wu hn e2 y1 in
      (
        o,
        ap (λ c. exec_code lk c m) (sym (some-injective _ _ q2)) ∙ then_code lk js ks m n en eo,
        ho,
      )
