-- ===== src/Codegen/Optimised/Holds.antt =====
-- When a machine holds the virtual registers that are still read, by the places of an allocation.
use toy_c_cp.Prelude.{
  ℕ, ◌+◌, ◌%◌, ◌<◌, ◌≡◌, ◌≢◌, refl, sym, ap, ◌∙◌, subst, true, false, Option, some, none, List, ◌⊎◌,
  inl, inr, ◌==◌, arith, if-case,
}
use mathlib.Core.Option.{some-injective}
use toy_c_cp.Word.{word_mod}
use toy_c_cp.Ir.{Val, imm, reg}
use toy_c_cp.Ir.Meaning.{Store, value}
use toy_c_cp.Ir.Meaning.Refine.{bind-eq-some}
use toy_c_cp.Rv.{Instr, x_sp, x_zero}
use toy_c_cp.Rv.Machine.{Machine, Linker, set_x, exec_instr, exec_code}
use toy_c_cp.Codegen.Optimised.Access.{
  Context, reg_or_load, move_or_load, load_spill, spill_off, load_off, to_reg, materialize,
}
use toy_c_cp.Codegen.Optimised.Computed.{
  is_scratch, Unchanged, Computes, Unchanged-self, set_x-Computed,
}
use toy_c_cp.Codegen.Optimised.Frame.{Touched, Touched-Unchanged, load_off-Touched}

-- A register that the allocation may give.
pub record IsPooled (p : ℕ) : Type 0 where
  pub no_scratch : is_scratch p ≡ false
  pub no_zero : p ≢ x_zero
  pub no_sp : p ≢ x_sp

-- The registers are allocated from the pools, the slots lie in memory without wrapping, the globals lie
-- elsewhere, each at its own address, and all are aligned to words.
pub record IsLayout (lk : Linker) (c : Context) (num_globals sp : ℕ) : Type 0 where
  pub pooled : (v p : ℕ) → c.alloc.reg v ≡ some p → IsPooled p
  pub slots_aligned : (v off : ℕ) → spill_off c v ≡ some off → (sp + off) % 4 ≡ 0
  pub globals_aligned : (g : ℕ) → g < num_globals → lk.address g % 4 ≡ 0
  pub slots_fit : (v off : ℕ) → spill_off c v ≡ some off → sp + off < word_mod
  pub apart : (v off g : ℕ) → spill_off c v ≡ some off → g < num_globals → lk.address g ≢ sp + off
  pub distinct : (g h : ℕ) → g < num_globals → h < num_globals → lk.address g ≡ lk.address h → g ≡ h

-- The machine holds those virtual registers of the store that are in `live`, and the globals.
pub record Holds (lk : Linker) (c : Context) (num_globals sp : ℕ) (live : ℕ → Type 0) (s : Store)
    (m : Machine) : Type 0 where
  pub sp_same : m.x x_sp ≡ sp
  pub zero_same : m.x x_zero ≡ 0
  pub in_reg : (v p : ℕ) → live v → c.alloc.reg v ≡ some p → m.x p ≡ s.regs v
  pub in_slot :
      (v off : ℕ)
      → live v
      → c.alloc.reg v ≡ none
      → spill_off c v ≡ some off
      → m.mem (sp + off) ≡ s.regs v
  pub globals : (g : ℕ) → g < num_globals → m.mem (lk.address g) ≡ s.globals g

abbrev pub ValIn : (ℕ → Type 0) → Val → Type 0
ValIn live (imm n) = Unit
ValIn live (reg v) = live v

-- The two virtual registers have no place in common.
pub record Apart (c : Context) (d v : ℕ) : Type 0 where
  pub regs_apart : (p : ℕ) → c.alloc.reg d ≡ some p → c.alloc.reg v ≢ some p
  pub slots_apart :
      (a b : ℕ)
      → c.alloc.reg d ≡ none
      → c.alloc.reg v ≡ none
      → spill_off c d ≡ some a
      → spill_off c v ≡ some b
      → a ≢ b

-- Behind a write of `w` to `d`: what is still live was live before, and is not overwritten or has the
-- same value.
abbrev pub Survives : Context → (ℕ → Type 0) → (ℕ → Type 0) → Store → ℕ → ℕ → Type 0
Survives c before behind s d w =
    (v : ℕ) → behind v → v ≢ d → before v × (Apart c d v ⊎ (s.regs v ≡ w))

module _ (lk : Linker) (c : Context) (ng sp : ℕ) (lay : IsLayout lk c ng sp) where
  -- Only registers for values in between have changed.
  pub Holds-Unchanged :
      {live : ℕ → Type 0} {s : Store} {m n : Machine} (r : ℕ)
      → is_scratch r ≡ true
      → Holds lk c ng sp live s m
      → Unchanged r m n
      → Holds lk c ng sp live s n
  Holds-Unchanged r k h u = record {
    sp_same = u.same_x x_sp (ground arith) refl ∙ h.sp_same;
    zero_same = u.same_x x_zero (ground arith) refl ∙ h.zero_same;
    in_reg = λ v p l e.
        let ok = lay.pooled v p e in
        u.same_x p (λ same. absurd (cc)) ok.no_scratch ∙ h.in_reg v p l e;
    in_slot = λ v off l e f. ap (λ f'. f' (sp + off)) u.same_mem ∙ h.in_slot v off l e f;
    globals = λ g b. ap (λ f'. f' (lk.address g)) u.same_mem ∙ h.globals g b;
  }

  pub load_spill-Touched :
      {live : ℕ → Type 0} {s : Store} {m : Machine} (v r off : ℕ)
      → r ≢ x_zero
      → live v
      → c.alloc.reg v ≡ none
      → spill_off c v ≡ some off
      → Holds lk c ng sp live s m
      → (n : Machine) × (exec_code lk (load_off r off) m ≡ some n)
        × (n.x r ≡ s.regs v)
        × Touched r m n
  load_spill-Touched {m = m} v r off nz l e f h =
      let fit : m.x x_sp + off < word_mod = omega (arith, h.sp_same, lay.slots_fit v off f) in
      let (n, p, q, t) =
        load_off-Touched lk r off m nz fit (rw h.sp_same (lay.slots_aligned v off f)) in
      (n, p, q ∙ ap (λ a. m.mem (a + off)) h.sp_same ∙ h.in_slot v off l e f, t)

  -- The code leaves the value in the register: the one asked for, or an allocated one, or 0.
  abbrev Got : ℕ → ℕ → Machine → ℕ × List Instr → Type 0
  Got w scratch m (r, is) =
      (n : Machine) × (exec_code lk is m ≡ some n)
      × (n.x r ≡ w)
      × Touched scratch m n
      × ((r ≡ scratch) ⊎ (is_scratch r ≡ false))

  reg_or_load-Got :
      {live : ℕ → Type 0} {s : Store} {m : Machine} (v scratch : ℕ) (o : Option ℕ)
      (out : ℕ × List Instr)
      → is_scratch scratch ≡ true
      → live v
      → Holds lk c ng sp live s m
      → c.alloc.reg v ≡ o
      → reg_or_load c v scratch o ≡ some out
      → Got (s.regs v) scratch m out
  unfolding exec_code
  reg_or_load-Got {m = m} v scratch (some p) out sc l h ep e =
      subst (Got _ scratch m) (some-injective _ _ e) (
        m,
        refl,
        h.in_reg v p l ep,
        record { same_mem = refl; same_x = λ q a b. refl },
        inr (lay.pooled v p ep).no_scratch,
      )
  reg_or_load-Got {m = m} v scratch none out sc l h ep e =
      let (is, ei, e1) = bind-eq-some (load_spill c scratch v) _ e in
      let (off, eo, e2) = bind-eq-some (spill_off c v) _ ei in
      let (n, p, q, t) = load_spill-Touched v scratch off (ground arith) l ep eo h in
      subst (Got _ scratch m) (some-injective _ _ e1)
        (n, ap (λ k. exec_code lk k m) (sym (some-injective _ _ e2)) ∙ p, q, t, inl refl)

  pub to_reg-Got :
      {live : ℕ → Type 0} {s : Store} {m : Machine} (v : Val) (scratch : ℕ) (out : ℕ × List Instr)
      → is_scratch scratch ≡ true
      → ValIn live v
      → Holds lk c ng sp live s m
      → to_reg c v scratch ≡ some out
      → Got (value s v) scratch m out
  unfolding to_reg exec_code exec_instr
  to_reg-Got (reg v) scratch out sc l h e =
      reg_or_load-Got v scratch (c.alloc.reg v) out sc l h refl e
  to_reg-Got {m = m} (imm k) scratch out sc l h e =
      if-case (λ o. o ≡ some out → Got k scratch m out) (k == 0)
        (λ z e0. subst (Got k scratch m) (some-injective _ _ e0) (
          m,
          refl,
          h.zero_same ∙ ground arith,
          record { same_mem = refl; same_x = λ q a b. refl },
          inr refl,
        ))
        (λ nz e0. subst (Got k scratch m) (some-injective _ _ e0) (
          set_x scratch k m,
          refl,
          ground arith,
          record { same_mem = ground arith; same_x = λ q a b. ground arith },
          inl refl,
        ))
        e

  -- The code leaves a value in the register that is asked for.
  pub materialize-Computes :
      {live : ℕ → Type 0} {s : Store} {m : Machine} (v : Val) (r : ℕ) (is : List Instr)
      → r ≢ x_zero
      → ValIn live v
      → Holds lk c ng sp live s m
      → materialize c v r ≡ some is
      → Computes lk is r (value s v) m
  unfolding materialize exec_code exec_instr
  materialize-Computes {s = s} {m = m} (imm k) r is nz l h e =
      subst (λ js. Computes lk js r k m) (some-injective _ _ e)
        (_, refl, set_x-Computed r k k m m nz refl (Unchanged-self r m))
  materialize-Computes {s = s} {m = m} (reg v) r is nz l h e = by_place (c.alloc.reg v) refl e
    where
      by_place :
          (o : Option ℕ)
          → c.alloc.reg v ≡ o
          → move_or_load c v r o ≡ some is
          → Computes lk is r (s.regs v) m
      by_place (some p) ep e0 =
          subst (λ js. Computes lk js r (s.regs v) m) (some-injective _ _ e0)
            (if-case (λ js. Computes lk js r (s.regs v) m) (p == r)
              (λ same. (
                m,
                refl,
                record {
                  result = ap m.x (ground arith) ∙ h.in_reg v p l ep;
                  unchanged = Unchanged-self r m;
                },
              ))
              (λ other.
                (_, refl, set_x-Computed r _ _ m m nz (h.in_reg v p l ep) (Unchanged-self r m))))
      by_place none ep e0 =
          let (off, eo, e1) = bind-eq-some (spill_off c v) _ e0 in
          let (n, p, q, t) = load_spill-Touched v r off nz l ep eo h in
          subst (λ js. Computes lk js r (s.regs v) m) (some-injective _ _ e1)
            (n, p, record { result = q; unchanged = Touched-Unchanged t })
