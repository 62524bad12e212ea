-- ===== src/Codegen/Optimised/Func/Params.antt =====
-- Where a frame is large, the prologue overwrites the argument that the caller has put in a7.
use toy_c_cp.Prelude.{
  Bool-cases, inl, inr, subst, ℕ, ◌+◌, ◌-◌, ◌*◌, ◌%◌, ◌≤◌, ◌<◌, ◌≡◌, refl, sym, ap, ◌∙◌, Bool,
  false, some, List, [], ◌∷◌, leb, ◌==◌, if-case, if◌then◌else◌, arith, length,
}
use toy_c_cp.Word.{IsWord, half_mod, word_mod, add32, sub32, neg32}
use toy_c_cp.Ir.{IrFunc}
use toy_c_cp.Ir.Meaning.{bind}
use toy_c_cp.Rv.{Instr, li, sw, x_sp, x_a7, x_ra}
use toy_c_cp.Rv.Machine.{Machine, Linker, aligned-some, set_x, exec_instr, exec_code}
use toy_c_cp.Opt.RegAlloc.Colour.{Allocation}
use toy_c_cp.Codegen.Naive.{align16}
use toy_c_cp.Codegen.Optimised.Access.{store_off}
use toy_c_cp.Codegen.Optimised.Computed.{then_code}
use toy_c_cp.Codegen.Optimised.Func.{ra_space, store_callees, open_frame, emit_prologue, context_of}

-- The offset that a7 was last used for, behind the stores of the saved registers from `off` on.
last_far : ℕ → List ℕ → ℕ → ℕ
last_far off [] prev = prev
last_far off (r ∷ rs) prev = last_far (off + 4) rs (if leb off 2047 then prev else off)

last_far-low : (off : ℕ) (rs : List ℕ) (prev : ℕ) → 2048 ≤ prev → 2048 ≤ last_far off rs prev
unfolding last_far
last_far-low off [] prev l = l
last_far-low off (r ∷ rs) prev l =
    last_far-low (off + 4) rs (if leb off 2047 then prev else off) (ground arith)

last_far-high :
    (off : ℕ) (rs : List ℕ) (prev top : ℕ)
    → prev ≤ top
    → off + length rs * 4 ≤ top
    → last_far off rs prev ≤ top
unfolding last_far
last_far-high off [] prev top l h = l
last_far-high off (r ∷ rs) prev top l h =
    last_far-high (off + 4) rs (if leb off 2047 then prev else off) top (ground arith) (omega arith)

module _ (lk : Linker) where
  -- The code runs, and leaves the stack pointer at `sp` and `sp + off` in a7.
  abbrev pub Leads : List Instr → ℕ → ℕ → Machine → Type 0
  Leads code sp off m =
      (n : Machine) × (exec_code lk code m ≡ some n) × (n.x x_sp ≡ sp) × (n.x x_a7 ≡ add32 sp off)

  module _ (sp : ℕ) (al : sp % 4 ≡ 0) where
    far_store :
        (r off : ℕ) (m : Machine)
        → m.x x_sp ≡ sp
        → off % 4 ≡ 0
        → 2048 ≤ off
        → Leads (store_off r off) sp off m
    unfolding store_off exec_code exec_instr add32
    far_store r off m e ao l =
        if-case (λ code. Leads code sp off m) (leb off 2047) (λ short. absurd (ground arith))
          (λ long. (
            _,
            ap (λ o. bind o some) (aligned-some _ _ (omega (arith, e))),
            e,
            ap (λ a. (a + off) % word_mod) e,
          ))

    any_store :
        (r off prev : ℕ) (m : Machine)
        → m.x x_sp ≡ sp
        → off % 4 ≡ 0
        → m.x x_a7 ≡ add32 sp prev
        → Leads (store_off r off) sp (if leb off 2047 then prev else off) m
    unfolding store_off exec_code exec_instr add32
    any_store r off prev m e ao h = elim (Bool-cases (leb off 2047)) [
      | inl short ↦
          subst Behind (sym short)
            (_, ap (λ o. bind o some) (aligned-some _ _ (omega (arith, e))), e, h)
      | inr long ↦ subst Behind (sym long) (
        _,
        ap (λ o. bind o some) (aligned-some _ _ (omega (arith, e))),
        e,
        ap (λ a. (a + off) % word_mod) e,
      )
    ]
      where
        Behind : Bool → Type 0
        Behind b =
            Leads
              (if b
                then sw r off x_sp ∷ []
                else li x_a7 off ∷ Instr.add x_a7 x_sp x_a7 ∷ sw r 0 x_a7 ∷ [])
              sp (if b then prev else off) m

    store_callees-Leads :
        (rs : List ℕ) (off prev : ℕ) (m : Machine)
        → m.x x_sp ≡ sp
        → off % 4 ≡ 0
        → m.x x_a7 ≡ add32 sp prev
        → Leads (store_callees off rs) sp (last_far off rs prev) m
    unfolding exec_code last_far
    store_callees-Leads [] off prev m e ao h = (m, refl, e, h)
    store_callees-Leads (r ∷ rs) off prev m e ao h =
        let (n, p, e1, h1) = any_store r off prev m e ao h in
        let (o, q, e2, h2) = store_callees-Leads rs (off + 4) _ n e1 (omega arith) h1 in
        (o, then_code lk (store_off r off) (store_callees (off + 4) rs) m n p q, e2, h2)

  open_frame-runs :
      (size : ℕ) (m : Machine)
      → IsWord (m.x x_sp)
      → size < half_mod
      → (n : Machine) × (exec_code lk (open_frame size) m ≡ some n)
        × (n.x x_sp ≡ sub32 (m.x x_sp) size)
  unfolding exec_code exec_instr sub32 add32 neg32
  open_frame-runs size m w l =
      if-case Opened (size == 0) (λ z. (m, refl, ground arith))
        (λ nz.
          if-case Opened (leb size 2048)
            (λ short. (set_x x_sp (add32 (m.x x_sp) (neg32 size)) m, refl, omega (arith, w, l)))
            (λ long. (_, refl, refl)))
    where
      Opened : List Instr → Type 0
      Opened code =
          (n : Machine) × (exec_code lk code m ≡ some n)
          × (n.x x_sp ≡ (m.x x_sp + word_mod - size) % word_mod)

sub_aligned : (x s : ℕ) → x % 4 ≡ 0 → s % 4 ≡ 0 → s < half_mod → sub32 x s % 4 ≡ 0
unfolding sub32
sub_aligned x s h k l = omega (arith, h, k, l)

-- In a function that calls another, with its return address 2048 bytes or more above the stack pointer
-- and a frame of less than 2 ^ 31 bytes: there is one offset inside the frame such that from every
-- machine, with whatever argument in a7, the prologue runs and leaves in a7 the new stack pointer plus
-- this offset. The stack pointer must be an aligned word.
pub emit_prologue-a7 :
    (lk : Linker) (opt : Bool) (a : Allocation) (fn : IrFunc)
    → a.is_leaf ≡ false
    → 2048 ≤ (context_of opt a fn).ra_off
    → (context_of opt a fn).frame_size < half_mod
    → (off : ℕ) × (2048 ≤ off)
      × (off < (context_of opt a fn).frame_size)
      × ((m : Machine)
          → IsWord (m.x x_sp)
          → m.x x_sp % 4 ≡ 0
          → Leads lk
              (emit_prologue (context_of opt a fn))
              (sub32 (m.x x_sp) (context_of opt a fn).frame_size)
              off
              m)
unfolding emit_prologue context_of align16
emit_prologue-a7 lk opt a fn leaf l fits =
    let c = context_of opt a fn in
    let space : ra_space a.is_leaf ≡ 4 = ap ra_space leaf in
    (
      last_far c.callee_base a.used_callee c.ra_off,
      last_far-low c.callee_base a.used_callee c.ra_off l,
      omega (
        arith,
        space,
        last_far-high c.callee_base a.used_callee c.ra_off c.ra_off (omega arith) (omega arith),
      ),
      λ m w al.
          let (m1, p1, e1) = open_frame-runs lk c.frame_size m w fits in
          let al1 : sub32 (m.x x_sp) c.frame_size % 4 ≡ 0 =
            sub_aligned (m.x x_sp) c.frame_size al (omega arith) fits in
          let (m2, p2, e2, h2) = far_store lk _ al1 x_ra c.ra_off m1 e1 (omega arith) l in
          let (m3, p3, e3, h3) =
            store_callees-Leads lk _ al1 a.used_callee c.callee_base c.ra_off m2 e2 (omega arith)
              h2 in
          let back : store_off x_ra c.ra_off ≡ (if a.is_leaf then [] else store_off x_ra c.ra_off) =
            ap (λ b. if b then [] else store_off x_ra c.ra_off) (sym leaf) in
          (
            m3,
            then_code lk (open_frame c.frame_size) _ m m1 p1 (
                then_code lk _ (store_callees c.callee_base a.used_callee) m1 m2
                  (ap (λ code. exec_code lk code m1) (sym back) ∙ p2) p3),
            e3,
            h3,
          ),
    )
