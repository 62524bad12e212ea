-- ===== src/Opt/Cse/Known.antt =====
-- What the tables of cse claim of a store, and that it stays true.
use toy_c_cp.Prelude.{
  ℕ, ◌≡◌, refl, ap, subst, Bool, true, false, not, ◌&&◌, ◌||◌, Option, none, some, List, [], ◌∷◌,
  ◌==◌, if◌then◌else◌, All, All-weaken, Bool-cases, inl, inr, arith,
}
use toy_c_cp.Word.{neg32}
use toy_c_cp.Ir.{Val, imm, reg, Op, Inst}
use toy_c_cp.Ir.Meaning.{Store, value, write, eval_op}
use toy_c_cp.Opt.RegAlloc.Graph.{is_dst}
use toy_c_cp.Opt.Cse.{
  BinKey, Avail, op_number, same_val, find_value, drop_where, reads, kill_def, kill_dst, kill_val,
  kill_vals,
}

unfoldable pub eval_unary : Op → ℕ → Option ℕ
eval_unary Op.neg a = some (neg32 a)
eval_unary Op.not a = some (if a == 0 then 1 else 0)
eval_unary _ a = none

-- No instruction writes the register.
unfoldable pub unwritten : ℕ → List Inst → Bool
unwritten r [] = true
unwritten r (i ∷ is) = not (is_dst i.dst r) && unwritten r is

abbrev pub HoldsBinary : Store → List Inst → BinKey × ℕ → Type 0
HoldsBinary s is (k, r) =
    (eval_op k.op (value s k.a) (value s k.b) ≡ some (s.regs r)) × (unwritten r is ≡ true)

abbrev pub HoldsUnary : Store → List Inst → (Op × ℕ) × ℕ → Type 0
HoldsUnary s is (k, r) = (eval_unary k.0 (s.regs k.1) ≡ some (s.regs r)) × (unwritten r is ≡ true)

abbrev pub HoldsLoad : Store → ℕ × ℕ → Type 0
HoldsLoad s (g, r) = s.globals g ≡ s.regs r

-- The tables at a store, with the instructions that are to come.
pub record Known (s : Store) (is : List Inst) (av : Avail) : Type 0 where
  pub binary : All (HoldsBinary s is) av.binary
  pub unary : All (HoldsUnary s is) av.unary
  pub loads : All (HoldsLoad s) av.loads

pub All-drop_where :
    {A : Type 0} (P Q : A → Type 0) (p : A → Bool) (xs : List A)
    → ((x : A) → p x ≡ false → P x → Q x)
    → All P xs
    → All Q (drop_where p xs)
unfolding drop_where
All-drop_where P Q p [] f h = tt
All-drop_where P Q p (x ∷ xs) f h = elim (Bool-cases (p x)) [
  | inl out ↦ rw out (All-drop_where P Q p xs f h.1)
  | inr stays ↦ rw stays (f x stays h.0, All-drop_where P Q p xs f h.1)
]

pub find_value-All :
    {K : Type 0} (P : K × ℕ → Type 0) (p : K → Bool) (xs : List (K × ℕ)) (r : ℕ)
    → All P xs
    → find_value p xs ≡ some r
    → (k : K) × (p k ≡ true) × P (k, r)
unfolding find_value
find_value-All P p [] r h e = absurd (cc)
find_value-All P p ((k, q) ∷ xs) r h e = elim (Bool-cases (p k)) [
  | inl here ↦ (k, here, subst (λ z. P (k, z)) (some_same (rw here at e)) h.0)
  | inr later ↦ find_value-All P p xs r h.1 (rw later at e)
]
  where
    some_same : some q ≡ some r → q ≡ r
    some_same h = cc

pub op_number-injective : (o p : Op) → (op_number o == op_number p) ≡ true → o ≡ p
unfolding op_number
op_number-injective o p h = ground arith

pub same_val-eq : (v w : Val) → same_val v w ≡ true → v ≡ w
same_val-eq (imm n) (imm m) h = ap imm (ground arith)
same_val-eq (reg r) (reg q) h = ap reg (ground arith)
same_val-eq (imm n) (reg q) h = absurd (cc)
same_val-eq (reg r) (imm m) h = absurd (cc)

pub value-unread :
    (d v : ℕ) (s : Store) (x : Val) → reads d x ≡ false → value (write (some d) v s) x ≡ value s x
value-unread d v s (imm n) h = refl
value-unread d v s (reg r) h = rw h refl

pub regs-unwritten :
    (dst : Option ℕ) (v r : ℕ) (s : Store)
    → is_dst dst r ≡ false
    → (write dst v s).regs r ≡ s.regs r
regs-unwritten none v r s h = refl
regs-unwritten (some d) v r s h = rw h refl

-- Killing more claims less.
pub kill_def-Known :
    (d : ℕ) (s : Store) (is : List Inst) (av : Avail) → Known s is av → Known s is (kill_def d av)
unfolding kill_def
kill_def-Known d s is av h = record {
  binary = All-drop_where (HoldsBinary s is) (HoldsBinary s is) _ av.binary (λ x k p. p) h.binary;
  unary = All-drop_where (HoldsUnary s is) (HoldsUnary s is) _ av.unary (λ x k p. p) h.unary;
  loads = All-drop_where (HoldsLoad s) (HoldsLoad s) _ av.loads (λ x k p. p) h.loads;
}

pub kill_vals-Known :
    (vs : List Val) (s : Store) (is : List Inst) (av : Avail)
    → Known s is av
    → Known s is (kill_vals vs av)
unfolding kill_vals
kill_vals-Known [] s is av h = h
kill_vals-Known (imm n ∷ vs) s is av h = kill_vals-Known vs s is av h
kill_vals-Known (reg r ∷ vs) s is av h =
    kill_vals-Known vs s is (kill_def r av) (kill_def-Known r s is av h)

-- A fact of the tables survives an instruction that writes neither its registers nor its result.
module _ (i : Inst) (is : List Inst) (s : Store) (v : ℕ) where
  unwritten-behind :
      (r : ℕ) → unwritten r (i ∷ is) ≡ true → (is_dst i.dst r ≡ false) × (unwritten r is ≡ true)
  unfolding unwritten
  unwritten-behind r h = (ground arith, ground arith)

  HoldsBinary-write :
      (d : ℕ) (k : BinKey) (r : ℕ)
      → i.dst ≡ some d
      → (reads d k.a || reads d k.b) ≡ false
      → HoldsBinary s (i ∷ is) (k, r)
      → HoldsBinary (write (some d) v s) is (k, r)
  HoldsBinary-write d k r e n (h, u) =
      let (x, y) = unwritten-behind r u in
      (
        rw
            (
              value-unread d v s k.a (ground (arith, n)),
              value-unread d v s k.b (ground (arith, n)),
              regs-unwritten (some d) v r s (subst (λ z. is_dst z r ≡ false) e x),
            )
            h,
        y,
      )

  HoldsUnary-write :
      (d : ℕ) (k : Op × ℕ) (r : ℕ)
      → i.dst ≡ some d
      → (k.1 == d) ≡ false
      → HoldsUnary s (i ∷ is) (k, r)
      → HoldsUnary (write (some d) v s) is (k, r)
  HoldsUnary-write d k r e n (h, u) =
      let (x, y) = unwritten-behind r u in
      (rw (n, regs-unwritten (some d) v r s (subst (λ z. is_dst z r ≡ false) e x)) h, y)

  HoldsLoad-write :
      (d g r : ℕ) → (r == d) ≡ false → HoldsLoad s (g, r) → HoldsLoad (write (some d) v s) (g, r)
  HoldsLoad-write d g r n h = rw n h

  known_behind :
      (dst : Option ℕ) (av : Avail)
      → i.dst ≡ dst
      → Known s (i ∷ is) av
      → Known (write dst v s) is (kill_dst dst av)
  unfolding kill_def
  known_behind none av e h = record {
    binary =
        All-weaken (HoldsBinary s (i ∷ is)) (HoldsBinary s is)
          (λ (k, r) (p, u). (p, (unwritten-behind r u).1)) av.binary h.binary;
    unary =
        All-weaken (HoldsUnary s (i ∷ is)) (HoldsUnary s is)
          (λ (k, r) (p, u). (p, (unwritten-behind r u).1)) av.unary h.unary;
    loads = h.loads;
  }
  known_behind (some d) av e h = record {
    binary =
        All-drop_where (HoldsBinary s (i ∷ is)) (HoldsBinary (write (some d) v s) is) _ av.binary
          (λ (k, r) n p. HoldsBinary-write d k r e n p) h.binary;
    unary =
        All-drop_where (HoldsUnary s (i ∷ is)) (HoldsUnary (write (some d) v s) is) _ av.unary
          (λ (k, r) n p. HoldsUnary-write d k r e n p) h.unary;
    loads =
        All-drop_where (HoldsLoad s) (HoldsLoad (write (some d) v s)) _ av.loads
          (λ (g, r) n p. HoldsLoad-write d g r n p) h.loads;
  }

-- What is known before an instruction is known behind it, but for what its destination kills.
pub kill_dst-Known :
    (i : Inst) (v : ℕ) (s : Store) (is : List Inst) (av : Avail)
    → Known s (i ∷ is) av
    → Known (write i.dst v s) is (kill_dst i.dst av)
kill_dst-Known i v s is av h = known_behind i is s v i.dst av refl h

value-globals : (s : Store) (gs : ℕ → ℕ) (v : Val) → value (record s { globals = gs }) v ≡ value s v
value-globals s gs (imm n) = refl
value-globals s gs (reg r) = refl

-- Other globals leave what is known of the registers.
pub globals-Known :
    (s : Store) (gs : ℕ → ℕ) (is : List Inst) (av : Avail) (loads : List (ℕ × ℕ))
    → Known s is av
    → All (HoldsLoad (record s { globals = gs })) loads
    → Known (record s { globals = gs }) is (record av { loads = loads })
globals-Known s gs is av loads h l = record {
  binary =
      All-weaken (HoldsBinary s is) (HoldsBinary (record s { globals = gs }) is)
        (λ (k, r) (p, u). (rw (value-globals s gs k.a, value-globals s gs k.b) p, u)) av.binary
        h.binary;
  unary = h.unary;
  loads = l;
}

pub tail-Known :
    (i : Inst) (s : Store) (is : List Inst) (av : Avail) → Known s (i ∷ is) av → Known s is av
tail-Known i s is av h = record {
  binary =
      All-weaken (HoldsBinary s (i ∷ is)) (HoldsBinary s is)
        (λ (k, r) (p, u). (p, (unwritten-behind i is s 0 r u).1)) av.binary h.binary;
  unary =
      All-weaken (HoldsUnary s (i ∷ is)) (HoldsUnary s is)
        (λ (k, r) (p, u). (p, (unwritten-behind i is s 0 r u).1)) av.unary h.unary;
  loads = h.loads;
}

pub kill_val-Known :
    (v : Val) (s : Store) (is : List Inst) (av : Avail) → Known s is av → Known s is (kill_val v av)
kill_val-Known (imm n) s is av h = h
kill_val-Known (reg r) s is av h = kill_def-Known r s is av h
