-- ===== src/Parser/Printer/Operands.antt =====
-- The parser reads operators and single tokens as the printer writes them.
use toy_c_cp.Prelude.{
  ℕ, zero, suc, ◌<◌, ◌≤◌, ◌≡◌, refl, ap, sym, ◌∙◌, subst, Bool, true, false, String, [], ◌∷◌, ◌++◌,
  arith, leb,
}
use toy_c_cp.Ast.{Expr, UnOp, plain_info}
use toy_c_cp.Reading.{ok, continue_with}
use toy_c_cp.Parser.State.{cur, advance, accept}
use toy_c_cp.Parser.Expr.{Joint, arithmetic, connective, join, parse_level, primary_at, unary_op}
use toy_c_cp.Parser.Printer.{
  Term, num, name, joint, prefix, apply, layer, prefix_tok, prec, sign, bracket, bare, shown, node,
}
use toy_c_cp.Parser.Printer.Shape.{layer-le, unary_op-prefix}
use toy_c_cp.Parser.Printer.Levels.{
  ReadsAs, Loops, ReadsAs-Loops, Loops-ReadsAs, Loops-joint, ReadsAs-le, ReadsAs-bracket,
  option-some,
}

pub prec-le : (e : Term) → prec e ≤ 6
prec-le (num v) = omega arith
prec-le (name w) = omega arith
prec-le (joint j a b) = omega (arith, layer-le j)
prec-le (prefix op a) = omega arith
prec-le (apply w args) = omega arith

-- The tokens of a term are read on its layer, and by the loop there if it is an operator's.
abbrev pub Good : ℕ → Term → Type 0
Good line e =
    ReadsAs (prec e) (bare line e) (node line e)
    × ((n : ℕ) → prec e ≡ suc n → Loops n (bare line e) (node line e))

bracket-ReadsAs :
    (line n : ℕ) (e : Term)
    → n ≤ 6
    → Good line e
    → ReadsAs n (bracket line false (bare line e)) (node line e)
bracket-ReadsAs line n e l (h, k) =
    ReadsAs-le 0 n (bracket line false (bare line e)) (node line e) (omega arith) (
      ReadsAs-bracket line (bare line e) (node line e)
        (ReadsAs-le (prec e) 6 (bare line e) (node line e) (prec-le e) h))

pub bare-ReadsAs :
    (line n : ℕ) (e : Term) → prec e ≤ n → Good line e → ReadsAs n (bare line e) (node line e)
bare-ReadsAs line n e l (h, k) = ReadsAs-le (prec e) n (bare line e) (node line e) l h

-- As an operand on a layer.
pub shown-ReadsAs :
    (line n : ℕ) (e : Term) → n ≤ 6 → Good line e → ReadsAs n (shown line n e) (node line e)
shown-ReadsAs line n e l g = chosen (leb (prec e) n) (λ p. ground (arith, p))
  where
    chosen :
        (b : Bool)
        → (b ≡ true → prec e ≤ n)
        → ReadsAs n (bracket line b (bare line e)) (node line e)
    chosen true p = bare-ReadsAs line n e (p refl) g
    chosen false p = bracket-ReadsAs line n e l g

-- As the left operand of an operator, on the layer of this.
shown-Loops :
    (line n : ℕ) (e : Term) → n ≤ 5 → Good line e → Loops n (shown line (suc n) e) (node line e)
shown-Loops line n e l g =
    chosen (leb (prec e) (suc n)) (leb (prec e) n) (λ p. ground (arith, p)) (λ p. ground (arith, p))
      (λ p. ground (arith, p))
  where
    chosen :
        (b c : Bool)
        → (b ≡ true → prec e ≤ suc n)
        → (c ≡ true → prec e ≤ n)
        → (c ≡ false → n < prec e)
        → Loops n (bracket line b (bare line e)) (node line e)
    chosen true true p q r =
        ReadsAs-Loops n (bare line e) (node line e) (bare-ReadsAs line n e (q refl) g)
    chosen true false p q r = g.1 n (omega (arith, p refl, r refl))
    chosen false c p q r =
        ReadsAs-Loops n (bracket line false (bare line e)) (node line e)
          (bracket-ReadsAs line n e (omega arith) g)

node-joint :
    (line : ℕ) (j : Joint) (a b : Term)
    → join j line (node line a) (node line b) ≡ node line (joint j a b)
unfolding node
node-joint line (arithmetic op) a b = refl
node-joint line (connective is_or) a b = refl

pub joint-Good :
    (line : ℕ) (j : Joint) (a b : Term) → Good line a → Good line b → Good line (joint j a b)
unfolding bare node
joint-Good line j a b g h = (
  Loops-ReadsAs (layer j) (bare line (joint j a b)) (node line (joint j a b)) loops,
  λ n p.
      subst (λ m. Loops m (bare line (joint j a b)) (node line (joint j a b))) (omega (arith, p))
        loops,
)
  where
    read : Loops (layer j) (bare line (joint j a b)) (join j line (node line a) (node line b))
    read =
        Loops-joint line (layer j) j (shown line (suc (layer j)) a) (shown line (layer j) b)
          (node line a) (node line b) refl (shown-Loops line (layer j) a (layer-le j) g)
          (shown-ReadsAs line (layer j) b (omega (arith, layer-le j)) h)

    loops : Loops (layer j) (bare line (joint j a b)) (node line (joint j a b))
    loops = subst (Loops (layer j) (bare line (joint j a b))) (node-joint line j a b) read

-- A term without an operator between two operands.
pub primary-Good :
    (line : ℕ) (e : Term) → prec e ≡ 0 → ReadsAs 0 (bare line e) (node line e) → Good line e
primary-Good line e p h = (
  subst (λ n. ReadsAs n (bare line e) (node line e)) (sym p) h,
  λ n q. absurd (omega (arith, p, q)),
)

pub prefix-Good : (line : ℕ) (op : UnOp) (a : Term) → Good line a → Good line (prefix op a)
unfolding bare node parse_level cur advance
prefix-Good line op a g = primary-Good line (prefix op a) refl reads
  where
    reads : ReadsAs 0 (bare line (prefix op a)) (node line (prefix op a))
    reads zero rest s b = absurd (omega arith)
    reads (suc zero) rest s b = absurd (omega arith)
    reads (suc (suc f)) rest s b =
        option-some (unary_op (prefix_tok op)) _ _
          (sign line (prefix_tok op) ∷ (shown line 0 a ++ rest)) op (unary_op-prefix op)
        ∙ ap (continue_with (λ (e, us). ok (Expr.unary (plain_info line) op e, us)))
            (shown-ReadsAs line 0 a (omega arith) g (suc f) rest s (omega (arith, b)))

pub num-Good : (line v : ℕ) → Good line (num v)
unfolding bare node parse_level cur advance unary_op primary_at
num-Good line v = primary-Good line (num v) refl reads
  where
    reads : ReadsAs 0 (bare line (num v)) (node line (num v))
    reads zero rest s b = absurd (omega arith)
    reads (suc zero) rest s b = absurd (omega arith)
    reads (suc (suc zero)) rest s b = absurd (omega arith)
    reads (suc (suc (suc f))) rest s b = refl

pub name-Good : (line : ℕ) (w : String) → Good line (name w)
unfolding bare node parse_level cur advance unary_op primary_at accept
name-Good line w = primary-Good line (name w) refl reads
  where
    reads : ReadsAs 0 (bare line (name w)) (node line (name w))
    reads zero rest s b = absurd (omega arith)
    reads (suc zero) rest s b = absurd (omega arith)
    reads (suc (suc zero)) rest s b = absurd (omega arith)
    reads (suc (suc (suc f))) [] s b = absurd s
    reads (suc (suc (suc f))) (t ∷ ts) s b = rw (s.0) refl
