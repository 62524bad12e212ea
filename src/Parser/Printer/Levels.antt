-- ===== src/Parser/Printer/Levels.antt =====
-- How the layers of the parser pass tokens on to each other: which tokens a layer reads as which node,
-- from the layer below it and from the loop over its operators.
use mathlib.Core.List.{append_assoc}
use native.Mathlib.Numerals.{unary_clauses}
use toy_c_cp.Prelude.{
  ℕ, zero, suc, ◌+◌, ◌-◌, ◌*◌, ◌<◌, ◌≤◌, ◌≡◌, refl, ap, sym, ◌∙◌, subst, Option, none, some, List,
  [], ◌∷◌, ◌++◌, arith, length, length-append,
}
use toy_c_cp.Ast.{Expr}
use toy_c_cp.Reading.{ok, continue_with}
use toy_c_cp.Lexer.Tokens.{Tok, Token, same_tok}
use toy_c_cp.Parser.State.{Parse, cur, advance, expect}
use toy_c_cp.Parser.Expr.{Joint, op_at, join, parse_level, parse_more, primary_at, unary_op}
use toy_c_cp.Parser.Printer.{layer, joint_tok, sign}
use toy_c_cp.Parser.Printer.Shape.{Stops, Stops-joint, Stops-closes, op_at-joint, closes}

-- A parser that chooses by an option.
pub option-none :
    {X A : Type 0} (o : Option X) (p : Parse A) (q : X → Parse A) (ts : List Token)
    → o ≡ none
    → (elim o as (λ _. Parse A) [ none ↦ p | some x ↦ q x ]) ts ≡ p ts
option-none o p q ts h = ap (λ o. (elim o as (λ _. Parse _) [ none ↦ p | some x ↦ q x ]) ts) h

pub option-some :
    {X A : Type 0} (o : Option X) (p : Parse A) (q : X → Parse A) (ts : List Token) (x : X)
    → o ≡ some x
    → (elim o as (λ _. Parse A) [ none ↦ p | some x ↦ q x ]) ts ≡ q x ts
option-some o p q ts x h = ap (λ o. (elim o as (λ _. Parse _) [ none ↦ p | some x ↦ q x ]) ts) h

-- The layer reads the tokens as the node, before anything that stops it.
abbrev pub ReadsAs : ℕ → List Token → Expr → Type 0
ReadsAs n xs x =
    (f : ℕ) (rest : List Token)
    → Stops n rest
    → 24 * length xs + n + 3 ≤ f
    → parse_level f n (xs ++ rest) ≡ ok (x, rest)

-- The layer above comes to its loop with the node, in so many rounds.
abbrev pub LoopsTo : ℕ → ℕ → List Token → Expr → Type 0
LoopsTo rounds n xs x =
    (f : ℕ) (rest : List Token)
    → Stops n rest
    → 24 * length xs + n + 3 ≤ f + rounds
    → parse_level (suc (f + rounds)) (suc n) (xs ++ rest) ≡ parse_more f n x rest

abbrev pub Loops : ℕ → List Token → Expr → Type 0
Loops n xs x = (rounds : ℕ) × (rounds ≤ length xs) × LoopsTo rounds n xs x

pub ReadsAs-Loops : (n : ℕ) (xs : List Token) (x : Expr) → ReadsAs n xs x → Loops n xs x
unfolding parse_level
ReadsAs-Loops n xs x h = (
  0,
  omega arith,
  λ f rest s b.
      simp unary_clauses
        (ap (continue_with (λ (lhs, us). parse_more f n lhs us)) (h f rest s (omega (arith, b)))),
)

Stops-below : (n : ℕ) (rest : List Token) → Stops (suc n) rest → Stops n rest
Stops-below n [] s = s
Stops-below n (t ∷ ts) s = (s.0, λ m l. s.1 m (omega arith))

-- A loop that meets no operator of its own gives its node.
parse_more-Stops :
    (f n : ℕ) (x : Expr) (rest : List Token)
    → Stops (suc n) rest
    → 0 < f
    → parse_more f n x rest ≡ ok (x, rest)
unfolding parse_level cur
parse_more-Stops zero n x rest s b = absurd (omega arith)
parse_more-Stops (suc f) n x [] s b = absurd s
parse_more-Stops (suc f) n x (t ∷ ts) s b =
    option-none (op_at n t.kind) _ _ (t ∷ ts) (s.1 n (omega arith))

pub Loops-ReadsAs : (n : ℕ) (xs : List Token) (x : Expr) → Loops n xs x → ReadsAs (suc n) xs x
Loops-ReadsAs n xs x (rounds, l, h) f rest s b =
    ap (λ g. parse_level g (suc n) (xs ++ rest)) split
    ∙ h (f - 1 - rounds) rest (Stops-below n rest s) (omega arith)
    ∙ parse_more-Stops (f - 1 - rounds) n x rest s (omega arith)
  where
    split : f ≡ suc (f - 1 - rounds + rounds)
    split = omega arith

-- The loop reads an operator of its own and the operand behind it.
parse_more-joint :
    (line f n : ℕ) (j : Joint) (x y : Expr) (ys rest : List Token)
    → layer j ≡ n
    → parse_level f n (ys ++ rest) ≡ ok (y, rest)
    → parse_more (suc f) n x (sign line (joint_tok j) ∷ (ys ++ rest))
      ≡ parse_more f n (join j line x y) rest
unfolding parse_level cur advance
parse_more-joint line f n j x y ys rest p q =
    option-some (op_at n (joint_tok j)) _ _ (sign line (joint_tok j) ∷ (ys ++ rest)) j
      (sym (ap (λ m. op_at m (joint_tok j)) p) ∙ op_at-joint j)
    ∙ (ap (continue_with (λ (rhs, us). parse_more f n (join j line x rhs) us)) q)

-- One more round of the loop.
pub Loops-joint :
    (line n : ℕ) (j : Joint) (xs ys : List Token) (x y : Expr)
    → layer j ≡ n
    → Loops n xs x
    → ReadsAs n ys y
    → Loops n (xs ++ sign line (joint_tok j) ∷ ys) (join j line x y)
Loops-joint line n j xs ys x y p (rounds, l, h) k = (
  suc rounds,
  omega (arith, longer, l),
  λ f rest s b.
      ap (λ us. parse_level (suc (f + suc rounds)) (suc n) us) (append_assoc xs (op ∷ ys) rest)
      ∙ ap (λ g. parse_level (suc g) (suc n) (xs ++ op ∷ (ys ++ rest))) (later f)
      ∙ h (suc f) (op ∷ (ys ++ rest)) (Stops-joint line n j (ys ++ rest) (omega (arith, p)))
          (omega (arith, longer, b))
      ∙ parse_more-joint line f n j x y ys rest p (k f rest s (omega (arith, longer, b, l))),
)
  where
    later : (f : ℕ) → f + suc rounds ≡ suc f + rounds
    later f = omega arith

    op : Token
    op = sign line (joint_tok j)

    longer : length (xs ++ op ∷ ys) ≡ length xs + suc (length ys)
    longer = length-append xs (op ∷ ys)

-- What stops no layer stops the loops of a layer either, so all layers above read the same.
pub ReadsAs-above : (n k : ℕ) (xs : List Token) (x : Expr) → ReadsAs n xs x → ReadsAs (k + n) xs x
ReadsAs-above n zero xs x h = subst (λ m. ReadsAs m xs x) (omega arith) h
ReadsAs-above n (suc k) xs x h =
    subst (λ m. ReadsAs m xs x) (omega arith)
      (Loops-ReadsAs (k + n) xs x (ReadsAs-Loops (k + n) xs x (ReadsAs-above n k xs x h)))

pub ReadsAs-le : (n m : ℕ) (xs : List Token) (x : Expr) → n ≤ m → ReadsAs n xs x → ReadsAs m xs x
ReadsAs-le n m xs x l h = subst (λ i. ReadsAs i xs x) (omega arith) (ReadsAs-above n (m - n) xs x h)

-- Brackets make an operand of what the widest layer reads.
pub ReadsAs-bracket :
    (line : ℕ) (xs : List Token) (x : Expr)
    → ReadsAs 6 xs x
    → ReadsAs 0 (sign line Tok.l_paren ∷ (xs ++ sign line Tok.r_paren ∷ [])) x
unfolding parse_level cur advance primary_at unary_op expect same_tok closes
ReadsAs-bracket line xs x h zero rest s b = absurd (omega arith)
ReadsAs-bracket line xs x h (suc zero) rest s b = absurd (omega arith)
ReadsAs-bracket line xs x h (suc (suc zero)) rest s b = absurd (omega arith)
ReadsAs-bracket line xs x h (suc (suc (suc f))) rest s b =
    ap
      (continue_with
        (λ (e, us). continue_with (λ (t, vs). ok (e, vs)) (expect Tok.r_paren "')'" us)))
      (ap (parse_level f 6) (append_assoc xs (close ∷ []) rest)
        ∙ h f (close ∷ rest) (Stops-closes 6 close rest refl)
            (omega (arith, length-append xs (close ∷ []), b)))
  where
    close : Token
    close = sign line Tok.r_paren
