-- ===== src/Parser/Printer/Shape.antt =====
-- With which tokens a term begins, and what may follow it.
use toy_c_cp.Prelude.{
  ℕ, zero, suc, ◌<◌, ◌≤◌, ◌≡◌, refl, ap, Bool, true, false, none, some, List, [], ◌∷◌, ◌++◌, arith,
  leb,
}
use toy_c_cp.Ast.{UnOp}
use toy_c_cp.Lexer.Tokens.{Tok, Token, same_tok}
use toy_c_cp.Parser.Expr.{Joint, arithmetic, connective, op_at, unary_op}
use toy_c_cp.Parser.Printer.{
  Term, num, name, joint, prefix, apply, layer, joint_tok, prefix_tok, prec, sign, bracket, bare,
  shown,
}

-- Nothing that a layer below `n` would go on with.
abbrev pub Stops : ℕ → List Token → Type 0
Stops n [] = ⊥
Stops n (t ∷ ts) = (same_tok t.kind Tok.l_paren ≡ false) × ((m : ℕ) → m < n → op_at m t.kind ≡ none)

pub op_at-joint : (j : Joint) → op_at (layer j) (joint_tok j) ≡ some j
unfolding op_at layer joint_tok
op_at-joint (arithmetic op) = ground arith
op_at-joint (connective is_or) = ground arith

pub layer-le : (j : Joint) → layer j ≤ 5
unfolding layer
layer-le (arithmetic op) = ground arith
layer-le (connective is_or) = ground arith

-- An operator stops the loops below its own.
pub op_at-below : (j : Joint) (m : ℕ) → m < layer j → op_at m (joint_tok j) ≡ none
unfolding op_at layer joint_tok
op_at-below (arithmetic op) zero h = ground arith
op_at-below (arithmetic op) (suc zero) h = ground arith
op_at-below (arithmetic op) (suc (suc zero)) h = ground arith
op_at-below (arithmetic op) (suc (suc (suc m))) h = ground arith
op_at-below (connective is_or) zero h = ground arith
op_at-below (connective is_or) (suc zero) h = ground arith
op_at-below (connective is_or) (suc (suc zero)) h = ground arith
op_at-below (connective is_or) (suc (suc (suc zero))) h = ground arith
op_at-below (connective is_or) (suc (suc (suc (suc zero)))) h = ground arith
op_at-below (connective is_or) (suc (suc (suc (suc (suc m))))) h = ground arith

joint_tok-ne-l_paren : (j : Joint) → same_tok (joint_tok j) Tok.l_paren ≡ false
unfolding joint_tok same_tok
joint_tok-ne-l_paren (arithmetic op) = ground arith
joint_tok-ne-l_paren (connective is_or) = ground arith

pub Stops-joint :
    (line n : ℕ) (j : Joint) (ts : List Token)
    → n ≤ layer j
    → Stops n (sign line (joint_tok j) ∷ ts)
Stops-joint line n j ts h = (joint_tok-ne-l_paren j, λ m l. op_at-below j m (omega arith))

-- The closing bracket, the comma and the semicolon stop every loop.
unfoldable pub closes : Tok → Bool
closes Tok.r_paren = true
closes Tok.comma = true
closes Tok.semi = true
closes _ = false

op_at-closes : (k : Tok) (m : ℕ) → closes k ≡ true → op_at m k ≡ none
unfolding op_at closes
op_at-closes k zero h = ground arith
op_at-closes k (suc zero) h = ground arith
op_at-closes k (suc (suc zero)) h = ground arith
op_at-closes k (suc (suc (suc zero))) h = ground arith
op_at-closes k (suc (suc (suc (suc zero)))) h = ground arith
op_at-closes k (suc (suc (suc (suc (suc zero))))) h = ground arith
op_at-closes k (suc (suc (suc (suc (suc (suc m)))))) h = refl

closes-ne-l_paren : (k : Tok) → closes k ≡ true → same_tok k Tok.l_paren ≡ false
unfolding closes same_tok
closes-ne-l_paren k h = ground arith

pub Stops-closes : (n : ℕ) (t : Token) (ts : List Token) → closes t.kind ≡ true → Stops n (t ∷ ts)
Stops-closes n t ts h = (closes-ne-l_paren t.kind h, λ m l. op_at-closes t.kind m h)

-- How a term begins.
pub data Starts : Tok → Type 0 where
  number_starts : Starts Tok.number
  ident_starts : Starts Tok.ident
  paren_starts : Starts Tok.l_paren
  prefix_starts : (op : UnOp) → Starts (prefix_tok op)

pub bracket-Starts :
    (line : ℕ) (b : Bool) (ts rest : List Token)
    → (t : Token) × (us : List Token) × (ts ≡ t ∷ us) × Starts t.kind
    → (t : Token) × (us : List Token) × (bracket line b ts ++ rest ≡ t ∷ us) × Starts t.kind
bracket-Starts line true ts rest (t, us, p, s) = (t, us ++ rest, ap (λ x. x ++ rest) p, s)
bracket-Starts line false ts rest h =
    (sign line Tok.l_paren, (ts ++ sign line Tok.r_paren ∷ []) ++ rest, refl, paren_starts)

-- What the first token of a term is not, and how it is read if it is no operator.
pub Starts-ne-r_paren : (k : Tok) → Starts k → same_tok k Tok.r_paren ≡ false
unfolding same_tok prefix_tok
Starts-ne-r_paren _ number_starts = refl
Starts-ne-r_paren _ ident_starts = refl
Starts-ne-r_paren _ paren_starts = refl
Starts-ne-r_paren _ (prefix_starts UnOp.plus) = refl
Starts-ne-r_paren _ (prefix_starts UnOp.neg) = refl
Starts-ne-r_paren _ (prefix_starts UnOp.not) = refl

pub unary_op-prefix : (op : UnOp) → unary_op (prefix_tok op) ≡ some op
unfolding unary_op prefix_tok
unary_op-prefix UnOp.plus = refl
unary_op-prefix UnOp.neg = refl
unary_op-prefix UnOp.not = refl

pub bare-Starts :
    (line : ℕ) (e : Term) → (t : Token) × (us : List Token) × (bare line e ≡ t ∷ us) × Starts t.kind
unfolding bare
bare-Starts line (num v) = (_, _, refl, number_starts)
bare-Starts line (name w) = (_, _, refl, ident_starts)
bare-Starts line (joint j a b) =
    bracket-Starts line (leb (prec a) (suc (layer j))) (bare line a) _ (bare-Starts line a)
bare-Starts line (prefix op a) = (_, _, refl, prefix_starts op)
bare-Starts line (apply w args) = (_, _, refl, ident_starts)

pub shown-Starts :
    (line n : ℕ) (e : Term) (rest : List Token)
    → (t : Token) × (us : List Token) × (shown line n e ++ rest ≡ t ∷ us) × Starts t.kind
shown-Starts line n e rest =
    bracket-Starts line (leb (prec e) n) (bare line e) rest (bare-Starts line e)
