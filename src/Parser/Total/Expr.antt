-- ===== src/Parser/Total/Expr.antt =====
-- Parsing an expression ends within its fuel and its tokens.
use toy_c_cp.Prelude.{
  ℕ, zero, suc, ◌+◌, ◌*◌, ◌<◌, ◌≤◌, ◌≡◌, ◌≢◌, refl, Bool, true, false, none, some, List, [], ◌∷◌,
  arith, length, if◌then◌else◌,
}
use toy_c_cp.Ast.{UnOp, Expr, Exprs, var, plain_info}
use toy_c_cp.Reading.{ok, Safe, gives, Safe-continue, Safe-weaken}
use toy_c_cp.Lexer.Tokens.{Tok, Token, same_tok, EndsInEof}
use toy_c_cp.Parser.State.{Parse, cur, advance, no_expression}
use toy_c_cp.Parser.Expr.{
  Joint, op_at, unary_op, join, call_with, primary_at, parse_level, parse_more, parse_unary,
  parse_primary, parse_args,
}
use toy_c_cp.Parser.Total.{
  Shorter, NoLonger, EndsInEof-tail, accept-Safe, expect-Safe, check-Safe, fail-Safe, option-Safe,
  branch-Safe,
}

op_at-ne-eof : (n : ℕ) (k : Tok) {op : Joint} → op_at n k ≡ some op → k ≢ Tok.eof
unfolding op_at
op_at-ne-eof zero k h e = cc
op_at-ne-eof (suc zero) k h e = cc
op_at-ne-eof (suc (suc zero)) k h e = cc
op_at-ne-eof (suc (suc (suc zero))) k h e = cc
op_at-ne-eof (suc (suc (suc (suc zero)))) k h e = cc
op_at-ne-eof (suc (suc (suc (suc (suc zero))))) k h e = cc
op_at-ne-eof (suc (suc (suc (suc (suc (suc n)))))) k h e = cc

unary_op-ne-eof : (k : Tok) {op : UnOp} → unary_op k ≡ some op → k ≢ Tok.eof
unfolding unary_op
unary_op-ne-eof k h e = cc

-- A parser that takes a token at least, on fewer than `n` tokens.
abbrev pub TakesBelow : {A : Type 0} → ℕ → Parse A → Type 0
TakesBelow n p = (ts : List Token) → length ts < n → EndsInEof ts → Safe (Shorter ts) (p ts)

call_with-Safe :
    (args : Parse Exprs) (t : Token) (ts : List Token)
    → TakesBelow (suc (length ts)) args
    → EndsInEof ts
    → Safe (Shorter ts) (call_with args t ts)
unfolding call_with same_tok
call_with-Safe args t ts go e = Safe-continue (check-Safe Tok.r_paren ts e) λ (b, us) (l, e1).
    Safe-continue (arguments b us l e1) λ (es, vs) (l2, e2).
      Safe-continue (expect-Safe Tok.r_paren "')'" vs refl e2)
        λ (u, ws) (l3, e3). gives (omega arith, e3)
  where
    arguments :
        (b : Bool) (us : List Token)
        → length us ≤ length ts
        → EndsInEof us
        → Safe (NoLonger us) ((if b then (λ vs. ok (Exprs.nil, vs)) else args) us)
    arguments true us l e1 = gives (omega arith, e1)
    arguments false us l e1 =
        Safe-weaken (λ r h. (omega (arith, h.0), h.1)) (go us (omega arith) e1)

primary_at-Safe :
    (expr : Parse Expr) (args : Parse Exprs) (k : Tok) (t : Token) (ts : List Token)
    → t.kind ≡ k
    → TakesBelow (suc (length ts)) expr
    → TakesBelow (suc (length ts)) args
    → EndsInEof (t ∷ ts)
    → Safe (Shorter (t ∷ ts)) (primary_at expr args k t (t ∷ ts))
unfolding primary_at advance same_tok
primary_at-Safe expr args Tok.number t ts p go go_args e =
    gives (omega arith, EndsInEof-tail t ts e (cc))
primary_at-Safe expr args Tok.l_paren t ts p go go_args e =
    Safe-continue (go ts (omega arith) (EndsInEof-tail t ts e (cc))) λ (x, us) (l, e1).
      Safe-continue (expect-Safe Tok.r_paren "')'" us refl e1)
        λ (u, vs) (l2, e2). gives (omega arith, e2)
primary_at-Safe expr args Tok.ident t ts p go go_args e =
    Safe-continue (accept-Safe Tok.l_paren ts refl (EndsInEof-tail t ts e (cc)))
      λ (b, us) (l, e1). called b us l e1
  where
    called :
        (b : Bool) (us : List Token)
        → length us ≤ length ts
        → EndsInEof us
        → Safe (Shorter (t ∷ ts)) (
            (if b then call_with args t else (λ vs. ok (var (plain_info t.line) t.text none, vs)))
              us)
    called true us l e1 =
        Safe-weaken (λ r h. (omega (arith, h.0), h.1))
          (call_with-Safe args t us (λ vs m. go_args vs (omega arith)) e1)
    called false us l e1 = gives (omega arith, e1)
primary_at-Safe expr args k t ts p go go_args e = fail-Safe (no_expression k) (t ∷ ts) e

-- Fuel for a function of the rank on the tokens.
abbrev pub Paid : ℕ → List Token → ℕ → Type 0
Paid rank ts fuel = 24 * length ts + rank ≤ fuel

-- A function of the rank takes a token at least, when it is paid.
abbrev pub Takes : {A : Type 0} → ℕ → ℕ → Parse A → Type 0
Takes rank fuel p = (ts : List Token) → Paid rank ts fuel → EndsInEof ts → Safe (Shorter ts) (p ts)

mutual
  unfolding parse_level cur advance same_tok

  pub parse_level-Safe : (fuel n : ℕ) → n ≤ 6 → Takes (n + 3) fuel (parse_level fuel n)
  parse_level-Safe zero n m ts h e = absurd (omega arith)
  parse_level-Safe (suc fuel) zero m ts h e = parse_unary-Safe fuel ts (omega arith) e
  parse_level-Safe (suc fuel) (suc n) m ts h e =
      Safe-continue (parse_level-Safe fuel n (omega arith) ts (omega arith) e) λ (lhs, us) (l, e1).
        Safe-weaken (λ r g. (omega (arith, g.0), g.1))
          (parse_more-Safe fuel n lhs us (omega arith) (omega arith) e1)

  parse_more-Safe :
      (fuel n : ℕ) (lhs : Expr) (ts : List Token)
      → n ≤ 5
      → Paid 1 ts fuel
      → EndsInEof ts
      → Safe (NoLonger ts) (parse_more fuel n lhs ts)
  parse_more-Safe zero n lhs ts m h e = absurd (omega arith)
  parse_more-Safe (suc fuel) n lhs [] m h e = absurd e
  parse_more-Safe (suc fuel) n lhs (t ∷ ts) m h e =
      option-Safe (op_at n t.kind) _ _ (t ∷ ts) (λ p. gives (omega arith, e))
        λ op p.
          Safe-continue
            (parse_level-Safe fuel n (omega arith) ts (omega arith)
              (EndsInEof-tail t ts e (op_at-ne-eof n t.kind p)))
            λ (rhs, us) (l, e1).
              Safe-weaken (λ r g. (omega (arith, g.0), g.1))
                (parse_more-Safe fuel n (join op t.line lhs rhs) us m (omega arith) e1)

  parse_unary-Safe : (fuel : ℕ) → Takes 2 fuel (parse_unary fuel)
  parse_unary-Safe zero ts h e = absurd (omega arith)
  parse_unary-Safe (suc fuel) [] h e = absurd e
  parse_unary-Safe (suc fuel) (t ∷ ts) h e =
      option-Safe (unary_op t.kind) _ _ (t ∷ ts)
        (λ p. parse_primary-Safe fuel (t ∷ ts) (omega arith) e)
        λ op p.
          Safe-continue
            (parse_unary-Safe fuel ts (omega arith)
              (EndsInEof-tail t ts e (unary_op-ne-eof t.kind p)))
            λ (x, us) (l, e1). gives (omega arith, e1)

  parse_primary-Safe : (fuel : ℕ) → Takes 1 fuel (parse_primary fuel)
  parse_primary-Safe zero ts h e = absurd (omega arith)
  parse_primary-Safe (suc fuel) [] h e = absurd e
  parse_primary-Safe (suc fuel) (t ∷ ts) h e =
      primary_at-Safe (parse_level fuel 6) (parse_args fuel) t.kind t ts refl
        (λ us l. parse_level-Safe fuel 6 (omega arith) us (omega arith))
        (λ us l. parse_args-Safe fuel us (omega arith)) e

  parse_args-Safe : (fuel : ℕ) → Takes 10 fuel (parse_args fuel)
  parse_args-Safe zero ts h e = absurd (omega arith)
  parse_args-Safe (suc fuel) ts h e =
      Safe-continue (parse_level-Safe fuel 6 (omega arith) ts (omega arith) e) λ (x, us) (l, e1).
        Safe-continue (accept-Safe Tok.comma us refl e1) λ (b, vs) (l2, e2).
          Safe-continue
            (branch-Safe {P = NoLonger vs} b (parse_args fuel) (λ ws. ok (Exprs.nil, ws)) vs
              (Safe-weaken (λ r g. (omega (arith, g.0), g.1))
                (parse_args-Safe fuel vs (omega arith) e2))
              (gives (omega arith, e2)))
            λ (es, ws) (l3, e3). gives (omega arith, e3)
