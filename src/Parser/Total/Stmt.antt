-- ===== src/Parser/Total/Stmt.antt =====
-- Parsing a statement ends within its fuel and its tokens.
use toy_c_cp.Prelude.{
  ℕ, zero, suc, ◌+◌, ◌*◌, ◌<◌, ◌≤◌, ◌≡◌, ◌≢◌, refl, true, none, String, List, [], ◌∷◌, arith,
  length,
}
use toy_c_cp.Ast.{Expr, Stmt, Stmts, expr_stmt, return_value, var_decl, assign, break, continue}
use toy_c_cp.Reading.{ok, Safe, gives, Safe-continue, Safe-weaken}
use toy_c_cp.Lexer.Tokens.{Tok, Token, same_tok, EndsInEof}
use toy_c_cp.Parser.State.{
  SyntaxError, Parse, ◌>>=◌, ◌>>◌, pure, cur, peek, look, advance, check, accept, expect,
}
use toy_c_cp.Parser.Expr.{parse_expr}
use toy_c_cp.Parser.Stmt.{
  block_with, decl_stmt, if_stmt, while_stmt, return_stmt, jump_stmt, plain_stmt, assign_stmt,
  ident_stmt, stmt_at, at_close, parse_stmt, parse_stmts, parse_block,
}
use toy_c_cp.Parser.Total.{
  Shorter, NoLonger, EndsInEof-tail, NotEof, same_tok-ne-eof, accept-Safe, expect-Safe, check-Safe,
  branch-Safe, branch_if-Safe, cur-Safe,
}
use toy_c_cp.Parser.Total.Expr.{TakesBelow, Paid, Takes, parse_level-Safe}

-- No more than so many tokens are left, and the last is the end of the file.
abbrev pub Rest : {A : Type 0} → ℕ → A × List Token → Type 0
Rest n (a, us) = (length us ≤ n) × EndsInEof us

module _ (n : ℕ) where
  pub expect-Rest :
      (k : Tok) (what : String) (us : List Token)
      → NotEof k
      → Rest n (k, us)
      → Safe (Rest n) (expect k what us)
  expect-Rest k what us h r =
      Safe-weaken (λ a l. (omega (arith, l.0, r.0), l.1)) (expect-Safe k what us h r.1)

  pub accept-Rest :
      (k : Tok) (us : List Token) → NotEof k → Rest n (k, us) → Safe (Rest n) (accept k us)
  accept-Rest k us h r =
      Safe-weaken (λ a l. (omega (arith, l.0, r.0), l.1)) (accept-Safe k us h r.1)

  pub check-Rest : (k : Tok) (us : List Token) → Rest n (k, us) → Safe (Rest n) (check k us)
  check-Rest k us r = Safe-weaken (λ a l. (omega (arith, l.0, r.0), l.1)) (check-Safe k us r.1)

  pub take-Rest :
      {A : Type 0} (p : Parse A) (us : List Token)
      → TakesBelow (suc n) p
      → Rest n (p, us)
      → Safe (Rest n) (p us)
  take-Rest p us go r =
      Safe-weaken (λ a l. (omega (arith, l.0, r.0), l.1)) (go us (omega (arith, r.0)) r.1)

  pub pure-Rest :
      {A : Type 0} (a : A) (us : List Token)
      → Rest n (a, us)
      → Safe {E = SyntaxError} (Rest n) (ok (a, us))
  pure-Rest a us r = gives r

  -- Anything, a semicolon, and the statement.
  pub semi-Rest :
      {A B : Type 0} (p : Parse A) (f : A → B) (us : List Token)
      → Safe (Rest n) (p us)
      → Safe (Rest n) ((p >>= (λ a. expect Tok.semi "';'" >> pure (f a))) us)
  unfolding same_tok
  semi-Rest p f us s =
      Safe-continue s
        λ (a, vs) r. Safe-continue (expect-Rest Tok.semi "';'" vs refl r) λ (u, ws) q. gives q

  -- The name of a declaration, its value and the semicolon.
  pub declarator-Rest :
      {B : Type 0} (expr : Parse Expr) (f : String → Expr → B) (us : List Token)
      → TakesBelow (suc n) expr
      → Rest n (f, us)
      → Safe (Rest n) (
          (expect Tok.ident "variable name" >>= λ name.
          expect Tok.assign "'=' (declarations must be initialized)"
          >> (expr >>= λ init. expect Tok.semi "';'" >> pure (f name.text init)))
            us)
  unfolding same_tok
  declarator-Rest expr f us go r =
      Safe-continue (expect-Rest Tok.ident "variable name" us refl r) λ (name, vs) r1.
        Safe-continue (expect-Rest Tok.assign "'=' (declarations must be initialized)" vs refl r1)
          λ (u, ws) r2. semi-Rest expr (f name.text) ws (take-Rest expr ws go r2)

pub first-expect-Rest :
    (k : Tok) (what : String) (n : ℕ) (us : List Token)
    → NotEof k
    → Rest (suc n) (k, us)
    → Safe (Rest n) (expect k what us)
first-expect-Rest k what n us h r =
    Safe-weaken (λ a l. (omega (arith, l.0, r.0), l.1)) (expect-Safe k what us h r.1)

second-Rest :
    (t : Token) (us : List Token)
    → EndsInEof (t ∷ us)
    → t.kind ≡ Tok.ident
    → same_tok (look 1 t us).kind Tok.assign ≡ true
    → Safe (Rest (length us)) (advance us)
unfolding look advance same_tok
second-Rest t [] e h a = absurd (cc)
second-Rest t (u ∷ us) e h a =
    gives (omega arith, EndsInEof-tail u us e (same_tok-ne-eof u.kind Tok.assign refl a))

-- A statement at the token `t`, with parsers that are safe on the tokens from there on.
module _ (expr : Parse Expr) (stmt : Parse Stmt) (body : Parse (ℕ × Stmts)) (t : Token)
    (ts : List Token) (expr_takes : TakesBelow (suc (suc (length ts))) expr)
    (stmt_takes : TakesBelow (suc (length ts)) stmt)
    (body_takes : TakesBelow (suc (suc (length ts))) body) (ends : EndsInEof (t ∷ ts)) where
  expr_below : TakesBelow (suc (length ts)) expr
  expr_below us l = expr_takes us (omega arith)

  expr-first : Safe (Rest (length ts)) (expr (t ∷ ts))
  expr-first =
      Safe-weaken (λ a l. (omega (arith, l.0), l.1)) (expr_takes (t ∷ ts) (omega arith) ends)

  behind_first : t.kind ≢ Tok.eof → Rest (length ts) (t, ts)
  behind_first h = (omega arith, EndsInEof-tail t ts ends h)

  plain_stmt-Safe : (line : ℕ) → Safe (Rest (length ts)) (plain_stmt expr line (t ∷ ts))
  unfolding plain_stmt
  plain_stmt-Safe line = semi-Rest (length ts) expr (expr_stmt line) (t ∷ ts) expr-first

  decl_stmt-Safe : (line : ℕ) → Safe (Rest (length ts)) (decl_stmt expr line (t ∷ ts))
  unfolding decl_stmt same_tok
  decl_stmt-Safe line =
      Safe-continue (accept-Safe Tok.kw_const (t ∷ ts) refl ends) λ (b, us) (l, e).
        Safe-continue (first-expect-Rest Tok.kw_int "'int'" (length ts) us refl (l, e)) λ (u, vs) r.
          declarator-Rest (length ts) expr (λ name init. var_decl line b name init none) vs
            expr_below r

  bracketed-Rest :
      {B : Type 0} (next : Expr → Parse B) (us : List Token)
      → Rest (length ts) (t, us)
      → ((c : Expr) (vs : List Token)
          → Rest (length ts) (c, vs)
          → Safe (Rest (length ts)) (next c vs))
      → Safe
          (Rest (length ts))
          ((expect Tok.l_paren "'('" >> (expr >>= λ c. expect Tok.r_paren "')'" >> next c)) us)
  unfolding same_tok
  bracketed-Rest next us r go =
      Safe-continue (expect-Rest (length ts) Tok.l_paren "'('" us refl r) λ (u, vs) r1.
        Safe-continue (take-Rest (length ts) expr vs expr_below r1) λ (c, ws) r2.
          Safe-continue (expect-Rest (length ts) Tok.r_paren "')'" ws refl r2)
            λ (u, xs) r3. go c xs r3

  if_stmt-Safe :
      (line : ℕ) → t.kind ≢ Tok.eof → Safe (Rest (length ts)) (if_stmt expr stmt line (t ∷ ts))
  unfolding if_stmt advance same_tok
  if_stmt-Safe line h = bracketed-Rest _ ts (behind_first h) λ c us r.
      Safe-continue (take-Rest (length ts) stmt us stmt_takes r) λ (s, vs) r1.
        Safe-continue (accept-Rest (length ts) Tok.kw_else vs refl r1) λ (b, ws) r2.
          branch-Safe b _ _ ws
            (Safe-continue (take-Rest (length ts) stmt ws stmt_takes r2) λ (f, xs) r3. gives r3)
            (gives r2)

  while_stmt-Safe :
      (line : ℕ) → t.kind ≢ Tok.eof → Safe (Rest (length ts)) (while_stmt expr stmt line (t ∷ ts))
  unfolding while_stmt advance
  while_stmt-Safe line h =
      bracketed-Rest _ ts (behind_first h)
        λ c us r. Safe-continue (take-Rest (length ts) stmt us stmt_takes r) λ (s, vs) r1. gives r1

  return_stmt-Safe :
      (line : ℕ) → t.kind ≢ Tok.eof → Safe (Rest (length ts)) (return_stmt expr line (t ∷ ts))
  unfolding return_stmt advance same_tok
  return_stmt-Safe line h =
      Safe-continue (check-Rest (length ts) Tok.semi ts (behind_first h)) λ (b, us) r.
        branch-Safe b _ _ us
          (Safe-continue (expect-Rest (length ts) Tok.semi "';'" us refl r) λ (u, vs) q. gives q)
          (semi-Rest (length ts) expr (return_value line) us
            (take-Rest (length ts) expr us expr_below r))

  jump_stmt-Safe : (s : Stmt) → t.kind ≢ Tok.eof → Safe (Rest (length ts)) (jump_stmt s (t ∷ ts))
  unfolding jump_stmt advance same_tok
  jump_stmt-Safe s h =
      Safe-continue (expect-Rest (length ts) Tok.semi "';'" ts refl (behind_first h))
        λ (u, vs) q. gives q

  ident_stmt-Safe :
      (line : ℕ) → t.kind ≡ Tok.ident → Safe (Rest (length ts)) (ident_stmt expr line (t ∷ ts))
  unfolding ident_stmt peek assign_stmt advance
  ident_stmt-Safe line h =
      branch_if-Safe (same_tok (look 1 t ts).kind Tok.assign) _ _ (t ∷ ts)
        (λ a. Safe-continue (second-Rest t ts ends h a) λ (u, us) r.
          semi-Rest (length ts) expr (assign line t.text none) us
            (take-Rest (length ts) expr us expr_below r))
        (λ a. plain_stmt-Safe line)

  stmt_at-Safe :
      (k : Tok) (line : ℕ)
      → t.kind ≡ k
      → Safe (Rest (length ts)) (stmt_at expr stmt body k line (t ∷ ts))
  unfolding stmt_at advance
  stmt_at-Safe Tok.l_brace line h =
      Safe-continue (body_takes (t ∷ ts) (omega arith) ends)
        λ (b, us) (l, e). gives (omega arith, e)
  stmt_at-Safe Tok.semi line h = gives (behind_first (cc))
  stmt_at-Safe Tok.kw_const line h = decl_stmt-Safe line
  stmt_at-Safe Tok.kw_int line h = decl_stmt-Safe line
  stmt_at-Safe Tok.kw_if line h = if_stmt-Safe line (cc)
  stmt_at-Safe Tok.kw_while line h = while_stmt-Safe line (cc)
  stmt_at-Safe Tok.kw_break line h = jump_stmt-Safe (break line) (cc)
  stmt_at-Safe Tok.kw_continue line h = jump_stmt-Safe (continue line) (cc)
  stmt_at-Safe Tok.kw_return line h = return_stmt-Safe line (cc)
  stmt_at-Safe Tok.ident line h = ident_stmt-Safe line h
  stmt_at-Safe k line h = plain_stmt-Safe line

block_with-Safe :
    (stmts : Parse Stmts) (ts : List Token)
    → ((us : List Token) → length us < length ts → EndsInEof us → Safe (NoLonger us) (stmts us))
    → EndsInEof ts
    → Safe (Shorter ts) (block_with stmts ts)
unfolding block_with same_tok
block_with-Safe stmts ts go e =
    Safe-continue (expect-Safe Tok.l_brace "'{'" ts refl e) λ (u, us) (l, e1).
      Safe-continue (cur-Safe us e1) λ (t, vs) (l1, e2).
        Safe-continue (go vs (omega arith) e2) λ (ss, ws) (l2, e3).
          Safe-continue (expect-Safe Tok.r_brace "'}'" ws refl e3)
            λ (v, xs) (l3, e4). gives (omega arith, e4)

at_close-Safe : (ts : List Token) → EndsInEof ts → Safe (NoLonger ts) (at_close ts)
unfolding at_close
at_close-Safe ts e = Safe-continue (cur-Safe ts e) λ (t, us) p. gives p

mutual
  unfolding parse_stmt cur

  pub parse_stmt-Safe : (fuel : ℕ) → Takes 11 fuel (parse_stmt fuel)
  parse_stmt-Safe zero ts h e = absurd (omega arith)
  parse_stmt-Safe (suc fuel) [] h e = absurd e
  parse_stmt-Safe (suc fuel) (t ∷ ts) h e =
      Safe-weaken (λ r g. (omega (arith, g.0), g.1))
        (stmt_at-Safe (parse_expr fuel) (parse_stmt fuel) (block_with (parse_stmts fuel)) t ts
          (λ us l. parse_level-Safe fuel 6 (omega arith) us (omega arith))
          (λ us l. parse_stmt-Safe fuel us (omega arith))
          (λ us l.
            block_with-Safe (parse_stmts fuel) us (λ vs m. parse_stmts-Safe fuel vs (omega arith)))
          e t.kind t.line refl)

  pub parse_stmts-Safe :
      (fuel : ℕ) (ts : List Token)
      → Paid 12 ts fuel
      → EndsInEof ts
      → Safe (NoLonger ts) (parse_stmts fuel ts)
  parse_stmts-Safe zero ts h e = absurd (omega arith)
  parse_stmts-Safe (suc fuel) ts h e = Safe-continue (at_close-Safe ts e) λ (b, us) (l, e1).
      branch-Safe b _ _ us (gives (l, e1)) (
        Safe-continue (parse_stmt-Safe fuel us (omega arith) e1) λ (s, vs) (l2, e2).
          Safe-continue (parse_stmts-Safe fuel vs (omega arith) e2)
            λ (ss, ws) (l3, e3). gives (omega arith, e3))

pub parse_block-Safe :
    (fuel : ℕ)
    → (ts : List Token) → 24 * length ts ≤ fuel + 12
    → EndsInEof ts
    → Safe (Shorter ts) (parse_block fuel ts)
unfolding parse_block
parse_block-Safe fuel ts h =
    block_with-Safe (parse_stmts fuel) ts (λ us l. parse_stmts-Safe fuel us (omega arith))
