-- ===== src/Parser/Total/Program.antt =====
-- The parser ends on all that the lexer gives.
use toy_c_cp.Prelude.{
  ℕ, zero, suc, ◌≡◌, ◌≢◌, refl, Bool, true, false, not, List, [], ◌∷◌, arith, length,
}
use toy_c_cp.Ast.{Expr, Stmts, Param}
use toy_c_cp.Reading.{ok, Safe, gives, Safe-continue, Safe-weaken}
use toy_c_cp.Lexer.Tokens.{Tok, Token, same_tok, EndsInEof}
use toy_c_cp.Parser.State.{Parse, cur, peek, look, advance, expect, no_identifier, no_declaration}
use toy_c_cp.Parser.Expr.{parse_expr}
use toy_c_cp.Parser.Stmt.{parse_block}
use toy_c_cp.Parser.Program.{
  parse_params, func_def, global_var, int_item, item_at, parse_top_level, parse_items, parse_module,
  fuel_for,
}
use toy_c_cp.Parser.Total.{
  NoLonger, EndsInEof-tail, accept-Safe, expect-Safe, check-Safe, fail-Safe, branch-Safe,
}
use toy_c_cp.Parser.Total.Expr.{TakesBelow, Paid, Takes, parse_level-Safe}
use toy_c_cp.Parser.Total.Stmt.{
  Rest, expect-Rest, first-expect-Rest, check-Rest, take-Rest, declarator-Rest, parse_block-Safe,
}

parse_params-Safe : (fuel : ℕ) → Takes 1 fuel (parse_params fuel)
unfolding parse_params same_tok
parse_params-Safe zero ts h e = absurd (omega arith)
parse_params-Safe (suc fuel) ts h e =
    Safe-continue (expect-Safe Tok.kw_int "'int' parameter type" ts refl e) λ (u, us) (l, e1).
      Safe-continue (expect-Safe Tok.ident "parameter name" us refl e1) λ (name, vs) (l2, e2).
        Safe-continue (accept-Safe Tok.comma vs refl e2) λ (b, ws) (l3, e3).
          Safe-continue
            (branch-Safe {P = NoLonger ws} b (parse_params fuel) (λ xs. ok ([], xs)) ws
              (Safe-weaken (λ r g. (omega (arith, g.0), g.1))
                (parse_params-Safe fuel ws (omega arith) e3))
              (gives (omega arith, e3)))
            λ (ps, xs) (l4, e4). gives (omega arith, e4)

-- An item at the token `t`, with parsers that are safe on the tokens from there on.
module _ (expr : Parse Expr) (params : Parse (List Param)) (body : Parse (ℕ × Stmts)) (t : Token)
    (ts : List Token) (expr_takes : TakesBelow (suc (length ts)) expr)
    (params_takes : TakesBelow (suc (length ts)) params)
    (body_takes : TakesBelow (suc (length ts)) body) (ends : EndsInEof (t ∷ ts)) where
  func_def-Safe :
      (void : Bool) (line : ℕ)
      → t.kind ≢ Tok.eof
      → Safe (Rest (length ts)) (func_def params body void line ts)
  unfolding func_def same_tok
  func_def-Safe void line h =
      Safe-continue
        (expect-Rest (length ts) Tok.ident "function name" ts refl
          (omega arith, EndsInEof-tail t ts ends h))
        λ (name, us) r.
          Safe-continue (expect-Rest (length ts) Tok.l_paren "'('" us refl r) λ (u, vs) r1.
            Safe-continue (check-Rest (length ts) Tok.r_paren vs r1) λ (b, ws) r2.
              Safe-continue
                (branch-Safe {P = Rest (length ts)} b (λ ys. ok ([], ys)) params ws (gives r2)
                  (take-Rest (length ts) params ws params_takes r2))
                λ (ps, xs) r3.
                  Safe-continue (expect-Rest (length ts) Tok.r_paren "')'" xs refl r3) λ (u, ys) r4.
                    Safe-continue (take-Rest (length ts) body ys body_takes r4)
                      λ (c, zs) r5. gives r5

  int-Rest : Safe (Rest (length ts)) (expect Tok.kw_int "'int'" (t ∷ ts))
  unfolding same_tok
  int-Rest = first-expect-Rest Tok.kw_int "'int'" (length ts) (t ∷ ts) refl (omega arith, ends)

  global_var-Safe :
      (is_const : Bool) (line : ℕ)
      → Safe (Rest (length ts)) (global_var expr is_const line (t ∷ ts))
  unfolding global_var same_tok
  global_var-Safe true line =
      Safe-continue
        (Safe-continue
          (first-expect-Rest Tok.kw_const "'const'" (length ts) (t ∷ ts) refl (omega arith, ends))
          λ (u, us) r. expect-Rest (length ts) Tok.kw_int "'int'" us refl r)
        λ (u, us) r. declarator-Rest (length ts) expr _ us expr_takes r
  global_var-Safe false line =
      Safe-continue int-Rest λ (u, us) r. declarator-Rest (length ts) expr _ us expr_takes r

  int_item-Safe :
      (line : ℕ)
      → t.kind ≢ Tok.eof
      → Safe (Rest (length ts)) (int_item expr params body line (t ∷ ts))
  unfolding int_item peek advance
  int_item-Safe line h =
      branch-Safe (not (same_tok (look 1 t ts).kind Tok.ident)) _ _ (t ∷ ts)
        (fail-Safe no_identifier (t ∷ ts) ends)
        (branch-Safe (same_tok (look 2 t ts).kind Tok.l_paren) _ _ (t ∷ ts)
          (Safe-continue (func_def-Safe false line h) λ (f, us) r. gives r)
          (Safe-continue (global_var-Safe false line) λ (g, us) r. gives r))

  item_at-Safe :
      (k : Tok) (line : ℕ)
      → t.kind ≡ k
      → Safe (Rest (length ts)) (item_at expr params body k line (t ∷ ts))
  unfolding item_at advance
  item_at-Safe Tok.kw_const line h = Safe-continue (global_var-Safe true line) λ (g, us) r. gives r
  item_at-Safe Tok.kw_void line h =
      Safe-continue (func_def-Safe true line (cc)) λ (f, us) r. gives r
  item_at-Safe Tok.kw_int line h = int_item-Safe line (cc)
  item_at-Safe k line h = fail-Safe no_declaration (t ∷ ts) ends

parse_top_level-Safe : (fuel : ℕ) → Takes 0 fuel (parse_top_level fuel)
unfolding parse_top_level cur
parse_top_level-Safe fuel [] h e = absurd e
parse_top_level-Safe fuel (t ∷ ts) h e =
    Safe-weaken (λ r g. (omega (arith, g.0), g.1))
      (item_at-Safe (parse_expr fuel) (parse_params fuel) (parse_block fuel) t ts
        (λ us l. parse_level-Safe fuel 6 (omega arith) us (omega arith))
        (λ us l. parse_params-Safe fuel us (omega arith))
        (λ us l. parse_block-Safe fuel us (omega arith)) e t.kind t.line refl)

parse_items-Safe :
    (fuel : ℕ) (ts : List Token)
    → Paid 1 ts fuel
    → EndsInEof ts
    → Safe (NoLonger ts) (parse_items fuel ts)
unfolding parse_items
parse_items-Safe zero ts h e = absurd (omega arith)
parse_items-Safe (suc fuel) ts h e = Safe-continue (check-Safe Tok.eof ts e) λ (b, us) (l, e1).
    branch-Safe b _ _ us (gives (l, e1)) (
      Safe-continue (parse_top_level-Safe fuel us (omega arith) e1) λ (item, vs) (l2, e2).
        Safe-continue (parse_items-Safe fuel vs (omega arith) e2)
          λ (items, ws) (l3, e3). gives (omega arith, e3))

-- On tokens that end in the end of the file, the parser never reads behind them and never runs out of
-- fuel: it gives a module or throws an error.
pub parse_module-Safe : (ts : List Token) → EndsInEof ts → Safe (λ m. Unit) (parse_module ts)
unfolding parse_module
parse_module-Safe ts e =
    Safe-continue (parse_items-Safe (fuel_for ts) ts (omega arith) e) λ (m, us) h. gives tt
