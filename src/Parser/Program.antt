-- ===== src/Parser/Program.antt =====
-- src/parser/Parser.cpp, parseTopLevel, parseFuncDef, parseGlobalVar and parseModule.
use toy_c_cp.Prelude.{
  ℕ, zero, suc, ◌+◌, ◌*◌, Bool, true, false, not, none, List, [], ◌∷◌, length, if◌then◌else◌,
}
use toy_c_cp.Ast.{Expr, Stmts, Param, FuncDef, GlobalVar, TopLevel, global, func, Module}
use toy_c_cp.Reading.{Reading, out_of_fuel, ok, continue_with}
use toy_c_cp.Lexer.Tokens.{Tok, Token, same_tok}
use toy_c_cp.Parser.State.{
  SyntaxError, Parse, ◌>>=◌, ◌>>◌, pure, cur, peek, advance, check, accept, expect, fail,
  no_identifier, no_declaration,
}
use toy_c_cp.Parser.Expr.{parse_expr}
use toy_c_cp.Parser.Stmt.{parse_block}

-- The `do` loop over the parameters.
unfoldable pub parse_params : ℕ → Parse (List Param)
parse_params zero = λ ts. out_of_fuel
parse_params (suc fuel) =
    let rest = parse_params fuel in
    do
      expect Tok.kw_int "'int' parameter type"
      name ← expect Tok.ident "parameter name"
      more ← accept Tok.comma
      ps ← (if more then rest else pure [])
      pure (record { name = name.text; sym = none } ∷ ps)

unfoldable pub func_def : Parse (List Param) → Parse (ℕ × Stmts) → Bool → ℕ → Parse FuncDef
func_def params body returns_void line = do
  name ← expect Tok.ident "function name"
  expect Tok.l_paren "'('"
  empty ← check Tok.r_paren
  ps ← (if empty then pure [] else params)
  expect Tok.r_paren "')'"
  b ← body
  pure (record {
    returns_void = returns_void;
    name = name.text;
    params = ps;
    body_line = b.0;
    body = b.1;
    line = line;
  })

unfoldable pub global_var : Parse Expr → Bool → ℕ → Parse GlobalVar
global_var expr is_const line = do
  (if is_const
      then expect Tok.kw_const "'const'" >> expect Tok.kw_int "'int'"
      else expect Tok.kw_int "'int'")
  name ← expect Tok.ident "variable name"
  expect Tok.assign "'=' (declarations must be initialized)"
  init ← expr
  expect Tok.semi "';'"
  pure (record {
    is_const = is_const;
    name = name.text;
    init = init;
    sym = none;
    init_value = 0;
    line = line;
  })

-- Behind `int`: an identifier, and a function if a bracket follows it.
unfoldable pub int_item : Parse Expr → Parse (List Param) → Parse (ℕ × Stmts) → ℕ → Parse TopLevel
unfolding func_def global_var
int_item expr params body line = do
  name ← peek 1
  behind ← peek 2
  if not (same_tok name.kind Tok.ident)
      then fail no_identifier
      else if same_tok behind.kind Tok.l_paren
      then (do advance; f ← func_def params body false line; pure (func f))
      else (do g ← global_var expr false line; pure (global g))

unfoldable pub item_at :
    Parse Expr → Parse (List Param) → Parse (ℕ × Stmts) → Tok → ℕ → Parse TopLevel
unfolding func_def global_var int_item
item_at expr params body Tok.kw_const line = do g ← global_var expr true line; pure (global g)
item_at expr params body Tok.kw_void line = do
  advance
  f ← func_def params body true line
  pure (func f)
item_at expr params body Tok.kw_int line = int_item expr params body line
item_at expr params body k line = fail no_declaration

unfoldable pub parse_top_level : ℕ → Parse TopLevel
unfolding item_at parse_params
parse_top_level fuel = do
  t ← cur
  item_at (parse_expr fuel) (parse_params fuel) (parse_block fuel) t.kind t.line

unfoldable pub parse_items : ℕ → Parse Module
unfolding parse_top_level
parse_items zero = λ ts. out_of_fuel
parse_items (suc fuel) =
    let more = (do item ← parse_top_level fuel; items ← parse_items fuel; pure (item ∷ items)) in
    do ended ← check Tok.eof; if ended then pure [] else more

-- Every call of a function is paid for by a token or stands at most 24 calls below one.
abbrev pub fuel_for : List Token → ℕ
fuel_for ts = 24 * length ts + 24

unfoldable pub parse_module : List Token → Reading SyntaxError Module
unfolding parse_items
parse_module ts = continue_with (λ (m, rest). ok m) (parse_items (fuel_for ts) ts)
