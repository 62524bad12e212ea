-- ===== src/Parser/Stmt.antt =====
-- src/parser/Parser.cpp, the statements.
use toy_c_cp.Prelude.{ℕ, zero, suc, Bool, ◌||◌, none, if◌then◌else◌}
use toy_c_cp.Ast.{
  Expr, Stmt, Stmts, block, empty, expr_stmt, assign, var_decl, if_then, if_else, while, break,
  continue, return_void, return_value, done, seq,
}
use toy_c_cp.Reading.{out_of_fuel}
use toy_c_cp.Lexer.Tokens.{Tok, same_tok}
use toy_c_cp.Parser.State.{Parse, ◌>>=◌, ◌>>◌, pure, cur, peek, advance, check, accept, expect}
use toy_c_cp.Parser.Expr.{parse_expr}

-- `parseBlock`, with the parser of its statements: the line behind the brace and the statements.
unfoldable pub block_with : Parse Stmts → Parse (ℕ × Stmts)
block_with stmts = do
  expect Tok.l_brace "'{'"
  t ← cur
  ss ← stmts
  expect Tok.r_brace "'}'"
  pure (t.line, ss)

unfoldable pub decl_stmt : Parse Expr → ℕ → Parse Stmt
decl_stmt expr line = do
  is_const ← accept Tok.kw_const
  expect Tok.kw_int "'int'"
  name ← expect Tok.ident "variable name"
  expect Tok.assign "'=' (declarations must be initialized)"
  init ← expr
  expect Tok.semi "';'"
  pure (var_decl line is_const name.text init none)

unfoldable pub if_stmt : Parse Expr → Parse Stmt → ℕ → Parse Stmt
if_stmt expr stmt line = do
  advance
  expect Tok.l_paren "'('"
  c ← expr
  expect Tok.r_paren "')'"
  t ← stmt
  has_else ← accept Tok.kw_else
  if has_else then (do f ← stmt; pure (if_else line c t f)) else pure (if_then line c t)

unfoldable pub while_stmt : Parse Expr → Parse Stmt → ℕ → Parse Stmt
while_stmt expr stmt line = do
  advance
  expect Tok.l_paren "'('"
  c ← expr
  expect Tok.r_paren "')'"
  b ← stmt
  pure (while line c b)

unfoldable pub return_stmt : Parse Expr → ℕ → Parse Stmt
return_stmt expr line = do
  advance
  bare ← check Tok.semi
  if bare
      then (do expect Tok.semi "';'"; pure (return_void line))
      else (do e ← expr; expect Tok.semi "';'"; pure (return_value line e))

-- A keyword and a semicolon.
unfoldable pub jump_stmt : Stmt → Parse Stmt
jump_stmt s = do advance; expect Tok.semi "';'"; pure s

unfoldable pub plain_stmt : Parse Expr → ℕ → Parse Stmt
plain_stmt expr line = do e ← expr; expect Tok.semi "';'"; pure (expr_stmt line e)

unfoldable pub assign_stmt : Parse Expr → ℕ → Parse Stmt
assign_stmt expr line = do
  name ← advance
  advance
  e ← expr
  expect Tok.semi "';'"
  pure (assign line name.text none e)

-- An identifier begins an assignment if `=` is behind it.
unfoldable pub ident_stmt : Parse Expr → ℕ → Parse Stmt
unfolding plain_stmt assign_stmt
ident_stmt expr line = do
  t ← peek 1
  if same_tok t.kind Tok.assign then assign_stmt expr line else plain_stmt expr line

-- `parseStmt` at a token of the kind and on the line, with the parsers of the parts.
unfoldable pub stmt_at : Parse Expr → Parse Stmt → Parse (ℕ × Stmts) → Tok → ℕ → Parse Stmt
unfolding decl_stmt if_stmt while_stmt return_stmt jump_stmt plain_stmt ident_stmt
stmt_at expr stmt body Tok.l_brace line = do b ← body; pure (block line b.1)
stmt_at expr stmt body Tok.semi line = do advance; pure (empty line)
stmt_at expr stmt body Tok.kw_const line = decl_stmt expr line
stmt_at expr stmt body Tok.kw_int line = decl_stmt expr line
stmt_at expr stmt body Tok.kw_if line = if_stmt expr stmt line
stmt_at expr stmt body Tok.kw_while line = while_stmt expr stmt line
stmt_at expr stmt body Tok.kw_break line = jump_stmt (break line)
stmt_at expr stmt body Tok.kw_continue line = jump_stmt (continue line)
stmt_at expr stmt body Tok.kw_return line = return_stmt expr line
stmt_at expr stmt body Tok.ident line = ident_stmt expr line
stmt_at expr stmt body k line = plain_stmt expr line

-- `check(RBrace) || check(Eof)`
unfoldable pub at_close : Parse Bool
at_close = do t ← cur; pure (same_tok t.kind Tok.r_brace || same_tok t.kind Tok.eof)

unfoldable mutual
  unfolding stmt_at block_with at_close

  pub parse_stmt : ℕ → Parse Stmt
  parse_stmt zero = λ ts. out_of_fuel
  parse_stmt (suc fuel) = do
    t ← cur
    stmt_at (parse_expr fuel) (parse_stmt fuel) (block_with (parse_stmts fuel)) t.kind t.line

  pub parse_stmts : ℕ → Parse Stmts
  parse_stmts zero = λ ts. out_of_fuel
  parse_stmts (suc fuel) =
      let more = (do s ← parse_stmt fuel; ss ← parse_stmts fuel; pure (seq s ss)) in
      do closed ← at_close; if closed then pure done else more

unfoldable pub parse_block : ℕ → Parse (ℕ × Stmts)
parse_block fuel = block_with (parse_stmts fuel)
