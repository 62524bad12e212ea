-- ===== src/Parser/Expr.antt =====
-- src/parser/Parser.cpp, the expressions. The six functions from parseMul to parseLOr have one shape: an
-- operand of the layer below, then a loop over the operators of the layer. Layer 0 is parseUnary, and
-- layers 1 to 6 are parseMul, parseAdd, parseRel, parseEq, parseLAnd and parseLOr.
use toy_c_cp.Prelude.{ℕ, zero, suc, Bool, true, false, Option, none, some, if◌then◌else◌}
use toy_c_cp.Ast.{
  BinOp, UnOp, Expr, Exprs, number, var, binary, logical, unary, call, nil, cons, plain_info,
  number_info,
}
use toy_c_cp.Reading.{out_of_fuel}
use toy_c_cp.Lexer.Tokens.{Tok, Token}
use toy_c_cp.Parser.State.{
  Parse, ◌>>=◌, ◌>>◌, pure, cur, advance, fail, check, accept, expect, no_expression,
}

-- The operator of a `BinaryExpr`, or `isOr` of a `LogicalExpr`.
pub data Joint : Type 0 where
  arithmetic : BinOp → Joint
  connective : Bool → Joint

unfoldable pub mul_op : Tok → Option Joint
mul_op Tok.star = some (arithmetic BinOp.mul)
mul_op Tok.slash = some (arithmetic BinOp.div)
mul_op Tok.percent = some (arithmetic BinOp.rem)
mul_op _ = none

unfoldable pub add_op : Tok → Option Joint
add_op Tok.plus = some (arithmetic BinOp.add)
add_op Tok.minus = some (arithmetic BinOp.sub)
add_op _ = none

unfoldable pub rel_op : Tok → Option Joint
rel_op Tok.lt = some (arithmetic BinOp.lt)
rel_op Tok.gt = some (arithmetic BinOp.gt)
rel_op Tok.le = some (arithmetic BinOp.le)
rel_op Tok.ge = some (arithmetic BinOp.ge)
rel_op _ = none

unfoldable pub eq_op : Tok → Option Joint
eq_op Tok.eq = some (arithmetic BinOp.eq)
eq_op Tok.ne = some (arithmetic BinOp.ne)
eq_op _ = none

unfoldable pub and_op : Tok → Option Joint
and_op Tok.and_and = some (connective false)
and_op _ = none

unfoldable pub or_op : Tok → Option Joint
or_op Tok.or_or = some (connective true)
or_op _ = none

-- The operators that the loop above the layer `n` reads.
unfoldable pub op_at : ℕ → Tok → Option Joint
unfolding mul_op add_op rel_op eq_op and_op or_op
op_at zero k = mul_op k
op_at (suc zero) k = add_op k
op_at (suc (suc zero)) k = rel_op k
op_at (suc (suc (suc zero))) k = eq_op k
op_at (suc (suc (suc (suc zero)))) k = and_op k
op_at (suc (suc (suc (suc (suc zero))))) k = or_op k
op_at _ k = none

-- The node that an iteration of the loop makes.
abbrev pub join : Joint → ℕ → Expr → Expr → Expr
join (arithmetic op) line lhs rhs = binary (plain_info line) op lhs rhs
join (connective is_or) line lhs rhs = logical (plain_info line) is_or lhs rhs

unfoldable pub unary_op : Tok → Option UnOp
unary_op Tok.plus = some UnOp.plus
unary_op Tok.minus = some UnOp.neg
unary_op Tok.not = some UnOp.not
unary_op _ = none

-- An optional list of arguments and the bracket behind it.
unfoldable pub call_with : Parse Exprs → Token → Parse Expr
call_with args t = do
  empty ← check Tok.r_paren
  es ← (if empty then pure nil else args)
  expect Tok.r_paren "')'"
  pure (call (plain_info t.line) t.text es none)

-- `parsePrimary` at the token `t`, with the parsers of an expression and of arguments.
unfoldable pub primary_at : Parse Expr → Parse Exprs → Tok → Token → Parse Expr
unfolding call_with
primary_at expr args Tok.number t = do advance; pure (number (number_info t.line t.value) t.value)
primary_at expr args Tok.l_paren t = do advance; e ← expr; expect Tok.r_paren "')'"; pure e
primary_at expr args Tok.ident t = do
  advance
  called ← accept Tok.l_paren
  if called then call_with args t else pure (var (plain_info t.line) t.text none)
primary_at expr args k t = fail (no_expression k)

-- What a call leaves of the tokens is no part of them that recursion sees, so each call costs fuel.
unfoldable mutual
  unfolding op_at unary_op primary_at

  pub parse_level : ℕ → ℕ → Parse Expr
  parse_level zero n = λ ts. out_of_fuel
  parse_level (suc fuel) zero = parse_unary fuel
  parse_level (suc fuel) (suc n) = do lhs ← parse_level fuel n; parse_more fuel n lhs

  pub parse_more : ℕ → ℕ → Expr → Parse Expr
  parse_more zero n lhs = λ ts. out_of_fuel
  parse_more (suc fuel) n lhs = do
    t ← cur
    elim (op_at n t.kind) [
      | none ↦ pure lhs
      | some op ↦ do advance; rhs ← parse_level fuel n; parse_more fuel n (join op t.line lhs rhs)
    ]

  pub parse_unary : ℕ → Parse Expr
  parse_unary zero = λ ts. out_of_fuel
  parse_unary (suc fuel) = do
    t ← cur
    elim (unary_op t.kind) [
      | none ↦ parse_primary fuel
      | some op ↦ do advance; e ← parse_unary fuel; pure (unary (plain_info t.line) op e)
    ]

  pub parse_primary : ℕ → Parse Expr
  parse_primary zero = λ ts. out_of_fuel
  parse_primary (suc fuel) = do t ← cur; primary_at (parse_level fuel 6) (parse_args fuel) t.kind t

  pub parse_args : ℕ → Parse Exprs
  parse_args zero = λ ts. out_of_fuel
  parse_args (suc fuel) =
      let rest = parse_args fuel in
      do
        e ← parse_level fuel 6
        more ← accept Tok.comma
        es ← (if more then rest else pure nil)
        pure (cons e es)

abbrev pub parse_expr : ℕ → Parse Expr
parse_expr fuel = parse_level fuel 6
