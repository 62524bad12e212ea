-- ===== src/Parser/Printer.antt =====
-- An independent description of the language: trees without positions, their tokens with as few brackets
-- as the precedences allow, and the nodes that stand for them when all is on one line.
pub mod Shape
pub mod Levels
pub mod Operands
pub mod RoundTrip
use toy_c_cp.Prelude.{
  ℕ, zero, suc, ◌+◌, Bool, true, false, none, String, List, [], ◌∷◌, ◌++◌, leb, if◌then◌else◌,
}
use toy_c_cp.Ast.{
  BinOp, UnOp, Expr, Exprs, number, var, unary, binary, logical, call, nil, cons, plain_info,
  number_info,
}
use toy_c_cp.Lexer.Tokens.{Tok, Token, tok_name}
use toy_c_cp.Lexer.{token_at}
use toy_c_cp.Parser.Expr.{Joint, arithmetic, connective}

mutual
  pub data Term : Type 0 where
    num : ℕ → Term
    name : String → Term
    joint : Joint → Term → Term → Term
    prefix : UnOp → Term → Term
    apply : String → Terms → Term

  pub data Terms : Type 0 where
    no_terms : Terms
    term : Term → Terms → Terms

-- How tightly an operator binds: the smaller, the tighter.
unfoldable pub layer : Joint → ℕ
layer (arithmetic BinOp.mul) = 0
layer (arithmetic BinOp.div) = 0
layer (arithmetic BinOp.rem) = 0
layer (arithmetic BinOp.add) = 1
layer (arithmetic BinOp.sub) = 1
layer (arithmetic BinOp.lt) = 2
layer (arithmetic BinOp.gt) = 2
layer (arithmetic BinOp.le) = 2
layer (arithmetic BinOp.ge) = 2
layer (arithmetic BinOp.eq) = 3
layer (arithmetic BinOp.ne) = 3
layer (connective false) = 4
layer (connective true) = 5

unfoldable pub joint_tok : Joint → Tok
joint_tok (arithmetic BinOp.mul) = Tok.star
joint_tok (arithmetic BinOp.div) = Tok.slash
joint_tok (arithmetic BinOp.rem) = Tok.percent
joint_tok (arithmetic BinOp.add) = Tok.plus
joint_tok (arithmetic BinOp.sub) = Tok.minus
joint_tok (arithmetic BinOp.lt) = Tok.lt
joint_tok (arithmetic BinOp.gt) = Tok.gt
joint_tok (arithmetic BinOp.le) = Tok.le
joint_tok (arithmetic BinOp.ge) = Tok.ge
joint_tok (arithmetic BinOp.eq) = Tok.eq
joint_tok (arithmetic BinOp.ne) = Tok.ne
joint_tok (connective false) = Tok.and_and
joint_tok (connective true) = Tok.or_or

unfoldable pub prefix_tok : UnOp → Tok
prefix_tok UnOp.plus = Tok.plus
prefix_tok UnOp.neg = Tok.minus
prefix_tok UnOp.not = Tok.not

-- The layer on which a term stands without brackets.
abbrev pub prec : Term → ℕ
prec (joint j a b) = suc (layer j)
prec _ = 0

module _ (line : ℕ) where
  abbrev pub sign : Tok → Token
  sign k = token_at k (tok_name k) 0 line 0

  abbrev pub word : String → Token
  word w = token_at Tok.ident w 0 line 0

  abbrev pub bracket : Bool → List Token → List Token
  bracket bare ts = if bare then ts else sign Tok.l_paren ∷ (ts ++ sign Tok.r_paren ∷ [])

  unfoldable mutual
    unfolding layer joint_tok prefix_tok

    pub bare : Term → List Token
    bare (num v) = token_at Tok.number "" v line 0 ∷ []
    bare (name w) = word w ∷ []
    bare (joint j a b) =
        bracket (leb (prec a) (suc (layer j))) (bare a)
        ++ sign (joint_tok j) ∷ bracket (leb (prec b) (layer j)) (bare b)
    bare (prefix op a) = sign (prefix_tok op) ∷ bracket (leb (prec a) 0) (bare a)
    bare (apply w args) = word w ∷ sign Tok.l_paren ∷ (listed args ++ sign Tok.r_paren ∷ [])

    -- The arguments, with commas between them.
    pub listed : Terms → List Token
    listed no_terms = []
    listed (term e no_terms) = bare e
    listed (term e (term d es)) = bare e ++ sign Tok.comma ∷ listed (term d es)

  -- As an operand on a layer.
  abbrev pub shown : ℕ → Term → List Token
  shown n e = bracket (leb (prec e) n) (bare e)

  unfoldable mutual
    pub node : Term → Expr
    node (num v) = number (number_info line v) v
    node (name w) = var (plain_info line) w none
    node (joint (arithmetic op) a b) = binary (plain_info line) op (node a) (node b)
    node (joint (connective is_or) a b) = logical (plain_info line) is_or (node a) (node b)
    node (prefix op a) = unary (plain_info line) op (node a)
    node (apply w args) = call (plain_info line) w (nodes args) none

    pub nodes : Terms → Exprs
    nodes no_terms = nil
    nodes (term e es) = cons (node e) (nodes es)
