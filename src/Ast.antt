-- ===== src/Ast.antt =====
-- src/ast/AST.h: the syntax tree. A node's base class (its line and the constant that the semantic
-- analysis finds) is its first field, `Info` for an expression and a line for a statement. A
-- `Symbol*` is the index of the symbol in the analysis's arena, `none` for a null pointer; a
-- `FuncDef*` of a call is the part of the definition that its readers use.
use toy_c_cp.Prelude.{ℕ, Bool, true, false, Option, none, String, List}

pub data BinOp : Type 0 where
  add sub mul div rem lt gt le ge eq ne : BinOp

pub data UnOp : Type 0 where
  plus neg not : UnOp

pub data SymbolKind : Type 0 where
  global_var local_var param const : SymbolKind

pub record Symbol : Type 0 where
  pub kind : SymbolKind
  pub name : String
  pub is_const : Bool
  pub const_value : ℕ
  pub global_id : Option ℕ
  pub ir_id : Option ℕ

-- What `CallExpr::target` is read for.
pub record FuncRef : Type 0 where
  pub name : String
  pub returns_void : Bool
  pub num_params : ℕ

pub record Info : Type 0 where
  pub line : ℕ
  pub is_const : Bool
  pub const_value : ℕ

mutual
  pub data Expr : Type 0 where
    number : Info → ℕ → Expr
    var : Info → String → Option ℕ → Expr
    binary : Info → BinOp → Expr → Expr → Expr
    logical : Info → Bool → Expr → Expr → Expr
    unary : Info → UnOp → Expr → Expr
    call : Info → String → Exprs → Option FuncRef → Expr

  pub data Exprs : Type 0 where
    nil : Exprs
    cons : Expr → Exprs → Exprs

-- `IfStmt` with a null `else_` is `if_then`; `ReturnStmt` with a null value is `return_void`.
mutual
  pub data Stmt : Type 0 where
    block : ℕ → Stmts → Stmt
    empty : ℕ → Stmt
    expr_stmt : ℕ → Expr → Stmt
    assign : ℕ → String → Option ℕ → Expr → Stmt
    var_decl : ℕ → Bool → String → Expr → Option ℕ → Stmt
    if_then : ℕ → Expr → Stmt → Stmt
    if_else : ℕ → Expr → Stmt → Stmt → Stmt
    while : ℕ → Expr → Stmt → Stmt
    break : ℕ → Stmt
    continue : ℕ → Stmt
    return_void : ℕ → Stmt
    return_value : ℕ → Expr → Stmt

  pub data Stmts : Type 0 where
    done : Stmts
    seq : Stmt → Stmts → Stmts

pub record Param : Type 0 where
  pub name : String
  pub sym : Option ℕ

pub record FuncDef : Type 0 where
  pub returns_void : Bool
  pub name : String
  pub params : List Param
  pub body_line : ℕ
  pub body : Stmts
  pub line : ℕ

pub record GlobalVar : Type 0 where
  pub is_const : Bool
  pub name : String
  pub init : Expr
  pub sym : Option ℕ
  pub init_value : ℕ
  pub line : ℕ

pub data TopLevel : Type 0 where
  global : GlobalVar → TopLevel
  func : FuncDef → TopLevel

abbrev pub Module : Type 0
Module = List TopLevel

-- The base class of an expression.
unfoldable pub info_of : Expr → Info
info_of (number i _) = i
info_of (var i _ _) = i
info_of (binary i _ _ _) = i
info_of (logical i _ _ _) = i
info_of (unary i _ _) = i
info_of (call i _ _ _) = i

-- The constructors' defaults: no constant, but for a number, which is one.
abbrev pub plain_info : ℕ → Info
plain_info l = record { line = l; is_const = false; const_value = 0 }

abbrev pub number_info : ℕ → ℕ → Info
number_info l v = record { line = l; is_const = true; const_value = v }

-- A node with its constant set, as the analysis sets it.
abbrev pub set_const : Info → ℕ → Info
set_const i v = record i { is_const = true; const_value = v }

-- `Symbol`'s default member initializers, with the name and the kind that `declare` sets.
abbrev pub new_symbol : String → SymbolKind → Symbol
new_symbol n k = record {
  kind = k;
  name = n;
  is_const = false;
  const_value = 0;
  global_id = none;
  ir_id = none;
}
