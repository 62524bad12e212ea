-- ===== src/Lexer/Tokens.antt =====
-- src/lexer/Token.h, and tokName of src/lexer/Lexer.cpp.
use toy_c_cp.Prelude.{ℕ, ◌≡◌, Bool, String, List, [], ◌∷◌, ◌==◌}

pub data Tok : Type 0 where
  ident number : Tok
  kw_int kw_void kw_const kw_if kw_else kw_while kw_break kw_continue kw_return : Tok
  l_paren r_paren l_brace r_brace semi comma assign : Tok
  plus minus star slash percent not lt gt le ge eq ne and_and or_or eof : Tok

-- The numbers of the enumeration, by which `==` compares.
unfoldable pub ordinal : Tok → ℕ
ordinal Tok.ident = 0
ordinal Tok.number = 1
ordinal Tok.kw_int = 2
ordinal Tok.kw_void = 3
ordinal Tok.kw_const = 4
ordinal Tok.kw_if = 5
ordinal Tok.kw_else = 6
ordinal Tok.kw_while = 7
ordinal Tok.kw_break = 8
ordinal Tok.kw_continue = 9
ordinal Tok.kw_return = 10
ordinal Tok.l_paren = 11
ordinal Tok.r_paren = 12
ordinal Tok.l_brace = 13
ordinal Tok.r_brace = 14
ordinal Tok.semi = 15
ordinal Tok.comma = 16
ordinal Tok.assign = 17
ordinal Tok.plus = 18
ordinal Tok.minus = 19
ordinal Tok.star = 20
ordinal Tok.slash = 21
ordinal Tok.percent = 22
ordinal Tok.not = 23
ordinal Tok.lt = 24
ordinal Tok.gt = 25
ordinal Tok.le = 26
ordinal Tok.ge = 27
ordinal Tok.eq = 28
ordinal Tok.ne = 29
ordinal Tok.and_and = 30
ordinal Tok.or_or = 31
ordinal Tok.eof = 32

unfoldable pub same_tok : Tok → Tok → Bool
unfolding ordinal
same_tok a b = ordinal a == ordinal b

-- `value` is only written from an `int32_t`: it is the 32-bit pattern here.
pub record Token : Type 0 where
  pub kind : Tok
  pub text : String
  pub value : ℕ
  pub line : ℕ
  pub col : ℕ

unfoldable pub tok_name : Tok → String
tok_name Tok.ident = "identifier"
tok_name Tok.number = "number"
tok_name Tok.kw_int = "int"
tok_name Tok.kw_void = "void"
tok_name Tok.kw_const = "const"
tok_name Tok.kw_if = "if"
tok_name Tok.kw_else = "else"
tok_name Tok.kw_while = "while"
tok_name Tok.kw_break = "break"
tok_name Tok.kw_continue = "continue"
tok_name Tok.kw_return = "return"
tok_name Tok.l_paren = "("
tok_name Tok.r_paren = ")"
tok_name Tok.l_brace = "{"
tok_name Tok.r_brace = "}"
tok_name Tok.semi = ";"
tok_name Tok.comma = ","
tok_name Tok.assign = "="
tok_name Tok.plus = "+"
tok_name Tok.minus = "-"
tok_name Tok.star = "*"
tok_name Tok.slash = "/"
tok_name Tok.percent = "%"
tok_name Tok.not = "!"
tok_name Tok.lt = "<"
tok_name Tok.gt = ">"
tok_name Tok.le = "<="
tok_name Tok.ge = ">="
tok_name Tok.eq = "=="
tok_name Tok.ne = "!="
tok_name Tok.and_and = "&&"
tok_name Tok.or_or = "||"
tok_name Tok.eof = "<eof>"

-- The last token is the end of the file.
abbrev pub EndsInEof : List Token → Type 0
EndsInEof [] = ⊥
EndsInEof (t ∷ []) = t.kind ≡ Tok.eof
EndsInEof (t ∷ u ∷ ts) = EndsInEof (u ∷ ts)
