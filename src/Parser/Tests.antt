-- ===== src/Parser/Tests.antt =====
-- The parser on small sources.
use toy_c_cp.Prelude.{◌≡◌, refl, false, Option, none, some, String, List, [], ◌∷◌}
use toy_c_cp.Reading.{Reading, ok, failed, Safe}
use toy_c_cp.Lexer.Tokens.{Tok, Token}
use toy_c_cp.Lexer.{tokenize, token_at}
use toy_c_cp.Parser.Program.{parse_module}
use toy_c_cp.Parser.State.{
  SyntaxError, expected, no_declaration, check, cur, peek, advance, expect, fail,
}
use toy_c_cp.Parser.Expr.{parse_level}
use toy_c_cp.Parser.Stmt.{parse_block, block_with, parse_stmts}
use toy_c_cp.Parser.Total.Program.{parse_module-Safe}
use toy_c_cp.Prelude.{◌++◌, arith}
use toy_c_cp.Parser.Expr.{arithmetic, parse_expr}
use toy_c_cp.Parser.Printer.{Term, num, name, joint, apply, term, no_terms, bare, node}
use toy_c_cp.Parser.Printer.Shape.{closes}
use toy_c_cp.Parser.Printer.RoundTrip.{parse_expr-bare}
use toy_c_cp.Ast.{
  Module, func, seq, done, return_value, binary, number, number_info, plain_info, BinOp,
}

abbrev parsed : String → Option Module
parsed src = elim (tokenize src) [
  | ok ts ↦ elim (parse_module ts) [ ok m ↦ some m | _ ↦ none ]
  | _ ↦ none
]

precedence :
    parsed "int main() { return 1 + 2 * 3; }"
    ≡ some (
        func (record {
          returns_void = false;
          name = "main";
          params = [];
          body_line = 1;
          body =
              seq
                (return_value 1 (
                  binary (plain_info 1) BinOp.add (number (number_info 1 1) 1) (
                    binary
                      (plain_info 1)
                      BinOp.mul
                      (number (number_info 1 2) 2)
                      (number (number_info 1 3) 3))))
                done;
          line = 1;
        })
        ∷ [])
unfolding tokenize parse_module check cur peek advance expect parse_block block_with parse_stmts
    parse_level
precedence = refl

abbrev rejected : String → Reading SyntaxError Module
rejected src = elim (tokenize src) [ ok ts ↦ parse_module ts | _ ↦ ok [] ]

no_initial_value :
    rejected "int x;" ≡ failed 1 6 (expected "'=' (declarations must be initialized)" Tok.semi)
unfolding tokenize parse_module check cur peek expect
no_initial_value = refl

stray_brace : rejected "}" ≡ failed 1 1 no_declaration
unfolding tokenize parse_module check cur fail
stray_brace = refl

abbrev tiny : List Token
tiny =
    token_at Tok.kw_int "int" 0 1 1
    ∷ token_at Tok.ident "x" 0 1 5
    ∷ token_at Tok.assign "=" 0 1 7
    ∷ token_at Tok.number "1" 1 1 9
    ∷ token_at Tok.semi ";" 0 1 10
    ∷ token_at Tok.eof "" 0 2 1
    ∷ []

parse_module-Safe_example : Safe (λ m. Unit) (parse_module tiny)
parse_module-Safe_example = parse_module-Safe tiny refl

abbrev semicolon : Token
semicolon = token_at Tok.semi ";" 0 1 0

-- a - (b - 1) * f(2, x)
abbrev sample : Term
sample = joint (arithmetic BinOp.sub) (name "a") (
    joint (arithmetic BinOp.mul) (joint (arithmetic BinOp.sub) (name "b") (num 1))
      (apply "f" (term (num 2) (term (name "x") no_terms))))

parse_expr-bare_example :
    parse_expr 1000 (bare 1 sample ++ semicolon ∷ []) ≡ ok (node 1 sample, semicolon ∷ [])
unfolding bare closes
parse_expr-bare_example = parse_expr-bare 1 sample 1000 semicolon [] refl (omega arith)
