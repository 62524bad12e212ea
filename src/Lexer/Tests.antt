-- ===== src/Lexer/Tests.antt =====
-- The lexer on small sources.
use toy_c_cp.Prelude.{◌≡◌, refl, String, List, [], ◌∷◌}
use toy_c_cp.Reading.{Safe, ok, failed, continue_with, Reading}
use toy_c_cp.Lexer.Tokens.{Tok, Token, EndsInEof}
use toy_c_cp.Lexer.{tokenize, number_value, LexError, unterminated_comment, bitwise_and, token_at}
use toy_c_cp.Lexer.Total.{tokenize-EndsInEof}

abbrev kinds : List Token → List Tok
kinds [] = []
kinds (t ∷ ts) = t.kind ∷ kinds ts

abbrev scanned : String → Reading LexError (List Tok)
scanned src = continue_with (λ ts. ok (kinds ts)) (tokenize src)

operators :
    scanned "a<=b !x // end"
    ≡ ok (Tok.ident ∷ Tok.le ∷ Tok.ident ∷ Tok.not ∷ Tok.ident ∷ Tok.eof ∷ [])
unfolding tokenize
operators = refl

positions :
    tokenize "/* */ int\n 7"
    ≡ ok (
        token_at Tok.kw_int "int" 0 1 7
        ∷ token_at Tok.number "7" 7 2 2
        ∷ token_at Tok.eof "" 0 2 3
        ∷ [])
unfolding tokenize
positions = refl

unclosed : tokenize "/*/" ≡ failed 1 4 unterminated_comment
unfolding tokenize
unclosed = refl

single_and : tokenize "a & b" ≡ failed 1 4 bitwise_and
unfolding tokenize
single_and = refl

-- 2 ^ 31 is the pattern of the smallest integer, and 2 ^ 64 + 1 is too large for std::stoull.
smallest : number_value "2147483648" ≡ 2147483648
unfolding number_value
smallest = refl

-- The last ten digits are 3709551617, and not 1, which is 2 ^ 64 + 1 in 32 bits.
too_large : number_value "18446744073709551617" ≡ 3709551617
unfolding number_value
too_large = refl

tokenize-EndsInEof_example : Safe EndsInEof (tokenize "int main() { return 1; } // end")
tokenize-EndsInEof_example = tokenize-EndsInEof "int main() { return 1; } // end"
