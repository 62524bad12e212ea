-- ===== src/Lexer.antt =====
-- src/lexer/Lexer.h and Lexer.cpp. A byte of the source is the `Char` with its number; `rest` is what
-- `pos_` has not passed.
pub mod Tokens
pub mod Total
mod Tests
use Prim.Native.Char.{Char, code}
use toy_c_cp.Prelude.{
  ℕ, zero, suc, ◌+◌, ◌-◌, ◌*◌, ◌%◌, Bool, true, false, not, ◌&&◌, ◌||◌, String, str_eq, List, [],
  ◌∷◌, ltb, leb, ◌==◌, if◌then◌else◌,
}
use toy_c_cp.Word.{word_mod}
use toy_c_cp.Reading.{Reading, ok, failed, past_end, out_of_fuel, continue_with}
use toy_c_cp.Lexer.Tokens.{Tok, Token}

pub data LexError : Type 0 where
  unterminated_comment bitwise_and bitwise_or : LexError
  unexpected : Char → LexError

pub record Lexer : Type 0 where
  pub rest : String
  pub line : ℕ
  pub col : ℕ

abbrev pub start : String → Lexer
start src = record { rest = src; line = 1; col = 1 }

-- The number of bytes left.
abbrev pub size : String → ℕ
size String.[] = 0
size (String.◌∷◌ c s) = suc (size s)

-- `peek(0)` and `peek(1)`: 0 behind the end.
abbrev pub peek : String → ℕ
peek String.[] = 0
peek (String.◌∷◌ c s) = code c

abbrev pub peek_next : String → ℕ
peek_next String.[] = 0
peek_next (String.◌∷◌ c s) = peek s

-- The bytes behind the next one.
abbrev pub behind : String → String
behind String.[] = String.[]
behind (String.◌∷◌ c s) = s

abbrev pub next_line : ℕ → ℕ → ℕ
next_line c line = if c == b'\n' then line + 1 else line

abbrev pub next_col : ℕ → ℕ → ℕ
next_col c col = if c == b'\n' then 1 else col + 1

-- `advance`, over a byte and the bytes behind it.
abbrev pub step_over : Char → String → ℕ → ℕ → Lexer
step_over c s line col = record {
  rest = s;
  line = next_line (code c) line;
  col = next_col (code c) col;
}

abbrev pub is_space : ℕ → Bool
is_space c = c == b' ' || c == b'\t' || c == b'\r' || c == b'\n' || c == 11 || c == 12

-- The bytes up to the end of the line.
unfoldable pub skip_line : String → ℕ → ℕ → Lexer
skip_line String.[] line col = record { rest = String.[]; line = line; col = col }
skip_line (String.◌∷◌ c s) line col =
    let rest = skip_line s (next_line (code c) line) (next_col (code c) col) in
    if code c == b'\n' then record { rest = String.◌∷◌ c s; line = line; col = col } else rest

-- The bytes of a block comment behind its opening; at the end of the input the comment is not closed.
unfoldable pub skip_block : String → ℕ → ℕ → Reading LexError Lexer
skip_block String.[] line col = failed line col unterminated_comment
skip_block (String.◌∷◌ c String.[]) line col =
    failed (next_line (code c) line) (next_col (code c) col) unterminated_comment
skip_block (String.◌∷◌ c (String.◌∷◌ d s)) line col =
    let rest = skip_block (String.◌∷◌ d s) (next_line (code c) line) (next_col (code c) col) in
    if code c == b'*' && code d == b'/'
    then ok (record { rest = s; line = line; col = col + 2 })
    else rest

-- One round of the loop of `skipTrivia`, which goes on with `again`.
unfoldable pub trivia_round :
    (Lexer → Reading LexError Lexer) → String → ℕ → ℕ → Reading LexError Lexer
unfolding skip_line skip_block
trivia_round again String.[] line col = ok (record { rest = String.[]; line = line; col = col })
trivia_round again (String.◌∷◌ c s) line col =
    if is_space (code c)
    then again (step_over c s line col)
    else if code c == b'/' && peek s == b'/'
    then again (skip_line (String.◌∷◌ c s) line col)
    else if code c == b'/' && peek s == b'*'
    then continue_with again (skip_block (behind s) line (col + 2))
    else ok (record { rest = String.◌∷◌ c s; line = line; col = col })

-- `skipTrivia`; a round that goes on has passed a byte.
unfoldable pub skip_trivia : ℕ → Lexer → Reading LexError Lexer
unfolding trivia_round
skip_trivia zero lx = out_of_fuel
skip_trivia (suc fuel) lx = trivia_round (skip_trivia fuel) lx.rest lx.line lx.col

-- `std::isdigit`, `std::isalpha` and `std::isalnum` in the C locale.
abbrev pub is_digit : ℕ → Bool
is_digit c = leb b'0' c && leb c b'9'

abbrev pub is_alpha : ℕ → Bool
is_alpha c = leb b'a' c && leb c b'z' || leb b'A' c && leb c b'Z'

abbrev pub is_word : ℕ → Bool
is_word c = is_alpha c || is_digit c || c == b'_'

-- `while (p(peek())) text += advance();`
unfoldable pub take_while : (ℕ → Bool) → String → ℕ → ℕ → String × Lexer
take_while p String.[] line col = (String.[], record { rest = String.[]; line = line; col = col })
take_while p (String.◌∷◌ c s) line col =
    let more = take_while p s (next_line (code c) line) (next_col (code c) col) in
    if p (code c)
    then (String.◌∷◌ c more.0, more.1)
    else (String.[], record { rest = String.◌∷◌ c s; line = line; col = col })

unfoldable pub keyword : String → Tok
keyword w =
    if str_eq w "int"
    then Tok.kw_int
    else if str_eq w "void"
    then Tok.kw_void
    else if str_eq w "const"
    then Tok.kw_const
    else if str_eq w "if"
    then Tok.kw_if
    else if str_eq w "else"
    then Tok.kw_else
    else if str_eq w "while"
    then Tok.kw_while
    else if str_eq w "break"
    then Tok.kw_break
    else if str_eq w "continue"
    then Tok.kw_continue
    else if str_eq w "return"
    then Tok.kw_return
    else Tok.ident

-- The number that digits spell, behind `n`.
unfoldable pub decimal : ℕ → String → ℕ
decimal n String.[] = n
decimal n (String.◌∷◌ c s) = decimal (n * 10 + (code c - b'0')) s

unfoldable pub drop_bytes : ℕ → String → String
drop_bytes zero s = s
drop_bytes (suc n) String.[] = String.[]
drop_bytes (suc n) (String.◌∷◌ c s) = drop_bytes n s

abbrev pub stoull_max : ℕ
stoull_max = 18446744073709551615

-- `std::stoull` throws above its bound; the last ten digits are then taken.
unfoldable pub number_value : String → ℕ
unfolding decimal drop_bytes
number_value w =
    let n = decimal 0 w in
    (if leb n stoull_max then n else decimal 0 (drop_bytes (size w - 10) w)) % word_mod

-- A token and where the lexer stands behind it.
abbrev pub Read : Type 0
Read = Reading LexError (Token × Lexer)

abbrev pub token_at : Tok → String → ℕ → ℕ → ℕ → Token
token_at k text value line col = record {
  kind = k;
  text = text;
  value = value;
  line = line;
  col = col;
}

unfoldable pub lex_word : String → ℕ → ℕ → Read
unfolding take_while keyword
lex_word s line col =
    let (w, lx) = take_while is_word s line col in ok (token_at (keyword w) w 0 line col, lx)

unfoldable pub lex_number : String → ℕ → ℕ → Read
unfolding take_while number_value
lex_number s line col =
    let (w, lx) = take_while is_digit s line col in
    ok (token_at Tok.number w (number_value w) line col, lx)

-- One byte, which the lexer has passed.
abbrev one_byte : Tok → String → ℕ → ℕ → Lexer → Read
one_byte k text line col lx = ok (token_at k text 0 line col, lx)

-- A second byte decides: `if (peek() == second) { advance(); push(both, ...); } else push(one, ...);`
unfoldable pub two_bytes : ℕ → Tok → String → Tok → String → ℕ → ℕ → Lexer → Read
two_bytes second both both_text one one_text line col lx =
    if peek lx.rest == second
    then ok (
      token_at both both_text 0 line col,
      record { rest = behind lx.rest; line = lx.line; col = lx.col + 1 },
    )
    else ok (token_at one one_text 0 line col, lx)

-- `&&` and `||`.
unfoldable pub doubled : ℕ → Tok → String → LexError → ℕ → ℕ → Lexer → Read
doubled second both text e line col lx =
    if peek lx.rest == second
    then ok (
      token_at both text 0 line col,
      record { rest = behind lx.rest; line = lx.line; col = lx.col + 1 },
    )
    else failed lx.line lx.col e

-- The `switch` on the byte `c`, which the lexer has passed; the token began at the line and the column.
unfoldable pub lex_punct : Char → ℕ → ℕ → Lexer → Read
unfolding two_bytes doubled
lex_punct c line col lx =
    if code c == b'('
    then one_byte Tok.l_paren "(" line col lx
    else if code c == b')'
    then one_byte Tok.r_paren ")" line col lx
    else if code c == b'{'
    then one_byte Tok.l_brace "{" line col lx
    else if code c == b'}'
    then one_byte Tok.r_brace "}" line col lx
    else if code c == b';'
    then one_byte Tok.semi ";" line col lx
    else if code c == b','
    then one_byte Tok.comma "," line col lx
    else if code c == b'+'
    then one_byte Tok.plus "+" line col lx
    else if code c == b'-'
    then one_byte Tok.minus "-" line col lx
    else if code c == b'*'
    then one_byte Tok.star "*" line col lx
    else if code c == b'/'
    then one_byte Tok.slash "/" line col lx
    else if code c == b'%'
    then one_byte Tok.percent "%" line col lx
    else if code c == b'='
    then two_bytes b'=' Tok.eq "==" Tok.assign "=" line col lx
    else if code c == b'!'
    then two_bytes b'=' Tok.ne "!=" Tok.not "!" line col lx
    else if code c == b'<'
    then two_bytes b'=' Tok.le "<=" Tok.lt "<" line col lx
    else if code c == b'>'
    then two_bytes b'=' Tok.ge ">=" Tok.gt ">" line col lx
    else if code c == b'&'
    then doubled b'&' Tok.and_and "&&" bitwise_and line col lx
    else if code c == b'|'
    then doubled b'|' Tok.or_or "||" bitwise_or line col lx
    else failed lx.line lx.col (unexpected c)

unfoldable pub lex_token : Char → String → ℕ → ℕ → Read
unfolding lex_word lex_number lex_punct
lex_token c s line col =
    if is_alpha (code c) || code c == b'_'
    then lex_word (String.◌∷◌ c s) line col
    else if is_digit (code c)
    then lex_number (String.◌∷◌ c s) line col
    else lex_punct c line col (step_over c s line col)

abbrev pub cons_token : Token → Reading LexError (List Token) → Reading LexError (List Token)
cons_token t = continue_with (λ ts. ok (t ∷ ts))

-- The rest of a round of the loop of `tokenize`, behind the trivia.
unfoldable pub token_round :
    (Lexer → Reading LexError (List Token)) → String → ℕ → ℕ → Reading LexError (List Token)
unfolding lex_token
token_round again String.[] line col = ok (token_at Tok.eof "" 0 line col ∷ [])
token_round again (String.◌∷◌ c s) line col =
    continue_with (λ (t, lx). cons_token t (again lx)) (lex_token c s line col)

-- Every round passes a byte.
unfoldable pub tokenize_from : ℕ → Lexer → Reading LexError (List Token)
unfolding skip_trivia token_round
tokenize_from zero lx = out_of_fuel
tokenize_from (suc fuel) lx =
    continue_with (λ (lx : Lexer). token_round (tokenize_from fuel) lx.rest lx.line lx.col)
      (skip_trivia (suc (size lx.rest)) lx)

unfoldable pub tokenize : String → Reading LexError (List Token)
unfolding tokenize_from
tokenize src = tokenize_from (suc (size src)) (start src)
