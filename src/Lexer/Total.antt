-- ===== src/Lexer/Total.antt =====
-- The lexer ends on every input.
use Prim.Native.Char.{Char, code}
use toy_c_cp.Prelude.{
  ℕ, zero, suc, ◌+◌, ◌<◌, ◌≤◌, ◌≡◌, refl, Bool, true, ◌&&◌, ◌||◌, String, List, [], ◌∷◌, arith,
  ◌==◌,
}
use toy_c_cp.Reading.{
  Reading, ok, Safe, gives, throws, Safe-if, Safe-either, Safe-weaken, Safe-continue,
}
use toy_c_cp.Lexer.Tokens.{Tok, Token, EndsInEof}
use toy_c_cp.Lexer.{
  Lexer, LexError, start, size, peek, behind, step_over, next_line, next_col, is_space, is_digit,
  is_alpha, is_word, skip_line, skip_block, trivia_round, skip_trivia, take_while, lex_word,
  lex_number, two_bytes, doubled, lex_punct, lex_token, token_round, tokenize_from, tokenize,
  token_at,
}

-- No more than so many bytes are left.
abbrev Left : ℕ → Lexer → Type 0
Left n lx = size lx.rest ≤ n

size-behind : (s : String) → size (behind s) ≤ size s
size-behind String.[] = omega arith
size-behind (String.◌∷◌ c s) = omega arith

size-skip_line : (s : String) (line col : ℕ) → Left (size s) (skip_line s line col)
unfolding skip_line
size-skip_line String.[] line col = omega arith
size-skip_line (String.◌∷◌ c s) line col =
    ground (arith, size-skip_line s (next_line (code c) line) (next_col (code c) col))

size-skip_slash :
    (c : Char) (s : String) (line col : ℕ)
    → code c ≡ b'/'
    → Left (size s) (skip_line (String.◌∷◌ c s) line col)
unfolding skip_line
size-skip_slash c s line col h =
    ground (arith, size-skip_line s (next_line (code c) line) (next_col (code c) col))

skip_block-Safe : (s : String) (line col : ℕ) → Safe (Left (size s)) (skip_block s line col)
unfolding skip_block
skip_block-Safe String.[] line col = throws
skip_block-Safe (String.◌∷◌ c String.[]) line col = throws
skip_block-Safe (String.◌∷◌ c (String.◌∷◌ d s)) line col =
    Safe-if (code c == b'*' && code d == b'/') (λ h. gives (omega arith))
      (λ h.
        Safe-weaken (λ lx l. omega arith)
          (skip_block-Safe (String.◌∷◌ d s) (next_line (code c) line) (next_col (code c) col)))

module _ (fuel : ℕ) (again : Lexer → Reading LexError Lexer)
    (rest_safe : (lx : Lexer) → size lx.rest < fuel → Safe (Left (size lx.rest)) (again lx)) where
  again-Safe : (n : ℕ) (lx : Lexer) → n < fuel → size lx.rest ≤ n → Safe (Left (suc n)) (again lx)
  again-Safe n lx h l = Safe-weaken (λ lx' l'. omega arith) (rest_safe lx (omega arith))

  trivia_round-Safe :
      (s : String) (line col : ℕ)
      → size s < suc fuel
      → Safe (Left (size s)) (trivia_round again s line col)
  unfolding trivia_round
  trivia_round-Safe String.[] line col h = gives (omega arith)
  trivia_round-Safe (String.◌∷◌ c s) line col h =
      Safe-if (is_space (code c))
        (λ e. again-Safe (size s) (step_over c s line col) (omega arith) (omega arith))
        (λ e.
          Safe-if (code c == b'/' && peek s == b'/')
            (λ f.
              let shorter = size-skip_slash c s line col (ground arith) in
              again-Safe (size s) (skip_line (String.◌∷◌ c s) line col) (omega arith) (omega arith))
            (λ f.
              Safe-if (code c == b'/' && peek s == b'*')
                (λ g.
                  Safe-continue (skip_block-Safe (behind s) line (col + 2))
                    λ lx l. again-Safe (size s) lx (omega arith) (omega (arith, size-behind s)))
                (λ g. gives (omega arith))))

skip_trivia-Safe :
    (fuel : ℕ) (lx : Lexer) → size lx.rest < fuel → Safe (Left (size lx.rest)) (skip_trivia fuel lx)
unfolding skip_trivia
skip_trivia-Safe zero lx h = absurd (omega arith)
skip_trivia-Safe (suc fuel) lx h =
    trivia_round-Safe fuel (skip_trivia fuel) (skip_trivia-Safe fuel) lx.rest lx.line lx.col h

size-take_while :
    (p : ℕ → Bool) (s : String) (line col : ℕ) → Left (size s) (take_while p s line col).1
unfolding take_while
size-take_while p String.[] line col = omega arith
size-take_while p (String.◌∷◌ c s) line col =
    ground (arith, size-take_while p s (next_line (code c) line) (next_col (code c) col))

size-take_while_first :
    (p : ℕ → Bool) (c : Char) (s : String) (line col : ℕ)
    → p (code c) ≡ true
    → Left (size s) (take_while p (String.◌∷◌ c s) line col).1
unfolding take_while
size-take_while_first p c s line col h =
    ground (arith, size-take_while p s (next_line (code c) line) (next_col (code c) col))

-- A token other than the end, and no more than so many bytes left.
abbrev TokenLeft : ℕ → Token × Lexer → Type 0
TokenLeft n (t, lx) = Left n lx

two_bytes-Safe :
    (second : ℕ) (both one : Tok) (both_text one_text : String) (line col : ℕ) (lx : Lexer)
    → Safe (TokenLeft (size lx.rest)) (two_bytes second both both_text one one_text line col lx)
unfolding two_bytes
two_bytes-Safe second both one both_text one_text line col lx =
    Safe-if (peek lx.rest == second) (λ h. gives (size-behind lx.rest)) (λ h. gives (omega arith))

doubled-Safe :
    (second : ℕ) (both : Tok) (text : String) (e : LexError) (line col : ℕ) (lx : Lexer)
    → Safe (TokenLeft (size lx.rest)) (doubled second both text e line col lx)
unfolding doubled
doubled-Safe second both text e line col lx =
    Safe-if (peek lx.rest == second) (λ h. gives (size-behind lx.rest)) (λ h. throws)

one_byte-Safe :
    (k : Tok) (text : String) (line col : ℕ) (lx : Lexer)
    → Safe {E = LexError} (TokenLeft (size lx.rest)) (ok (token_at k text 0 line col, lx))
one_byte-Safe k text line col lx = gives (omega arith)

ruleset punct = (one_byte-Safe, two_bytes-Safe, doubled-Safe, Safe-either, Safe.throws)

lex_punct-Safe :
    (c : Char) (line col : ℕ) (lx : Lexer)
    → Safe (TokenLeft (size lx.rest)) (lex_punct c line col lx)
unfolding lex_punct
lex_punct-Safe c line col lx = search (punct) depth 40

lex_token-Safe :
    (c : Char) (s : String) (line col : ℕ) → Safe (TokenLeft (size s)) (lex_token c s line col)
unfolding lex_token lex_word lex_number
lex_token-Safe c s line col =
    Safe-if (is_alpha (code c) || code c == b'_')
      (λ h. gives (size-take_while_first is_word c s line col (ground arith)))
      (λ h.
        Safe-if (is_digit (code c)) (λ g. gives (size-take_while_first is_digit c s line col g))
          (λ g. lex_punct-Safe c line col (step_over c s line col)))

EndsInEof-cons : (t : Token) (ts : List Token) → EndsInEof ts → EndsInEof (t ∷ ts)
EndsInEof-cons t [] h = absurd h
EndsInEof-cons t (u ∷ ts) h = h

token_round-Safe :
    (n : ℕ) (again : Lexer → Reading LexError (List Token))
    → ((lx : Lexer) → size lx.rest < n → Safe EndsInEof (again lx))
    → (s : String) (line col : ℕ) → size s < suc n
    → Safe EndsInEof (token_round again s line col)
unfolding token_round
token_round-Safe n again go String.[] line col h = gives refl
token_round-Safe n again go (String.◌∷◌ c s) line col h =
    Safe-continue (lex_token-Safe c s line col)
      λ (t, lx) l. Safe-continue (go lx (omega arith)) λ ts e. gives (EndsInEof-cons t ts e)

tokenize_from-Safe :
    (fuel : ℕ) (lx : Lexer) → size lx.rest < fuel → Safe EndsInEof (tokenize_from fuel lx)
unfolding tokenize_from
tokenize_from-Safe zero lx h = absurd (omega arith)
tokenize_from-Safe (suc fuel) lx h =
    Safe-continue (skip_trivia-Safe (suc (size lx.rest)) lx (omega arith)) λ lx' l.
      token_round-Safe fuel (tokenize_from fuel) (tokenize_from-Safe fuel) lx'.rest lx'.line lx'.col
        (omega arith)

-- The lexer ends on every input, with its fuel: it throws an error, or gives tokens of which the last is
-- the end of the file.
pub tokenize-EndsInEof : (src : String) → Safe EndsInEof (tokenize src)
unfolding tokenize
tokenize-EndsInEof src = tokenize_from-Safe (suc (size src)) (start src) (omega arith)
