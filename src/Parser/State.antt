-- ===== src/Parser/State.antt =====
-- src/parser/Parser.cpp, the operations on the tokens. The state is the tokens from `pos_` on, as the
-- parser never goes back.
use toy_c_cp.Prelude.{ℕ, zero, suc, Bool, true, false, String, List, [], ◌∷◌, if◌then◌else◌}
use toy_c_cp.Reading.{Reading, ok, failed, past_end, continue_with}
use toy_c_cp.Lexer.Tokens.{Tok, Token, same_tok}

-- What the messages of `Parser::error` say, with the kind of the token that is there.
pub data SyntaxError : Type 0 where
  expected : String → Tok → SyntaxError
  no_expression : Tok → SyntaxError
  no_identifier no_declaration : SyntaxError

abbrev pub Parse : Type 0 → Type 0
Parse A = List Token → Reading SyntaxError (A × List Token)

infixl 5 ◌>>=◌ ◌>>◌
abbrev pub ◌>>=◌ : {A B : Type 0} → Parse A → (A → Parse B) → Parse B
first >>= next = λ ts. continue_with (λ (a, rest). next a rest) (first ts)

abbrev pub ◌>>◌ : {A B : Type 0} → Parse A → Parse B → Parse B
first >> next = first >>= λ _. next

abbrev pub pure : {A : Type 0} → A → Parse A
pure a = λ ts. ok (a, ts)

unfoldable pub cur : Parse Token
cur [] = past_end
cur (t ∷ ts) = ok (t, t ∷ ts)

-- `peek(n)`, from the token `t` and those behind it: the last token where there are not so many.
unfoldable pub look : ℕ → Token → List Token → Token
look zero t ts = t
look (suc n) t [] = t
look (suc n) t (u ∷ ts) = look n u ts

unfoldable pub peek : ℕ → Parse Token
unfolding look
peek n [] = past_end
peek n (t ∷ ts) = ok (look n t ts, t ∷ ts)

unfoldable pub advance : Parse Token
advance [] = past_end
advance (t ∷ ts) = ok (t, ts)

abbrev pub fail_at : {A : Type 0} → Token → SyntaxError → Reading SyntaxError A
fail_at t e = failed t.line t.col e

unfoldable pub fail : {A : Type 0} → SyntaxError → Parse A
fail e [] = past_end
fail e (t ∷ ts) = fail_at t e

unfoldable pub check : Tok → Parse Bool
unfolding same_tok
check k [] = past_end
check k (t ∷ ts) = ok (same_tok t.kind k, t ∷ ts)

unfoldable pub accept : Tok → Parse Bool
unfolding same_tok
accept k [] = past_end
accept k (t ∷ ts) = if same_tok t.kind k then ok (true, ts) else ok (false, t ∷ ts)

unfoldable pub expect : Tok → String → Parse Token
unfolding same_tok
expect k what [] = past_end
expect k what (t ∷ ts) = if same_tok t.kind k then ok (t, ts) else fail_at t (expected what t.kind)
