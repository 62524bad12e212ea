-- ===== src/Parser/Total.antt =====
-- The operations on the tokens stay within them, as the last one is the end of the file.
pub mod Expr
pub mod Stmt
pub mod Program
use toy_c_cp.Prelude.{
  ℕ, zero, suc, ◌+◌, ◌<◌, ◌≤◌, ◌≡◌, ◌≢◌, refl, ap, sym, ◌∙◌, Bool, true, false, String, Option,
  none, some, List, [], ◌∷◌, arith, length, if◌then◌else◌,
}
use toy_c_cp.Reading.{Reading, ok, Safe, gives, throws, Safe-if}
use toy_c_cp.Lexer.Tokens.{Tok, Token, same_tok, EndsInEof}
use toy_c_cp.Parser.State.{SyntaxError, Parse, cur, peek, fail, check, accept, expect}

-- The tokens that are left are fewer, or no more, and end as before.
abbrev pub Shorter : {A : Type 0} → List Token → A × List Token → Type 0
Shorter ts (a, rest) = (length rest < length ts) × EndsInEof rest

abbrev pub NoLonger : {A : Type 0} → List Token → A × List Token → Type 0
NoLonger ts (a, rest) = (length rest ≤ length ts) × EndsInEof rest

pub EndsInEof-tail :
    (t : Token) (ts : List Token) → EndsInEof (t ∷ ts) → t.kind ≢ Tok.eof → EndsInEof ts
EndsInEof-tail t [] h ne = absurd (ne h)
EndsInEof-tail t (u ∷ ts) h ne = h

-- A kind that the end of the file does not have.
abbrev pub NotEof : Tok → Type 0
NotEof k = same_tok Tok.eof k ≡ false

pub same_tok-ne-eof : (a k : Tok) → NotEof k → same_tok a k ≡ true → a ≢ Tok.eof
same_tok-ne-eof a k h e p = cc (ap (λ x. same_tok x k) p)

pub accept-Safe :
    (k : Tok) (ts : List Token) → NotEof k → EndsInEof ts → Safe (NoLonger ts) (accept k ts)
unfolding accept
accept-Safe k [] h e = absurd e
accept-Safe k (t ∷ ts) h e =
    Safe-if (same_tok t.kind k)
      (λ s. gives (omega arith, EndsInEof-tail t ts e (same_tok-ne-eof t.kind k h s)))
      (λ s. gives (omega arith, e))

pub expect-Safe :
    (k : Tok) (what : String) (ts : List Token)
    → NotEof k
    → EndsInEof ts
    → Safe (Shorter ts) (expect k what ts)
unfolding expect
expect-Safe k what [] h e = absurd e
expect-Safe k what (t ∷ ts) h e =
    Safe-if (same_tok t.kind k)
      (λ s. gives (omega arith, EndsInEof-tail t ts e (same_tok-ne-eof t.kind k h s))) (λ s. throws)

pub check-Safe : (k : Tok) (ts : List Token) → EndsInEof ts → Safe (NoLonger ts) (check k ts)
unfolding check
check-Safe k [] e = absurd e
check-Safe k (t ∷ ts) e = gives (omega arith, e)

pub fail-Safe :
    {A : Type 0} {P : A × List Token → Type 0} (e : SyntaxError) (ts : List Token)
    → EndsInEof ts
    → Safe P (fail e ts)
unfolding fail
fail-Safe e [] h = absurd h
fail-Safe e (t ∷ ts) h = throws

-- A choice on an option, and on a test.
pub option-Safe :
    {X A : Type 0} {P : A × List Token → Type 0} (o : Option X) (p : Parse A) (q : X → Parse A)
    (ts : List Token)
    → (o ≡ none → Safe P (p ts))
    → ((x : X) → o ≡ some x → Safe P (q x ts))
    → Safe P ((elim o as (λ _. Parse A) [ none ↦ p | some x ↦ q x ]) ts)
option-Safe none p q ts f g = f refl
option-Safe (some x) p q ts f g = g x refl

pub branch-Safe :
    {A : Type 0} {P : A × List Token → Type 0} (b : Bool) (p q : Parse A) (ts : List Token)
    → Safe P (p ts)
    → Safe P (q ts)
    → Safe P ((if b then p else q) ts)
branch-Safe true p q ts f g = f
branch-Safe false p q ts f g = g

pub branch_if-Safe :
    {A : Type 0} {P : A × List Token → Type 0} (b : Bool) (p q : Parse A) (ts : List Token)
    → (b ≡ true → Safe P (p ts))
    → (b ≡ false → Safe P (q ts))
    → Safe P ((if b then p else q) ts)
branch_if-Safe true p q ts f g = f refl
branch_if-Safe false p q ts f g = g refl

pub cur-Safe : (ts : List Token) → EndsInEof ts → Safe (NoLonger ts) (cur ts)
unfolding cur
cur-Safe [] e = absurd e
cur-Safe (t ∷ ts) e = gives (omega arith, e)

pub peek-Safe : (n : ℕ) (ts : List Token) → EndsInEof ts → Safe (NoLonger ts) (peek n ts)
unfolding peek
peek-Safe n [] e = absurd e
peek-Safe n (t ∷ ts) e = gives (omega arith, e)
