-- ===== src/Parser/Printer/RoundTrip.antt =====
-- The parser reads the tokens of a term as its node: the layers keep the precedences of C, operators of
-- one layer associate to the left, and the printer needs no brackets beyond those that the layers ask for.
use mathlib.Core.List.{append_assoc}
use toy_c_cp.Prelude.{
  if◌then◌else◌, ℕ, zero, suc, ◌+◌, ◌*◌, ◌≤◌, ◌≡◌, refl, ap, ◌∙◌, true, false, none, String, List,
  [], ◌∷◌, ◌++◌, arith, length, length-append,
}
use toy_c_cp.Ast.{Expr, Exprs, nil, cons, call, plain_info}
use toy_c_cp.Reading.{Reading, ok, continue_with}
use toy_c_cp.Lexer.Tokens.{Tok, Token, same_tok}
use toy_c_cp.Parser.State.{SyntaxError, Parse, cur, advance, expect, check, accept}
use toy_c_cp.Parser.Expr.{parse_level, parse_expr, parse_args, call_with, primary_at, unary_op}
use toy_c_cp.Parser.Printer.{
  Term, Terms, num, name, joint, prefix, apply, no_terms, term, sign, word, bare, listed, node,
  nodes,
}
use toy_c_cp.Parser.Printer.Shape.{Stops-closes, closes, Starts, Starts-ne-r_paren, bare-Starts}
use toy_c_cp.Parser.Printer.Levels.{ReadsAs}
use toy_c_cp.Parser.Printer.Operands.{
  Good, prec-le, bare-ReadsAs, joint-Good, prefix-Good, num-Good, name-Good, primary-Good,
}

-- The tokens behind arguments.
abbrev close : ℕ → List Token → List Token
close line rest = sign line Tok.r_paren ∷ rest

abbrev pub GoodArgs : ℕ → Term → Terms → Type 0
GoodArgs line e es =
    (f : ℕ) (rest : List Token)
    → 24 * length (listed line (term e es)) + 10 ≤ f
    → parse_args f (listed line (term e es) ++ close line rest)
      ≡ ok (nodes line (term e es), close line rest)

-- What `parse_args` does behind an expression.
abbrev args_behind : ℕ → Expr × List Token → Reading SyntaxError (Exprs × List Token)
args_behind f (x, us) =
    continue_with
      (λ (more, vs).
        continue_with (λ (es, ws). ok (cons x es, ws))
          ((if more then parse_args f else (λ zs. ok (nil, zs))) vs))
      (accept Tok.comma us)

one-GoodArgs : (line : ℕ) (e : Term) → Good line e → GoodArgs line e no_terms
unfolding listed nodes parse_args accept same_tok closes
one-GoodArgs line e g zero rest b = absurd (omega arith)
one-GoodArgs line e g (suc f) rest b = ap (continue_with (args_behind f)) (
    bare-ReadsAs line 6 e (prec-le e) g f (close line rest)
      (Stops-closes 6 (sign line Tok.r_paren) rest refl) (omega (arith, b)))

more-GoodArgs :
    (line : ℕ) (e d : Term) (es : Terms)
    → Good line e
    → GoodArgs line d es
    → GoodArgs line e (term d es)
unfolding listed nodes parse_args accept same_tok closes
more-GoodArgs line e d es g h zero rest b = absurd (omega arith)
more-GoodArgs line e d es g h (suc f) rest b =
    ap (continue_with (args_behind f)) (
      ap (parse_level f 6) (append_assoc (bare line e) (comma ∷ others) (close line rest))
      ∙ bare-ReadsAs line 6 e (prec-le e) g f (comma ∷ (others ++ close line rest))
          (Stops-closes 6 comma (others ++ close line rest) refl)
          (omega (arith, b, length-append (bare line e) (comma ∷ others))))
    ∙ ap (continue_with (λ (es, ws). ok (cons (node line e) es, ws)))
        (h f rest (omega (arith, b, length-append (bare line e) (comma ∷ others))))
  where
    comma : Token
    comma = sign line Tok.comma

    others : List Token
    others = listed line (term d es)

-- Arguments are there if the tokens do not begin with the closing bracket.
call_with-args :
    (line : ℕ) (args : Parse Exprs) (t : Token) (ts : List Token) (es : Exprs) (rest : List Token)
    → check Tok.r_paren ts ≡ ok (false, ts)
    → args ts ≡ ok (es, close line rest)
    → call_with args t ts ≡ ok (call (plain_info t.line) t.text es none, rest)
unfolding call_with expect same_tok
call_with-args line args t ts es rest p q =
    ap
      (continue_with
        (λ (empty, us). continue_with called ((if empty then (λ vs. ok (nil, vs)) else args) us)))
      p
    ∙ ap (continue_with called) q
  where
    called : Exprs × List Token → Reading SyntaxError (Expr × List Token)
    called (es, us) =
        continue_with (λ (u, vs). ok (call (plain_info t.line) t.text es none, vs))
          (expect Tok.r_paren "')'" us)

check-Starts :
    (ts : List Token)
    → ((t : Token) × (us : List Token) × (ts ≡ t ∷ us) × Starts t.kind)
    → check Tok.r_paren ts ≡ ok (false, ts)
unfolding check
check-Starts ts (t, us, p, s) = rw p (rw (Starts-ne-r_paren t.kind s) refl)

append-Starts :
    (ts rest : List Token)
    → ((t : Token) × (us : List Token) × (ts ≡ t ∷ us) × Starts t.kind)
    → (t : Token) × (us : List Token) × (ts ++ rest ≡ t ∷ us) × Starts t.kind
append-Starts ts rest (t, us, p, s) = (t, us ++ rest, ap (λ x. x ++ rest) p, s)

listed-Starts :
    (line : ℕ) (e : Term) (es : Terms)
    → (t : Token) × (us : List Token) × (listed line (term e es) ≡ t ∷ us) × Starts t.kind
unfolding listed
listed-Starts line e no_terms = bare-Starts line e
listed-Starts line e (term d es) = append-Starts (bare line e) _ (bare-Starts line e)

constant_call-Good : (line : ℕ) (w : String) → Good line (apply w no_terms)
unfolding bare node parse_level cur advance unary_op primary_at accept same_tok call_with check
    expect
constant_call-Good line w = primary-Good line (apply w no_terms) refl reads
  where
    reads : ReadsAs 0 (bare line (apply w no_terms)) (node line (apply w no_terms))
    reads zero rest s b = absurd (omega arith)
    reads (suc zero) rest s b = absurd (omega arith)
    reads (suc (suc zero)) rest s b = absurd (omega arith)
    reads (suc (suc (suc f))) rest s b = refl

call-Good :
    (line : ℕ) (w : String) (e : Term) (es : Terms)
    → GoodArgs line e es
    → Good line (apply w (term e es))
unfolding bare node parse_level cur advance unary_op primary_at accept same_tok
call-Good line w e es g = primary-Good line (apply w (term e es)) refl reads
  where
    args : List Token
    args = listed line (term e es)

    reads : ReadsAs 0 (bare line (apply w (term e es))) (node line (apply w (term e es)))
    reads zero rest s b = absurd (omega arith)
    reads (suc zero) rest s b = absurd (omega arith)
    reads (suc (suc zero)) rest s b = absurd (omega arith)
    reads (suc (suc (suc f))) rest s b =
        ap (call_with (parse_args f) (word line w)) (append_assoc args (close line []) rest)
        ∙ call_with-args line (parse_args f) (word line w) (args ++ close line rest)
            (nodes line (term e es)) rest
            (check-Starts (args ++ close line rest)
              (append-Starts args (close line rest) (listed-Starts line e es)))
            (g f rest (omega (arith, b, length-append args (close line []))))

abbrev AllGood : ℕ → Terms → Type 0
AllGood line no_terms = Unit
AllGood line (term e es) = GoodArgs line e es

apply-Good : (line : ℕ) (w : String) (es : Terms) → AllGood line es → Good line (apply w es)
apply-Good line w no_terms g = constant_call-Good line w
apply-Good line w (term e es) g = call-Good line w e es g

mutual
  term-Good : (line : ℕ) (e : Term) → Good line e
  term-Good line (num v) = num-Good line v
  term-Good line (name w) = name-Good line w
  term-Good line (joint j a b) = joint-Good line j a b (term-Good line a) (term-Good line b)
  term-Good line (prefix op a) = prefix-Good line op a (term-Good line a)
  term-Good line (apply w es) = apply-Good line w es (terms-AllGood line es)

  terms-AllGood : (line : ℕ) (es : Terms) → AllGood line es
  terms-AllGood line no_terms = tt
  terms-AllGood line (term e no_terms) = one-GoodArgs line e (term-Good line e)
  terms-AllGood line (term e (term d es)) =
      more-GoodArgs line e d es (term-Good line e) (terms-AllGood line (term d es))

-- Before a closing bracket, a comma or a semicolon, `parse_expr` reads the tokens of a term as its node
-- and leaves what is behind them, with 24 units of fuel a token and nine more.
pub parse_expr-bare :
    (line : ℕ) (e : Term) (fuel : ℕ) (t : Token) (ts : List Token)
    → closes t.kind ≡ true
    → 24 * length (bare line e) + 9 ≤ fuel
    → parse_expr fuel (bare line e ++ t ∷ ts) ≡ ok (node line e, t ∷ ts)
parse_expr-bare line e fuel t ts p b =
    bare-ReadsAs line 6 e (prec-le e) (term-Good line e) fuel (t ∷ ts) (Stops-closes 6 t ts p)
      (omega (arith, b))
