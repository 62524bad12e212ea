-- ===== src/Driver/Total.antt =====
-- The phases before the representation end on every source.
use toy_c_cp.Prelude.{◌≡◌, refl, String}
use toy_c_cp.Reading.{Reading, Safe, gives, throws, Safe-continue}
use toy_c_cp.Lexer.Total.{tokenize-EndsInEof}
use toy_c_cp.Parser.Total.Program.{parse_module-Safe}
use toy_c_cp.Sema.Scope.{Analysed, thrown}
use toy_c_cp.Sema.Program.{analyze}
use toy_c_cp.Sema.Program.Main.{HasMain, analyze-HasMain}
use toy_c_cp.Driver.{CompileError, lexical, syntactic, throw_as, analysed, front}

throw_as-Safe :
    {E A : Type 0} {P : A → Type 0} {r : Reading E A} (f : E → CompileError)
    → Safe P r
    → Safe P (throw_as f r)
throw_as-Safe f (gives h) = gives h
throw_as-Safe f throws = throws

analysed-Safe :
    {A : Type 0} {P : A → Type 0} (r : Analysed A)
    → ((a : A) → r ≡ Analysed.ok a → P a)
    → Safe P (analysed r)
analysed-Safe (thrown line e) h = throws
analysed-Safe (Analysed.ok a) h = gives (h a refl)

-- On every source the lexer, the parser and the analysis, one after the other, end within their input
-- and their fuel: they throw an error, or accept a program that has a function `main` that returns an
-- int and has no parameters.
pub front-Safe : (src : String) → Safe (λ (m, s, m'). HasMain m) (front src)
unfolding front
front-Safe src = Safe-continue (throw_as-Safe lexical (tokenize-EndsInEof src)) λ ts e.
    Safe-continue (throw_as-Safe syntactic (parse_module-Safe ts e)) λ m u.
      Safe-continue (analysed-Safe {P = λ r. HasMain m} (analyze m) (λ r p. analyze-HasMain m p))
        λ r h. gives h
