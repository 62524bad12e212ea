-- ===== src/Driver.antt =====
-- src/main.cpp, the phases before the representation: the source is read, parsed and analysed.
pub mod Total
mod Tests
use toy_c_cp.Prelude.{ℕ, String, List}
use toy_c_cp.Ast.{Module}
use toy_c_cp.Reading.{Reading, past_end, out_of_fuel, failed, ok, continue_with}
use toy_c_cp.Lexer.{LexError, tokenize}
use toy_c_cp.Parser.State.{SyntaxError}
use toy_c_cp.Parser.Program.{parse_module}
use toy_c_cp.Sema.Scope.{Error, State, Analysed, thrown}
use toy_c_cp.Sema.Program.{analyze}

-- Which phase throws.
pub data CompileError : Type 0 where
  lexical : LexError → CompileError
  syntactic : SyntaxError → CompileError
  semantic : Error → CompileError

abbrev pub throw_as : {E A : Type 0} → (E → CompileError) → Reading E A → Reading CompileError A
throw_as f past_end = past_end
throw_as f out_of_fuel = out_of_fuel
throw_as f (failed line col e) = failed line col (f e)
throw_as f (ok a) = ok a

-- An error of the analysis has no column, for which 0 stands.
abbrev pub analysed : {A : Type 0} → Analysed A → Reading CompileError A
analysed (thrown line e) = failed line 0 (semantic e)
analysed (Analysed.ok a) = ok a

-- The tree as it is parsed, the state of the analysis and the tree that it leaves.
unfoldable pub front : String → Reading CompileError (Module × State × Module)
unfolding tokenize parse_module analyze
front src =
    continue_with
      (λ ts.
        continue_with (λ m. continue_with (λ (s, m'). ok (m, s, m')) (analysed (analyze m)))
          (throw_as syntactic (parse_module ts)))
      (throw_as lexical (tokenize src))
