-- ===== src/Sema/Program/Main.antt =====
-- A program that the analysis accepts has an entry point.
use toy_c_cp.Prelude.{
  ◌≡◌, ap, ◌∙◌, Bool, true, false, not, ◌||◌, ◌==◌, str_eq, [], ◌∷◌, length, ◌⊎◌, inl, inr, arith,
  Bool-cases, if◌then◌else◌,
}
use toy_c_cp.Ast.{FuncDef, global, func, Module}
use toy_c_cp.Sema.Scope.{
  State, Analysed, ok, thrown, bind-eq-ok, reject_if, reject_if-eq-ok, find, redefinition, bad_main,
  missing_main, push_scope, initial,
}
use toy_c_cp.Sema.Program.{register_func, analyze_global, analyze_globals, analyze, is_some}

-- `int main()`.
pub record IsMain (fn : FuncDef) : Type 0 where
  pub named : str_eq fn.name "main" ≡ true
  pub returns_int : fn.returns_void ≡ false
  pub no_params : length fn.params ≡ 0

abbrev pub HasMain : Module → Type 0
HasMain [] = ⊥
HasMain (global g ∷ items) = HasMain items
HasMain (func fn ∷ items) = IsMain fn ⊎ HasMain items

abbrev flag_of : Analysed (State × Bool) → Bool
flag_of (ok (s, b)) = b
flag_of (thrown l e) = false

abbrev has_of : Analysed (State × Bool × Module) → Bool
has_of (ok (s, b, m)) = b
has_of (thrown l e) = false

register_func-IsMain :
    (s : State) (fn : FuncDef) {r : State × Bool}
    → register_func s fn ≡ ok r
    → r.1 ≡ true
    → IsMain fn
unfolding register_func
register_func-IsMain s fn {r} h t =
    let is_main = str_eq fn.name "main" in
    let bad = if is_main then fn.returns_void || not (length fn.params == 0) else false in
    let (u, pu, h1) =
      bind-eq-ok (reject_if (is_some (find fn.name s.funcs)) fn.line (redefinition fn.name)) _ h in
    let (v, pv, h2) = bind-eq-ok (reject_if bad fn.line bad_main) _ h1 in
    let fine = reject_if-eq-ok bad fn.line bad_main pv in
    let named : is_main ≡ true = ap flag_of h2 ∙ t in
    record { named = named; returns_int = ground arith; no_params = ground arith }

analyze_globals-HasMain :
    (items : Module) (s : State) (has : Bool) {r : State × Bool × Module}
    → analyze_globals s has items ≡ ok r
    → r.1 ≡ true
    → (has ≡ true) ⊎ HasMain items
unfolding analyze_globals
analyze_globals-HasMain [] s has h t = inl (ap has_of h ∙ t)
analyze_globals-HasMain (global g ∷ items) s has h t =
    let (q, pq, h1) = bind-eq-ok (analyze_global s g) _ h in
    let (w, pw, h2) = bind-eq-ok (analyze_globals q.0 has items) _ h1 in
    analyze_globals-HasMain items q.0 has pw (ap has_of h2 ∙ t)
analyze_globals-HasMain (func fn ∷ items) s has h t =
    let (q, pq, h1) = bind-eq-ok (register_func s fn) _ h in
    let (w, pw, h2) = bind-eq-ok (analyze_globals q.0 (has || q.1) items) _ h1 in
    elim (analyze_globals-HasMain items q.0 (has || q.1) pw (ap has_of h2 ∙ t)) [
      | inr later ↦ inr (inr later)
      | inl now ↦ elim (Bool-cases has) [
        | inl before ↦ inl before
        | inr not_yet ↦ inr (inl (register_func-IsMain s fn pq (rw not_yet at now)))
      ]
    ]

-- A program that the analysis accepts has a function named `main` that returns an int and has no
-- parameters.
pub analyze-HasMain : (m : Module) {r : State × Module} → analyze m ≡ ok r → HasMain m
unfolding analyze
analyze-HasMain m h =
    let (q, pq, h1) = bind-eq-ok (analyze_globals (push_scope initial) false m) _ h in
    let (u, pu, h2) = bind-eq-ok (reject_if (not q.1) 0 missing_main) _ h1 in
    let found = reject_if-eq-ok (not q.1) 0 missing_main pu in
    elim (analyze_globals-HasMain m (push_scope initial) false pq (ground arith)) [
      | inl e ↦ absurd (cc)
      | inr has ↦ has
    ]
