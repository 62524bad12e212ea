-- ===== src/Sema/Scope.antt =====
-- src/sema/Sema.h and Sema.cpp: the state of the analysis, its scopes and its errors.
use toy_c_cp.Prelude.{
  ℕ, Bool, true, false, Option, none, some, String, str_eq, List, [], ◌∷◌, ◌++◌, length,
  if◌then◌else◌, ◌≡◌, refl,
}
use toy_c_cp.Ast.{Symbol, SymbolKind, FuncRef, new_symbol}

-- One constructor for each message of `Sema::error`.
pub data Error : Type 0 where
  nonconst_global nonconst_local redefinition undeclared assign_const undeclared_func :
      String → Error
  arity : String → ℕ → Error
  bad_main missing_main break_outside continue_outside div_by_zero : Error

-- An exception ends the analysis: its line and its message.
pub data Analysed {ℓ} (A : Type ℓ) : Type ℓ where
  thrown : ℕ → Error → Analysed A
  ok : A → Analysed A

module _ {ℓ κ} {A : Type ℓ} {B : Type κ} where
  infixl 5 ◌>>=◌
  abbrev pub ◌>>=◌ : Analysed A → (A → Analysed B) → Analysed B
  thrown line message >>= next = thrown line message
  ok found >>= next = next found

  -- Both parts of an analysis that throws nothing.
  pub bind-eq-ok :
      (first : Analysed A) (next : A → Analysed B) {found : B}
      → (first >>= next) ≡ ok found
      → (a : A) × (first ≡ ok a) × (next a ≡ ok found)
  bind-eq-ok (thrown line message) next h = cc
  bind-eq-ok (ok a) next h = (a, refl, h)

infixl 5 ◌>>◌
abbrev pub ◌>>◌ {κ} : {B : Type κ} → Analysed (Unit {0}) → Analysed B → Analysed B
check >> rest = check >>= λ _. rest

-- `if (bad) error(line, e);`
abbrev pub reject_if : Bool → ℕ → Error → Analysed (Unit {0})
reject_if bad l e = if bad then thrown l e else ok tt

pub reject_if-eq-ok :
    (b : Bool) (l : ℕ) (e : Error) {u : Unit {0}} → reject_if b l e ≡ ok u → b ≡ false
reject_if-eq-ok true l e h = absurd (cc)
reject_if-eq-ok false l e h = refl

-- An `unordered_map` from names: the entry that was written last stands first and is found.
abbrev pub Scope : Type 0
Scope = List (String × ℕ)

unfoldable pub find {ℓ} : {V : Type ℓ} → String → List (String × V) → Option V
find n [] = none
find n ((m, v) ∷ rest) = if str_eq m n then some v else find n rest

-- `arena_` in order of creation, `scopes_` with the innermost scope first.
pub record State : Type 0 where
  pub arena : List Symbol
  pub scopes : List Scope
  pub funcs : List (String × FuncRef)
  pub global_count : ℕ
  pub loop_depth : ℕ

abbrev pub initial : State
initial = record { arena = []; scopes = []; funcs = []; global_count = 0; loop_depth = 0 }

unfoldable pub push_scope : State → State
push_scope s = record s { scopes = [] ∷ s.scopes }

unfoldable pub drop_scope : List Scope → List Scope
drop_scope [] = []
drop_scope (_ ∷ scs) = scs

unfoldable pub pop_scope : State → State
unfolding drop_scope
pop_scope s = record s { scopes = drop_scope s.scopes }

unfoldable pub bind_name : String → ℕ → List Scope → List Scope
bind_name n id [] = []
bind_name n id (sc ∷ scs) = ((n, id) ∷ sc) ∷ scs

-- The caller's writes to the new symbol are made before it is stored, by `setup`.
unfoldable pub declare : String → SymbolKind → (Symbol → Symbol) → State → State × ℕ
unfolding bind_name
declare n k setup s =
    let id = length s.arena in
    (
      record s { arena = s.arena ++ setup (new_symbol n k) ∷ []; scopes = bind_name n id s.scopes },
      id,
    )

unfoldable pub lookup_in : String → List Scope → Option ℕ
unfolding find
lookup_in n [] = none
lookup_in n (sc ∷ scs) = elim (find n sc) [ some id ↦ some id | none ↦ lookup_in n scs ]

unfoldable pub lookup : State → String → Option ℕ
unfolding lookup_in
lookup s n = lookup_in n s.scopes
