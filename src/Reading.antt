-- ===== src/Reading.antt =====
-- What a phase that reads its input from left to right gives: `Lexer::error` and `Parser::error` throw
-- at a line and a column.
use toy_c_cp.Prelude.{ℕ, ◌≡◌, ◌≢◌, refl, subst, Bool, true, false, if◌then◌else◌}

-- `past_end` is a read behind the input, which C++ leaves undefined; `out_of_fuel` has no counterpart in
-- the program.
pub data Reading {ℓ} (E A : Type ℓ) : Type ℓ where
  past_end out_of_fuel : Reading E A
  failed : ℕ → ℕ → E → Reading E A
  ok : A → Reading E A

module _ {ℓ} {E A B : Type ℓ} where
  abbrev pub continue_with : (A → Reading E B) → Reading E A → Reading E B
  continue_with k past_end = past_end
  continue_with k out_of_fuel = out_of_fuel
  continue_with k (failed line col e) = failed line col e
  continue_with k (ok a) = k a

-- The phase reads within its input and its fuel, and what it gives has the property.
pub data Safe {ℓ} {E A : Type ℓ} (P : A → Type ℓ) : Reading E A → Type ℓ where
  gives : {a : A} → P a → Safe P (ok a)
  throws : {line col : ℕ} {e : E} → Safe P (failed line col e)

module _ {ℓ} {E A : Type ℓ} {P : A → Type ℓ} where
  pub Safe-ok : {r : Reading E A} {a : A} → Safe P r → r ≡ ok a → P a
  Safe-ok (gives h) e = subst P (cc) h
  Safe-ok throws e = cc

  pub Safe-ne-past_end : {r : Reading E A} → Safe P r → r ≢ past_end
  Safe-ne-past_end (gives h) = cc
  Safe-ne-past_end throws = cc

  pub Safe-ne-out_of_fuel : {r : Reading E A} → Safe P r → r ≢ out_of_fuel
  Safe-ne-out_of_fuel (gives h) = cc
  Safe-ne-out_of_fuel throws = cc

  pub Safe-if :
      (b : Bool) {r s : Reading E A}
      → (b ≡ true → Safe P r)
      → (b ≡ false → Safe P s)
      → Safe P (if b then r else s)
  Safe-if false f g = g refl
  Safe-if true f g = f refl

  pub Safe-continue :
      {B : Type ℓ} {Q : B → Type ℓ} {r : Reading E A} {k : A → Reading E B}
      → Safe P r
      → ((a : A) → P a → Safe Q (k a))
      → Safe Q (continue_with k r)
  Safe-continue throws g = throws
  Safe-continue (gives {a} h) g = g a h

  pub Safe-weaken : {Q : A → Type ℓ} {r : Reading E A} → ((a : A) → P a → Q a) → Safe P r → Safe Q r
  Safe-weaken g throws = throws
  Safe-weaken g (gives {a} h) = gives (g a h)

  pub Safe-either :
      (b : Bool) {r s : Reading E A} → Safe P r → Safe P s → Safe P (if b then r else s)
  Safe-either false f g = g
  Safe-either true f g = f
