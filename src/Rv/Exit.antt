-- ===== src/Rv/Exit.antt =====
-- How a list of instructions is left: at its end, by the first jump that is taken, or by `ret`.
use toy_c_cp.Prelude.{
  ℕ, ◌≡◌, refl, ap, ◌∙◌, Option, none, some, List, [], ◌∷◌, ◌++◌, ◌==◌, if◌then◌else◌,
}
use toy_c_cp.Word.{slt}
use toy_c_cp.Ir.Meaning.{bind}
use toy_c_cp.Ir.Meaning.Refine.{bind-eq-some}
use toy_c_cp.Rv.{Instr, j, bnez, beqz, blt, bge, beq, bne, ret}
use toy_c_cp.Rv.Machine.{Machine, Linker, exec_instr, exec_code}

-- A jump goes to a block of the function.
pub data Exit : Type 0 where
  at_end : Exit
  jumped : ℕ → Exit
  left : Exit

-- Where an instruction that may jump goes, `at_end` if that is the next one; `none` for the others.
unfoldable pub taken : Instr → Machine → Option Exit
taken (j f n) m = some (jumped n)
taken (bnez a f n) m = some (if m.x a == 0 then at_end else jumped n)
taken (beqz a f n) m = some (if m.x a == 0 then jumped n else at_end)
taken (blt a b f n) m = some (if slt (m.x a) (m.x b) then jumped n else at_end)
taken (bge a b f n) m = some (if slt (m.x a) (m.x b) then at_end else jumped n)
taken (beq a b f n) m = some (if m.x a == m.x b then jumped n else at_end)
taken (bne a b f n) m = some (if m.x a == m.x b then at_end else jumped n)
taken ret m = some left
taken _ m = none

module _ (lk : Linker) where
  abbrev pub proceed :
      (Machine → Option (Exit × Machine)) → Instr → Machine → Option Exit → Option (Exit × Machine)
  proceed rest i m none = bind (exec_instr lk i m) rest
  proceed rest i m (some at_end) = rest m
  proceed rest i m (some x) = some (x, m)

  unfoldable pub exec_exit : List Instr → Machine → Option (Exit × Machine)
  unfolding taken
  exec_exit [] m = some (at_end, m)
  exec_exit (i ∷ is) m = proceed (exec_exit is) i m (taken i m)

  -- Code that goes on at its end.
  proceed-ended :
      (is js : List Instr) (i : Instr) (m o : Machine) (t : Option Exit)
      → ((n : Machine)
          → exec_exit is n ≡ some (at_end, o)
          → exec_exit (is ++ js) n ≡ exec_exit js o)
      → proceed (exec_exit is) i m t ≡ some (at_end, o)
      → proceed (exec_exit (is ++ js)) i m t ≡ exec_exit js o
  proceed-ended is js i m o none ih e =
      let (n, p, q) = bind-eq-some (exec_instr lk i m) (exec_exit is) e in
      ap (λ x. bind x (exec_exit (is ++ js))) p ∙ ih n q
  proceed-ended is js i m o (some at_end) ih e = ih m e
  proceed-ended is js i m o (some x) ih e = absurd (cc)

  pub exec_exit-ended :
      (is js : List Instr) (m o : Machine)
      → exec_exit is m ≡ some (at_end, o)
      → exec_exit (is ++ js) m ≡ exec_exit js o
  unfolding exec_exit
  exec_exit-ended [] js m o e =
      ap (λ (x : Option (Exit × Machine)). bind x (λ (z, n). exec_exit js n)) e
  exec_exit-ended (i ∷ is) js m o e =
      proceed-ended is js i m o (taken i m) (λ n p. exec_exit-ended is js n o p) e

  proceed-jumped :
      (is js : List Instr) (i : Instr) (m o : Machine) (k : ℕ) (t : Option Exit)
      → ((n : Machine)
          → exec_exit is n ≡ some (jumped k, o)
          → exec_exit (is ++ js) n ≡ some (jumped k, o))
      → proceed (exec_exit is) i m t ≡ some (jumped k, o)
      → proceed (exec_exit (is ++ js)) i m t ≡ some (jumped k, o)
  proceed-jumped is js i m o k none ih e =
      let (n, p, q) = bind-eq-some (exec_instr lk i m) (exec_exit is) e in
      ap (λ x. bind x (exec_exit (is ++ js))) p ∙ ih n q
  proceed-jumped is js i m o k (some at_end) ih e = ih m e
  proceed-jumped is js i m o k (some x) ih e = e

  pub exec_exit-jumped :
      (is js : List Instr) (m o : Machine) (k : ℕ)
      → exec_exit is m ≡ some (jumped k, o)
      → exec_exit (is ++ js) m ≡ some (jumped k, o)
  unfolding exec_exit
  exec_exit-jumped [] js m o k e = absurd (cc)
  exec_exit-jumped (i ∷ is) js m o k e =
      proceed-jumped is js i m o k (taken i m) (λ n p. exec_exit-jumped is js n o k p) e

  not_taken : (i : Instr) (m n : Machine) → exec_instr lk i m ≡ some n → taken i m ≡ none
  unfolding exec_instr taken
  not_taken (j f k) m n e = absurd (cc)
  not_taken (bnez a f k) m n e = absurd (cc)
  not_taken (beqz a f k) m n e = absurd (cc)
  not_taken (blt a b f k) m n e = absurd (cc)
  not_taken (bge a b f k) m n e = absurd (cc)
  not_taken (beq a b f k) m n e = absurd (cc)
  not_taken (bne a b f k) m n e = absurd (cc)
  not_taken ret m n e = absurd (cc)
  not_taken i m n e = refl

  -- Code without jumps in front.
  pub exec_exit-straight :
      (is js : List Instr) (m n : Machine)
      → exec_code lk is m ≡ some n
      → exec_exit (is ++ js) m ≡ exec_exit js n
  unfolding exec_exit exec_code
  exec_exit-straight [] js m n e = ap (λ x. bind x (exec_exit js)) e
  exec_exit-straight (i ∷ is) js m n e =
      let (o, p, q) = bind-eq-some (exec_instr lk i m) (exec_code lk is) e in
      ap (proceed (exec_exit (is ++ js)) i m) (not_taken i m o p)
      ∙ ap (λ x. bind x (exec_exit (is ++ js))) p
      ∙ exec_exit-straight is js o n q
