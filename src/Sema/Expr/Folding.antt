-- ===== src/Sema/Expr/Folding.antt =====
-- Constant folding against an independent reading of a constant expression.
use toy_c_cp.Prelude.{
  ℕ, ◌≡◌, refl, ◌-◌, ◌%◌, ◌&&◌, Bool-cases, inl, inr, sym, ap, ◌∙◌, Bool, true, false, Option, none,
  some, String, arith, ◌==◌, if◌then◌else◌,
}
use toy_c_cp.Word.{word_mod, half_mod, minus_one, neg32, of_bool, sdiv, srem}
use toy_c_cp.Ir.Meaning.{eval_op}
use toy_c_cp.IrGen.Expr.{map_bin}
use toy_c_cp.Ast.{
  UnOp, BinOp, Expr, Info, Symbol, info_of, set_const, number, var, binary, logical, unary, call,
}
use toy_c_cp.Sema.Eval.{eval_bin, eval_un}
use toy_c_cp.Sema.Scope.{bind-eq-ok, State, Analysed, ok, thrown, find, lookup}
use toy_c_cp.Sema.Expr.{
  analyze_expr, analyze_args, deref, mark_var, resolve_var, store_fold, fold_binary, fold_logical,
  resolve_call, num_args,
}

infixl 5 ◌>>=?◌
abbrev ◌>>=?◌ : Option ℕ → (ℕ → Option ℕ) → Option ℕ
none >>=? f = none
some a >>=? f = f a

-- The tree as the parser leaves it: a number is constant, and nothing else is marked.
abbrev pub IsFresh : Expr → Type 0
IsFresh (number i v) = (i.is_const ≡ true) × (i.const_value ≡ v)
IsFresh (var i n p) = i.is_const ≡ false
IsFresh (binary i op l r) = (i.is_const ≡ false) × IsFresh l × IsFresh r
IsFresh (logical i o l r) = (i.is_const ≡ false) × IsFresh l × IsFresh r
IsFresh (unary i op e) = (i.is_const ≡ false) × IsFresh e
IsFresh (call i n args t) = i.is_const ≡ false

-- The value of a name that stands for a constant.
const_symbol : Option Symbol → Option ℕ
const_symbol none = none
const_symbol (some x) = if x.is_const then some x.const_value else none

const_name : State → Option ℕ → Option ℕ
unfolding const_symbol deref
const_name s none = none
const_name s (some id) = const_symbol (deref s id)

-- `&&` and `||` evaluate their right side only if the left side does not decide.
short_circuit : Bool → ℕ → Option ℕ → Option ℕ
short_circuit true a r = if a == 0 then r >>=? (λ b. some (if b == 0 then 0 else 1)) else some 1
short_circuit false a r = if a == 0 then some 0 else r >>=? (λ b. some (if b == 0 then 0 else 1))

-- What the operators on one operand give: the number itself, its negative in 32 bits, and whether it
-- is 0.
unary_value : UnOp → ℕ → ℕ
unary_value UnOp.plus x = x
unary_value UnOp.neg x = (word_mod - x) % word_mod
unary_value UnOp.not x = of_bool (x == 0)

eval_un-unary_value : (op : UnOp) (x : ℕ) → eval_un op x ≡ unary_value op x
unfolding eval_un unary_value neg32
eval_un-unary_value UnOp.plus x = refl
eval_un-unary_value UnOp.neg x = refl
eval_un-unary_value UnOp.not x = ground arith

divided :
    (f : ℕ → ℕ → ℕ) (a b v : ℕ)
    → f half_mod minus_one ≡ v
    → (if b == 0 then none else if a == half_mod && b == minus_one then some v else some (f a b))
      ≡ (if b == 0 then none else some (f a b))
divided f a b v h = elim (Bool-cases (a == half_mod && b == minus_one)) [
  | inl e ↦
      ap (λ o. if b == 0 then none else o)
        (rw e (ap some (sym h ∙ (λ i. f (sym (at_min e).0 i) (sym (at_min e).1 i)))))
  | inr e ↦ rw e
]
  where
    at_min : (a == half_mod && b == minus_one) ≡ true → (a ≡ half_mod) × (b ≡ minus_one)
    at_min e = (ground arith, ground arith)

-- evalBin is the meaning of the operators in the intermediate representation.
eval_bin-eval_op : (op : BinOp) (a b : ℕ) → eval_bin op a b ≡ eval_op (map_bin op) a b
unfolding eval_bin eval_op map_bin sdiv srem
eval_bin-eval_op BinOp.div a b = divided sdiv a b half_mod refl
eval_bin-eval_op BinOp.rem a b = divided srem a b 0 refl
eval_bin-eval_op op a b = refl

-- The value of an expression that is constant by the language's rules, read off the source tree.
unfoldable pub value_of : State → Expr → Option ℕ
unfolding const_name short_circuit unary_value
value_of s (number i v) = some v
value_of s (var i n p) = const_name s (lookup s n)
value_of s (binary i op l r) =
    let b = value_of s r in value_of s l >>=? (λ x. b >>=? (λ y. eval_op (map_bin op) x y))
value_of s (logical i is_or l r) =
    let b = value_of s r in value_of s l >>=? (λ x. short_circuit is_or x b)
value_of s (unary i op e) = value_of s e >>=? (λ x. some (unary_value op x))
value_of s (call i n args t) = none

-- The constant that a node is marked with.
abbrev pub const_of : Info → Option ℕ
const_of i = if i.is_const then some i.const_value else none

folded-const :
    (i l r : Info) (op : BinOp) {i' : Info}
    → i.is_const ≡ false
    → fold_binary i op l r ≡ ok i'
    → const_of i' ≡ (const_of l >>=? (λ x. const_of r >>=? (λ y. eval_bin op x y)))
unfolding fold_binary store_fold
folded-const i l r op h e = ground arith

fold_binary-const :
    (i l r : Info) (op : BinOp) {i' : Info}
    → i.is_const ≡ false
    → fold_binary i op l r ≡ ok i'
    → const_of i' ≡ (const_of l >>=? (λ x. const_of r >>=? (λ y. eval_op (map_bin op) x y)))
fold_binary-const i l r op h e =
    folded-const i l r op h e
    ∙ (λ k. const_of l >>=? (λ x. const_of r >>=? (λ y. eval_bin-eval_op op x y k)))

fold_logical-const :
    (i l r : Info) (is_or : Bool)
    → i.is_const ≡ false
    → const_of (fold_logical i is_or l r)
      ≡ (const_of l >>=? (λ x. short_circuit is_or x (const_of r)))
unfolding fold_logical short_circuit
fold_logical-const i l r true h = ground arith
fold_logical-const i l r false h = ground arith

abbrev const_of_result : Analysed Expr → Option ℕ
unfolding info_of
const_of_result (ok e) = const_of (info_of e)
const_of_result (thrown l x) = none

mark_unary-const :
    (i a : Info) (op : ℕ → ℕ)
    → i.is_const ≡ false
    → const_of (if a.is_const then set_const i (op a.const_value) else i)
      ≡ (const_of a >>=? (λ x. some (op x)))
mark_unary-const i a op h = ground arith

resolve_var-const :
    (s : State) (i : Info) (n : String) (o : Option ℕ) {e' : Expr}
    → i.is_const ≡ false
    → resolve_var s i n o ≡ ok e'
    → const_of (info_of e') ≡ const_name s o
unfolding resolve_var mark_var const_name info_of deref
resolve_var-const s i n none h e = cc
resolve_var-const s i n (some id) h e = ground arith

-- Analysis marks an expression constant exactly when the language makes it so, with its value.
pub analyze_expr-const :
    (s : State) (e : Expr) {e' : Expr}
    → IsFresh e
    → analyze_expr s e ≡ ok e'
    → const_of (info_of e') ≡ value_of s e
unfolding analyze_expr value_of
analyze_expr-const s (number i v) fr h = ground arith
analyze_expr-const s (var i n p) fr h = resolve_var-const s i n (lookup s n) fr h
analyze_expr-const s (binary i op l r) fr h =
    let (l', pl, h1) = bind-eq-ok (analyze_expr s l) _ h in
    let (r', pr, h2) = bind-eq-ok (analyze_expr s r) _ h1 in
    let (i', pi, h3) =
      bind-eq-ok (fold_binary i op (info_of l') (info_of r')) (λ j. ok (binary j op l' r')) h2 in
    let a = analyze_expr-const s l fr.1 pl in
    let b = analyze_expr-const s r fr.2 pr in
    let c = fold_binary-const i (info_of l') (info_of r') op fr.0 pi in
    ap const_of_result (sym h3) ∙ c ∙ rw (a, b)
analyze_expr-const s (logical i is_or l r) fr h =
    let (l', pl, h1) = bind-eq-ok (analyze_expr s l) _ h in
    let (r', pr, h2) = bind-eq-ok (analyze_expr s r) _ h1 in
    let a = analyze_expr-const s l fr.1 pl in
    let b = analyze_expr-const s r fr.2 pr in
    let c = fold_logical-const i (info_of l') (info_of r') is_or fr.0 in
    ap const_of_result (sym h2) ∙ c ∙ rw (a, b)
analyze_expr-const s (unary i op x) fr h =
    let (x', px, h1) = bind-eq-ok (analyze_expr s x) _ h in
    let a = analyze_expr-const s x fr.1 px in
    ap const_of_result (sym h1)
    ∙ mark_unary-const i (info_of x') (eval_un op) fr.0
    ∙ (λ k. a k >>=? (λ x. some (eval_un-unary_value op x k)))
analyze_expr-const s (call i n args t) fr h =
    let (f, pf, h1) = bind-eq-ok (resolve_call i n (num_args args) (find n s.funcs)) _ h in
    let (args', pa, h2) = bind-eq-ok (analyze_args s args) _ h1 in
    ap const_of_result (sym h2) ∙ rw fr
