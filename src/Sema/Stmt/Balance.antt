-- ===== src/Sema/Stmt/Balance.antt =====
-- The analysis of a statement leaves the scopes around it and the loop depth as they were, and what it
-- accepts jumps only inside loops.
use toy_c_cp.Prelude.{
  not, ℕ, ◌+◌, ◌<◌, ◌≡◌, refl, ap, ◌∙◌, subst, Bool, true, false, String, arith, length, ◌==◌,
}
use toy_c_cp.Ast.{
  Stmt, Stmts, Expr, SymbolKind, Symbol, info_of, block, empty, expr_stmt, assign, var_decl,
  if_then, if_else, while, break, continue, return_void, return_value, done, seq,
}
use toy_c_cp.Sema.Scope.{
  nonconst_local, State, Analysed, ok, thrown, bind-eq-ok, reject_if, reject_if-eq-ok, lookup,
  declare, bind_name, drop_scope, push_scope, pop_scope, break_outside, continue_outside,
}
use toy_c_cp.Sema.Expr.{analyze_expr}
use toy_c_cp.Sema.Stmt.{
  analyze_stmt, analyze_stmts, resolve_target, declare_local, enter_loop, leave_loop,
}

-- Only the innermost scope may have changed, and the number of scopes and the loop depth are the same.
pub record Balanced (s t : State) : Type 0 where
  pub depth : t.loop_depth ≡ s.loop_depth
  pub outer : drop_scope t.scopes ≡ drop_scope s.scopes
  pub count : length t.scopes ≡ length s.scopes

-- Every `break` and `continue` stands in a loop, where `d` loops are around the statement.
unfoldable mutual
  pub JumpsIn : ℕ → Stmt → Type 0
  JumpsIn d (block l ss) = JumpsInAll d ss
  JumpsIn d (if_then l c t) = JumpsIn d t
  JumpsIn d (if_else l c t f) = JumpsIn d t × JumpsIn d f
  JumpsIn d (while l c b) = JumpsIn (d + 1) b
  JumpsIn d (break l) = 0 < d
  JumpsIn d (continue l) = 0 < d
  JumpsIn d (empty l) = Unit
  JumpsIn d (expr_stmt l e) = Unit
  JumpsIn d (assign l n p e) = Unit
  JumpsIn d (var_decl l c n e p) = Unit
  JumpsIn d (return_void l) = Unit
  JumpsIn d (return_value l e) = Unit

  pub JumpsInAll : ℕ → Stmts → Type 0
  JumpsInAll d done = Unit
  JumpsInAll d (seq s ss) = JumpsIn d s × JumpsInAll d ss

abbrev stmt_of : Analysed (State × Stmt) → State × Stmt → State × Stmt
stmt_of (ok r) d = r
stmt_of (thrown l e) d = d

abbrev stmts_of : Analysed (State × Stmts) → State × Stmts → State × Stmts
stmts_of (ok r) d = r
stmts_of (thrown l e) d = d

-- The result of a successful analysis.
abbrev Accepted : State → State × Stmt → Type 0
Accepted s (t, st) = Balanced s t × JumpsIn s.loop_depth st

abbrev AcceptedAll : State → State × Stmts → Type 0
AcceptedAll s (t, ss) = Balanced s t × JumpsInAll s.loop_depth ss

as_is : (s : State) → Balanced s s
as_is s = record { depth = refl; outer = refl; count = refl }

and_then : {s t u : State} → Balanced s t → Balanced t u → Balanced s u
and_then h k = record {
  depth = k.depth ∙ h.depth;
  outer = k.outer ∙ h.outer;
  count = k.count ∙ h.count;
}

in_scope : (s t : State) → Balanced (push_scope s) t → Balanced s (pop_scope t)
unfolding push_scope pop_scope
in_scope s t h = record {
  depth = h.depth;
  outer = ap drop_scope h.outer;
  count = ap length h.outer;
}

in_loop : (s t : State) → Balanced (enter_loop s) t → Balanced s (leave_loop t)
in_loop s t h = record { depth = omega (arith, h.depth); outer = h.outer; count = h.count }

declare-Balanced :
    (n : String) (k : SymbolKind) (f : Symbol → Symbol) (s : State) → Balanced s (declare n k f s).0
unfolding declare bind_name drop_scope
declare-Balanced n k f s = record { depth = refl; outer = ground arith; count = ground arith }

abbrev state_of : Analysed (State × ℕ) → State → State
state_of (ok r) d = r.0
state_of (thrown l e) d = d

declare_local-Balanced :
    (l : ℕ) (c : Bool) (n : String) (e : Expr) (s : State) {r : State × ℕ}
    → declare_local l c n e s ≡ ok r
    → Balanced s r.0
unfolding declare_local
declare_local-Balanced l true n e s h =
    let as_const =
      λ (y : Symbol). record y { is_const = true; const_value = (info_of e).const_value } in
    let (u, pu, h1) =
      bind-eq-ok (reject_if (not (info_of e).is_const) l (nonconst_local n))
        (λ _. ok (declare n SymbolKind.const as_const s)) h in
    subst (λ o. Balanced s (state_of o s)) h1 (declare-Balanced n SymbolKind.const as_const s)
declare_local-Balanced l false n e s h =
    subst (λ o. Balanced s (state_of o s)) h (declare-Balanced n SymbolKind.local_var (λ y. y) s)

mutual
  unfolding analyze_stmt JumpsIn

  accepted : (s : State) (st : Stmt) (r : State × Stmt) → analyze_stmt s st ≡ ok r → Accepted s r
  accepted s (block l ss) r h =
      let (q, pq, h1) = bind-eq-ok (analyze_stmts (push_scope s) ss) _ h in
      let k = accepted_all (push_scope s) ss q pq in
      subst (λ o. Accepted s (stmt_of o r)) h1 (in_scope s q.0 k.0, k.1)
  accepted s (empty l) r h = subst (λ o. Accepted s (stmt_of o r)) h (as_is s, tt)
  accepted s (expr_stmt l e) r h =
      let (e', pe, h1) = bind-eq-ok (analyze_expr s e) _ h in
      subst (λ o. Accepted s (stmt_of o r)) h1 (as_is s, tt)
  accepted s (assign l n p e) r h =
      let (id, pi, h1) = bind-eq-ok (resolve_target s l n (lookup s n)) _ h in
      let (e', pe, h2) = bind-eq-ok (analyze_expr s e) _ h1 in
      subst (λ o. Accepted s (stmt_of o r)) h2 (as_is s, tt)
  accepted s (var_decl l c n e p) r h =
      let (e', pe, h1) = bind-eq-ok (analyze_expr s e) _ h in
      let (q, pq, h2) = bind-eq-ok (declare_local l c n e' s) _ h1 in
      subst (λ o. Accepted s (stmt_of o r)) h2 (declare_local-Balanced l c n e' s pq, tt)
  accepted s (if_then l c t) r h =
      let (c', pc, h1) = bind-eq-ok (analyze_expr s c) _ h in
      let (q, pq, h2) = bind-eq-ok (analyze_stmt s t) _ h1 in
      subst (λ o. Accepted s (stmt_of o r)) h2 (accepted s t q pq)
  accepted s (if_else l c t f) r h =
      let (c', pc, h1) = bind-eq-ok (analyze_expr s c) _ h in
      let (q, pq, h2) = bind-eq-ok (analyze_stmt s t) _ h1 in
      let (w, pw, h3) = bind-eq-ok (analyze_stmt q.0 f) _ h2 in
      let a = accepted s t q pq in
      let b = accepted q.0 f w pw in
      subst (λ o. Accepted s (stmt_of o r)) h3
        (and_then a.0 b.0, (a.1, subst (λ d. JumpsIn d w.1) a.0.depth b.1))
  accepted s (while l c b) r h =
      let (c', pc, h1) = bind-eq-ok (analyze_expr s c) _ h in
      let (q, pq, h2) = bind-eq-ok (analyze_stmt (enter_loop s) b) _ h1 in
      let a = accepted (enter_loop s) b q pq in
      subst (λ o. Accepted s (stmt_of o r)) h2 (in_loop s q.0 a.0, a.1)
  accepted s (break l) r h =
      let (u, pu, h1) = bind-eq-ok (reject_if (s.loop_depth == 0) l break_outside) _ h in
      let inside = reject_if-eq-ok _ l break_outside pu in
      subst (λ o. Accepted s (stmt_of o r)) h1 (as_is s, ground arith)
  accepted s (continue l) r h =
      let (u, pu, h1) = bind-eq-ok (reject_if (s.loop_depth == 0) l continue_outside) _ h in
      let inside = reject_if-eq-ok _ l continue_outside pu in
      subst (λ o. Accepted s (stmt_of o r)) h1 (as_is s, ground arith)
  accepted s (return_void l) r h = subst (λ o. Accepted s (stmt_of o r)) h (as_is s, tt)
  accepted s (return_value l e) r h =
      let (e', pe, h1) = bind-eq-ok (analyze_expr s e) _ h in
      subst (λ o. Accepted s (stmt_of o r)) h1 (as_is s, tt)

  accepted_all :
      (s : State) (ss : Stmts) (r : State × Stmts) → analyze_stmts s ss ≡ ok r → AcceptedAll s r
  accepted_all s done r h = subst (λ o. AcceptedAll s (stmts_of o r)) h (as_is s, tt)
  accepted_all s (seq st ss) r h =
      let (q, pq, h1) = bind-eq-ok (analyze_stmt s st) _ h in
      let (w, pw, h2) = bind-eq-ok (analyze_stmts q.0 ss) _ h1 in
      let a = accepted s st q pq in
      let b = accepted_all q.0 ss w pw in
      subst (λ o. AcceptedAll s (stmts_of o r)) h2
        (and_then a.0 b.0, (a.1, subst (λ d. JumpsInAll d w.1) a.0.depth b.1))

-- When the analysis accepts a statement, the loop depth and the number of scopes are as before, no
-- scope but the innermost has changed, and every `break` and `continue` of the annotated statement
-- stands inside a loop.
pub analyze_stmt-Balanced :
    (s t : State) (st st' : Stmt)
    → analyze_stmt s st ≡ ok (t, st')
    → Balanced s t × JumpsIn s.loop_depth st'
analyze_stmt-Balanced s t st st' h = accepted s st (t, st') h
