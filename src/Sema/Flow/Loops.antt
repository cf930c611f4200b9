-- ===== src/Sema/Flow/Loops.antt =====
-- sema/rules_flow.go: the statements that `checkLoopControl` reports, told by the walk of astutil.
use domainscript.Prelude.{◌≡◌, refl, sym, ap, ◌∙◌, true, false, List, [], ◌∷◌, ◌++◌, append_assoc}
use domainscript.Ast.{
  Stmt, no_stmt, error_stmt, block_stmt, expr_stmt, assign_stmt, ensure_stmt, return_stmt, for_stmt,
  log_stmt, emit_stmt, break_stmt, continue_stmt, match_stmt, Block, block, Stmts, no_stmts,
  stmt_cons, StmtArms, no_stmt_arms, stmt_arm,
}
use domainscript.Astutil.{for_each_stmt, for_each_block, for_each_stmts, for_each_stmt_arm}
use domainscript.Sema.Flow.{
  Report, break_outside, continue_outside, check_loop_control, check_loop_block, check_loop_stmts,
  check_loop_arms,
}

-- The statement with nothing in place of every loop in it.
unfoldable mutual
  pub without_loops : Stmt → Stmt
  without_loops (for_stmt s v i b) = no_stmt
  without_loops (block_stmt b) = block_stmt (block_without_loops b)
  without_loops (ensure_stmt s c e) = ensure_stmt s c (without_loops e)
  without_loops (match_stmt s x as') = match_stmt s x (arms_without_loops as')
  without_loops no_stmt = no_stmt
  without_loops (error_stmt s) = error_stmt s
  without_loops (expr_stmt s x) = expr_stmt s x
  without_loops (assign_stmt s t x) = assign_stmt s t x
  without_loops (return_stmt s x) = return_stmt s x
  without_loops (log_stmt s l m fs) = log_stmt s l m fs
  without_loops (emit_stmt s x) = emit_stmt s x
  without_loops (break_stmt s a) = break_stmt s a
  without_loops (continue_stmt s) = continue_stmt s

  pub block_without_loops : Block → Block
  block_without_loops (block s ss) = block s (stmts_without_loops ss)

  pub stmts_without_loops : Stmts → Stmts
  stmts_without_loops no_stmts = no_stmts
  stmts_without_loops (stmt_cons s ss) = stmt_cons (without_loops s) (stmts_without_loops ss)

  pub arms_without_loops : StmtArms → StmtArms
  arms_without_loops no_stmt_arms = no_stmt_arms
  arms_without_loops (stmt_arm ps g b as') =
      stmt_arm ps g (without_loops b) (arms_without_loops as')

-- One report for each `break`, `break all` and `continue` of a list of statements.
abbrev pub control_report : Stmt → List Report
control_report (break_stmt s all) = record { pos = s.start; msg = break_outside all } ∷ []
control_report (continue_stmt s) = record { pos = s.start; msg = continue_outside } ∷ []
control_report s = []

abbrev pub control_reports : List Stmt → List Report
control_reports [] = []
control_reports (s ∷ ss) = control_report s ++ control_reports ss

control_reports-append :
    (xs ys : List Stmt) → control_reports (xs ++ ys) ≡ control_reports xs ++ control_reports ys
control_reports-append [] ys = refl
control_reports-append (x ∷ xs) ys =
    ap (λ r. control_report x ++ r) (control_reports-append xs ys)
    ∙ sym (append_assoc (control_report x) (control_reports xs) (control_reports ys))

-- The reports of two lists of statements, one after the other.
joined :
    {r q : List Report} (xs ys : List Stmt)
    → r ≡ control_reports xs
    → q ≡ control_reports ys
    → r ++ q ≡ control_reports (xs ++ ys)
joined xs ys h k = rw (h, k) (sym (control_reports-append xs ys))

mutual
  unfolding check_loop_control

  inside : (s : Stmt) → check_loop_control s true ≡ []
  inside (for_stmt s v i b) = inside_block b
  inside (block_stmt b) = inside_block b
  inside (ensure_stmt s c e) = inside e
  inside (match_stmt s x as') = inside_arms as'
  inside no_stmt = refl
  inside (error_stmt s) = refl
  inside (expr_stmt s x) = refl
  inside (assign_stmt s t x) = refl
  inside (return_stmt s x) = refl
  inside (log_stmt s l m fs) = refl
  inside (emit_stmt s x) = refl
  inside (break_stmt s a) = refl
  inside (continue_stmt s) = refl

  inside_block : (b : Block) → check_loop_block b true ≡ []
  inside_block (block s ss) = inside_stmts ss

  inside_stmts : (ss : Stmts) → check_loop_stmts ss true ≡ []
  inside_stmts no_stmts = refl
  inside_stmts (stmt_cons s ss) = rw (inside s) (inside_stmts ss)

  inside_arms : (as' : StmtArms) → check_loop_arms as' true ≡ []
  inside_arms no_stmt_arms = refl
  inside_arms (stmt_arm ps g b as') = rw (inside b) (inside_arms as')

mutual
  unfolding check_loop_control without_loops for_each_stmt

  outside :
      (s : Stmt) → check_loop_control s false ≡ control_reports (for_each_stmt (without_loops s))
  outside (for_stmt s v i b) = inside_block b
  outside (block_stmt b) = outside_block b
  outside (ensure_stmt s c e) = outside e
  outside (match_stmt s x as') = outside_arms as'
  outside no_stmt = refl
  outside (error_stmt s) = refl
  outside (expr_stmt s x) = refl
  outside (assign_stmt s t x) = refl
  outside (return_stmt s x) = refl
  outside (log_stmt s l m fs) = refl
  outside (emit_stmt s x) = refl
  outside (break_stmt s a) = refl
  outside (continue_stmt s) = refl

  outside_block :
      (b : Block)
      → check_loop_block b false ≡ control_reports (for_each_block (block_without_loops b))
  outside_block (block s ss) = outside_stmts ss

  outside_stmts :
      (ss : Stmts)
      → check_loop_stmts ss false ≡ control_reports (for_each_stmts (stmts_without_loops ss))
  outside_stmts no_stmts = refl
  outside_stmts (stmt_cons s ss) =
      joined (for_each_stmt (without_loops s)) (for_each_stmts (stmts_without_loops ss)) (outside s)
        (outside_stmts ss)

  outside_arms :
      (as' : StmtArms)
      → check_loop_arms as' false ≡ control_reports (for_each_stmt_arm (arms_without_loops as'))
  outside_arms no_stmt_arms = refl
  outside_arms (stmt_arm ps g b as') =
      joined (for_each_stmt (without_loops b)) (for_each_stmt_arm (arms_without_loops as'))
        (outside b) (outside_arms as')

-- Inside a loop nothing is reported. Outside of one the reports are, in order, one for each
-- `break`, `break all` and `continue` that the walk visits once every loop is taken out.
pub check_loop_control-walk :
    (s : Stmt)
    → (check_loop_control s true ≡ [])
      × (check_loop_control s false ≡ control_reports (for_each_stmt (without_loops s)))
check_loop_control-walk s = (inside s, outside s)
