-- ===== src/Resolver/Bodies/Free.antt =====
-- resolver/resolve_body.go: the reports of a body, told by the names that occur free in it.
pub mod Reports
pub mod Expressions
pub mod Statements
use domainscript.Prelude.{
  ◌≡◌, refl, sym, ap, ◌∙◌, Bool, true, false, not, ◌&&◌, ◌||◌, Option, none, some, List, [], ◌∷◌,
  ◌++◌, append_assoc, Text, codes, text_eq, text_beq_iff, ◌==◌, if◌then◌else◌, Bool-cases, arith,
  inl, inr,
}
use domainscript.Prelude
use domainscript.Token.{Pos}
use domainscript.Diag.{Diagnostic}
use domainscript.Ast.{
  Expr, Exprs, Args, Clauses, ExprArms, Stmt, Block, Stmts, StmtArms, absent, error_expr, ident,
  literal, binary, unary, member, call, index, range, lambda, list, query, match_expr, object,
  no_exprs, expr_cons, no_args, arg, no_clauses, clause, no_arms, arm, no_stmt, error_stmt,
  block_stmt, expr_stmt, assign_stmt, ensure_stmt, return_stmt, for_stmt, log_stmt, emit_stmt,
  break_stmt, continue_stmt, match_stmt, block, no_stmts, stmt_cons, no_stmt_arms, stmt_arm,
}
use domainscript.Ast.Files.{Decl}
use domainscript.Symbols.{SymbolTable}
use domainscript.Resolver.Scope.{
  BindingKind, bind_param, bind_local, Binding, Scope, child, define, lookup,
}
use domainscript.Resolver.Scope.Shadowing.{lookup-define, lookup-child}
use domainscript.Resolver.Bodies.{
  bind, as_ident, define_bare, define_named, define_joins, resolve_ident, resolve_expr,
  resolve_exprs, resolve_args, resolve_clauses, resolve_arms, bind_patterns, bind_pattern,
  bind_args, resolve_log_fields, resolve_stmt, resolve_block_in, resolve_stmts, resolve_stmt_arms,
}

-- An identifier where it stands in the text.
pub record Occurrence : Type 0 where
  pub pos : Pos
  pub name : Text

-- The occurrences that are left where a name is bound.
unfoldable pub hide : Text → List Occurrence → List Occurrence
hide n [] = []
hide n (o ∷ os) = if n == o.name then hide n os else o ∷ hide n os

abbrev pub hide_joins : Clauses → List Occurrence → List Occurrence
unfolding hide
hide_joins no_clauses os = os
hide_joins (clause kw x extra cs) os =
    if kw == codes "join" then hide extra (hide_joins cs os) else hide_joins cs os

-- A bare name binds in what follows, another expression stands before it.
abbrev pub bare_before : Option Text → List Occurrence → List Occurrence → List Occurrence
unfolding hide
bare_before (some n) here rest = hide n rest
bare_before none here rest = here ++ rest

-- The identifiers that an expression leaves free, without regard to any scope; of patterns, what
-- they leave free together with `rest`, in which they bind.
unfoldable mutual
  unfolding hide

  pub free : Expr → List Occurrence
  free (ident s n) = record { pos = s.start; name = n } ∷ []
  free (binary s op l r) = free l ++ free r
  free (unary s op x) = free x
  free (member s x n p) = free x
  free (call s f xs) = free f ++ free_args xs
  free (index s x i) = free x ++ free i
  free (range s l h) = free l ++ free h
  free (lambda s p b) = hide p (free b)
  free (list s xs) = free_exprs xs
  free (query s op x b cs) = free x ++ hide b (hide_joins cs (free_clauses cs))
  free (match_expr s x as') = free x ++ free_arms as'
  free absent = []
  free (error_expr s) = []
  free (literal s k v) = []
  free (object s es) = []

  pub free_exprs : Exprs → List Occurrence
  free_exprs no_exprs = []
  free_exprs (expr_cons x xs) = free x ++ free_exprs xs

  pub free_args : Args → List Occurrence
  free_args no_args = []
  free_args (arg n x xs) = free x ++ free_args xs

  pub free_clauses : Clauses → List Occurrence
  free_clauses no_clauses = []
  free_clauses (clause kw x extra cs) = free x ++ free_clauses cs

  pub free_arms : ExprArms → List Occurrence
  free_arms no_arms = []
  free_arms (arm ps g b as') = free_patterns ps (free g ++ free b) ++ free_arms as'

  pub free_patterns : Exprs → List Occurrence → List Occurrence
  free_patterns no_exprs rest = rest
  free_patterns (expr_cons p ps) rest = free_pattern p (free_patterns ps rest)

  pub free_pattern : Expr → List Occurrence → List Occurrence
  free_pattern (ident s n) rest = if n == codes "_" then rest else hide n rest
  free_pattern (member s x n p) rest = free x ++ rest
  free_pattern (call s f xs) rest = free f ++ free_bare xs rest
  free_pattern _ rest = rest

  pub free_bare : Args → List Occurrence → List Occurrence
  free_bare no_args rest = rest
  free_bare (arg n x xs) rest = bare_before (as_ident x) (free x) (free_bare xs rest)

abbrev pub free_log_fields : List (Text × Expr) → List Occurrence
unfolding free
free_log_fields [] = []
free_log_fields ((_, x) ∷ fs) = free x ++ free_log_fields fs

-- The same of a statement and of what follows it in its block, where its assignments bind.
unfoldable mutual
  unfolding hide free

  pub free_stmt : Stmt → List Occurrence → List Occurrence
  free_stmt (block_stmt b) rest = free_block b ++ rest
  free_stmt (expr_stmt s x) rest = free x ++ rest
  free_stmt (assign_stmt s target x) rest =
      free x ++ bare_before (as_ident target) (free target) rest
  free_stmt (ensure_stmt s c e) rest = free c ++ free_stmt e rest
  free_stmt (return_stmt s x) rest = free x ++ rest
  free_stmt (for_stmt s v i b) rest = (free i ++ hide v (free_block b)) ++ rest
  free_stmt (emit_stmt s x) rest = free x ++ rest
  free_stmt (log_stmt s l msg fs) rest = (free msg ++ free_log_fields fs) ++ rest
  free_stmt (match_stmt s x as') rest = (free x ++ free_stmt_arms as') ++ rest
  free_stmt no_stmt rest = rest
  free_stmt (error_stmt s) rest = rest
  free_stmt (break_stmt s a) rest = rest
  free_stmt (continue_stmt s) rest = rest

  pub free_block : Block → List Occurrence
  free_block (block s ss) = free_stmts ss []

  pub free_stmts : Stmts → List Occurrence → List Occurrence
  free_stmts no_stmts rest = rest
  free_stmts (stmt_cons s ss) rest = free_stmt s (free_stmts ss rest)

  pub free_stmt_arms : StmtArms → List Occurrence
  free_stmt_arms no_stmt_arms = []
  free_stmt_arms (stmt_arm ps g b as') =
      free_patterns ps (free g ++ free_stmt b []) ++ free_stmt_arms as'
