-- ===== src/Ast.antt =====
-- ast/expr.go, ast/stmt.go and ast/ast.go: expressions and statements, with their spans. A nil
-- interface is `absent`; a list of nodes inside a node is a type of its own.
pub mod Decls
pub mod Files
use domainscript.Prelude.{Bool, List, Text}
use domainscript.Token.{Kind, Pos}

pub record Span : Type 0 where
  pub start : Pos
  pub end : Pos

mutual
  pub data Expr : Type 0 where
    absent : Expr
    error_expr : Span → Expr
    ident : Span → Text → Expr
    literal : Span → Kind → Text → Expr
    binary : Span → Kind → Expr → Expr → Expr
    unary : Span → Kind → Expr → Expr
    member : Span → Expr → Text → Pos → Expr
    call : Span → Expr → Args → Expr
    index : Span → Expr → Expr → Expr
    range : Span → Expr → Expr → Expr
    lambda : Span → Text → Expr → Expr
    list : Span → Exprs → Expr
    query : Span → Text → Expr → Text → Clauses → Expr
    match_expr : Span → Expr → ExprArms → Expr
    object : Span → Entries → Expr

  pub data Exprs : Type 0 where
    no_exprs : Exprs
    expr_cons : Expr → Exprs → Exprs

  -- `Arg`: the name, empty if positional, and the value.
  pub data Args : Type 0 where
    no_args : Args
    arg : Text → Expr → Args → Args

  -- `QueryClause`: the keyword, the expression and the extra word.
  pub data Clauses : Type 0 where
    no_clauses : Clauses
    clause : Text → Expr → Text → Clauses → Clauses

  -- `MatchExprArm`: the patterns, the guard, `absent` without `when`, and the body.
  pub data ExprArms : Type 0 where
    no_arms : ExprArms
    arm : Exprs → Expr → Expr → ExprArms → ExprArms

  -- `ConfigEntry`
  pub data Entries : Type 0 where
    no_entries : Entries
    entry : Text → Expr → Entries → Entries

mutual
  pub data Stmt : Type 0 where
    no_stmt : Stmt
    error_stmt : Span → Stmt
    block_stmt : Block → Stmt
    expr_stmt : Span → Expr → Stmt
    assign_stmt : Span → Expr → Expr → Stmt
    ensure_stmt : Span → Expr → Stmt → Stmt
    return_stmt : Span → Expr → Stmt
    for_stmt : Span → Text → Expr → Block → Stmt
    log_stmt : Span → Text → Expr → List (Text × Expr) → Stmt
    emit_stmt : Span → Expr → Stmt
    break_stmt : Span → Bool → Stmt
    continue_stmt : Span → Stmt
    match_stmt : Span → Expr → StmtArms → Stmt

  pub data Block : Type 0 where
    block : Span → Stmts → Block

  pub data Stmts : Type 0 where
    no_stmts : Stmts
    stmt_cons : Stmt → Stmts → Stmts

  -- `MatchStmtArm`: the patterns, the guard, `absent` without `when`, and the body.
  pub data StmtArms : Type 0 where
    no_stmt_arms : StmtArms
    stmt_arm : Exprs → Expr → Stmt → StmtArms → StmtArms

abbrev pub nowhere : Span
nowhere = record { start = record { line = 0; col = 0 }; end = record { line = 0; col = 0 } }

-- `Expr.Span`; on a nil interface the source does not ask for it.
abbrev pub span_of : Expr → Span
span_of absent = nowhere
span_of (error_expr s) = s
span_of (ident s _) = s
span_of (literal s _ _) = s
span_of (binary s _ _ _) = s
span_of (unary s _ _) = s
span_of (member s _ _ _) = s
span_of (call s _ _) = s
span_of (index s _ _) = s
span_of (range s _ _) = s
span_of (lambda s _ _) = s
span_of (list s _) = s
span_of (query s _ _ _ _) = s
span_of (match_expr s _ _) = s
span_of (object s _) = s

-- `Expr.Pos`
abbrev pub expr_pos : Expr → Pos
expr_pos e = (span_of e).start
