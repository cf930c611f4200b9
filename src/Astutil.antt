-- ===== src/Astutil.antt =====
-- astutil/walk.go: the walks over statements and expressions. A walk with a visitor is the list of
-- the nodes in the order of the visits; a visitor with an effect goes over that list.
use domainscript.Prelude.{
  Bool, false, List, [], ◌∷◌, ◌++◌, Text, codes, text_eq, ◌==◌, Option, none, some, if◌then◌else◌,
}
use domainscript.Ast.{
  Expr, Exprs, Args, Clauses, ExprArms, Stmt, Block, Stmts, StmtArms, absent, error_expr, ident,
  literal, binary, unary, member, call, index, range, lambda, list, query, match_expr, object,
  no_exprs, expr_cons, no_args, arg, no_clauses, clause, no_arms, arm, no_stmt, error_stmt,
  block_stmt, expr_stmt, assign_stmt, ensure_stmt, return_stmt, for_stmt, log_stmt, emit_stmt,
  break_stmt, continue_stmt, match_stmt, block, no_stmts, stmt_cons, no_stmt_arms, stmt_arm,
}
use domainscript.Ast.Decls.{OperatorDecl, CoerceBlock, HandleDecl, ApplyDecl, SagaStep}
use domainscript.Ast.Files.{Decl}

-- `ForEachExpr`, depth first. An object is visited and not entered, as in the source.
unfoldable mutual
  pub for_each_expr : Expr → List Expr
  for_each_expr absent = []
  for_each_expr (error_expr s) = error_expr s ∷ []
  for_each_expr (ident s n) = ident s n ∷ []
  for_each_expr (literal s k v) = literal s k v ∷ []
  for_each_expr (binary s op l r) = binary s op l r ∷ (for_each_expr l ++ for_each_expr r)
  for_each_expr (unary s op x) = unary s op x ∷ for_each_expr x
  for_each_expr (member s x n p) = member s x n p ∷ for_each_expr x
  for_each_expr (call s f xs) = call s f xs ∷ (for_each_expr f ++ for_each_arg xs)
  for_each_expr (index s x i) = index s x i ∷ (for_each_expr x ++ for_each_expr i)
  for_each_expr (range s l h) = range s l h ∷ (for_each_expr l ++ for_each_expr h)
  for_each_expr (lambda s p b) = lambda s p b ∷ for_each_expr b
  for_each_expr (list s xs) = list s xs ∷ for_each_in xs
  for_each_expr (query s op t b cs) = query s op t b cs ∷ (for_each_expr t ++ for_each_clause cs)
  for_each_expr (match_expr s x as') = match_expr s x as' ∷ (for_each_expr x ++ for_each_arm as')
  for_each_expr (object s es) = object s es ∷ []

  pub for_each_in : Exprs → List Expr
  for_each_in no_exprs = []
  for_each_in (expr_cons x xs) = for_each_expr x ++ for_each_in xs

  pub for_each_arg : Args → List Expr
  for_each_arg no_args = []
  for_each_arg (arg n x xs) = for_each_expr x ++ for_each_arg xs

  pub for_each_clause : Clauses → List Expr
  for_each_clause no_clauses = []
  for_each_clause (clause k x e cs) = for_each_expr x ++ for_each_clause cs

  pub for_each_arm : ExprArms → List Expr
  for_each_arm no_arms = []
  for_each_arm (arm ps g b as') =
      for_each_in ps ++ (for_each_expr g ++ (for_each_expr b ++ for_each_arm as'))

-- `ForEachStmt`, depth first.
unfoldable mutual
  pub for_each_stmt : Stmt → List Stmt
  for_each_stmt no_stmt = []
  for_each_stmt (block_stmt b) = block_stmt b ∷ for_each_block b
  for_each_stmt (for_stmt s v i b) = for_stmt s v i b ∷ (block_stmt b ∷ for_each_block b)
  for_each_stmt (ensure_stmt s c e) = ensure_stmt s c e ∷ for_each_stmt e
  for_each_stmt (match_stmt s x as') = match_stmt s x as' ∷ for_each_stmt_arm as'
  for_each_stmt (error_stmt s) = error_stmt s ∷ []
  for_each_stmt (expr_stmt s x) = expr_stmt s x ∷ []
  for_each_stmt (assign_stmt s t x) = assign_stmt s t x ∷ []
  for_each_stmt (return_stmt s x) = return_stmt s x ∷ []
  for_each_stmt (log_stmt s l m fs) = log_stmt s l m fs ∷ []
  for_each_stmt (emit_stmt s x) = emit_stmt s x ∷ []
  for_each_stmt (break_stmt s a) = break_stmt s a ∷ []
  for_each_stmt (continue_stmt s) = continue_stmt s ∷ []

  pub for_each_block : Block → List Stmt
  for_each_block (block s ss) = for_each_stmts ss

  pub for_each_stmts : Stmts → List Stmt
  for_each_stmts no_stmts = []
  for_each_stmts (stmt_cons s ss) = for_each_stmt s ++ for_each_stmts ss

  pub for_each_stmt_arm : StmtArms → List Stmt
  for_each_stmt_arm no_stmt_arms = []
  for_each_stmt_arm (stmt_arm ps g b as') = for_each_stmt b ++ for_each_stmt_arm as'

-- A nil expression is left out where the source asks for it.
abbrev pub if_present : Expr → List Expr
if_present absent = []
if_present e = e ∷ []

abbrev pub expr_list : Exprs → List Expr
expr_list no_exprs = []
expr_list (expr_cons x xs) = x ∷ expr_list xs

abbrev pub arm_heads : StmtArms → List Expr
arm_heads no_stmt_arms = []
arm_heads (stmt_arm ps g b as') = expr_list ps ++ (if_present g ++ arm_heads as')

abbrev pub field_values : List (Text × Expr) → List Expr
field_values [] = []
field_values ((n, x) ∷ fs) = x ∷ field_values fs

-- `StmtExprs`: the expressions of one statement, without those of the statements in it.
unfoldable pub stmt_exprs : Stmt → List Expr
stmt_exprs (expr_stmt s x) = x ∷ []
stmt_exprs (assign_stmt s t x) = t ∷ x ∷ []
stmt_exprs (ensure_stmt s c e) = c ∷ []
stmt_exprs (return_stmt s x) = if_present x
stmt_exprs (for_stmt s v i b) = i ∷ []
stmt_exprs (emit_stmt s x) = x ∷ []
stmt_exprs (match_stmt s x as') = x ∷ arm_heads as'
stmt_exprs (log_stmt s l m fs) = if_present m ++ field_values fs
stmt_exprs _ = []

abbrev pub exprs_of : List Expr → List Expr
exprs_of [] = []
exprs_of (e ∷ es) = for_each_expr e ++ exprs_of es

abbrev pub exprs_of_stmts : List Stmt → List Expr
exprs_of_stmts [] = []
exprs_of_stmts (s ∷ ss) = exprs_of (stmt_exprs s) ++ exprs_of_stmts ss

-- `ForEachExprInBlock`
unfoldable pub for_each_expr_in_block : Option Block → List Expr
for_each_expr_in_block none = []
for_each_expr_in_block (some b) = exprs_of_stmts (for_each_stmt (block_stmt b))

-- `IsIdent`
unfoldable pub is_ident : Expr → Text → Bool
is_ident (ident s n) name = n == name
is_ident _ name = false

-- `HeadName`: the callee of a construction, or a bare identifier.
unfoldable pub head_name : Expr → Text
head_name (call s (ident t n) xs) = n
head_name (ident s n) = n
head_name _ = []

-- `StateField`: the field of `state.<field>`.
unfoldable pub state_field : Expr → Text
unfolding is_ident
state_field (member s x n p) = if is_ident x (codes "state") then n else []
state_field _ = []

-- The blocks that are there, of an optional one.
abbrev pub present : Option Block → List Block
present (some b) = b ∷ []
present none = []

abbrev pub operator_blocks : List OperatorDecl → List Block
operator_blocks [] = []
operator_blocks (o ∷ os) = o.body ∷ operator_blocks os

abbrev pub coerce_blocks : Option CoerceBlock → List Block
coerce_blocks (some c) = c.body ∷ []
coerce_blocks none = []

abbrev pub handle_blocks : List HandleDecl → List Block
handle_blocks [] = []
handle_blocks (h ∷ hs) = h.body ∷ handle_blocks hs

abbrev pub apply_blocks : List ApplyDecl → List Block
apply_blocks [] = []
apply_blocks (a ∷ as') = a.body ∷ apply_blocks as'

abbrev pub step_blocks : List SagaStep → List Block
step_blocks [] = []
step_blocks (s ∷ ss) =
    present s.up ++ (present s.down ++ (present s.on_infra_error ++ step_blocks ss))

unfoldable pub decl_blocks : Decl → List Block
decl_blocks (Decl.value_object d) = present d.valid ++ operator_blocks d.operators
decl_blocks (Decl.enum d) = coerce_blocks d.coerce
decl_blocks (Decl.aggregate d) = handle_blocks d.handlers ++ apply_blocks d.appliers
decl_blocks (Decl.use_case d) = present d.execute
decl_blocks (Decl.query d) = d.body ∷ []
decl_blocks (Decl.policy d) = present d.execute
decl_blocks (Decl.worker d) = present d.source ++ present d.execute
decl_blocks (Decl.saga d) = step_blocks d.steps
decl_blocks _ = []
