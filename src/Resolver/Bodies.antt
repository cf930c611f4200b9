-- ===== src/Resolver/Bodies.antt =====
-- resolver/resolve_body.go: the names in executable bodies. A scope that a statement defines a
-- local in is returned, beside the reports; the scopes of children are dropped.
pub mod Free
pub mod Declarations
use domainscript.Prelude.{
  Bool, true, false, not, ◌&&◌, ◌||◌, Option, none, some, List, [], ◌∷◌, ◌++◌, Text, codes, text_eq,
  ◌==◌, if◌then◌else◌,
}
use domainscript.Prelude
use domainscript.Token.{Pos}
use domainscript.Diag.{Diagnostic}
use domainscript.Ast.{
  Expr, Exprs, Args, Clauses, ExprArms, Stmt, Block, Stmts, StmtArms, absent, error_expr, ident,
  literal, binary, unary, member, call, index, range, lambda, list, query, match_expr, object,
  no_exprs, expr_cons, no_args, arg, no_clauses, clause, no_arms, arm, no_stmt, error_stmt,
  block_stmt, expr_stmt, assign_stmt, ensure_stmt, return_stmt, for_stmt, log_stmt, emit_stmt,
  break_stmt, continue_stmt, match_stmt, block, no_stmts, stmt_cons, no_stmt_arms, stmt_arm,
}
use domainscript.Ast.Decls.{EnumMember}
use domainscript.Ast.Files.{Decl, enum}
use domainscript.Symbols
use domainscript.Symbols.{Symbol, SymbolTable, module_symbols}
use domainscript.Resolver.Scope.{
  Binding, BindingKind, bind_param, bind_local, Scope, child, define, lookup,
}
use domainscript.Resolver.Scope.Shadowing.{contains}
use domainscript.Resolver.Collect.{coded_fault}
use domainscript.Resolver.References.{is_some}

abbrev pub builtin_values : List Text
builtin_values =
    codes "Nop"
    ∷ codes "_"
    ∷ codes "unrecoverable"
    ∷ codes "now"
    ∷ codes "uuid"
    ∷ codes "random"
    ∷ codes "random_str"
    ∷ codes "signed_url"
    ∷ codes "file"
    ∷ codes "File"
    ∷ []

abbrev pub code_name_in_body : Text
code_name_in_body = codes "E100"

abbrev pub has_member : List EnumMember → Text → Bool
has_member [] name = false
has_member (m ∷ ms) name = m.name == name || has_member ms name

abbrev pub enum_has : Decl → Text → Bool
enum_has (enum n) name = has_member n.members name
enum_has _ name = false

-- The loop of `isEnumMember`, over the symbols of the module.
abbrev pub is_enum_member : Prelude.Map Text (Symbol Decl) → Text → Bool
is_enum_member [] name = false
is_enum_member ((_, sym) ∷ syms) name = enum_has sym.decl name || is_enum_member syms name

abbrev pub bind : BindingKind → Text → Binding
bind k name = record { name = name; kind = k }

-- The name of a bare identifier.
abbrev pub as_ident : Expr → Option Text
as_ident (ident s n) = some n
as_ident _ = none

-- A bare identifier in the place of a pattern or a target defines a local, another expression is
-- resolved.
abbrev pub define_bare : Option Text → List Diagnostic → Scope → List Diagnostic × Scope
unfolding define
define_bare (some n) reports sc = ([], define sc n (bind bind_local n))
define_bare none reports sc = (reports, sc)

abbrev pub define_named : BindingKind → Text → Scope → Scope
unfolding define
define_named k n sc = if n == [] then sc else define sc n (bind k n)

-- The aliases of the joins of a query.
unfoldable pub define_joins : Scope → Clauses → Scope
unfolding define
define_joins sc no_clauses = sc
define_joins sc (clause kw x extra cs) =
    if kw == codes "join"
    then define_joins (define_named bind_local extra sc) cs
    else define_joins sc cs

module _ (quote : Text → Text) (t : SymbolTable Decl) (m : Text) where
  -- The tests stand in the order of the source.
  unfoldable pub resolve_ident : Scope → Pos → Text → List Diagnostic
  unfolding Symbols.lookup lookup
  resolve_ident sc pos name =
      if name == []
        || contains builtin_values name
        || is_some (lookup sc name)
        || is_some (Symbols.lookup t m name)
        || is_enum_member (module_symbols m t) name
      then []
      else coded_fault pos code_name_in_body (codes "nome não declarado: " ++ quote name) ∷ []

  unfoldable mutual
    unfolding define define_joins resolve_ident

    pub resolve_expr : Scope → Expr → List Diagnostic
    resolve_expr sc (ident s n) = resolve_ident sc s.start n
    resolve_expr sc (binary s op l r) = resolve_expr sc l ++ resolve_expr sc r
    resolve_expr sc (unary s op x) = resolve_expr sc x
    resolve_expr sc (member s x n p) = resolve_expr sc x
    resolve_expr sc (call s f xs) = resolve_expr sc f ++ resolve_args sc xs
    resolve_expr sc (index s x i) = resolve_expr sc x ++ resolve_expr sc i
    resolve_expr sc (range s l h) = resolve_expr sc l ++ resolve_expr sc h
    resolve_expr sc (lambda s p b) = resolve_expr (define (child sc) p (bind bind_param p)) b
    resolve_expr sc (list s xs) = resolve_exprs sc xs
    resolve_expr sc (query s op x b cs) =
        resolve_expr sc x
        ++ resolve_clauses (define_joins (define_named bind_local b (child sc)) cs) cs
    resolve_expr sc (match_expr s x as') = resolve_expr sc x ++ resolve_arms sc as'
    resolve_expr sc absent = []
    resolve_expr sc (error_expr s) = []
    resolve_expr sc (literal s k v) = []
    resolve_expr sc (object s es) = []

    pub resolve_exprs : Scope → Exprs → List Diagnostic
    resolve_exprs sc no_exprs = []
    resolve_exprs sc (expr_cons x xs) = resolve_expr sc x ++ resolve_exprs sc xs

    pub resolve_args : Scope → Args → List Diagnostic
    resolve_args sc no_args = []
    resolve_args sc (arg n x xs) = resolve_expr sc x ++ resolve_args sc xs

    pub resolve_clauses : Scope → Clauses → List Diagnostic
    resolve_clauses sc no_clauses = []
    resolve_clauses sc (clause kw x extra cs) = resolve_expr sc x ++ resolve_clauses sc cs

    pub resolve_arms : Scope → ExprArms → List Diagnostic
    resolve_arms sc no_arms = []
    resolve_arms sc (arm ps g b as') =
        let (reports, inner) = bind_patterns (child sc) ps in
        (reports ++ (resolve_expr inner g ++ resolve_expr inner b)) ++ resolve_arms sc as'

    pub bind_patterns : Scope → Exprs → List Diagnostic × Scope
    bind_patterns sc no_exprs = ([], sc)
    bind_patterns sc (expr_cons p ps) =
        let (reports, sc') = bind_pattern sc p in
        let (more, sc'') = bind_patterns sc' ps in (reports ++ more, sc'')

    pub bind_pattern : Scope → Expr → List Diagnostic × Scope
    bind_pattern sc (ident s n) =
        if n == codes "_" then ([], sc) else ([], define sc n (bind bind_local n))
    bind_pattern sc (member s x n p) = (resolve_expr sc x, sc)
    bind_pattern sc (call s f xs) =
        let (reports, sc') = bind_args sc xs in (resolve_expr sc f ++ reports, sc')
    bind_pattern sc _ = ([], sc)

    pub bind_args : Scope → Args → List Diagnostic × Scope
    bind_args sc no_args = ([], sc)
    bind_args sc (arg n x xs) =
        let (reports, sc') = define_bare (as_ident x) (resolve_expr sc x) sc in
        let (more, sc'') = bind_args sc' xs in (reports ++ more, sc'')

  -- The values of the fields of a log.
  abbrev pub resolve_log_fields : Scope → List (Text × Expr) → List Diagnostic
  unfolding resolve_expr
  resolve_log_fields sc [] = []
  resolve_log_fields sc ((_, x) ∷ fs) = resolve_expr sc x ++ resolve_log_fields sc fs

  unfoldable mutual
    unfolding resolve_expr define

    pub resolve_stmt : Scope → Stmt → List Diagnostic × Scope
    resolve_stmt sc (block_stmt b) = ((resolve_block_in (child sc) b).0, sc)
    resolve_stmt sc (expr_stmt s x) = (resolve_expr sc x, sc)
    resolve_stmt sc (assign_stmt s target x) =
        let (reports, sc') = define_bare (as_ident target) (resolve_expr sc target) sc in
        (resolve_expr sc x ++ reports, sc')
    resolve_stmt sc (ensure_stmt s c e) =
        let (reports, sc') = resolve_stmt sc e in (resolve_expr sc c ++ reports, sc')
    resolve_stmt sc (return_stmt s x) = (resolve_expr sc x, sc)
    resolve_stmt sc (for_stmt s v i b) =
        let inner = define (child sc) v (bind bind_local v) in
        (resolve_expr sc i ++ (resolve_block_in inner b).0, sc)
    resolve_stmt sc (emit_stmt s x) = (resolve_expr sc x, sc)
    resolve_stmt sc (log_stmt s l msg fs) = (resolve_expr sc msg ++ resolve_log_fields sc fs, sc)
    resolve_stmt sc (match_stmt s x as') = (resolve_expr sc x ++ resolve_stmt_arms sc as', sc)
    resolve_stmt sc no_stmt = ([], sc)
    resolve_stmt sc (error_stmt s) = ([], sc)
    resolve_stmt sc (break_stmt s a) = ([], sc)
    resolve_stmt sc (continue_stmt s) = ([], sc)

    pub resolve_block_in : Scope → Block → List Diagnostic × Scope
    resolve_block_in sc (block s ss) = resolve_stmts sc ss

    pub resolve_stmts : Scope → Stmts → List Diagnostic × Scope
    resolve_stmts sc no_stmts = ([], sc)
    resolve_stmts sc (stmt_cons s ss) =
        let (reports, sc') = resolve_stmt sc s in
        let (more, sc'') = resolve_stmts sc' ss in (reports ++ more, sc'')

    pub resolve_stmt_arms : Scope → StmtArms → List Diagnostic
    resolve_stmt_arms sc no_stmt_arms = []
    resolve_stmt_arms sc (stmt_arm ps g b as') =
        let (reports, inner) = bind_patterns (child sc) ps in
        (reports ++ (resolve_expr inner g ++ (resolve_stmt inner b).0)) ++ resolve_stmt_arms sc as'
