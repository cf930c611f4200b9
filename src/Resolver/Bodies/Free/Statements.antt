-- ===== src/Resolver/Bodies/Free/Statements.antt =====
-- resolver/resolve_body.go: the reports of statements and of whole bodies.
use domainscript.Prelude.{◌≡◌, refl, sym, ap, ◌∙◌, some, List, [], ◌∷◌, ◌++◌, Text}
use domainscript.Ast.{
  Expr, Stmt, Block, Stmts, StmtArms, no_stmt, error_stmt, block_stmt, expr_stmt, assign_stmt,
  ensure_stmt, return_stmt, for_stmt, log_stmt, emit_stmt, break_stmt, continue_stmt, match_stmt,
  block, no_stmts, stmt_cons, no_stmt_arms, stmt_arm,
}
use domainscript.Ast.Decls.{Field}
use domainscript.Ast.Files.{Decl}
use domainscript.Symbols.{SymbolTable}
use domainscript.Resolver.Scope.{
  bind_local, bind_param, bind_receiver, Scope, new_scope, child, define, Construct,
  contextual_receiver_names, define_receivers, seed_receivers,
}
use domainscript.Resolver.Bodies.{
  bind, as_ident, define_bare, define_named, resolve_expr, bind_patterns, resolve_log_fields,
  resolve_stmt, resolve_block_in, resolve_stmts, resolve_stmt_arms,
}
use domainscript.Resolver.Bodies.Declarations.{seed_fields, seed_groups, resolve_body}
use domainscript.Resolver.Bodies.Free.{
  Occurrence, hide, bare_before, free, free_patterns, free_log_fields, free_stmt, free_block,
  free_stmts, free_stmt_arms,
}
use domainscript.Resolver.Bodies.Free.Reports.{
  reports_of, reports_of-define, reports_of-child, reports_of-named, joined, nothing, Reports,
  resolved, behind, in_turn, inside, define_bare-Reports, arm_reports, ended,
}
use domainscript.Resolver.Bodies.Free.Expressions.{resolve_expr-free, bind_patterns-Reports}

-- The occurrences that are left where each of the names is bound.
unfoldable pub hide_all : List Text → List Occurrence → List Occurrence
unfolding hide
hide_all [] os = os
hide_all (n ∷ ns) os = hide n (hide_all ns os)

abbrev pub field_names : List Field → List Text
field_names [] = []
field_names (f ∷ fs) = f.name ∷ field_names fs

-- The names of the parameters and the fields that a body sees.
abbrev pub group_names : List (List Field) → List Text
group_names [] = []
group_names (fs ∷ groups) = field_names fs ++ group_names groups

hide_all-append :
    (ns ms : List Text) (os : List Occurrence)
    → hide_all (ns ++ ms) os ≡ hide_all ns (hide_all ms os)
unfolding hide_all
hide_all-append [] ms os = refl
hide_all-append (n ∷ ns) ms os = ap (hide n) (hide_all-append ns ms os)

module _ (quote : Text → Text) (t : SymbolTable Decl) (m : Text) where
  log_fields-free :
      (sc : Scope) (fs : List (Text × Expr))
      → resolve_log_fields quote t m sc fs ≡ reports_of quote t m sc (free_log_fields fs)
  unfolding resolve_log_fields free_log_fields
  log_fields-free sc [] = nothing quote t m sc
  log_fields-free sc ((_, x) ∷ fs) =
      joined quote t m sc (free x) (free_log_fields fs) (resolve_expr-free quote t m sc x)
        (log_fields-free sc fs)

  mutual
    unfolding resolve_stmt free_stmt

    resolve_stmt-Reports :
        (sc : Scope) (s : Stmt) (rest : List Occurrence)
        → Reports quote t m sc (resolve_stmt quote t m sc s) rest (free_stmt s rest)
    resolve_stmt-Reports sc (block_stmt b) rest =
        resolved quote t m sc rest (free_block b)
          (resolve_block_in-free (child sc) b ∙ reports_of-child quote t m sc (free_block b))
    resolve_stmt-Reports sc (expr_stmt s x) rest =
        resolved quote t m sc rest (free x) (resolve_expr-free quote t m sc x)
    resolve_stmt-Reports sc (assign_stmt s target x) rest =
        let q = define_bare (as_ident target) (resolve_expr quote t m sc target) sc in
        behind quote t m sc q rest (free x) (bare_before (as_ident target) (free target) rest)
          (resolve_expr-free quote t m sc x)
          (define_bare-Reports quote t m sc (as_ident target) (free target) rest
            (resolve_expr-free quote t m sc target))
    resolve_stmt-Reports sc (ensure_stmt s c e) rest =
        behind quote t m sc (resolve_stmt quote t m sc e) rest (free c) (free_stmt e rest)
          (resolve_expr-free quote t m sc c) (resolve_stmt-Reports sc e rest)
    resolve_stmt-Reports sc (return_stmt s x) rest =
        resolved quote t m sc rest (free x) (resolve_expr-free quote t m sc x)
    resolve_stmt-Reports sc (for_stmt s v i b) rest =
        resolved quote t m sc rest (free i ++ hide v (free_block b)) (
          joined quote t m sc (free i) (hide v (free_block b)) (resolve_expr-free quote t m sc i) (
            inside quote t m sc v (bind bind_local v) (free_block b)
              (resolve_block_in-free (define (child sc) v (bind bind_local v)) b)))
    resolve_stmt-Reports sc (emit_stmt s x) rest =
        resolved quote t m sc rest (free x) (resolve_expr-free quote t m sc x)
    resolve_stmt-Reports sc (log_stmt s l msg fs) rest =
        resolved quote t m sc rest (free msg ++ free_log_fields fs) (
          joined quote t m sc (free msg) (free_log_fields fs) (resolve_expr-free quote t m sc msg)
            (log_fields-free sc fs))
    resolve_stmt-Reports sc (match_stmt s x as') rest =
        resolved quote t m sc rest (free x ++ free_stmt_arms as') (
          joined quote t m sc (free x) (free_stmt_arms as') (resolve_expr-free quote t m sc x)
            (resolve_stmt_arms-free sc as'))
    resolve_stmt-Reports sc no_stmt rest = refl
    resolve_stmt-Reports sc (error_stmt s) rest = refl
    resolve_stmt-Reports sc (break_stmt s a) rest = refl
    resolve_stmt-Reports sc (continue_stmt s) rest = refl

    pub resolve_block_in-free :
        (sc : Scope) (b : Block)
        → (resolve_block_in quote t m sc b).0 ≡ reports_of quote t m sc (free_block b)
    resolve_block_in-free sc (block s ss) =
        ended quote t m sc (resolve_stmts quote t m sc ss) (free_stmts ss [])
          (resolve_stmts-Reports sc ss [])

    resolve_stmts-Reports :
        (sc : Scope) (ss : Stmts) (rest : List Occurrence)
        → Reports quote t m sc (resolve_stmts quote t m sc ss) rest (free_stmts ss rest)
    resolve_stmts-Reports sc no_stmts rest = refl
    resolve_stmts-Reports sc (stmt_cons s ss) rest =
        let p = resolve_stmt quote t m sc s in
        in_turn quote t m sc p (resolve_stmts quote t m p.1 ss) rest (free_stmts ss rest)
          (free_stmt s (free_stmts ss rest)) (resolve_stmt-Reports sc s (free_stmts ss rest))
          (resolve_stmts-Reports p.1 ss rest)

    resolve_stmt_arms-free :
        (sc : Scope) (as' : StmtArms)
        → resolve_stmt_arms quote t m sc as' ≡ reports_of quote t m sc (free_stmt_arms as')
    resolve_stmt_arms-free sc no_stmt_arms = nothing quote t m sc
    resolve_stmt_arms-free sc (stmt_arm ps g b as') =
        let p = bind_patterns quote t m (child sc) ps in
        let os = free g ++ free_stmt b [] in
        joined quote t m sc (free_patterns ps os) (free_stmt_arms as')
          (arm_reports quote t m sc p os (free_patterns ps os)
            (bind_patterns-Reports quote t m (child sc) ps os)
            (joined quote t m p.1 (free g) (free_stmt b []) (resolve_expr-free quote t m p.1 g) (
              ended quote t m p.1 (resolve_stmt quote t m p.1 b) (free_stmt b [])
                (resolve_stmt-Reports p.1 b []))))
          (resolve_stmt_arms-free sc as')

  reports_of-receivers :
      (ns : List Text) (sc : Scope) (os : List Occurrence)
      → reports_of quote t m (define_receivers sc ns) os ≡ reports_of quote t m sc (hide_all ns os)
  unfolding define_receivers hide_all
  reports_of-receivers [] sc os = refl
  reports_of-receivers (n ∷ ns) sc os =
      reports_of-receivers ns (define sc n (bind bind_receiver n)) os
      ∙ reports_of-define quote t m sc n (bind bind_receiver n) (hide_all ns os)

  reports_of-fields :
      (fs : List Field) (sc : Scope) (os : List Occurrence)
      → reports_of quote t m (seed_fields sc fs) os
        ≡ reports_of quote t m sc (hide_all (field_names fs) os)
  unfolding hide_all
  reports_of-fields [] sc os = refl
  reports_of-fields (f ∷ fs) sc os =
      reports_of-fields fs (define_named bind_param f.name sc) os
      ∙ reports_of-named quote t m bind_param f.name sc (hide_all (field_names fs) os)

  reports_of-groups :
      (groups : List (List Field)) (sc : Scope) (os : List Occurrence)
      → reports_of quote t m (seed_groups sc groups) os
        ≡ reports_of quote t m sc (hide_all (group_names groups) os)
  unfolding hide_all
  reports_of-groups [] sc os = refl
  reports_of-groups (fs ∷ groups) sc os =
      reports_of-groups groups (seed_fields sc fs) os
      ∙ reports_of-fields fs sc (hide_all (group_names groups) os)
      ∙ ap (reports_of quote t m sc)
          (sym (hide_all-append (field_names fs) (group_names groups) os))

-- Resolving a body reports exactly the identifiers that occur free in it once the receivers of its
-- construct and the names of its parameters and fields are bound, each where it stands and in order,
-- unless it resolves to a builtin, a declaration or the member of an enum of the module.
pub resolve_body-free :
    (quote : Text → Text) (t : SymbolTable Decl) (m : Text) (b : Block) (c : Construct)
    (groups : List (List Field))
    → resolve_body quote t m (some b) c groups
      ≡ reports_of quote t m new_scope
          (hide_all (contextual_receiver_names c ++ group_names groups) (free_block b))
unfolding resolve_body seed_receivers
resolve_body-free quote t m b c groups =
    let names = contextual_receiver_names c in
    resolve_block_in-free quote t m (seed_groups (seed_receivers new_scope c) groups) b
    ∙ reports_of-groups quote t m groups (seed_receivers new_scope c) (free_block b)
    ∙ reports_of-receivers quote t m names new_scope (hide_all (group_names groups) (free_block b))
    ∙ ap (reports_of quote t m new_scope)
        (sym (hide_all-append names (group_names groups) (free_block b)))
