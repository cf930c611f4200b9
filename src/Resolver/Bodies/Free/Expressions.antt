-- ===== src/Resolver/Bodies/Free/Expressions.antt =====
-- resolver/resolve_body.go: the reports of expressions and of patterns.
use domainscript.Prelude.{
  ◌≡◌, refl, ◌∙◌, List, ◌++◌, Text, codes, text_eq, ◌==◌, Bool-cases, inl, inr,
}
use domainscript.Ast.{
  Expr, Exprs, Args, Clauses, ExprArms, absent, error_expr, ident, literal, binary, unary, member,
  call, index, range, lambda, list, query, match_expr, object, no_exprs, expr_cons, no_args, arg,
  no_clauses, clause, no_arms, arm,
}
use domainscript.Ast.Files.{Decl}
use domainscript.Symbols.{SymbolTable}
use domainscript.Resolver.Scope.{bind_param, bind_local, Scope, child, define}
use domainscript.Resolver.Bodies.{
  bind, as_ident, define_bare, define_named, define_joins, resolve_expr, resolve_exprs,
  resolve_args, resolve_clauses, resolve_arms, bind_patterns, bind_pattern, bind_args,
}
use domainscript.Resolver.Bodies.Free.{
  Occurrence, hide, hide_joins, bare_before, free, free_exprs, free_args, free_clauses, free_arms,
  free_patterns, free_pattern, free_bare,
}
use domainscript.Resolver.Bodies.Free.Reports.{
  reports_of, reports_of-define, reports_of-child, reports_of-named, reports_of-joins, joined,
  nothing, alone, Reports, resolved, behind, in_turn, inside, define_bare-Reports, arm_reports,
}

module _ (quote : Text → Text) (t : SymbolTable Decl) (m : Text) where
  mutual
    unfolding resolve_expr free

    pub resolve_expr-free :
        (sc : Scope) (e : Expr) → resolve_expr quote t m sc e ≡ reports_of quote t m sc (free e)
    resolve_expr-free sc (ident s n) = alone quote t m sc s.start n
    resolve_expr-free sc (binary s op l r) =
        joined quote t m sc (free l) (free r) (resolve_expr-free sc l) (resolve_expr-free sc r)
    resolve_expr-free sc (unary s op x) = resolve_expr-free sc x
    resolve_expr-free sc (member s x n p) = resolve_expr-free sc x
    resolve_expr-free sc (call s f xs) =
        joined quote t m sc (free f) (free_args xs) (resolve_expr-free sc f)
          (resolve_args-free sc xs)
    resolve_expr-free sc (index s x i) =
        joined quote t m sc (free x) (free i) (resolve_expr-free sc x) (resolve_expr-free sc i)
    resolve_expr-free sc (range s l h) =
        joined quote t m sc (free l) (free h) (resolve_expr-free sc l) (resolve_expr-free sc h)
    resolve_expr-free sc (lambda s p b) =
        inside quote t m sc p (bind bind_param p) (free b)
          (resolve_expr-free (define (child sc) p (bind bind_param p)) b)
    resolve_expr-free sc (list s xs) = resolve_exprs-free sc xs
    resolve_expr-free sc (query s op x b cs) =
        let c = define_named bind_local b (child sc) in
        joined quote t m sc (free x) (hide b (hide_joins cs (free_clauses cs)))
          (resolve_expr-free sc x)
          (resolve_clauses-free (define_joins c cs) cs
            ∙ reports_of-joins quote t m c cs (free_clauses cs)
            ∙ reports_of-named quote t m bind_local b (child sc) (hide_joins cs (free_clauses cs))
            ∙ reports_of-child quote t m sc (hide b (hide_joins cs (free_clauses cs))))
    resolve_expr-free sc (match_expr s x as') =
        joined quote t m sc (free x) (free_arms as') (resolve_expr-free sc x)
          (resolve_arms-free sc as')
    resolve_expr-free sc absent = nothing quote t m sc
    resolve_expr-free sc (error_expr s) = nothing quote t m sc
    resolve_expr-free sc (literal s k v) = nothing quote t m sc
    resolve_expr-free sc (object s es) = nothing quote t m sc

    resolve_exprs-free :
        (sc : Scope) (xs : Exprs)
        → resolve_exprs quote t m sc xs ≡ reports_of quote t m sc (free_exprs xs)
    resolve_exprs-free sc no_exprs = nothing quote t m sc
    resolve_exprs-free sc (expr_cons x xs) =
        joined quote t m sc (free x) (free_exprs xs) (resolve_expr-free sc x)
          (resolve_exprs-free sc xs)

    resolve_args-free :
        (sc : Scope) (xs : Args)
        → resolve_args quote t m sc xs ≡ reports_of quote t m sc (free_args xs)
    resolve_args-free sc no_args = nothing quote t m sc
    resolve_args-free sc (arg n x xs) =
        joined quote t m sc (free x) (free_args xs) (resolve_expr-free sc x)
          (resolve_args-free sc xs)

    resolve_clauses-free :
        (sc : Scope) (cs : Clauses)
        → resolve_clauses quote t m sc cs ≡ reports_of quote t m sc (free_clauses cs)
    resolve_clauses-free sc no_clauses = nothing quote t m sc
    resolve_clauses-free sc (clause kw x extra cs) =
        joined quote t m sc (free x) (free_clauses cs) (resolve_expr-free sc x)
          (resolve_clauses-free sc cs)

    resolve_arms-free :
        (sc : Scope) (as' : ExprArms)
        → resolve_arms quote t m sc as' ≡ reports_of quote t m sc (free_arms as')
    resolve_arms-free sc no_arms = nothing quote t m sc
    resolve_arms-free sc (arm ps g b as') =
        let inner = (bind_patterns quote t m (child sc) ps).1 in
        joined quote t m sc (free_patterns ps (free g ++ free b)) (free_arms as')
          (arm_reports quote t m sc (bind_patterns quote t m (child sc) ps) (free g ++ free b)
            (free_patterns ps (free g ++ free b))
            (bind_patterns-Reports (child sc) ps (free g ++ free b))
            (joined quote t m inner (free g) (free b) (resolve_expr-free inner g)
              (resolve_expr-free inner b)))
          (resolve_arms-free sc as')

    pub bind_patterns-Reports :
        (sc : Scope) (ps : Exprs) (rest : List Occurrence)
        → Reports quote t m sc (bind_patterns quote t m sc ps) rest (free_patterns ps rest)
    bind_patterns-Reports sc no_exprs rest = refl
    bind_patterns-Reports sc (expr_cons p ps) rest =
        in_turn quote t m sc (bind_pattern quote t m sc p)
          (bind_patterns quote t m (bind_pattern quote t m sc p).1 ps) rest (free_patterns ps rest)
          (free_pattern p (free_patterns ps rest))
          (bind_pattern-Reports sc p (free_patterns ps rest))
          (bind_patterns-Reports (bind_pattern quote t m sc p).1 ps rest)

    bind_pattern-Reports :
        (sc : Scope) (p : Expr) (rest : List Occurrence)
        → Reports quote t m sc (bind_pattern quote t m sc p) rest (free_pattern p rest)
    bind_pattern-Reports sc (ident s n) rest = elim (Bool-cases (n == codes "_")) [
      | inl e ↦ rw e refl
      | inr e ↦ rw e (reports_of-define quote t m sc n (bind bind_local n) rest)
    ]
    bind_pattern-Reports sc (member s x n p) rest =
        resolved quote t m sc rest (free x) (resolve_expr-free sc x)
    bind_pattern-Reports sc (call s f xs) rest =
        behind quote t m sc (bind_args quote t m sc xs) rest (free f) (free_bare xs rest)
          (resolve_expr-free sc f) (bind_args-Reports sc xs rest)
    bind_pattern-Reports sc _ rest = refl

    bind_args-Reports :
        (sc : Scope) (xs : Args) (rest : List Occurrence)
        → Reports quote t m sc (bind_args quote t m sc xs) rest (free_bare xs rest)
    bind_args-Reports sc no_args rest = refl
    bind_args-Reports sc (arg n x xs) rest =
        let q = define_bare (as_ident x) (resolve_expr quote t m sc x) sc in
        in_turn quote t m sc q (bind_args quote t m q.1 xs) rest (free_bare xs rest)
          (bare_before (as_ident x) (free x) (free_bare xs rest))
          (define_bare-Reports quote t m sc (as_ident x) (free x) (free_bare xs rest)
            (resolve_expr-free sc x))
          (bind_args-Reports q.1 xs rest)
