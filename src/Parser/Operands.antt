-- ===== src/Parser/Operands.antt =====
-- parser/parse_expr.go and parser/parse_query.go: the lists, the clauses and the arms of expressions,
-- and the loop of the binary operators.
use domainscript.Prelude.{
  ℕ, zero, suc, Bool, false, not, ◌&&◌, ◌||◌, Option, none, some, List, [], ◌∷◌, Text, text_eq,
  codes, ◌==◌, if◌then◌else◌, ◌>>=◌,
}
use domainscript.Token.{
  Kind, kind_eq, ident, int, float, string, duration, rate, size, versionid, true_kw, false_kw,
  lparen, rparen, lbrack, rbrack, lbrace, rbrace, comma, colon, match, when, on,
}
use domainscript.Ast.{
  Expr, Exprs, Args, Clauses, ExprArms, absent, error_expr, binary, unary, member, call, index,
  range, lambda, literal, list, match_expr, no_exprs, expr_cons, no_args, arg, no_clauses, clause,
  no_arms, arm, expr_pos,
}
use domainscript.Ast
use domainscript.Parser.Cursor.{
  Parser, count, cur, peek, at, at_end, same_line_as_prev, advance, accept, expect, ensure_progress,
  span_from, match_any, expect_fat_arrow, parse_ident_name,
}

-- A parsing function: `none` is a loop that does not end.
abbrev pub Parse : Type 0 → Type 0
Parse A = Parser → Option (A × Parser)

-- `isLiteralKind`
unfoldable pub is_literal_kind : Kind → Bool
is_literal_kind k =
    k == int
    || k == float
    || k == string
    || k == duration
    || k == rate
    || k == size
    || k == versionid
    || k == true_kw
    || k == false_kw

abbrev pub one_of : List Text → Text → Bool
one_of [] s = false
one_of (w ∷ ws) s = w == s || one_of ws s

abbrev pub is_query_op : Text → Bool
is_query_op = one_of (
    codes "load"
    ∷ codes "list"
    ∷ codes "count"
    ∷ codes "store"
    ∷ codes "call"
    ∷ codes "delete"
    ∷ [])

abbrev pub is_clause_kw : Text → Bool
is_clause_kw =
    one_of (
      codes "join"
      ∷ codes "where"
      ∷ codes "orderBy"
      ∷ codes "skip"
      ∷ codes "take"
      ∷ codes "as"
      ∷ [])

abbrev pub is_direction : Text → Bool
is_direction = one_of (codes "ascending" ∷ codes "descending" ∷ codes "asc" ∷ codes "desc" ∷ [])

-- `parseBinaryLevel`: the loop, on fuel, with the expression on the left.
unfoldable pub binary_loop : ℕ → Parse Expr → List Kind → Expr → Parse Expr
unfolding advance
binary_loop zero next ops left p = none
binary_loop (suc f) next ops left p =
    let more = next (advance p) >>= λ (right, q).
    binary_loop f next ops (binary (span_from (expr_pos left) q) (cur p).kind left right) q in
    if match_any ops p then more else some (left, p)

-- One step of the loop for each token that is left, and one to stop.
unfoldable pub parse_binary_level : Parse Expr → List Kind → Parse Expr
unfolding binary_loop
parse_binary_level next ops p =
    next p >>= λ (left, q). binary_loop (suc (count q.ahead)) next ops left q

-- The binding of an operation and the alias of `join`: on the line of what stands before.
unfoldable pub parse_alias : Parser → Text × Parser
unfolding advance
parse_alias p =
    if at ident p && (not (is_clause_kw (cur p).lit) && same_line_as_prev p)
    then ((cur p).lit, advance p)
    else ([], p)

unfoldable pub parse_direction : Parser → Text × Parser
unfolding advance
parse_direction p =
    if at ident p && is_direction (cur p).lit then ((cur p).lit, advance p) else ([], p)

-- The name of a named argument, with its colon.
unfoldable pub parse_arg_name : Parser → Text × Parser
unfolding advance
parse_arg_name p =
    if at ident p && (peek p).kind == colon then ((cur p).lit, advance (advance p)) else ([], p)

-- The functions, with the calls that they make of the grammar on fewer tokens: of `parseExpr`, of
-- `parseOr`, of `parsePostfix` and of `parseUnary`.
module _ (parse_expr parse_or parse_postfix parse_unary : Parse Expr) where
  unfoldable pub parse_lambda_body : Parse Expr
  unfolding advance expect_fat_arrow
  parse_lambda_body p =
      let start = (cur p).pos in
      let param = (cur p).lit in
      parse_expr (expect_fat_arrow (advance p)).1 >>= λ (body, q).
      some (lambda (span_from start q) param body, q)

  -- The loop of `parseArgList`.
  unfoldable pub arg_loop : ℕ → Parse Args
  unfolding accept ensure_progress parse_arg_name
  arg_loop zero p = none
  arg_loop (suc f) p =
      let name = parse_arg_name p in
      let some_more = parse_expr name.1 >>= λ (val, q).
      let comma' = accept comma q in
      let rest = arg_loop f (ensure_progress p.pos comma'.1) >>= λ (args, r).
      some (arg name.0 val args, r) in
      if comma'.0 then rest else some (arg name.0 val no_args, comma'.1) in
      if not (at rparen p) && not (at_end p) then some_more else some (no_args, p)

  unfoldable pub parse_arg_list : Parse Args
  unfolding expect arg_loop
  parse_arg_list p =
      let q = (expect lparen p).1 in
      arg_loop (suc (count q.ahead)) q >>= λ (args, r). some (args, (expect rparen r).1)

  -- The loop of `parseListLiteral`.
  unfoldable pub elem_loop : ℕ → Parse Exprs
  unfolding accept ensure_progress
  elem_loop zero p = none
  elem_loop (suc f) p =
      let some_more = parse_expr p >>= λ (e, q).
      let comma' = accept comma q in
      let rest =
        elem_loop f (ensure_progress p.pos comma'.1) >>= λ (es, r). some (expr_cons e es, r) in
      if comma'.0 then rest else some (expr_cons e no_exprs, comma'.1) in
      if not (at rbrack p) && not (at_end p) then some_more else some (no_exprs, p)

  unfoldable pub parse_list_literal : Parse Expr
  unfolding expect elem_loop
  parse_list_literal p =
      let start = (cur p).pos in
      let q = (expect lbrack p).1 in
      elem_loop (suc (count q.ahead)) q >>= λ (es, r).
      let end = (expect rbrack r).1 in some (list (span_from start end) es, end)

  -- `parseOneClause`
  unfoldable pub parse_one_clause : Text → Parser → Option ((Expr × Text) × Parser)
  unfolding parse_alias parse_direction parse_ident_name
  parse_one_clause kw p =
      if kw == codes "join"
      then (parse_postfix p >>= λ (src, q). let a = parse_alias q in some ((src, a.0), a.1))
      else if kw == codes "orderBy"
      then (parse_expr p >>= λ (e, q). let d = parse_direction q in some ((e, d.0), d.1))
      else if kw == codes "as"
      then (let n = parse_ident_name p in some ((absent, n.0), n.1))
      else if kw == codes "where" || kw == codes "skip" || kw == codes "take"
      then (parse_expr p >>= λ (e, q). some ((e, []), q))
      else some ((absent, []), p)

  -- `parseQueryClauses`
  unfoldable pub clause_loop : ℕ → Parse Clauses
  unfolding advance ensure_progress parse_one_clause
  clause_loop zero p = none
  clause_loop (suc f) p =
      let on_clause = parse_expr (advance p) >>= λ (e, q).
      clause_loop f (ensure_progress p.pos q) >>= λ (cs, r).
      some (clause (codes "on") e [] cs, r) in
      let kw_clause = parse_one_clause (cur p).lit (advance p) >>= λ (c, q).
      clause_loop f (ensure_progress p.pos q) >>= λ (cs, r).
      some (clause (cur p).lit c.0 c.1 cs, r) in
      if at on p
      then on_clause
      else if at ident p && is_clause_kw (cur p).lit
      then kw_clause
      else some (no_clauses, p)

  unfoldable pub parse_query_op : Parse Expr
  unfolding advance parse_alias clause_loop
  parse_query_op p =
      let start = (cur p).pos in
      parse_postfix (advance p) >>= λ (target, q).
      let binding = parse_alias q in
      clause_loop (suc (count binding.1.ahead)) binding.1 >>= λ (cs, r).
      some (Ast.query (span_from start r) (cur p).lit target binding.0 cs, r)

  -- The patterns behind the first one, in `parseMatchArmHead`.
  unfoldable pub pattern_loop : ℕ → Parse Exprs
  unfolding accept
  pattern_loop zero p = none
  pattern_loop (suc f) p =
      let comma' = accept comma p in
      let rest =
        parse_or comma'.1 >>= λ (e, q). pattern_loop f q >>= λ (es, r). some (expr_cons e es, r) in
      if comma'.0 then rest else some (no_exprs, comma'.1)

  unfoldable pub parse_guard : Parse Expr
  unfolding accept
  parse_guard p = let w = accept when p in if w.0 then parse_or w.1 else some (absent, w.1)

  -- `parseMatchArmHead`: the patterns and the guard.
  unfoldable pub parse_match_arm_head : Parse (Exprs × Expr)
  unfolding pattern_loop parse_guard expect_fat_arrow
  parse_match_arm_head p = parse_or p >>= λ (e, q).
      pattern_loop (suc (count q.ahead)) q >>= λ (es, r).
      parse_guard r >>= λ (guard, s). some ((expr_cons e es, guard), (expect_fat_arrow s).1)

  -- The loop of `parseMatchExpr`.
  unfoldable pub arm_loop : ℕ → Parse ExprArms
  unfolding parse_match_arm_head ensure_progress
  arm_loop zero p = none
  arm_loop (suc f) p =
      let some_more = parse_match_arm_head p >>= λ (h, q). parse_expr q >>= λ (body, r).
      arm_loop f (ensure_progress p.pos r) >>= λ (arms, s). some (arm h.0 h.1 body arms, s) in
      if not (at rbrace p) && not (at_end p) then some_more else some (no_arms, p)

  unfoldable pub parse_match_expr : Parse Expr
  unfolding expect arm_loop
  parse_match_expr p =
      let start = (cur p).pos in
      parse_expr (expect match p).1 >>= λ (subject, q).
      let open' = (expect lbrace q).1 in
      arm_loop (suc (count open'.ahead)) open' >>= λ (arms, r).
      let end = (expect rbrace r).1 in some (match_expr (span_from start end) subject arms, end)

  unfoldable pub parse_paren : Parse Expr
  unfolding advance expect
  parse_paren p = parse_expr (advance p) >>= λ (x, q). some (x, (expect rparen q).1)
