-- ===== src/Parser/Expressions.antt =====
-- parser/parse_expr.go: the grammar of expressions, by precedence.
use domainscript.Prelude.{
  ℕ, zero, suc, not, ◌&&◌, ◌||◌, none, some, [], ◌∷◌, text_eq, codes, ◌==◌, if◌then◌else◌, ◌>>=◌,
}
use domainscript.Token.{
  kind_eq, kind_string, ident, lparen, lbrack, rbrack, dot, minus, plus, star, slash, not_kw, or,
  and, eq, neq, lt, gt, le, ge, in_kw, match,
}
use domainscript.Ast.{
  Expr, Exprs, Args, Clauses, ExprArms, absent, error_expr, binary, unary, member, call, index,
  range, lambda, literal, list, match_expr, no_exprs, expr_cons, no_args, arg, no_clauses, clause,
  no_arms, arm, expr_pos,
}
use domainscript.Ast
use domainscript.Parser.Cursor.{
  count, cur, at, at_dot_dot, at_lambda, advance, errorf, expected, expect, span_from,
  is_nameable_keyword, parse_ident_name,
}
use domainscript.Parser.Operands.{
  Parse, is_literal_kind, is_query_op, parse_binary_level, parse_lambda_body, parse_arg_list,
  parse_list_literal, parse_query_op, parse_match_expr, parse_paren,
}

-- The levels, with the calls that they make of the grammar on fewer tokens.
module _ (parse_expr parse_or parse_postfix parse_unary : Parse Expr) where
  -- `parsePrimary`
  unfoldable pub parse_primary : Parse Expr
  unfolding advance errorf parse_query_op parse_list_literal parse_paren parse_match_expr
      is_literal_kind
  parse_primary p =
      let t = cur p in
      let q = advance p in
      let failed = errorf t.pos (expected (codes "uma expressão") t.kind) p in
      if t.kind == ident && is_query_op t.lit
      then parse_query_op parse_expr parse_or parse_postfix parse_unary p
      else if t.kind == ident
      then some (Ast.ident (span_from t.pos q) t.lit, q)
      else if t.kind == lbrack
      then parse_list_literal parse_expr parse_or parse_postfix parse_unary p
      else if is_literal_kind t.kind
      then some (literal (span_from t.pos q) t.kind t.lit, q)
      else if t.kind == lparen
      then parse_paren parse_expr parse_or parse_postfix parse_unary p
      else if t.kind == match
      then parse_match_expr parse_expr parse_or parse_postfix parse_unary p
      else if is_nameable_keyword t.kind
      then some (Ast.ident (span_from t.pos q) (kind_string t.kind), q)
      else some (error_expr (span_from t.pos failed), failed)

  -- The loop of `parsePostfix`.
  unfoldable pub postfix_loop : ℕ → Expr → Parse Expr
  unfolding advance parse_ident_name parse_arg_list expect
  postfix_loop zero x p = none
  postfix_loop (suc f) x p =
      let start = expr_pos x in
      let dotted = advance p in
      let name = parse_ident_name dotted in
      let member_access =
        postfix_loop f (member (span_from start name.1) x name.0 (cur dotted).pos) name.1 in
      let called = parse_arg_list parse_expr parse_or parse_postfix parse_unary p >>= λ (args, q).
      postfix_loop f (call (span_from start q) x args) q in
      let indexed = parse_expr (advance p) >>= λ (i, q).
      let r = (expect rbrack q).1 in postfix_loop f (index (span_from start r) x i) r in
      let exists =
        postfix_loop f (Ast.query (span_from start (advance p)) (codes "exists") x [] no_clauses)
          (advance p) in
      if at dot p && not (at_dot_dot p)
      then member_access
      else if at lparen p
      then called
      else if at lbrack p
      then indexed
      else if at ident p && (cur p).lit == codes "exists"
      then exists
      else some (x, p)

  -- `parsePostfix`
  unfoldable pub postfix_level : Parse Expr
  unfolding parse_primary postfix_loop
  postfix_level p = parse_primary p >>= λ (x, q). postfix_loop (suc (count q.ahead)) x q

  -- `parseUnary`
  unfoldable pub unary_level : Parse Expr
  unfolding advance postfix_level
  unary_level p =
      let start = (cur p).pos in
      let op = (cur p).kind in
      let negated =
        parse_unary (advance p) >>= λ (x, q). some (unary (span_from start q) op x, q) in
      if at minus p || at not_kw p then negated else postfix_level p

  -- From `parseMultiplicative` to `parseOr`.
  unfoldable pub multiplicative_level : Parse Expr
  unfolding parse_binary_level unary_level
  multiplicative_level = parse_binary_level unary_level (star ∷ slash ∷ [])

  unfoldable pub additive_level : Parse Expr
  unfolding parse_binary_level multiplicative_level
  additive_level = parse_binary_level multiplicative_level (plus ∷ minus ∷ [])

  unfoldable pub relational_level : Parse Expr
  unfolding parse_binary_level additive_level
  relational_level = parse_binary_level additive_level (lt ∷ gt ∷ le ∷ ge ∷ in_kw ∷ [])

  unfoldable pub equality_level : Parse Expr
  unfolding parse_binary_level relational_level
  equality_level = parse_binary_level relational_level (eq ∷ neq ∷ [])

  unfoldable pub and_level : Parse Expr
  unfolding parse_binary_level equality_level
  and_level = parse_binary_level equality_level (and ∷ [])

  unfoldable pub or_level : Parse Expr
  unfolding parse_binary_level and_level
  or_level = parse_binary_level and_level (or ∷ [])

  -- `parseRange`
  unfoldable pub range_level : Parse Expr
  unfolding advance or_level
  range_level p = or_level p >>= λ (low, q).
      let high_end = or_level (advance (advance q)) >>= λ (high, r).
      some (range (span_from (expr_pos low) r) low high, r) in
      if at_dot_dot q then high_end else some (low, q)

  -- `parseExpr`
  unfoldable pub expr_level : Parse Expr
  unfolding parse_lambda_body range_level
  expr_level p =
      if at_lambda p
      then parse_lambda_body parse_expr parse_or parse_postfix parse_unary p
      else range_level p

-- The recursive functions of the grammar, on a depth of nesting.
pub record Grammar : Type 0 where
  pub parse_expr : Parse Expr
  pub parse_or : Parse Expr
  pub parse_postfix : Parse Expr
  pub parse_unary : Parse Expr

unfoldable pub grammar : ℕ → Grammar
unfolding expr_level or_level postfix_level unary_level
grammar zero = record {
  parse_expr = λ p. none;
  parse_or = λ p. none;
  parse_postfix = λ p. none;
  parse_unary = λ p. none;
}
grammar (suc n) =
    let g = grammar n in
    record {
      parse_expr = expr_level g.parse_expr g.parse_or g.parse_postfix g.parse_unary;
      parse_or = or_level g.parse_expr g.parse_or g.parse_postfix g.parse_unary;
      parse_postfix = postfix_level g.parse_expr g.parse_or g.parse_postfix g.parse_unary;
      parse_unary = unary_level g.parse_expr g.parse_or g.parse_postfix g.parse_unary;
    }

-- `parseExpr`, with a level for each token that is left, and one more.
unfoldable pub parse_expr : Parse Expr
unfolding grammar
parse_expr p = (grammar (suc (count p.ahead))).parse_expr p

-- `parseOr`, `parsePostfix` and `parseUnary`, as `parseExpr`.
unfoldable pub parse_or : Parse Expr
unfolding grammar
parse_or p = (grammar (suc (count p.ahead))).parse_or p

unfoldable pub parse_postfix : Parse Expr
unfolding grammar
parse_postfix p = (grammar (suc (count p.ahead))).parse_postfix p

unfoldable pub parse_unary : Parse Expr
unfolding grammar
parse_unary p = (grammar (suc (count p.ahead))).parse_unary p
