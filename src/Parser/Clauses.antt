-- ===== src/Parser/Clauses.antt =====
-- parser/parse_expr.go and parser/parse_query.go: how the clauses, the arms of `match` and the
-- functions that open a nested expression end.
use domainscript.Prelude.{
  ℕ, zero, suc, ◌<◌, ◌≡◌, refl, true, not, ◌&&◌, ◌||◌, ◌==◌, nat_eq, text_eq, Text, codes, if_cases,
  arith, Returns, returns, Returns-bind, Returns-if,
}
use domainscript.Token.{kind_eq, ident, comma, rparen, rbrace, lparen, lbrace, match, when, on}
use domainscript.Ast.{Expr}
use domainscript.Parser.Cursor.{
  Parser, count, cur, at, at_end, advance, accept, expect, same_line_as_prev,
}
use domainscript.Parser.Operands.{
  Parse, parse_alias, parse_direction, parse_one_clause, clause_loop, parse_query_op, pattern_loop,
  parse_guard, parse_match_arm_head, arm_loop, parse_match_expr, parse_lambda_body, is_clause_kw,
  is_direction, parse_paren,
}
use domainscript.Parser.Moves.{
  Moved, Ends, Moved-refl, Moved-trans, advance-Moved, advance_strict, at-not_end, accept-Moved,
  accept_strict, expect-Moved, expect_strict, ensure_progress-Moved, ensure_progress_strict,
  expect_fat_arrow-Moved, parse_ident_name-Moved,
}
use domainscript.Parser.Loops.{Fits, after, then_after}

parse_alias-Moved : (p : Parser) → Moved p (parse_alias p).1
unfolding parse_alias
parse_alias-Moved p =
    if_cases (Ends p) (at ident p && (not (is_clause_kw (cur p).lit) && same_line_as_prev p))
      (λ h. advance-Moved p) (λ h. Moved-refl p)

parse_direction-Moved : (p : Parser) → Moved p (parse_direction p).1
unfolding parse_direction
parse_direction-Moved p =
    if_cases (Ends p) (at ident p && is_direction (cur p).lit) (λ h. advance-Moved p)
      (λ h. Moved-refl p)

module _ (n : ℕ) (parse_expr parse_or parse_postfix parse_unary : Parse Expr)
    (expr : Fits n parse_expr) (or' : Fits n parse_or) (postfix : Fits n parse_postfix) where
  parse_one_clause-Fits :
      (kw : Text) → Fits n (parse_one_clause parse_expr parse_or parse_postfix parse_unary kw)
  unfolding parse_one_clause
  parse_one_clause-Fits kw p h =
      Returns-if (kw == codes "join")
        (λ _. then_after postfix h λ x m. returns (parse_alias-Moved x.1))
        λ _.
          Returns-if (kw == codes "orderBy")
            (λ _. then_after expr h λ x m. returns (parse_direction-Moved x.1))
            λ _.
              Returns-if (kw == codes "as") (λ _. returns (parse_ident_name-Moved p))
                λ _.
                  Returns-if (kw == codes "where" || kw == codes "skip" || kw == codes "take")
                    (λ _. then_after expr h λ x m. returns (Moved-refl x.1))
                    (λ _. returns (Moved-refl p))

  clause_loop-Ends :
      (f : ℕ) (p : Parser)
      → count p.ahead < suc n
      → count p.ahead < f
      → Returns (Ends p) (clause_loop parse_expr parse_or parse_postfix parse_unary f p)
  unfolding clause_loop
  clause_loop-Ends zero p h k = absurd (omega arith)
  clause_loop-Ends (suc f) p h k =
      let rest =
        λ (q : Parser) (m : Moved (advance p) q) (less : count (advance p).ahead < count p.ahead).
          let r = ensure_progress-Moved p.pos q in
          after r (
            clause_loop-Ends f _ (omega (arith, m.left, less, r.left))
              (omega (arith, m.left, less, r.left))) in
      Returns-if (at on p)
        (λ e.
          let less = advance_strict p (at-not_end on p refl e) in
          after (advance-Moved p) (
            then_after expr (omega (arith, less))
              λ x m. Returns-bind (rest x.1 m less) λ y w. returns w))
        (λ _.
          Returns-if (at ident p && is_clause_kw (cur p).lit)
            (λ e.
              let less = advance_strict p (at-not_end ident p refl (ground arith)) in
              after (advance-Moved p) (
                then_after (parse_one_clause-Fits (cur p).lit) (omega (arith, less))
                  λ x m. Returns-bind (rest x.1 m less) λ y w. returns w))
            (λ _. returns (Moved-refl p)))

  pub parse_query_op-Ends :
      (p : Parser)
      → count p.ahead < suc n
      → at ident p ≡ true
      → Returns (Ends p) (parse_query_op parse_expr parse_or parse_postfix parse_unary p)
  unfolding parse_query_op
  parse_query_op-Ends p h e =
      let less = advance_strict p (at-not_end ident p refl e) in
      after (advance-Moved p) (
        then_after postfix (omega (arith, less)) λ x m.
          let a = parse_alias-Moved x.1 in
          after a (
            Returns-bind
              (clause_loop-Ends (suc (count (parse_alias x.1).1.ahead)) _
                (omega (arith, less, m.left, a.left)) (omega arith))
              λ y w. returns w))

  pattern_loop-Ends :
      (f : ℕ) (p : Parser)
      → count p.ahead < suc n
      → count p.ahead < f
      → Returns (Ends p) (pattern_loop parse_expr parse_or parse_postfix parse_unary f p)
  unfolding pattern_loop
  pattern_loop-Ends zero p h k = absurd (omega arith)
  pattern_loop-Ends (suc f) p h k =
      Returns-if (accept comma p).0
        (λ c.
          let less = accept_strict comma p refl c in
          after (accept-Moved comma p) (
            then_after or' (omega (arith, less)) λ x m.
              Returns-bind
                (pattern_loop-Ends f x.1 (omega (arith, less, m.left))
                  (omega (arith, less, m.left)))
                λ y w. returns w))
        (λ c. returns (accept-Moved comma p))

  parse_guard-Ends :
      (p : Parser)
      → count p.ahead < n
      → Returns (Ends p) (parse_guard parse_expr parse_or parse_postfix parse_unary p)
  unfolding parse_guard
  parse_guard-Ends p h =
      let w = accept-Moved when p in
      Returns-if (accept when p).0 (λ c. after w (or' _ (omega (arith, w.left)))) (λ c. returns w)

  pub parse_match_arm_head-Fits :
      Fits n (parse_match_arm_head parse_expr parse_or parse_postfix parse_unary)
  unfolding parse_match_arm_head
  parse_match_arm_head-Fits p h = then_after or' h λ x m.
      Returns-bind
        (pattern_loop-Ends (suc (count x.1.ahead)) x.1 (omega (arith, m.left)) (omega arith))
        λ y w. after w (
          Returns-bind (parse_guard-Ends y.1 (omega (arith, m.left, w.left)))
            λ z v. returns (Moved-trans v (expect_fat_arrow-Moved z.1)))

  arm_loop-Ends :
      (f : ℕ) (p : Parser)
      → count p.ahead < n
      → count p.ahead < f
      → Returns (Ends p) (arm_loop parse_expr parse_or parse_postfix parse_unary f p)
  unfolding arm_loop
  arm_loop-Ends zero p h k = absurd (omega arith)
  arm_loop-Ends (suc f) p h k =
      Returns-if (not (at rbrace p) && not (at_end p))
        (λ e. then_after parse_match_arm_head-Fits h λ x m.
          Returns-bind (expr x.1 (omega (arith, m.left))) λ y w.
            let r = ensure_progress-Moved p.pos y.1 in
            let less = ensure_progress_strict p y.1 (Moved-trans m w) (ground arith) in
            after (Moved-trans w r) (
              Returns-bind (arm_loop-Ends f _ (omega (arith, less)) (omega (arith, less)))
                λ z v. returns v))
        (λ e. returns (Moved-refl p))

  pub parse_match_expr-Ends :
      (p : Parser)
      → count p.ahead < suc n
      → at match p ≡ true
      → Returns (Ends p) (parse_match_expr parse_expr parse_or parse_postfix parse_unary p)
  unfolding parse_match_expr
  parse_match_expr-Ends p h e =
      let less = expect_strict match p refl e in
      after (expect-Moved match p) (
        then_after expr (omega (arith, less)) λ x m.
          let o = expect-Moved lbrace x.1 in
          after o (
            Returns-bind
              (arm_loop-Ends (suc (count (expect lbrace x.1).1.ahead)) _
                (omega (arith, less, m.left, o.left)) (omega arith))
              λ y w. returns (Moved-trans w (expect-Moved rbrace y.1))))

  pub parse_paren-Ends :
      (p : Parser)
      → count p.ahead < suc n
      → at lparen p ≡ true
      → Returns (Ends p) (parse_paren parse_expr parse_or parse_postfix parse_unary p)
  unfolding parse_paren
  parse_paren-Ends p h e =
      let less = advance_strict p (at-not_end lparen p refl e) in
      after (advance-Moved p)
        (then_after expr (omega (arith, less)) λ x m. returns (expect-Moved rparen x.1))

  pub parse_lambda_body-Ends :
      (p : Parser)
      → count p.ahead < suc n
      → at ident p ≡ true
      → Returns (Ends p) (parse_lambda_body parse_expr parse_or parse_postfix parse_unary p)
  unfolding parse_lambda_body
  parse_lambda_body-Ends p h e =
      let less = advance_strict p (at-not_end ident p refl e) in
      let a = expect_fat_arrow-Moved (advance p) in
      after (Moved-trans (advance-Moved p) a)
        (then_after expr (omega (arith, less, a.left)) λ x m. returns (Moved-refl x.1))
