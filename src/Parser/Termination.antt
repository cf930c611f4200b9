-- ===== src/Parser/Termination.antt =====
-- parser/parse_expr.go: how the grammar of expressions ends.
use domainscript.Prelude.{
  ℕ, zero, suc, ◌<◌, refl, not, ◌&&◌, ◌||◌, ◌==◌, text_eq, [], ◌∷◌, codes, arith, Returns, returns,
  Returns-bind, Returns-if,
}
use domainscript.Token.{
  Token, kind_eq, ident, lbrack, rbrack, lparen, match, star, slash, plus, lt, gt, le, ge, in_kw,
  eq, neq, and, or, dot, minus, not_kw,
}
use domainscript.Ast.{Expr}
use domainscript.Parser.Cursor.{
  Parser, count, cur, at, at_dot_dot, at_lambda, advance, is_nameable_keyword,
}
use domainscript.Parser.Operands.{Parse, is_literal_kind, is_query_op}
use domainscript.Parser.Expressions.{
  parse_primary, postfix_loop, postfix_level, unary_level, multiplicative_level, additive_level,
  relational_level, equality_level, and_level, or_level, range_level, expr_level, grammar,
  parse_expr, parse_or, parse_postfix,
}
use domainscript.Parser.Moves.{
  Ends, Moved-refl, Moved-trans, advance-Moved, advance_strict, at-not_end, errorf-Moved,
  expect-Moved, expect_strict, parse_ident_name-Moved,
}
use domainscript.Parser.Loops.{
  Fits, after, then_after, parse_binary_level-Fits, parse_arg_list-Ends, parse_list_literal-Ends,
}
use domainscript.Parser.Clauses.{
  parse_query_op-Ends, parse_match_expr-Ends, parse_paren-Ends, parse_lambda_body-Ends,
}

-- A level of the grammar above functions that fit.
module _ (n : ℕ) (parse_expr parse_or parse_postfix parse_unary : Parse Expr)
    (expr : Fits n parse_expr) (or' : Fits n parse_or) (postfix : Fits n parse_postfix)
    (unary : Fits n parse_unary) where
  parse_primary-Fits : Fits (suc n) (parse_primary parse_expr parse_or parse_postfix parse_unary)
  unfolding parse_primary
  parse_primary-Fits p h =
      Returns-if ((cur p).kind == ident && is_query_op (cur p).lit)
        (λ e.
          parse_query_op-Ends n parse_expr parse_or parse_postfix parse_unary expr or' postfix p h
            (ground arith))
        λ _.
          Returns-if ((cur p).kind == ident) (λ _. returns (advance-Moved p))
            λ _.
              Returns-if ((cur p).kind == lbrack)
                (λ e.
                  parse_list_literal-Ends n parse_expr parse_or parse_postfix parse_unary expr or'
                    postfix p h e)
                λ _.
                  Returns-if (is_literal_kind (cur p).kind) (λ _. returns (advance-Moved p))
                    λ _.
                      Returns-if ((cur p).kind == lparen)
                        (λ e.
                          parse_paren-Ends n parse_expr parse_or parse_postfix parse_unary expr or'
                            postfix p h e)
                        λ _.
                          Returns-if ((cur p).kind == match)
                            (λ e.
                              parse_match_expr-Ends n parse_expr parse_or parse_postfix parse_unary
                                expr or' postfix p h e)
                            λ _.
                              Returns-if (is_nameable_keyword (cur p).kind)
                                (λ _. returns (advance-Moved p)) (λ _. returns (errorf-Moved _ _ p))

  postfix_loop-Ends :
      (f : ℕ) (x : Expr) (p : Parser)
      → count p.ahead < suc n
      → count p.ahead < f
      → Returns (Ends p) (postfix_loop parse_expr parse_or parse_postfix parse_unary f x p)
  unfolding postfix_loop
  postfix_loop-Ends zero x p h k = absurd (omega arith)
  postfix_loop-Ends (suc f) x p h k =
      Returns-if (at dot p && not (at_dot_dot p))
        (λ e.
          let less = advance_strict p (at-not_end dot p refl (ground arith)) in
          let m = parse_ident_name-Moved (advance p) in
          after (Moved-trans (advance-Moved p) m)
            (postfix_loop-Ends f _ _ (omega (arith, less, m.left)) (omega (arith, less, m.left))))
        λ _.
          Returns-if (at lparen p)
            (λ e.
              let less = expect_strict lparen p refl e in
              after (expect-Moved lparen p) (
                Returns-bind
                  (parse_arg_list-Ends n parse_expr parse_or parse_postfix parse_unary expr or'
                    postfix p h e)
                  λ y m. after m (
                    postfix_loop-Ends f _ y.1 (omega (arith, less, m.left))
                      (omega (arith, less, m.left)))))
            λ _.
              Returns-if (at lbrack p)
                (λ e.
                  let less = advance_strict p (at-not_end lbrack p refl e) in
                  after (advance-Moved p) (
                    then_after expr (omega (arith, less)) λ y m.
                      let r = expect-Moved rbrack y.1 in
                      after r (
                        postfix_loop-Ends f _ _ (omega (arith, less, m.left, r.left))
                          (omega (arith, less, m.left, r.left)))))
                λ _.
                  Returns-if (at ident p && (cur p).lit == codes "exists")
                    (λ e.
                      let less = advance_strict p (at-not_end ident p refl (ground arith)) in
                      after (advance-Moved p)
                        (postfix_loop-Ends f _ _ (omega (arith, less)) (omega (arith, less))))
                    (λ _. returns (Moved-refl p))

  postfix_level-Fits : Fits (suc n) (postfix_level parse_expr parse_or parse_postfix parse_unary)
  unfolding postfix_level
  postfix_level-Fits p h =
      then_after parse_primary-Fits h λ x m.
        postfix_loop-Ends (suc (count x.1.ahead)) x.0 x.1 (omega (arith, m.left)) (omega arith)

  unary_level-Fits : Fits (suc n) (unary_level parse_expr parse_or parse_postfix parse_unary)
  unfolding unary_level
  unary_level-Fits p h =
      Returns-if (at minus p || at not_kw p)
        (λ e.
          let less = advance_strict p (ground arith) in
          after (advance-Moved p)
            (then_after unary (omega (arith, less)) λ x m. returns (Moved-refl x.1)))
        (λ _. postfix_level-Fits p h)

  multiplicative_level-Fits :
      Fits (suc n) (multiplicative_level parse_expr parse_or parse_postfix parse_unary)
  unfolding multiplicative_level
  multiplicative_level-Fits =
      parse_binary_level-Fits (suc n) (unary_level parse_expr parse_or parse_postfix parse_unary)
        unary_level-Fits (star ∷ slash ∷ []) (refl, (refl, tt))

  additive_level-Fits : Fits (suc n) (additive_level parse_expr parse_or parse_postfix parse_unary)
  unfolding additive_level
  additive_level-Fits =
      parse_binary_level-Fits (suc n)
        (multiplicative_level parse_expr parse_or parse_postfix parse_unary)
        multiplicative_level-Fits (plus ∷ minus ∷ []) (refl, (refl, tt))

  relational_level-Fits :
      Fits (suc n) (relational_level parse_expr parse_or parse_postfix parse_unary)
  unfolding relational_level
  relational_level-Fits =
      parse_binary_level-Fits (suc n) (additive_level parse_expr parse_or parse_postfix parse_unary)
        additive_level-Fits (lt ∷ gt ∷ le ∷ ge ∷ in_kw ∷ [])
        (refl, (refl, (refl, (refl, (refl, tt)))))

  equality_level-Fits : Fits (suc n) (equality_level parse_expr parse_or parse_postfix parse_unary)
  unfolding equality_level
  equality_level-Fits =
      parse_binary_level-Fits (suc n)
        (relational_level parse_expr parse_or parse_postfix parse_unary) relational_level-Fits
        (eq ∷ neq ∷ []) (refl, (refl, tt))

  and_level-Fits : Fits (suc n) (and_level parse_expr parse_or parse_postfix parse_unary)
  unfolding and_level
  and_level-Fits =
      parse_binary_level-Fits (suc n) (equality_level parse_expr parse_or parse_postfix parse_unary)
        equality_level-Fits (and ∷ []) (refl, tt)

  or_level-Fits : Fits (suc n) (or_level parse_expr parse_or parse_postfix parse_unary)
  unfolding or_level
  or_level-Fits =
      parse_binary_level-Fits (suc n) (and_level parse_expr parse_or parse_postfix parse_unary)
        and_level-Fits (or ∷ []) (refl, tt)

  range_level-Fits : Fits (suc n) (range_level parse_expr parse_or parse_postfix parse_unary)
  unfolding range_level
  range_level-Fits p h = then_after or_level-Fits h λ x m.
      Returns-if (at_dot_dot x.1)
        (λ e.
          let a = Moved-trans (advance-Moved x.1) (advance-Moved (advance x.1)) in
          after a (
            then_after or_level-Fits (omega (arith, m.left, a.left))
              λ y w. returns (Moved-refl y.1)))
        (λ _. returns (Moved-refl x.1))

  expr_level-Fits : Fits (suc n) (expr_level parse_expr parse_or parse_postfix parse_unary)
  unfolding expr_level
  expr_level-Fits p h =
      Returns-if (at_lambda p)
        (λ e.
          parse_lambda_body-Ends n parse_expr parse_or parse_postfix parse_unary expr or' postfix p
            h (ground arith))
        (λ _. range_level-Fits p h)

-- The grammar of a depth fits the sequences of fewer tokens.
record GrammarFits (n : ℕ) : Type 0 where
  expr : Fits n (grammar n).parse_expr
  or' : Fits n (grammar n).parse_or
  postfix : Fits n (grammar n).parse_postfix
  unary : Fits n (grammar n).parse_unary

grammar-GrammarFits : (n : ℕ) → GrammarFits n
unfolding grammar
grammar-GrammarFits zero = record {
  expr = λ p h. absurd (omega arith);
  or' = λ p h. absurd (omega arith);
  postfix = λ p h. absurd (omega arith);
  unary = λ p h. absurd (omega arith);
}
grammar-GrammarFits (suc n) =
    let g = grammar n in
    let f = grammar-GrammarFits n in
    record {
      expr =
          expr_level-Fits n g.parse_expr g.parse_or g.parse_postfix g.parse_unary f.expr f.or'
            f.postfix f.unary;
      or' =
          or_level-Fits n g.parse_expr g.parse_or g.parse_postfix g.parse_unary f.expr f.or'
            f.postfix f.unary;
      postfix =
          postfix_level-Fits n g.parse_expr g.parse_or g.parse_postfix g.parse_unary f.expr f.or'
            f.postfix f.unary;
      unary =
          unary_level-Fits n g.parse_expr g.parse_or g.parse_postfix g.parse_unary f.expr f.or'
            f.postfix f.unary;
    }

-- `parseExpr` returns on every sequence of tokens: none of its loops is endless and its nesting is
-- no deeper than the tokens are many. The cursor only goes forward, and not behind the EOF; and from
-- `p` on, the diagnostics that are added are at most one for every two tokens, among those consumed
-- and those, two at most, that the window of silence counts at `p`.
pub parse_expr-Ends : (p : Parser) → Returns (Ends p) (parse_expr p)
unfolding parse_expr
parse_expr-Ends p = (grammar-GrammarFits (suc (count p.ahead))).expr p (omega arith)

pub parse_or-Ends : (p : Parser) → Returns (Ends p) (parse_or p)
unfolding parse_or
parse_or-Ends p = (grammar-GrammarFits (suc (count p.ahead))).or' p (omega arith)

pub parse_postfix-Ends : (p : Parser) → Returns (Ends p) (parse_postfix p)
unfolding parse_postfix
parse_postfix-Ends p = (grammar-GrammarFits (suc (count p.ahead))).postfix p (omega arith)
