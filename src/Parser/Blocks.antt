-- ===== src/Parser/Blocks.antt =====
-- parser/parse_stmt.go: how the grammar of statements ends.
use domainscript.Prelude.{
  ℕ, zero, suc, ◌<◌, ◌≡◌, refl, true, not, ◌&&◌, ◌||◌, text_eq, arith, Returns, returns,
  Returns-bind, Returns-if,
}
use domainscript.Token.{
  kind_eq, lbrace, rbrace, ensure, match, for, in_kw, log, emit, return, break, continue,
}
use domainscript.Ast.{Stmt}
use domainscript.Parser.Cursor.{Parser, count, at, at_end, expect, parse_ident_name}
use domainscript.Parser.Operands.{Parse}
use domainscript.Parser.Expressions.{parse_expr, parse_or, parse_postfix, parse_unary}
use domainscript.Parser.Statements.{
  stmt_loop, block_from, parse_block, parse_for, stmt_arm_loop, parse_match_stmt, stmt_level,
  stmt_grammar, parse_stmt,
}
use domainscript.Parser.Moves.{
  Ends, Moved-refl, Moved-trans, expect-Moved, expect_strict, ensure_progress-Moved,
  ensure_progress_strict, parse_ident_name-Moved,
}
use domainscript.Parser.Loops.{Fits, after, then_after}
use domainscript.Parser.Clauses.{parse_match_arm_head-Fits}
use domainscript.Parser.Termination.{parse_expr-Ends, parse_or-Ends, parse_postfix-Ends}
use domainscript.Parser.Actions.{
  then_expr, parse_loop_control-Moved, parse_ensure-Ends, parse_return-Ends, parse_log-Ends,
  parse_emit-Ends, parse_simple_stmt-Ends,
}

-- A level of the grammar above a parser of statements that fits.
module _ (n : ℕ) (nested : Parse Stmt) (nested-Fits : Fits n nested) where
  stmt_loop-Ends :
      (f : ℕ) (p : Parser)
      → count p.ahead < n
      → count p.ahead < f
      → Returns (Ends p) (stmt_loop nested f p)
  unfolding stmt_loop
  stmt_loop-Ends zero p h k = absurd (omega arith)
  stmt_loop-Ends (suc f) p h k =
      Returns-if (not (at rbrace p) && not (at_end p))
        (λ e. then_after nested-Fits h λ x m.
          let less = ensure_progress_strict p x.1 m (ground arith) in
          after (ensure_progress-Moved p.pos x.1) (
            Returns-bind (stmt_loop-Ends f _ (omega (arith, h, less)) (omega (arith, less)))
              λ y w. returns w))
        (λ e. returns (Moved-refl p))

  block_from-Fits : (p : Parser) → Fits n (block_from nested p)
  unfolding block_from
  block_from-Fits p q h =
      Returns-bind (stmt_loop-Ends (suc (count q.ahead)) q h (omega arith))
        λ x m. returns (Moved-trans m (expect-Moved rbrace x.1))

  pub parse_block-Fits : Fits n (parse_block nested)
  unfolding parse_block
  parse_block-Fits p h =
      let m = expect-Moved lbrace p in after m (block_from-Fits p _ (omega (arith, m.left)))

  -- A block whose brace is there.
  parse_block-Ends :
      (p : Parser)
      → count p.ahead < suc n
      → at lbrace p ≡ true
      → Returns (Ends p) (parse_block nested p)
  unfolding parse_block
  parse_block-Ends p h e =
      let less = expect_strict lbrace p refl e in
      after (expect-Moved lbrace p) (block_from-Fits p _ (omega (arith, less)))

  parse_for-Ends :
      (p : Parser) → count p.ahead < suc n → at for p ≡ true → Returns (Ends p) (parse_for nested p)
  unfolding parse_for
  parse_for-Ends p h e =
      let less = expect_strict for p refl e in
      let v = parse_ident_name-Moved (expect for p).1 in
      let i = expect-Moved in_kw (parse_ident_name (expect for p).1).1 in
      after (Moved-trans (expect-Moved for p) (Moved-trans v i)) (
        then_expr _ λ x m.
          Returns-bind (parse_block-Fits x.1 (omega (arith, less, v.left, i.left, m.left)))
            λ y w. returns w)

  stmt_arm_loop-Ends :
      (f : ℕ) (p : Parser)
      → count p.ahead < n
      → count p.ahead < f
      → Returns (Ends p) (stmt_arm_loop nested f p)
  unfolding stmt_arm_loop
  stmt_arm_loop-Ends zero p h k = absurd (omega arith)
  stmt_arm_loop-Ends (suc f) p h k =
      Returns-if (not (at rbrace p) && not (at_end p))
        (λ e.
          then_after
            (parse_match_arm_head-Fits n parse_expr parse_or parse_postfix parse_unary
              (λ q _. parse_expr-Ends q) (λ q _. parse_or-Ends q) (λ q _. parse_postfix-Ends q))
            h
            λ x m. Returns-bind (nested-Fits x.1 (omega (arith, h, m.left))) λ y w.
              let r = ensure_progress-Moved p.pos y.1 in
              let less = ensure_progress_strict p y.1 (Moved-trans m w) (ground arith) in
              after (Moved-trans w r) (
                Returns-bind (stmt_arm_loop-Ends f _ (omega (arith, h, less)) (omega (arith, less)))
                  λ z v. returns v))
        (λ e. returns (Moved-refl p))

  parse_match_stmt-Ends :
      (p : Parser)
      → count p.ahead < suc n
      → at match p ≡ true
      → Returns (Ends p) (parse_match_stmt nested p)
  unfolding parse_match_stmt
  parse_match_stmt-Ends p h e =
      let less = expect_strict match p refl e in
      after (expect-Moved match p) (
        then_expr _ λ x m.
          let o = expect-Moved lbrace x.1 in
          after o (
            Returns-bind
              (stmt_arm_loop-Ends (suc (count (expect lbrace x.1).1.ahead)) _
                (omega (arith, less, m.left, o.left)) (omega arith))
              λ y w. returns (Moved-trans w (expect-Moved rbrace y.1))))

  stmt_level-Fits : Fits (suc n) (stmt_level nested)
  unfolding stmt_level
  stmt_level-Fits p h = Returns-if (at match p) (parse_match_stmt-Ends p h) λ _.
      Returns-if (at ensure p) (λ _. parse_ensure-Ends p)
        λ _.
          Returns-if (at return p) (λ _. parse_return-Ends p)
            λ _. Returns-if (at for p) (parse_for-Ends p h) λ _.
              Returns-if (at log p) (λ _. parse_log-Ends p)
                λ _.
                  Returns-if (at emit p) (λ _. parse_emit-Ends p)
                    λ _.
                      Returns-if (at break p || at continue p)
                        (λ _. returns (parse_loop_control-Moved p))
                        λ _.
                          Returns-if (at lbrace p)
                            (λ e. Returns-bind (parse_block-Ends p h e) λ x m. returns m)
                            (λ _. parse_simple_stmt-Ends p)

stmt_grammar-Fits : (n : ℕ) → Fits n (stmt_grammar n)
unfolding stmt_grammar
stmt_grammar-Fits zero p h = absurd (omega arith)
stmt_grammar-Fits (suc n) p h = stmt_level-Fits n (stmt_grammar n) (stmt_grammar-Fits n) p h

-- `parseStmt` returns on every sequence of tokens, blocks, matches and loops in it included: the
-- nesting of statements is no deeper than the tokens are many, and no loop is endless. The cursor
-- only goes forward, and not behind the EOF; and from `p` on, the diagnostics that are added are
-- at most one for every two tokens, among those consumed and those, two at most, that the window of
-- silence counts at `p`.
pub parse_stmt-Ends : (p : Parser) → Returns (Ends p) (parse_stmt p)
unfolding parse_stmt
parse_stmt-Ends p = stmt_grammar-Fits (suc (count p.ahead)) p (omega arith)
