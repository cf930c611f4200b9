-- ===== src/Parser/Actions.antt =====
-- parser/parse_stmt.go: how the functions of the statements that hold no statement end.
use domainscript.Prelude.{
  ℕ, zero, suc, ◌<◌, Bool, not, ◌&&◌, ◌||◌, ◌==◌, text_eq, codes, Option, ◌>>=◌, if_cases, arith,
  Returns, returns, Returns-bind, Returns-if,
}
use domainscript.Token.{
  kind_eq, ident, string, lbrace, rbrace, assign, ensure, else_kw, log, emit, return, break,
  continue,
}
use domainscript.Ast.{Expr}
use domainscript.Parser.Cursor.{Parser, count, cur, at, at_end, at_fat_arrow, expect}
use domainscript.Parser.Expressions.{parse_expr}
use domainscript.Parser.Statements.{
  parse_all, parse_loop_control, parse_ensure_action, parse_else, parse_ensure, parse_if,
  parse_return, field_loop, parse_log_fields, parse_level, parse_log, parse_emit, parse_simple_stmt,
}
use domainscript.Parser.Moves.{
  Moved, Ends, Moved-refl, Moved-trans, advance-Moved, expect-Moved, ensure_progress-Moved,
  ensure_progress_strict, parse_ident_name-Moved,
}
use domainscript.Parser.Loops.{after}
use domainscript.Parser.Termination.{parse_expr-Ends}

-- An expression, and what comes after it.
pub then_expr {κ} :
    {B : Type κ} {k : Expr × Parser → Option (B × Parser)} (p : Parser)
    → ((x : Expr × Parser) → Moved p x.1 → Returns (Ends x.1) (k x))
    → Returns (Ends p) (parse_expr p >>= k)
then_expr p g = Returns-bind (parse_expr-Ends p) (λ x m. after m (g x m))

parse_all-Moved : (p : Parser) → Moved p (parse_all p).1
unfolding parse_all
parse_all-Moved p =
    if_cases (Ends p) (at ident p && (cur p).lit == codes "all") (λ h. advance-Moved p)
      (λ h. Moved-refl p)

pub parse_loop_control-Moved : (p : Parser) → Moved p (parse_loop_control p).1
unfolding parse_loop_control
parse_loop_control-Moved p =
    if_cases (Ends p) (at continue p) (λ h. advance-Moved p)
      (λ h. Moved-trans (expect-Moved break p) (parse_all-Moved _))

parse_ensure_action-Ends : (p : Parser) → Returns (Ends p) (parse_ensure_action p)
unfolding parse_ensure_action
parse_ensure_action-Ends p =
    Returns-if (at break p || at continue p) (λ _. returns (parse_loop_control-Moved p))
      (λ _. then_expr p λ x m. returns (Moved-refl x.1))

parse_else-Ends : (p : Parser) → Returns (Ends p) (parse_else p)
unfolding parse_else
parse_else-Ends p =
    Returns-if (expect else_kw p).0
      (λ _. after (expect-Moved else_kw p) (parse_ensure_action-Ends _))
      (λ _. returns (expect-Moved else_kw p))

pub parse_ensure-Ends : (p : Parser) → Returns (Ends p) (parse_ensure p)
unfolding parse_ensure
parse_ensure-Ends p =
    after (expect-Moved ensure p)
      (then_expr _ λ x m. Returns-bind (parse_else-Ends x.1) λ y w. returns w)

parse_if-Ends : (b : Bool) (p : Parser) → Returns (Ends p) (parse_if b p)
unfolding parse_if
parse_if-Ends b p = Returns-if b (λ _. parse_expr-Ends p) (λ _. returns (Moved-refl p))

pub parse_return-Ends : (p : Parser) → Returns (Ends p) (parse_return p)
unfolding parse_return
parse_return-Ends p = after (expect-Moved return p) (
    Returns-bind
      (parse_if-Ends (not (at rbrace (expect return p).1) && not (at_end (expect return p).1))
        (expect return p).1)
      λ x m. returns m)

field_loop-Ends : (f : ℕ) (p : Parser) → count p.ahead < f → Returns (Ends p) (field_loop f p)
unfolding field_loop
field_loop-Ends zero p k = absurd (omega arith)
field_loop-Ends (suc f) p k =
    Returns-if (not (at rbrace p) && not (at_end p))
      (λ e.
        let a = Moved-trans (parse_ident_name-Moved p) (expect-Moved assign _) in
        after a (
          then_expr _ λ x m.
            let less = ensure_progress_strict p x.1 (Moved-trans a m) (ground arith) in
            after (ensure_progress-Moved p.pos x.1)
              (Returns-bind (field_loop-Ends f _ (omega (arith, less))) λ y w. returns w)))
      (λ e. returns (Moved-refl p))

parse_log_fields-Ends : (p : Parser) → Returns (Ends p) (parse_log_fields p)
unfolding parse_log_fields
parse_log_fields-Ends p = after (expect-Moved lbrace p) (
    Returns-bind (field_loop-Ends (suc (count (expect lbrace p).1.ahead)) _ (omega arith))
      λ x m. returns (Moved-trans m (expect-Moved rbrace x.1)))

parse_level-Moved : (p : Parser) → Moved p (parse_level p).1
unfolding parse_level
parse_level-Moved p = if_cases (Ends p) (at ident p) (λ h. advance-Moved p) (λ h. Moved-refl p)

pub parse_log-Ends : (p : Parser) → Returns (Ends p) (parse_log p)
unfolding parse_log
parse_log-Ends p = after (Moved-trans (expect-Moved log p) (parse_level-Moved _)) (
    Returns-bind (parse_if-Ends (at string (parse_level (expect log p).1).1) _) λ x m.
      Returns-if (at lbrace x.1)
        (λ _. after m (Returns-bind (parse_log_fields-Ends x.1) λ y w. returns w)) (λ _. returns m))

pub parse_emit-Ends : (p : Parser) → Returns (Ends p) (parse_emit p)
unfolding parse_emit
parse_emit-Ends p = after (expect-Moved emit p) (then_expr _ λ x m. returns (Moved-refl x.1))

pub parse_simple_stmt-Ends : (p : Parser) → Returns (Ends p) (parse_simple_stmt p)
unfolding parse_simple_stmt
parse_simple_stmt-Ends p = then_expr p λ x m.
    Returns-if (at assign x.1 && not (at_fat_arrow x.1))
      (λ _. after (advance-Moved x.1) (then_expr _ λ y w. returns (Moved-refl y.1)))
      (λ _. returns (Moved-refl x.1))
