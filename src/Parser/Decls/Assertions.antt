-- ===== src/Parser/Decls/Assertions.antt =====
-- parser/parse_testfile.go: the assertions of a `then`.
use domainscript.Prelude.{ℕ, ◌||◌, List, [], ◌==◌, text_eq, Text, codes, if◌then◌else◌}
use domainscript.Token.{Pos}
use domainscript.Token.{kind_eq, ident}
use domainscript.Ast.{Expr, Exprs, absent, nowhere}
use domainscript.Ast.Files.{ThenAssert}
use domainscript.Parser.Cursor.{at}
use domainscript.Parser.Operands.{Parse}
use domainscript.Parser.Expressions.{parse_expr, parse_postfix}
use domainscript.Parser.Sequence.{
  pure, ◌⟶◌∣◌, ◌>>=◌, ◌>>◌, mark, close_span, skip, take_lit, at_ident_lit, braces, collect,
}
use domainscript.Parser.Sequence.Reads.{Reads, read_rules}
use domainscript.Parser.Decls.Fields.{parse_name, parse_name-Reads}
use domainscript.Ast.{list, no_exprs}
use domainscript.Parser.Operands.{parse_list_literal}
use domainscript.Parser.Expressions.{parse_or, parse_unary}
use domainscript.Parser.Loops.{parse_list_literal-Fits}
use domainscript.Parser.Termination.{parse_expr-Ends, parse_or-Ends, parse_postfix-Ends}
use domainscript.Token.{lbrack}

-- The elements of a list literal; `nil` for another expression.
abbrev pub elems : Expr → Exprs
elems (list span es) = es
elems _ = no_exprs

unfoldable pub parse_bracket_exprs : Parse Exprs
unfolding parse_list_literal parse_expr parse_or parse_postfix parse_unary pure ◌>>=◌
parse_bracket_exprs = do
  e ← parse_list_literal parse_expr parse_or parse_postfix parse_unary
  pure (elems e)

pub parse_bracket_exprs-Reads : {n : ℕ} → Reads n parse_bracket_exprs
unfolding parse_bracket_exprs
parse_bracket_exprs-Reads {n} = search (read_rules, literal) depth 40
  where
    literal : Reads n (parse_list_literal parse_expr parse_or parse_postfix parse_unary)
    literal = record {
      fits =
          parse_list_literal-Fits n parse_expr parse_or parse_postfix parse_unary
            (λ q _. parse_expr-Ends q) (λ q _. parse_or-Ends q) (λ q _. parse_postfix-Ends q);
    }

abbrev pub no_assert : ThenAssert
no_assert = record {
  span = nowhere;
  subject = absent;
  verb = [];
  object = absent;
  count = absent;
  list = no_exprs;
  error = [];
}

-- `emitted [count] Expr`, behind the verb.
unfoldable pub assert_emitted : ThenAssert → Parse ThenAssert
unfolding skip parse_expr pure ◌⟶◌∣◌ ◌>>=◌
assert_emitted a =
    at_ident_lit "count" ⟶ (do skip; e ← parse_expr; pure (record a { count = e })) ∣ (do
      e ← parse_expr
      pure (record a { object = e }))

-- What follows the verb behind a subject.
unfoldable pub assert_object : ThenAssert → Parse ThenAssert
unfolding assert_emitted parse_expr pure ◌>>=◌
assert_object a =
    if a.verb == codes "emitted"
    then assert_emitted a
    else if a.verb == codes "called"
    then (do e ← parse_expr; pure (record a { object = e }))
    else pure a

-- An assertion whose span is taken before its operand is read, as the composite literals of the
-- source do, whose calls are made in the order in which they are written.
unfoldable pub assert_error : Pos → Parse ThenAssert
unfolding skip close_span parse_name pure ◌>>=◌
assert_error start = do
  skip
  span ← close_span start
  name ← parse_name
  pure (record no_assert { span = span; error = name })

unfoldable pub assert_verb : Text → Pos → Parse ThenAssert
unfolding skip close_span parse_expr pure ◌>>=◌
assert_verb verb start = do
  skip
  span ← close_span start
  e ← parse_expr
  pure (record no_assert { span = span; verb = verb; object = e })

unfoldable pub assert_done : Pos → Parse ThenAssert
unfolding take_lit close_span pure ◌>>=◌
assert_done start = do
  verb ← take_lit
  span ← close_span start
  pure (record no_assert { span = span; verb = verb })

unfoldable pub assert_emitted_first : Pos → Parse ThenAssert
unfolding skip assert_emitted close_span pure ◌>>=◌
assert_emitted_first start = do
  skip
  a ← assert_emitted (record no_assert { verb = codes "emitted" })
  span ← close_span start
  pure (record a { span = span })

unfoldable pub assert_compensated : Pos → Parse ThenAssert
unfolding skip parse_bracket_exprs close_span pure ◌⟶◌∣◌ ◌>>=◌
assert_compensated start = do
  skip
  es ← at lbrack ⟶ parse_bracket_exprs ∣ pure no_exprs
  span ← close_span start
  pure (record no_assert { span = span; verb = codes "compensated"; list = es })

unfoldable pub assert_subject : Pos → Parse ThenAssert
unfolding parse_postfix take_lit assert_object close_span pure ◌⟶◌∣◌ ◌>>=◌
assert_subject start = do
  subj ← parse_postfix
  a ←
      at ident
      ⟶ (do v ← take_lit; assert_object (record no_assert { subject = subj; verb = v })) ∣
        pure (record no_assert { subject = subj })
  span ← close_span start
  pure (record a { span = span })

unfoldable pub parse_then_assert : Parse ThenAssert
unfolding mark assert_error assert_verb assert_done assert_emitted_first assert_compensated
    assert_subject ◌⟶◌∣◌ ◌>>=◌
parse_then_assert = do
  start ← mark
  at_ident_lit "error"
      ⟶ assert_error start ∣ at_ident_lit "saga"
      ⟶ assert_verb (codes "saga") start ∣
        (λ p. at_ident_lit "committed" p || at_ident_lit "rolledback" p)
      ⟶ assert_done start ∣ at_ident_lit "emitted"
      ⟶ assert_emitted_first start ∣ at_ident_lit "compensated"
      ⟶ assert_compensated start ∣ at_ident_lit "called"
      ⟶ assert_verb (codes "called") start ∣ assert_subject start

unfoldable pub parse_then_asserts : Parse (List ThenAssert)
unfolding braces collect parse_then_assert
parse_then_asserts = braces (collect parse_then_assert) []

module _ {n : ℕ} where
  assert_emitted-Reads : (a : ThenAssert) → Reads n (assert_emitted a)
  unfolding assert_emitted
  assert_emitted-Reads a = search read_rules depth 40

  assert_object-Reads : (a : ThenAssert) → Reads n (assert_object a)
  unfolding assert_object
  assert_object-Reads a = search (read_rules, assert_emitted-Reads) depth 40

  assert_subject-Reads : (start : Pos) → Reads n (assert_subject start)
  unfolding assert_subject
  assert_subject-Reads start = search (read_rules, assert_object-Reads) depth 40

  assert_verb-Reads : (verb : Text) (start : Pos) → Reads n (assert_verb verb start)
  unfolding assert_verb
  assert_verb-Reads verb start = search read_rules depth 40

  assert_error-Reads : (start : Pos) → Reads n (assert_error start)
  unfolding assert_error
  assert_error-Reads start = search (read_rules, parse_name-Reads) depth 40

  parse_then_assert-Reads : Reads n parse_then_assert
  unfolding parse_then_assert assert_done assert_emitted_first assert_compensated
  parse_then_assert-Reads =
      search
        (
          read_rules, assert_error-Reads, assert_verb-Reads, assert_emitted-Reads,
          parse_bracket_exprs-Reads, assert_subject-Reads,
        )
        depth 40

  pub parse_then_asserts-Reads : Reads n parse_then_asserts
  unfolding parse_then_asserts
  parse_then_asserts-Reads = search (read_rules, parse_then_assert-Reads) depth 40
