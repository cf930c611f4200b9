-- ===== src/Parser/Decls/Behaviour.antt =====
-- parser/parse_decl.go: aggregates, with their handlers, and use cases.
use domainscript.Prelude.{ℕ, none, some, [], text_eq, Text}
use domainscript.Token.{
  kind_eq, ident, lparen, rparen, lbrace, rbrace, colon, comma, assign, arrow, string, on, when,
  handles,
}
use domainscript.Token
use domainscript.Ast.{Expr, absent, nowhere}
use domainscript.Ast.Decls.{HandleDecl, ApplyDecl, AggregateDecl, UseCaseDecl}
use domainscript.Ast.Files.{Decl}
use domainscript.Parser.Cursor.{count, at, accept, expect, parse_ident_name}
use domainscript.Parser.Operands.{Parse}
use domainscript.Parser.Expressions.{parse_expr}
use domainscript.Parser.Sequence.{
  pure, run, ◌⟶◌∣◌, ◌>>=◌, ◌>>◌, mark, close_span, skip, at_ident_lit, skip_word, unexpected_member,
  braces, append,
}
use domainscript.Parser.Sequence.Reads.{Reads, read_rules}
use domainscript.Parser.Decls.Fields.{
  parse_body, parse_body-Reads, parse_field_block, parse_field_block-Reads, parse_param_list,
  parse_param_list-Reads, parse_storage_block, parse_storage_block-Reads, parse_access_block,
  parse_access_block-Reads,
}
use domainscript.Parser.Decls.Config.{parse_config_value, parse_config_value-Reads}

unfoldable pub parse_handle : Parse HandleDecl
unfolding mark skip run parse_ident_name parse_param_list parse_body close_span pure ◌>>=◌
parse_handle = do
  start ← mark
  skip
  name ← run parse_ident_name
  params ← parse_param_list
  body ← parse_body
  span ← close_span start
  pure (record { span = span; name = name; params = params; body = body })

unfoldable pub parse_apply : Parse ApplyDecl
unfolding mark skip run parse_ident_name parse_body close_span pure ◌>>=◌
parse_apply = do
  start ← mark
  skip
  event ← run parse_ident_name
  body ← parse_body
  span ← close_span start
  pure (record { span = span; event = event; body = body })

-- `snapshot every N events`, behind its first word.
unfoldable pub parse_snapshot : Parse Expr
unfolding skip_word parse_expr pure ◌>>=◌
parse_snapshot = do skip_word "every"; count ← parse_expr; skip_word "events"; pure count

-- The body of the loop of `parseAggregate`.
unfoldable pub aggregate_member : AggregateDecl → Parse AggregateDecl
unfolding skip run parse_ident_name parse_snapshot parse_storage_block parse_field_block
    parse_access_block parse_handle parse_apply unexpected_member pure ◌⟶◌∣◌ ◌>>=◌
aggregate_member d =
    at_ident_lit "strategy"
    ⟶ (do skip; s ← run parse_ident_name; pure (record d { strategy = s })) ∣
      at_ident_lit "snapshot"
    ⟶ (do skip; e ← parse_snapshot; pure (record d { snapshot = e })) ∣ at_ident_lit "storage"
    ⟶ (do skip; s ← parse_storage_block; pure (record d { storage = s })) ∣ at_ident_lit "state"
    ⟶ (do skip; fs ← parse_field_block; pure (record d { state = fs })) ∣ at_ident_lit "access"
    ⟶ (do skip; rs ← parse_access_block; pure (record d { access = rs })) ∣ at_ident_lit "Handle"
    ⟶ (do h ← parse_handle; pure (record d { handlers = append d.handlers h })) ∣
      at_ident_lit "Apply"
    ⟶ (do a ← parse_apply; pure (record d { appliers = append d.appliers a })) ∣
      unexpected_member "membro de Aggregate inesperado: " d

unfoldable pub parse_aggregate : Parse Decl
unfolding mark run expect parse_ident_name braces aggregate_member close_span pure ◌>>=◌
parse_aggregate = do
  start ← mark
  run (expect Token.aggregate)
  name ← run parse_ident_name
  d ← braces aggregate_member (record {
    span = nowhere;
    name = name;
    strategy = [];
    snapshot = absent;
    storage = [];
    state = [];
    access = [];
    handlers = [];
    appliers = [];
  })
  span ← close_span start
  pure (Decl.aggregate (record d { span = span }))

-- The body of the loop of `parseUseCase`.
unfoldable pub use_case_member : UseCaseDecl → Parse UseCaseDecl
unfolding skip parse_expr parse_config_value run accept parse_ident_name parse_body
    unexpected_member pure ◌⟶◌∣◌ ◌>>=◌
use_case_member d =
    at_ident_lit "timeout"
    ⟶ (do skip; e ← parse_expr; pure (record d { timeout = e })) ∣ at_ident_lit "idempotency"
    ⟶ (do skip; e ← parse_config_value; pure (record d { idempotency = e })) ∣
      at_ident_lit "tenancy"
    ⟶ (do skip; run (accept colon); t ← run parse_ident_name; pure (record d { tenancy = t })) ∣
      at_ident_lit "execute"
    ⟶ (do skip; b ← parse_body; pure (record d { execute = some b })) ∣
      unexpected_member "membro de UseCase inesperado: " d

-- The name behind `handles`, if it is there.
unfoldable pub parse_handles : Parse Text
unfolding skip run parse_ident_name pure ◌⟶◌∣◌ ◌>>=◌
parse_handles = at handles ⟶ (do skip; run parse_ident_name) ∣ pure []

unfoldable pub parse_use_case : Parse Decl
unfolding mark run expect parse_ident_name parse_handles braces use_case_member close_span pure
    ◌>>=◌
parse_use_case = do
  start ← mark
  run (expect Token.usecase)
  name ← run parse_ident_name
  handled ← parse_handles
  d ← braces use_case_member (record {
    span = nowhere;
    name = name;
    handles = handled;
    timeout = absent;
    idempotency = absent;
    tenancy = [];
    execute = none;
  })
  span ← close_span start
  pure (Decl.use_case (record d { span = span }))

module _ {n : ℕ} where
  parse_handle-Reads : Reads n parse_handle
  unfolding parse_handle
  parse_handle-Reads = search (read_rules, parse_param_list-Reads, parse_body-Reads) depth 40

  parse_apply-Reads : Reads n parse_apply
  unfolding parse_apply
  parse_apply-Reads = search (read_rules, parse_body-Reads) depth 40

  aggregate_member-Reads : (d : AggregateDecl) → Reads n (aggregate_member d)
  unfolding aggregate_member parse_snapshot
  aggregate_member-Reads d =
      search
        (
          read_rules, parse_storage_block-Reads, parse_field_block-Reads, parse_access_block-Reads,
          parse_handle-Reads, parse_apply-Reads,
        )
        depth 40

  pub parse_aggregate-Reads : Reads n parse_aggregate
  unfolding parse_aggregate
  parse_aggregate-Reads = search (read_rules, aggregate_member-Reads) depth 40

  use_case_member-Reads : (d : UseCaseDecl) → Reads n (use_case_member d)
  unfolding use_case_member
  use_case_member-Reads d = search (read_rules, parse_config_value-Reads, parse_body-Reads) depth 40

  pub parse_use_case-Reads : Reads n parse_use_case
  unfolding parse_use_case parse_handles
  parse_use_case-Reads = search (read_rules, use_case_member-Reads) depth 40
