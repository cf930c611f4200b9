-- ===== src/Parser/Decls/Reactions.antt =====
-- parser/parse_decl.go: policies, workers and sagas.
use domainscript.Prelude.{ℕ, ◌&&◌, none, some, [], ◌==◌, text_eq, Text, codes, if◌then◌else◌}
use domainscript.Token.{
  kind_eq, ident, lparen, rparen, lbrace, rbrace, colon, comma, assign, arrow, string, on, when,
  handles,
}
use domainscript.Token
use domainscript.Ast.{absent, nowhere}
use domainscript.Ast.Decls.{ConfigEntry, PolicyDecl, WorkerDecl, SagaStep, SagaDecl}
use domainscript.Ast.Files.{Decl}
use domainscript.Parser.Cursor.{peek, at, accept, expect, parse_ident_name}
use domainscript.Parser.Operands.{Parse}
use domainscript.Parser.Expressions.{parse_expr}
use domainscript.Parser.Sequence.{
  pure, run, ◌⟶◌∣◌, ◌>>=◌, ◌>>◌, mark, close_span, skip, take_lit, at_ident_lit, unexpected_member,
  braces, append,
}
use domainscript.Parser.Sequence.Reads.{Reads, read_rules}
use domainscript.Parser.Decls.Fields.{
  parse_name, parse_name-Reads, parse_body, parse_body-Reads, parse_field_block,
  parse_field_block-Reads,
}
use domainscript.Parser.Decls.Config.{parse_config_entry, parse_config_entry-Reads}

-- The name behind `on`, if it is there.
unfoldable pub parse_on : Parse Text
unfolding skip run parse_ident_name pure ◌⟶◌∣◌ ◌>>=◌
parse_on = at on ⟶ (do skip; run parse_ident_name) ∣ pure []

-- The body of the loop of `parsePolicy`.
unfoldable pub policy_member : PolicyDecl → Parse PolicyDecl
unfolding skip run parse_ident_name parse_body unexpected_member pure ◌⟶◌∣◌ ◌>>=◌
policy_member d =
    at_ident_lit "delivery"
    ⟶ (do skip; s ← run parse_ident_name; pure (record d { delivery = s })) ∣ at_ident_lit "execute"
    ⟶ (do skip; b ← parse_body; pure (record d { execute = some b })) ∣
      unexpected_member "membro de Policy inesperado: " d

unfoldable pub parse_policy : Parse Decl
unfolding mark run expect parse_ident_name parse_on braces policy_member close_span pure ◌>>=◌
parse_policy = do
  start ← mark
  run (expect Token.policy)
  name ← run parse_ident_name
  on' ← parse_on
  d ←
      braces policy_member
        (record { span = nowhere; name = name; on = on'; delivery = []; execute = none })
  span ← close_span start
  pure (Decl.policy (record d { span = span }))

-- The schedule, and its argument, which `continuous` has not.
unfoldable pub worker_schedule : WorkerDecl → Parse WorkerDecl
unfolding skip run parse_ident_name parse_expr pure ◌>>=◌
worker_schedule d = do
  skip
  s ← run parse_ident_name
  arg ← if s == codes "continuous" then pure d.schedule_arg else parse_expr
  pure (record d { schedule = s; schedule_arg = arg })

-- `execute(param) { ... }`
unfoldable pub worker_execute : WorkerDecl → Parse WorkerDecl
unfolding skip run parse_ident_name expect parse_body pure ◌⟶◌∣◌ ◌>>=◌
worker_execute d = do
  skip
  param ←
      at lparen
      ⟶ (do skip; s ← run parse_ident_name; run (expect rparen); pure s) ∣ pure d.execute_param
  b ← parse_body
  pure (record d { execute_param = param; execute = some b })

abbrev add_setting : WorkerDecl → ConfigEntry → WorkerDecl
add_setting d e = record d { settings = append d.settings e }

-- The body of the loop of `parseWorker`.
unfoldable pub worker_member : WorkerDecl → Parse WorkerDecl
unfolding worker_schedule worker_execute skip run accept parse_ident_name parse_expr
    parse_config_entry parse_body take_lit unexpected_member pure ◌⟶◌∣◌ ◌>>=◌
worker_member d =
    at_ident_lit "schedule"
    ⟶ worker_schedule d ∣ at_ident_lit "scope"
    ⟶ (do skip; run (accept colon); s ← run parse_ident_name; pure (record d { scope = s })) ∣
      at_ident_lit "timeout"
    ⟶ (do
      skip
      e ← parse_expr
      pure (add_setting d (record { key = codes "timeout"; value = e }))) ∣
      at_ident_lit "onError"
    ⟶ (do e ← parse_config_entry; pure (add_setting d e)) ∣ at_ident_lit "source"
    ⟶ (do skip; b ← parse_body; pure (record d { source = some b })) ∣ at_ident_lit "execute"
    ⟶ worker_execute d ∣ (λ p. at ident p && (peek p).kind == colon)
    ⟶ (do
      key ← take_lit
      skip
      e ← parse_expr
      pure (add_setting d (record { key = key; value = e }))) ∣
      unexpected_member "membro de Worker inesperado: " d

unfoldable pub parse_worker : Parse Decl
unfolding mark run expect parse_ident_name braces worker_member close_span pure ◌>>=◌
parse_worker = do
  start ← mark
  run (expect Token.worker)
  name ← run parse_ident_name
  d ← braces worker_member (record {
    span = nowhere;
    name = name;
    schedule = [];
    schedule_arg = absent;
    scope = [];
    settings = [];
    source = none;
    execute_param = [];
    execute = none;
  })
  span ← close_span start
  pure (Decl.worker (record d { span = span }))

-- The body of the loop of `parseSagaStep`.
unfoldable pub step_member : SagaStep → Parse SagaStep
unfolding skip parse_body unexpected_member pure ◌⟶◌∣◌ ◌>>=◌
step_member d =
    at_ident_lit "up"
    ⟶ (do skip; b ← parse_body; pure (record d { up = some b })) ∣ at_ident_lit "down"
    ⟶ (do skip; b ← parse_body; pure (record d { down = some b })) ∣ at_ident_lit "onInfraError"
    ⟶ (do skip; b ← parse_body; pure (record d { on_infra_error = some b })) ∣
      unexpected_member "membro de step inesperado: " d

unfoldable pub parse_saga_step : Parse SagaStep
unfolding mark skip parse_name braces step_member close_span pure ◌>>=◌
parse_saga_step = do
  start ← mark
  skip
  name ← parse_name
  d ←
      braces step_member
        (record { span = nowhere; name = name; up = none; down = none; on_infra_error = none })
  span ← close_span start
  pure (record d { span = span })

-- The mode of a saga, with the timeout that may follow it.
unfoldable pub saga_mode : SagaDecl → Parse SagaDecl
unfolding skip run parse_ident_name parse_expr pure ◌⟶◌∣◌ ◌>>=◌
saga_mode d = do
  skip
  mode ← run parse_ident_name
  timeout ← at_ident_lit "timeout" ⟶ (do skip; parse_expr) ∣ pure d.timeout
  pure (record d { mode = mode; timeout = timeout })

-- The body of the loop of `parseSaga`.
unfoldable pub saga_member : SagaDecl → Parse SagaDecl
unfolding saga_mode skip parse_field_block parse_saga_step unexpected_member pure ◌⟶◌∣◌ ◌>>=◌
saga_member d =
    at_ident_lit "mode"
    ⟶ saga_mode d ∣ at_ident_lit "state"
    ⟶ (do skip; fs ← parse_field_block; pure (record d { state = fs })) ∣ at_ident_lit "step"
    ⟶ (do s ← parse_saga_step; pure (record d { steps = append d.steps s })) ∣
      unexpected_member "membro de Saga inesperado: " d

-- The command that a saga handles, if `handles` is there.
unfoldable pub saga_handles : Parse Text
unfolding skip parse_name pure ◌⟶◌∣◌ ◌>>=◌
saga_handles = at handles ⟶ (do skip; parse_name) ∣ pure []

unfoldable pub parse_saga : Parse Decl
unfolding mark run expect parse_ident_name saga_handles braces saga_member close_span pure ◌>>=◌
parse_saga = do
  start ← mark
  run (expect Token.saga)
  name ← run parse_ident_name
  handled ← saga_handles
  d ← braces saga_member (record {
    span = nowhere;
    name = name;
    handles = handled;
    mode = [];
    timeout = absent;
    state = [];
    steps = [];
  })
  span ← close_span start
  pure (Decl.saga (record d { span = span }))

module _ {n : ℕ} where
  policy_member-Reads : (d : PolicyDecl) → Reads n (policy_member d)
  unfolding policy_member
  policy_member-Reads d = search (read_rules, parse_body-Reads) depth 40

  pub parse_policy-Reads : Reads n parse_policy
  unfolding parse_policy parse_on
  parse_policy-Reads = search (read_rules, policy_member-Reads) depth 40

  worker_schedule-Reads : (d : WorkerDecl) → Reads n (worker_schedule d)
  unfolding worker_schedule
  worker_schedule-Reads d = search read_rules depth 40

  worker_execute-Reads : (d : WorkerDecl) → Reads n (worker_execute d)
  unfolding worker_execute
  worker_execute-Reads d = search (read_rules, parse_body-Reads) depth 40

  worker_member-Reads : (d : WorkerDecl) → Reads n (worker_member d)
  unfolding worker_member
  worker_member-Reads d =
      search
        (
          read_rules, worker_schedule-Reads, worker_execute-Reads, parse_config_entry-Reads,
          parse_body-Reads,
        )
        depth 40

  pub parse_worker-Reads : Reads n parse_worker
  unfolding parse_worker
  parse_worker-Reads = search (read_rules, worker_member-Reads) depth 40

  step_member-Reads : (d : SagaStep) → Reads n (step_member d)
  unfolding step_member
  step_member-Reads d = search (read_rules, parse_body-Reads) depth 40

  parse_saga_step-Reads : Reads n parse_saga_step
  unfolding parse_saga_step
  parse_saga_step-Reads = search (read_rules, parse_name-Reads, step_member-Reads) depth 40

  saga_member-Reads : (d : SagaDecl) → Reads n (saga_member d)
  unfolding saga_member saga_mode
  saga_member-Reads d = search (read_rules, parse_field_block-Reads, parse_saga_step-Reads) depth 40

  pub parse_saga-Reads : Reads n parse_saga
  unfolding parse_saga saga_handles
  parse_saga-Reads = search (read_rules, parse_name-Reads, saga_member-Reads) depth 40
