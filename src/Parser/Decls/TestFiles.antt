-- ===== src/Parser/Decls/TestFiles.antt =====
-- parser/parse_testfile.go: tests, their scenarios and properties, and fixtures.
pub mod Endings
use domainscript.Prelude.{
  ℕ, zero, suc, ◌<◌, ◌≡◌, refl, Bool, true, false, ◌&&◌, ◌||◌, Option, none, some, List, [], ◌∷◌,
  ◌++◌, ◌==◌, text_eq, Text, codes, if◌then◌else◌, arith,
}
use domainscript.Token.{
  kind_eq, ident, lparen, rparen, lbrace, rbrace, colon, comma, assign, arrow, string, on, when,
  handles,
}
use domainscript.Token
use domainscript.Ast.{Expr, Exprs, Stmt, Stmts, absent, nowhere, no_stmts, stmt_cons, block}
use domainscript.Ast.Files.{
  ConfigBlock, ModuleDecl, Route, GrpcRpc, GrpcService, InterfaceDecl, ServiceDef, ChannelDef,
  TopologyDecl, VersionUpcast, VersionDowncast, VersionRoute, VersionDecl, MockClause, FailStep,
  GivenEntity, GivenClause, WhenClause, ThenAssert, ThenClause, ScenarioDecl, PropertyDecl,
  TestDecl, FixtureDecl,
}
use domainscript.Ast.Decls.{
  Field, HandleDecl, ApplyDecl, AggregateDecl, UseCaseDecl, ConfigEntry, MapEntry, ViewDecl,
  ProjectionDecl, QueryDecl, PolicyDecl, WorkerDecl, AdapterDecl, ForeignFunc, ForeignDecl,
  SagaStep, SagaDecl, MetricDecl, UpcastDecl, TypeRef,
}
use domainscript.Ast.Files.{Decl}
use domainscript.Parser.Cursor.{Parser, count, cur, peek, at, accept, expect, parse_ident_name}
use domainscript.Parser.Operands.{Parse}
use domainscript.Parser.Expressions.{parse_expr, parse_postfix}
use domainscript.Parser.Statements.{parse_stmt}
use domainscript.Parser.Sequence.{
  pure, run, gets, ◌⟶◌∣◌, ◌>>=◌, ◌>>◌, mark, close_span, skip, take_lit, take_kind, complain,
  at_ident_lit, skip_word, unexpected_member, braces, append, comma_list, collect,
}
use domainscript.Parser.Sequence.Reads.{Reads, Reads-gets, read_rules}
use domainscript.Parser.Decls.Fields.{
  Reads-past, parse_name, parse_name-Reads, parse_type_ref, parse_type_ref-Reads, parse_body,
  parse_body-Reads, parse_field, parse_field-Reads, parse_field_block, parse_field_block-Reads,
  parse_param_list, parse_param_list-Reads, parse_version, parse_version-Reads, parse_config_block,
  parse_config_block-Reads, parse_map_block, parse_map_block-Reads, parse_storage_block,
  parse_storage_block-Reads, parse_access_block, parse_access_block-Reads,
}
use domainscript.Parser.Decls.Config.{
  parse_config_value, parse_config_value-Reads, parse_config_entry, parse_config_entry-Reads,
  parse_config_entries, parse_config_entries-Reads, parse_config_object, parse_config_object-Reads,
  parse_string_lit, parse_string_lit-Reads, at_config_key,
}
use domainscript.Token.{Pos, lbrack, rbrack}
use domainscript.Ast.{no_exprs}
use domainscript.Parser.Decls.Assertions.{
  parse_bracket_exprs, parse_bracket_exprs-Reads, parse_then_asserts, parse_then_asserts-Reads,
}

-- The object of a state, where its brace is there.
unfoldable pub parse_state : Parse Expr
unfolding parse_config_object pure ◌⟶◌∣◌
parse_state = at lbrace ⟶ parse_config_object ∣ pure absent

unfoldable pub parse_given_entity : Parse GivenEntity
unfolding parse_expr parse_state pure ◌>>=◌
parse_given_entity = do
  e ← parse_expr
  state ← parse_state
  pure (record { entity = e; state = state })

unfoldable pub parse_entity_list : Parse (List GivenEntity)
unfolding run expect comma_list parse_given_entity pure ◌>>=◌
parse_entity_list = do
  run (expect lbrack)
  es ← comma_list rbrack parse_given_entity
  run (expect rbrack)
  pure es

abbrev pub no_given : GivenClause
no_given = record { span = nowhere; subject = absent; binding = []; entities = []; state = absent }

-- The clause with its entities, behind what it starts with.
unfoldable pub given_list : GivenClause → Pos → Parse GivenClause
unfolding parse_entity_list close_span pure ◌>>=◌
given_list g start = do
  es ← parse_entity_list
  span ← close_span start
  pure (record g { span = span; entities = es })

unfoldable pub given_subject : Pos → Parse GivenClause
unfolding parse_postfix skip given_list close_span pure ◌⟶◌∣◌ ◌>>=◌
given_subject start = do
  subj ← parse_postfix
  at_ident_lit "from" ⟶ (do skip; given_list (record no_given { subject = subj }) start) ∣ (do
    span ← close_span start
    pure
        (record no_given { span = span; entities = record { entity = subj; state = absent } ∷ [] }))

unfoldable pub given_state : Pos → Parse GivenClause
unfolding skip parse_config_object close_span pure ◌>>=◌
given_state start = do
  skip
  e ← parse_config_object
  span ← close_span start
  pure (record no_given { span = span; state = e })

unfoldable pub parse_given_body : Pos → Parse GivenClause
unfolding given_list given_state take_lit given_subject ◌⟶◌∣◌ ◌>>=◌
parse_given_body start =
    at lbrack
    ⟶ given_list no_given start ∣ at_ident_lit "state"
    ⟶ given_state start ∣ (λ p. at ident p && (peek p).kind == lbrack)
    ⟶ (do b ← take_lit; given_list (record no_given { binding = b }) start) ∣ given_subject start

unfoldable pub parse_mock : Parse MockClause
unfolding mark skip parse_postfix parse_expr close_span pure ◌⟶◌∣◌ ◌>>=◌
parse_mock = do
  start ← mark
  skip
  target ← parse_postfix
  returns ← at_ident_lit "returns" ⟶ (do skip; parse_expr) ∣ pure absent
  span ← close_span start
  pure (record { span = span; target = target; returns = returns })

unfoldable pub parse_fail_step : Parse FailStep
unfolding mark skip skip_word parse_name close_span pure ◌⟶◌∣◌ ◌>>=◌
parse_fail_step = do
  start ← mark
  skip
  skip_word "step"
  step ← parse_name
  with ← at_ident_lit "with" ⟶ (do skip; parse_name) ∣ pure []
  span ← close_span start
  pure (record { span = span; step = step; with = with })

unfoldable pub parse_when : Parse WhenClause
unfolding mark run expect skip parse_expr close_span pure ◌⟶◌∣◌ ◌>>=◌
parse_when = do
  start ← mark
  run (expect when)
  is_event ← at_ident_lit "event" ⟶ (do skip; pure true) ∣ pure false
  action ← parse_expr
  span ← close_span start
  pure (record { span = span; is_event = is_event; action = action })

abbrev pub no_then : ThenClause
no_then = record { span = nowhere; error = []; events = no_exprs; asserts = []; state = absent }

-- The forms of a `then`, behind its keyword.
unfoldable pub then_form : Parse ThenClause
unfolding skip parse_name parse_config_object parse_bracket_exprs parse_then_asserts complain pure
    ◌⟶◌∣◌ ◌>>=◌
then_form =
    at_ident_lit "error"
    ⟶ (do skip; name ← parse_name; pure (record no_then { error = name })) ∣ at_ident_lit "state"
    ⟶ (do skip; e ← parse_config_object; pure (record no_then { state = e })) ∣ at lbrack
    ⟶ (do es ← parse_bracket_exprs; pure (record no_then { events = es })) ∣ at lbrace
    ⟶ (do as' ← parse_then_asserts; pure (record no_then { asserts = as' })) ∣ (do
      complain "esperava '[', 'error', 'state' ou '{' após then, encontrei "
      pure no_then)

unfoldable pub parse_then : Parse ThenClause
unfolding mark skip then_form close_span pure ◌>>=◌
parse_then = do
  start ← mark
  skip
  t ← then_form
  span ← close_span start
  pure (record t { span = span })

-- The body of the loop of `parseScenario`.
unfoldable pub scenario_member : ScenarioDecl → Parse ScenarioDecl
unfolding parse_mock parse_fail_step skip mark parse_given_body parse_when parse_then
    unexpected_member pure ◌⟶◌∣◌ ◌>>=◌
scenario_member d =
    at_ident_lit "mock"
    ⟶ (do m ← parse_mock; pure (record d { mocks = append d.mocks m })) ∣ at_ident_lit "fail"
    ⟶ (do f ← parse_fail_step; pure (record d { fails = append d.fails f })) ∣ at_ident_lit "given"
    ⟶ (do
      skip
      start ← mark
      g ← parse_given_body start
      pure (record d { givens = append d.givens g })) ∣
      at when
    ⟶ (do w ← parse_when; pure (record d { when = some w })) ∣ at_ident_lit "then"
    ⟶ (do t ← parse_then; pure (record d { then = some t })) ∣
      unexpected_member "membro de scenario inesperado: " d

unfoldable pub parse_scenario : Parse ScenarioDecl
unfolding mark skip parse_string_lit braces scenario_member close_span pure ◌>>=◌
parse_scenario = do
  start ← mark
  skip
  name ← parse_string_lit
  d ← braces scenario_member (record {
    span = nowhere;
    name = name;
    mocks = [];
    fails = [];
    givens = [];
    when = none;
    then = none;
  })
  span ← close_span start
  pure (record d { span = span })

-- `forall sequence of [...]`, behind its first word.
unfoldable pub parse_forall : Parse Expr
unfolding skip_word parse_expr ◌>>=◌
parse_forall = do skip_word "sequence"; skip_word "of"; parse_expr

-- The body of the loop of `parseProperty`.
unfoldable pub property_member : PropertyDecl → Parse PropertyDecl
unfolding skip parse_forall parse_expr unexpected_member pure ◌⟶◌∣◌ ◌>>=◌
property_member d =
    at_ident_lit "forall"
    ⟶ (do skip; e ← parse_forall; pure (record d { forall = e })) ∣ at_ident_lit "invariant"
    ⟶ (do skip; e ← parse_expr; pure (record d { invariant = e })) ∣
      unexpected_member "membro de property inesperado: " d

unfoldable pub parse_property : Parse PropertyDecl
unfolding mark skip parse_string_lit braces property_member close_span pure ◌>>=◌
parse_property = do
  start ← mark
  skip
  name ← parse_string_lit
  d ←
      braces property_member
        (record { span = nowhere; name = name; forall = absent; invariant = absent })
  span ← close_span start
  pure (record d { span = span })

-- The body of the loop of `parseTest`.
unfoldable pub test_member : TestDecl → Parse TestDecl
unfolding parse_scenario parse_property unexpected_member pure ◌⟶◌∣◌ ◌>>=◌
test_member d =
    at_ident_lit "scenario"
    ⟶ (do s ← parse_scenario; pure (record d { scenarios = append d.scenarios s })) ∣
      at_ident_lit "property"
    ⟶ (do s ← parse_property; pure (record d { properties = append d.properties s })) ∣
      unexpected_member "membro de Test inesperado: " d

unfoldable pub parse_test : Parse Decl
unfolding mark run expect parse_ident_name braces test_member close_span pure ◌>>=◌
parse_test = do
  start ← mark
  run (expect Token.test)
  name ← run parse_ident_name
  d ← braces test_member (record { span = nowhere; name = name; scenarios = []; properties = [] })
  span ← close_span start
  pure (Decl.test (record d { span = span }))

-- The body of the loop of `parseFixture`.
unfoldable pub fixture_member : List GivenClause → Parse (List GivenClause)
unfolding mark parse_given_body unexpected_member pure ◌⟶◌∣◌ ◌>>=◌
fixture_member gs =
    (λ p. at_config_key p || at lbrack p)
    ⟶ (do start ← mark; g ← parse_given_body start; pure (append gs g)) ∣
      unexpected_member "membro de Fixture inesperado: " gs

unfoldable pub parse_fixture : Parse Decl
unfolding mark run expect parse_ident_name braces fixture_member close_span pure ◌>>=◌
parse_fixture = do
  start ← mark
  run (expect Token.fixture)
  name ← run parse_ident_name
  gs ← braces fixture_member []
  span ← close_span start
  pure (Decl.fixture (record { span = span; name = name; givens = gs }))
