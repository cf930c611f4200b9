-- ===== src/Parser/Decls/TestFiles/Endings.antt =====
-- parser/parse_testfile.go: how the functions of test files end.
use domainscript.Prelude.{ℕ, List, text_eq}
use domainscript.Token.{kind_eq}
use domainscript.Ast.Files.{GivenClause, ScenarioDecl, PropertyDecl, TestDecl}
use domainscript.Parser.Sequence.Reads.{Reads, read_rules}
use domainscript.Parser.Decls.Fields.{parse_name-Reads}
use domainscript.Parser.Decls.Config.{parse_config_object-Reads, parse_string_lit-Reads}
use domainscript.Token.{Pos}
use domainscript.Parser.Decls.Assertions.{parse_bracket_exprs-Reads, parse_then_asserts-Reads}
use domainscript.Parser.Decls.TestFiles.{
  parse_given_entity, parse_state, parse_entity_list, given_list, given_subject, given_state,
  parse_given_body, parse_mock, parse_fail_step, parse_when, then_form, parse_then, scenario_member,
  parse_scenario, parse_forall, property_member, parse_property, test_member, parse_test,
  fixture_member, parse_fixture,
}

module _ {n : ℕ} where
  parse_given_entity-Reads : Reads n parse_given_entity
  unfolding parse_given_entity parse_state
  parse_given_entity-Reads = search (read_rules, parse_config_object-Reads) depth 40

  given_list-Reads : (g : GivenClause) (start : Pos) → Reads n (given_list g start)
  unfolding given_list parse_entity_list
  given_list-Reads g start = search (read_rules, parse_given_entity-Reads) depth 40

  given_subject-Reads : (start : Pos) → Reads n (given_subject start)
  unfolding given_subject
  given_subject-Reads start = search (read_rules, given_list-Reads) depth 40

  parse_given_body-Reads : (start : Pos) → Reads n (parse_given_body start)
  unfolding parse_given_body given_state
  parse_given_body-Reads start =
      search (read_rules, given_list-Reads, given_subject-Reads, parse_config_object-Reads) depth 40

  then_form-Reads : Reads n then_form
  unfolding then_form
  then_form-Reads =
      search
        (
          read_rules, parse_name-Reads, parse_config_object-Reads, parse_bracket_exprs-Reads,
          parse_then_asserts-Reads,
        )
        depth 40

  parse_mock-Reads : Reads n parse_mock
  unfolding parse_mock
  parse_mock-Reads = search read_rules depth 40

  parse_fail_step-Reads : Reads n parse_fail_step
  unfolding parse_fail_step
  parse_fail_step-Reads = search (read_rules, parse_name-Reads) depth 40

  scenario_member-Reads : (d : ScenarioDecl) → Reads n (scenario_member d)
  unfolding scenario_member parse_when parse_then
  scenario_member-Reads d =
      search
        (
          read_rules, parse_mock-Reads, parse_fail_step-Reads, parse_given_body-Reads,
          then_form-Reads,
        )
        depth 40

  property_member-Reads : (d : PropertyDecl) → Reads n (property_member d)
  unfolding property_member parse_forall
  property_member-Reads d = search read_rules depth 40

  test_member-Reads : (d : TestDecl) → Reads n (test_member d)
  unfolding test_member parse_scenario parse_property
  test_member-Reads d =
      search (read_rules, parse_string_lit-Reads, scenario_member-Reads, property_member-Reads)
        depth 40

  fixture_member-Reads : (gs : List GivenClause) → Reads n (fixture_member gs)
  unfolding fixture_member
  fixture_member-Reads gs = search (read_rules, parse_given_body-Reads) depth 40

  pub parse_test-Reads : Reads n parse_test
  unfolding parse_test
  parse_test-Reads = search (read_rules, test_member-Reads) depth 40

  pub parse_fixture-Reads : Reads n parse_fixture
  unfolding parse_fixture
  parse_fixture-Reads = search (read_rules, fixture_member-Reads) depth 40
