-- ===== src/Parser/Decls/Files.antt =====
-- parser/parse_decl.go: the choice of a declaration, and the file of declarations.
pub mod Totality
pub mod Soundness
pub mod Sources
use domainscript.Prelude.{Bool, ◌&&◌, ◌||◌, List, [], ◌∷◌, ◌++◌, ◌==◌, text_eq, Text, codes, Option}
use domainscript.Token.{
  Token, kind_eq, kind_string, eof, ident, valueobject, enum, error, event, publicevent, upcast,
  aggregate, command, usecase, view, projection, query, policy, worker, notification, adapter,
  foreign, saga, metric, module_kw, interface, topology, version, test, fixture,
}
use domainscript.Diag.{DiagnosticBag}
use domainscript.Ast.Files.{Decl, error_decl, File}
use domainscript.Parser.Cursor.{Parser, cur, at, errorf, synchronize, top_level_stop, new_parser}
use domainscript.Parser.Operands.{Parse}
use domainscript.Parser.Sequence.{
  pure, run, ◌⟶◌∣◌, ◌>>=◌, ◌>>◌, mark, close_span, complain, at_ident_lit, members, append,
}
use domainscript.Parser.Decls.Domain.{
  parse_value_object, parse_enum, parse_error_type, parse_event, parse_command, parse_notification,
}
use domainscript.Parser.Decls.Behaviour.{parse_aggregate, parse_use_case}
use domainscript.Parser.Decls.ReadSide.{parse_view, parse_projection, parse_query}
use domainscript.Parser.Decls.Reactions.{parse_policy, parse_worker, parse_saga}
use domainscript.Parser.Decls.Integration.{parse_adapter, parse_foreign, parse_metric, parse_upcast}
use domainscript.Parser.Decls.Infrastructure.{
  parse_module, parse_interface, parse_topology, parse_rate_limit_tier,
}
use domainscript.Parser.Decls.Versions.{parse_version_decl}
use domainscript.Parser.Decls.TestFiles.{parse_test, parse_fixture}

-- The default of `parseDecl`: the error is reported, and the parser goes on to the next declaration.
unfoldable pub recover_decl : Parse Decl
unfolding mark complain run synchronize close_span pure ◌>>=◌
recover_decl = do
  start ← mark
  complain "esperava uma declaração de topo, encontrei "
  run (λ p. (tt {0}, synchronize top_level_stop p))
  span ← close_span start
  pure (error_decl span)

unfoldable pub parse_decl : Parse Decl
unfolding parse_value_object parse_enum parse_error_type parse_event parse_aggregate parse_command
    parse_use_case parse_view parse_projection parse_query parse_policy parse_worker
    parse_notification parse_adapter parse_foreign parse_saga parse_metric parse_upcast parse_module
    parse_interface parse_topology parse_version_decl parse_rate_limit_tier parse_test parse_fixture
    recover_decl ◌⟶◌∣◌
parse_decl =
    at valueobject
    ⟶ parse_value_object ∣ at enum
    ⟶ parse_enum ∣ at error
    ⟶ parse_error_type ∣ (λ p. at event p || at publicevent p)
    ⟶ parse_event ∣ at aggregate
    ⟶ parse_aggregate ∣ at command
    ⟶ parse_command ∣ at usecase
    ⟶ parse_use_case ∣ at view
    ⟶ parse_view ∣ at projection
    ⟶ parse_projection ∣ at query
    ⟶ parse_query ∣ at policy
    ⟶ parse_policy ∣ at worker
    ⟶ parse_worker ∣ at notification
    ⟶ parse_notification ∣ at adapter
    ⟶ parse_adapter ∣ at foreign
    ⟶ parse_foreign ∣ at saga
    ⟶ parse_saga ∣ at metric
    ⟶ parse_metric ∣ at upcast
    ⟶ parse_upcast ∣ at module_kw
    ⟶ parse_module ∣ at interface
    ⟶ parse_interface ∣ at topology
    ⟶ parse_topology ∣ at version
    ⟶ parse_version_decl ∣ at_ident_lit "RateLimitTier"
    ⟶ parse_rate_limit_tier ∣ at test
    ⟶ parse_test ∣ at fixture
    ⟶ parse_fixture ∣ recover_decl

-- The body of the loop of `parseFile`.
unfoldable pub file_member : List Decl → Parse (List Decl)
unfolding parse_decl pure ◌>>=◌
file_member ds = do d ← parse_decl; pure (append ds d)

-- The loop of `parseFile` ends at the EOF alone.
unfoldable pub parse_file : Parse File
unfolding mark members file_member close_span pure ◌>>=◌
parse_file = do
  start ← mark
  ds ← members eof file_member []
  span ← close_span start
  pure (record { span = span; decls = ds })

-- `Parse`, with the parser that it leaves, whose bag is the caller's.
unfoldable pub parse : List Token → DiagnosticBag → Option (File × Parser)
unfolding new_parser parse_file
parse toks bag = parse_file (new_parser toks bag)
