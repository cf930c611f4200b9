-- ===== src/Parser/Decls/Infrastructure.antt =====
-- parser/parse_config.go: modules, interfaces, topologies and tiers of rate limits.
use domainscript.Prelude.{ℕ, Bool, ◌&&◌, List, [], ◌∷◌, ◌==◌, text_eq, Text, codes, if◌then◌else◌}
use domainscript.Token.{
  kind_eq, ident, lparen, rparen, lbrace, rbrace, colon, comma, assign, arrow, string, on, when,
  handles,
}
use domainscript.Token
use domainscript.Ast.{nowhere}
use domainscript.Ast.Files.{
  ConfigBlock, ModuleDecl, Route, GrpcRpc, GrpcService, InterfaceDecl, ServiceDef, ChannelDef,
  TopologyDecl,
}
use domainscript.Ast.Decls.{ConfigEntry}
use domainscript.Ast.Files.{Decl}
use domainscript.Parser.Cursor.{Parser, cur, peek, at, accept, expect, parse_ident_name}
use domainscript.Parser.Operands.{Parse}
use domainscript.Parser.Sequence.{
  pure, run, gets, ◌⟶◌∣◌, ◌>>=◌, ◌>>◌, mark, close_span, skip, at_ident_lit, unexpected_member,
  braces, append,
}
use domainscript.Parser.Sequence.Reads.{Reads, Reads-gets, read_rules}
use domainscript.Parser.Decls.Fields.{parse_name, parse_name-Reads}
use domainscript.Parser.Decls.Config.{
  parse_config_entry, parse_config_entry-Reads, parse_config_entries, parse_config_entries-Reads,
  parse_string_lit, parse_string_lit-Reads, at_config_key,
}
use domainscript.Parser.Operands.{one_of}

abbrev pub module_block_kinds : List Text
module_block_kinds =
    codes "Database"
    ∷ codes "FileStorage"
    ∷ codes "Idempotency"
    ∷ codes "Cache"
    ∷ codes "RateLimit"
    ∷ codes "Outbox"
    ∷ codes "Telemetry"
    ∷ []

abbrev pub module_named_blocks : List Text
module_named_blocks = codes "Database" ∷ codes "FileStorage" ∷ []

abbrev at_module_block : Parser → Bool
at_module_block p = at ident p && one_of module_block_kinds (cur p).lit

unfoldable pub parse_config_block_kind : Bool → Parse ConfigBlock
unfolding mark parse_name run parse_ident_name parse_config_entries close_span pure ◌>>=◌
parse_config_block_kind named = do
  start ← mark
  kind ← parse_name
  name ← if named then run parse_ident_name else pure []
  es ← parse_config_entries
  span ← close_span start
  pure (record { span = span; kind = kind; name = name; entries = es })

-- A setting among the members of a module or of an interface, and the comma that may follow.
unfoldable pub setting_line : List ConfigEntry → Parse (List ConfigEntry)
unfolding parse_config_entry run accept pure ◌>>=◌
setting_line es = do e ← parse_config_entry; run (accept comma); pure (append es e)

-- The body of the loop of `parseModule`.
unfoldable pub module_member : ModuleDecl → Parse ModuleDecl
unfolding gets parse_config_block_kind setting_line unexpected_member pure ◌⟶◌∣◌ ◌>>=◌
module_member d =
    at_module_block
    ⟶ (do
      named ← gets (λ p. one_of module_named_blocks (cur p).lit)
      b ← parse_config_block_kind named
      pure (record d { blocks = append d.blocks b })) ∣
      at_config_key
    ⟶ (do es ← setting_line d.settings; pure (record d { settings = es })) ∣
      unexpected_member "membro de Module inesperado: " d

unfoldable pub parse_module : Parse Decl
unfolding mark run expect parse_ident_name braces module_member close_span pure ◌>>=◌
parse_module = do
  start ← mark
  run (expect Token.module_kw)
  name ← run parse_ident_name
  d ← braces module_member (record { span = nowhere; name = name; settings = []; blocks = [] })
  span ← close_span start
  pure (Decl.module_decl (record d { span = span }))

-- The options of a route, if there are any.
unfoldable pub parse_options : Parse (List ConfigEntry)
unfolding parse_config_entries pure ◌⟶◌∣◌
parse_options = at lbrace ⟶ parse_config_entries ∣ pure []

unfoldable pub parse_route : Parse Route
unfolding mark run parse_ident_name parse_string_lit expect parse_name parse_options close_span pure
    ◌>>=◌
parse_route = do
  start ← mark
  method ← run parse_ident_name
  path ← parse_string_lit
  run (expect arrow)
  target ← parse_name
  opts ← parse_options
  span ← close_span start
  pure (record { span = span; method = method; path = path; target = target; options = opts })

-- `rpc Name -> Target`
unfoldable pub parse_rpc : Parse GrpcRpc
unfolding skip parse_name run expect pure ◌>>=◌
parse_rpc = do
  skip
  name ← parse_name
  run (expect arrow)
  target ← parse_name
  pure (record { name = name; target = target })

-- The body of the loop of `parseGrpcService`.
unfoldable pub service_member : List GrpcRpc → Parse (List GrpcRpc)
unfolding parse_rpc unexpected_member pure ◌⟶◌∣◌ ◌>>=◌
service_member rpcs =
    at_ident_lit "rpc"
    ⟶ (do r ← parse_rpc; pure (append rpcs r)) ∣
      unexpected_member "esperava 'rpc' em service, encontrei " rpcs

unfoldable pub parse_grpc_service : Parse GrpcService
unfolding mark skip run parse_ident_name braces service_member close_span pure ◌>>=◌
parse_grpc_service = do
  start ← mark
  skip
  name ← run parse_ident_name
  rpcs ← braces service_member []
  span ← close_span start
  pure (record { span = span; name = name; rpcs = rpcs })

-- The body of the loop of `parseInterface`.
unfoldable pub interface_member : InterfaceDecl → Parse InterfaceDecl
unfolding parse_route parse_grpc_service setting_line unexpected_member pure ◌⟶◌∣◌ ◌>>=◌
interface_member d =
    (λ p. at ident p && (peek p).kind == string)
    ⟶ (do r ← parse_route; pure (record d { routes = append d.routes r })) ∣ at_ident_lit "service"
    ⟶ (do s ← parse_grpc_service; pure (record d { services = append d.services s })) ∣
      at_config_key
    ⟶ (do es ← setting_line d.settings; pure (record d { settings = es })) ∣
      unexpected_member "membro de Interface inesperado: " d

unfoldable pub parse_interface : Parse Decl
unfolding mark run expect parse_ident_name braces interface_member close_span pure ◌>>=◌
parse_interface = do
  start ← mark
  run (expect Token.interface)
  kind ← run parse_ident_name
  d ←
      braces interface_member
        (record { span = nowhere; kind = kind; settings = []; routes = []; services = [] })
  span ← close_span start
  pure (Decl.interface (record d { span = span }))

-- The body of the loop of `parseServices`.
unfoldable pub service_line : List ServiceDef → Parse (List ServiceDef)
unfolding mark parse_name parse_config_entries close_span unexpected_member pure ◌⟶◌∣◌ ◌>>=◌
service_line defs =
    at_config_key
    ⟶ (do
      start ← mark
      name ← parse_name
      es ← parse_config_entries
      span ← close_span start
      pure (append defs (record { span = span; name = name; entries = es }))) ∣
      unexpected_member "esperava um nome de service, encontrei " defs

-- The body of the loop of `parseChannels`.
unfoldable pub channel_line : List ChannelDef → Parse (List ChannelDef)
unfolding mark parse_name run expect parse_config_entries close_span unexpected_member pure ◌⟶◌∣◌
    ◌>>=◌
channel_line defs =
    at_config_key
    ⟶ (do
      start ← mark
      from ← parse_name
      run (expect arrow)
      to ← parse_name
      es ← parse_config_entries
      span ← close_span start
      pure (append defs (record { span = span; from = from; to = to; entries = es }))) ∣
      unexpected_member "esperava um canal (From -> To), encontrei " defs

-- The body of the loop of `parseTopology`.
unfoldable pub topology_member : TopologyDecl → Parse TopologyDecl
unfolding skip braces service_line channel_line unexpected_member pure ◌⟶◌∣◌ ◌>>=◌
topology_member d =
    at_ident_lit "services"
    ⟶ (do skip; defs ← braces service_line []; pure (record d { services = defs })) ∣
      at_ident_lit "channels"
    ⟶ (do skip; defs ← braces channel_line []; pure (record d { channels = defs })) ∣
      unexpected_member "membro de Topology inesperado: " d

unfoldable pub parse_topology : Parse Decl
unfolding mark run expect braces topology_member close_span pure ◌>>=◌
parse_topology = do
  start ← mark
  run (expect Token.topology)
  d ← braces topology_member (record { span = nowhere; services = []; channels = [] })
  span ← close_span start
  pure (Decl.topology (record d { span = span }))

unfoldable pub parse_rate_limit_tier : Parse Decl
unfolding mark skip run parse_ident_name parse_config_entries close_span pure ◌>>=◌
parse_rate_limit_tier = do
  start ← mark
  skip
  name ← run parse_ident_name
  es ← parse_config_entries
  span ← close_span start
  pure (Decl.rate_limit_tier (record { span = span; name = name; entries = es }))

module _ {n : ℕ} where
  setting_line-Reads : (es : List ConfigEntry) → Reads n (setting_line es)
  unfolding setting_line
  setting_line-Reads es = search (read_rules, parse_config_entry-Reads) depth 40

  parse_config_block_kind-Reads : (named : Bool) → Reads n (parse_config_block_kind named)
  unfolding parse_config_block_kind
  parse_config_block_kind-Reads named =
      search (read_rules, parse_name-Reads, parse_config_entries-Reads) depth 40

  module_member-Reads : (d : ModuleDecl) → Reads n (module_member d)
  unfolding module_member
  module_member-Reads d =
      search (read_rules, Reads-gets, parse_config_block_kind-Reads, setting_line-Reads) depth 40

  pub parse_module-Reads : Reads n parse_module
  unfolding parse_module
  parse_module-Reads = search (read_rules, module_member-Reads) depth 40

  parse_route-Reads : Reads n parse_route
  unfolding parse_route parse_options
  parse_route-Reads =
      search (read_rules, parse_string_lit-Reads, parse_name-Reads, parse_config_entries-Reads)
        depth 40

  service_member-Reads : (rpcs : List GrpcRpc) → Reads n (service_member rpcs)
  unfolding service_member parse_rpc
  service_member-Reads rpcs = search (read_rules, parse_name-Reads) depth 40

  parse_grpc_service-Reads : Reads n parse_grpc_service
  unfolding parse_grpc_service
  parse_grpc_service-Reads = search (read_rules, service_member-Reads) depth 40

  interface_member-Reads : (d : InterfaceDecl) → Reads n (interface_member d)
  unfolding interface_member
  interface_member-Reads d =
      search (read_rules, parse_route-Reads, parse_grpc_service-Reads, setting_line-Reads) depth 40

  pub parse_interface-Reads : Reads n parse_interface
  unfolding parse_interface
  parse_interface-Reads = search (read_rules, interface_member-Reads) depth 40

  service_line-Reads : (defs : List ServiceDef) → Reads n (service_line defs)
  unfolding service_line
  service_line-Reads defs =
      search (read_rules, parse_name-Reads, parse_config_entries-Reads) depth 40

  channel_line-Reads : (defs : List ChannelDef) → Reads n (channel_line defs)
  unfolding channel_line
  channel_line-Reads defs =
      search (read_rules, parse_name-Reads, parse_config_entries-Reads) depth 40

  topology_member-Reads : (d : TopologyDecl) → Reads n (topology_member d)
  unfolding topology_member
  topology_member-Reads d = search (read_rules, service_line-Reads, channel_line-Reads) depth 40

  pub parse_topology-Reads : Reads n parse_topology
  unfolding parse_topology
  parse_topology-Reads = search (read_rules, topology_member-Reads) depth 40

  pub parse_rate_limit_tier-Reads : Reads n parse_rate_limit_tier
  unfolding parse_rate_limit_tier
  parse_rate_limit_tier-Reads = search (read_rules, parse_config_entries-Reads) depth 40
