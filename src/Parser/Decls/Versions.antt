-- ===== src/Parser/Decls/Versions.antt =====
-- parser/parse_config.go: versions of the interface.
use domainscript.Prelude.{ℕ, List, [], text_eq}
use domainscript.Token.{
  kind_eq, ident, lparen, rparen, lbrace, rbrace, colon, comma, assign, arrow, string, on, when,
  handles,
}
use domainscript.Token
use domainscript.Ast.{Expr, absent, nowhere}
use domainscript.Ast.Files.{VersionUpcast, VersionDowncast, VersionRoute, VersionDecl}
use domainscript.Ast.Decls.{MapEntry}
use domainscript.Ast.Files.{Decl}
use domainscript.Parser.Cursor.{accept, expect}
use domainscript.Parser.Operands.{Parse}
use domainscript.Parser.Expressions.{parse_expr}
use domainscript.Parser.Sequence.{
  pure, run, ◌⟶◌∣◌, ◌>>=◌, ◌>>◌, mark, close_span, skip, at_ident_lit, unexpected_member, braces,
  append,
}
use domainscript.Parser.Sequence.Reads.{Reads, read_rules}
use domainscript.Parser.Decls.Fields.{
  parse_name, parse_name-Reads, parse_field_block, parse_field_block-Reads, parse_version,
  parse_version-Reads, parse_map_block, parse_map_block-Reads,
}
use domainscript.Parser.Decls.Config.{parse_string_lit, parse_string_lit-Reads}

-- The body of the loop of `parseVersionUpcast`.
unfoldable pub upcast_member : VersionUpcast → Parse VersionUpcast
unfolding skip parse_field_block parse_map_block unexpected_member pure ◌⟶◌∣◌ ◌>>=◌
upcast_member d =
    at_ident_lit "from"
    ⟶ (do skip; fs ← parse_field_block; pure (record d { from = fs })) ∣ at_ident_lit "to"
    ⟶ (do skip; es ← parse_map_block; pure (record d { to = es })) ∣
      unexpected_member "esperava 'from' ou 'to' em upcast, encontrei " d

unfoldable pub parse_version_upcast : Parse VersionUpcast
unfolding mark skip parse_name braces upcast_member close_span pure ◌>>=◌
parse_version_upcast = do
  start ← mark
  skip
  target ← parse_name
  d ← braces upcast_member (record { span = nowhere; target = target; from = []; to = [] })
  span ← close_span start
  pure (record d { span = span })

-- The body of the loop of `parseVersionDowncast`.
unfoldable pub downcast_member : List MapEntry → Parse (List MapEntry)
unfolding skip parse_map_block unexpected_member ◌⟶◌∣◌ ◌>>=◌
downcast_member to =
    at_ident_lit "to"
    ⟶ (do skip; parse_map_block) ∣ unexpected_member "esperava 'to' em downcast, encontrei " to

unfoldable pub parse_version_downcast : Parse VersionDowncast
unfolding mark skip parse_name braces downcast_member close_span pure ◌>>=◌
parse_version_downcast = do
  start ← mark
  skip
  target ← parse_name
  to ← braces downcast_member []
  span ← close_span start
  pure (record { span = span; target = target; to = to })

unfoldable pub parse_version_route : Parse VersionRoute
unfolding mark skip parse_string_lit run expect parse_name close_span pure ◌>>=◌
parse_version_route = do
  start ← mark
  skip
  path ← parse_string_lit
  run (expect arrow)
  target ← parse_name
  span ← close_span start
  pure (record { span = span; path = path; target = target })

-- A key and its expression, with a colon between them or not.
unfoldable pub version_setting : Parse Expr
unfolding skip run accept parse_expr ◌>>=◌
version_setting = do skip; run (accept colon); parse_expr

-- The body of the loop of `parseVersionDecl`.
unfoldable pub version_member : VersionDecl → Parse VersionDecl
unfolding version_setting parse_version_upcast parse_version_downcast parse_version_route
    unexpected_member pure ◌⟶◌∣◌ ◌>>=◌
version_member d =
    at_ident_lit "deprecated"
    ⟶ (do e ← version_setting; pure (record d { deprecated = e })) ∣ at_ident_lit "sunset"
    ⟶ (do e ← version_setting; pure (record d { sunset = e })) ∣ at_ident_lit "upcast"
    ⟶ (do u ← parse_version_upcast; pure (record d { upcasts = append d.upcasts u })) ∣
      at_ident_lit "downcast"
    ⟶ (do u ← parse_version_downcast; pure (record d { downcasts = append d.downcasts u })) ∣
      at_ident_lit "route"
    ⟶ (do r ← parse_version_route; pure (record d { routes = append d.routes r })) ∣
      unexpected_member "membro de Version inesperado: " d

unfoldable pub parse_version_decl : Parse Decl
unfolding mark run expect parse_version braces version_member close_span pure ◌>>=◌
parse_version_decl = do
  start ← mark
  run (expect Token.version)
  version ← parse_version
  d ← braces version_member (record {
    span = nowhere;
    version = version;
    deprecated = absent;
    sunset = absent;
    upcasts = [];
    downcasts = [];
    routes = [];
  })
  span ← close_span start
  pure (Decl.version (record d { span = span }))

module _ {n : ℕ} where
  upcast_member-Reads : (d : VersionUpcast) → Reads n (upcast_member d)
  unfolding upcast_member
  upcast_member-Reads d =
      search (read_rules, parse_field_block-Reads, parse_map_block-Reads) depth 40

  downcast_member-Reads : (to : List MapEntry) → Reads n (downcast_member to)
  unfolding downcast_member
  downcast_member-Reads to = search (read_rules, parse_map_block-Reads) depth 40

  version_member-Reads : (d : VersionDecl) → Reads n (version_member d)
  unfolding version_member version_setting parse_version_upcast parse_version_downcast
      parse_version_route
  version_member-Reads d =
      search
        (
          read_rules, parse_name-Reads, parse_string_lit-Reads, upcast_member-Reads,
          downcast_member-Reads,
        )
        depth 40

  pub parse_version_decl-Reads : Reads n parse_version_decl
  unfolding parse_version_decl
  parse_version_decl-Reads = search (read_rules, parse_version-Reads, version_member-Reads) depth 40
