-- ===== src/Parser/Decls/Integration.antt =====
-- parser/parse_decl.go: adapters, foreign functions, metrics and upcasts.
use domainscript.Prelude.{ℕ, List, [], text_eq}
use domainscript.Token.{
  kind_eq, ident, lparen, rparen, lbrace, rbrace, colon, comma, assign, arrow, string, on, when,
  handles,
}
use domainscript.Token
use domainscript.Ast.{absent, nowhere}
use domainscript.Ast.Decls.{AdapterDecl, ForeignFunc, MetricDecl}
use domainscript.Ast.Files.{Decl}
use domainscript.Parser.Cursor.{at, expect, parse_ident_name}
use domainscript.Parser.Operands.{Parse}
use domainscript.Parser.Expressions.{parse_expr}
use domainscript.Parser.Sequence.{
  pure, run, ◌⟶◌∣◌, ◌>>=◌, ◌>>◌, mark, close_span, skip, at_ident_lit, unexpected_member, braces,
  append,
}
use domainscript.Parser.Sequence.Reads.{Reads, read_rules}
use domainscript.Parser.Decls.Fields.{
  parse_name, parse_name-Reads, parse_body, parse_body-Reads, parse_param_list,
  parse_param_list-Reads, parse_version, parse_version-Reads, parse_map_block,
  parse_map_block-Reads,
}
use domainscript.Parser.Decls.ReadSide.{parse_return_type, parse_return_type-Reads}

-- `http METHOD url`
unfoldable pub adapter_http : AdapterDecl → Parse AdapterDecl
unfolding skip run parse_ident_name parse_expr pure ◌>>=◌
adapter_http d = do
  skip
  method ← run parse_ident_name
  url ← parse_expr
  pure (record d { http_method = method; http_url = url })

-- `foreign lang [from path]`
unfoldable pub adapter_foreign : AdapterDecl → Parse AdapterDecl
unfolding skip parse_expr pure ◌⟶◌∣◌ ◌>>=◌
adapter_foreign d = do
  skip
  lang ← parse_expr
  from ← at_ident_lit "from" ⟶ (do skip; parse_expr) ∣ pure d.from
  pure (record d { lang = lang; from = from })

-- The body of the loop of `parseAdapter`.
unfoldable pub adapter_member : AdapterDecl → Parse AdapterDecl
unfolding adapter_http adapter_foreign skip run parse_ident_name parse_expr parse_map_block
    unexpected_member pure ◌⟶◌∣◌ ◌>>=◌
adapter_member d =
    at_ident_lit "mode"
    ⟶ (do skip; m ← run parse_ident_name; pure (record d { mode = m })) ∣ at_ident_lit "http"
    ⟶ adapter_http d ∣ at_ident_lit "headers"
    ⟶ (do skip; es ← parse_map_block; pure (record d { headers = es })) ∣ at_ident_lit "body"
    ⟶ (do skip; es ← parse_map_block; pure (record d { body = es })) ∣ at_ident_lit "foreign"
    ⟶ adapter_foreign d ∣ at_ident_lit "function"
    ⟶ (do skip; e ← parse_expr; pure (record d { function = e })) ∣ at_ident_lit "map"
    ⟶ (do skip; es ← parse_map_block; pure (record d { map = es })) ∣
      unexpected_member "membro de Adapter inesperado: " d

unfoldable pub parse_adapter : Parse Decl
unfolding mark run expect parse_ident_name braces adapter_member close_span pure ◌>>=◌
parse_adapter = do
  start ← mark
  run (expect Token.adapter)
  name ← run parse_ident_name
  d ← braces adapter_member (record {
    span = nowhere;
    name = name;
    mode = [];
    http_method = [];
    http_url = absent;
    headers = [];
    body = [];
    lang = absent;
    from = absent;
    function = absent;
    map = [];
  })
  span ← close_span start
  pure (Decl.adapter (record d { span = span }))

unfoldable pub parse_foreign_func : Parse ForeignFunc
unfolding mark skip parse_name parse_param_list parse_return_type close_span pure ◌>>=◌
parse_foreign_func = do
  start ← mark
  skip
  name ← parse_name
  params ← parse_param_list
  ret ← parse_return_type
  span ← close_span start
  pure (record { span = span; name = name; params = params; return = ret })

-- The body of the loop of `parseForeign`.
unfoldable pub foreign_member : List ForeignFunc → Parse (List ForeignFunc)
unfolding parse_foreign_func unexpected_member pure ◌⟶◌∣◌ ◌>>=◌
foreign_member fns =
    at_ident_lit "function"
    ⟶ (do f ← parse_foreign_func; pure (append fns f)) ∣
      unexpected_member "esperava 'function' em Foreign, encontrei " fns

unfoldable pub parse_foreign : Parse Decl
unfolding mark run expect parse_expr skip braces foreign_member close_span pure ◌⟶◌∣◌ ◌>>=◌
parse_foreign = do
  start ← mark
  run (expect Token.foreign)
  lang ← parse_expr
  from ← at_ident_lit "from" ⟶ (do skip; parse_expr) ∣ pure absent
  fns ← braces foreign_member []
  span ← close_span start
  pure (Decl.foreign (record { span = span; lang = lang; from = from; functions = fns }))

-- The body of the loop of `parseMetric`.
unfoldable pub metric_member : MetricDecl → Parse MetricDecl
unfolding skip run parse_ident_name parse_expr parse_map_block unexpected_member pure ◌⟶◌∣◌ ◌>>=◌
metric_member d =
    at_ident_lit "type"
    ⟶ (do skip; t ← run parse_ident_name; pure (record d { type = t })) ∣ at_ident_lit "value"
    ⟶ (do skip; e ← parse_expr; pure (record d { value = e })) ∣ at_ident_lit "buckets"
    ⟶ (do skip; e ← parse_expr; pure (record d { buckets = e })) ∣ at_ident_lit "labels"
    ⟶ (do skip; es ← parse_map_block; pure (record d { labels = es })) ∣ at on
    ⟶ (do skip; e ← parse_expr; pure (record d { on = e })) ∣
      unexpected_member "membro de Metric inesperado: " d

unfoldable pub parse_metric : Parse Decl
unfolding mark run expect parse_ident_name braces metric_member close_span pure ◌>>=◌
parse_metric = do
  start ← mark
  run (expect Token.metric)
  name ← run parse_ident_name
  d ← braces metric_member (record {
    span = nowhere;
    name = name;
    type = [];
    value = absent;
    on = absent;
    buckets = absent;
    labels = [];
  })
  span ← close_span start
  pure (Decl.metric (record d { span = span }))

unfoldable pub parse_upcast : Parse Decl
unfolding mark run expect parse_name parse_version parse_body close_span pure ◌>>=◌
parse_upcast = do
  start ← mark
  run (expect Token.upcast)
  event ← parse_name
  from_ver ← parse_version
  run (expect arrow)
  to_ver ← parse_version
  body ← parse_body
  span ← close_span start
  pure (
      Decl.upcast
        (record { span = span; event = event; from_ver = from_ver; to_ver = to_ver; body = body }))

module _ {n : ℕ} where
  adapter_member-Reads : (d : AdapterDecl) → Reads n (adapter_member d)
  unfolding adapter_member adapter_http adapter_foreign
  adapter_member-Reads d = search (read_rules, parse_map_block-Reads) depth 40

  pub parse_adapter-Reads : Reads n parse_adapter
  unfolding parse_adapter
  parse_adapter-Reads = search (read_rules, adapter_member-Reads) depth 40

  foreign_member-Reads : (fns : List ForeignFunc) → Reads n (foreign_member fns)
  unfolding foreign_member parse_foreign_func
  foreign_member-Reads fns =
      search (read_rules, parse_name-Reads, parse_param_list-Reads, parse_return_type-Reads) depth
        40

  pub parse_foreign-Reads : Reads n parse_foreign
  unfolding parse_foreign
  parse_foreign-Reads = search (read_rules, foreign_member-Reads) depth 40

  metric_member-Reads : (d : MetricDecl) → Reads n (metric_member d)
  unfolding metric_member
  metric_member-Reads d = search (read_rules, parse_map_block-Reads) depth 40

  pub parse_metric-Reads : Reads n parse_metric
  unfolding parse_metric
  parse_metric-Reads = search (read_rules, metric_member-Reads) depth 40

  pub parse_upcast-Reads : Reads n parse_upcast
  unfolding parse_upcast
  parse_upcast-Reads =
      search (read_rules, parse_name-Reads, parse_version-Reads, parse_body-Reads) depth 40
