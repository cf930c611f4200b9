-- ===== src/Parser/Decls/ReadSide.antt =====
-- parser/parse_decl.go: views, projections and queries.
use domainscript.Prelude.{
  ℕ, zero, suc, refl, Option, none, some, List, [], ◌∷◌, ◌++◌, text_eq, Text, arith,
}
use domainscript.Token.{
  kind_eq, ident, lparen, rparen, lbrace, rbrace, colon, comma, assign, arrow, string, on, when,
  handles,
}
use domainscript.Token
use domainscript.Ast.{Stmt, Stmts, absent, nowhere, no_stmts, stmt_cons, block}
use domainscript.Ast.Decls.{ConfigEntry, ViewDecl, ProjectionDecl, TypeRef}
use domainscript.Ast.Files.{Decl}
use domainscript.Parser.Cursor.{count, at, accept, expect, parse_ident_name}
use domainscript.Parser.Operands.{Parse}
use domainscript.Parser.Expressions.{parse_expr}
use domainscript.Parser.Statements.{parse_stmt}
use domainscript.Parser.Sequence.{
  pure, run, ◌⟶◌∣◌, ◌>>=◌, ◌>>◌, mark, close_span, skip, at_ident_lit, unexpected_member, braces,
  append,
}
use domainscript.Parser.Sequence.Reads.{Reads, read_rules}
use domainscript.Parser.Decls.Fields.{
  Reads-past, parse_type_ref, parse_type_ref-Reads, parse_field, parse_field-Reads,
  parse_param_list, parse_param_list-Reads, parse_config_block, parse_config_block-Reads,
  parse_map_block, parse_map_block-Reads, parse_access_block, parse_access_block-Reads,
}

-- The body of the loop of `parseView`.
unfoldable pub view_member : ViewDecl → Parse ViewDecl
unfolding skip parse_access_block parse_field run accept pure ◌⟶◌∣◌ ◌>>=◌
view_member d =
    at_ident_lit "visibility"
    ⟶ (do skip; rs ← parse_access_block; pure (record d { visibility = rs })) ∣ (do
      f ← parse_field
      run (accept comma)
      pure (record d { fields = append d.fields f }))

-- The name behind `From`, if it is there.
unfoldable pub parse_from : Parse Text
unfolding skip run parse_ident_name pure ◌⟶◌∣◌ ◌>>=◌
parse_from = at_ident_lit "From" ⟶ (do skip; run parse_ident_name) ∣ pure []

unfoldable pub parse_view : Parse Decl
unfolding mark run expect parse_ident_name parse_from braces view_member close_span pure ◌⟶◌∣◌ ◌>>=◌
parse_view = do
  start ← mark
  run (expect Token.view)
  name ← run parse_ident_name
  from ← parse_from
  let init : ViewDecl = record {
    span = nowhere;
    name = name;
    from = from;
    fields = [];
    visibility = [];
  }
  d ← at lbrace ⟶ braces view_member init ∣ pure init
  span ← close_span start
  pure (Decl.view (record d { span = span }))

-- The loop of the names behind a comma, in `parseProjection`.
unfoldable pub source_loop : ℕ → Parse (List Text)
unfolding skip run parse_ident_name pure ◌⟶◌∣◌ ◌>>=◌
source_loop zero p = none
source_loop (suc f) p =
    (at comma
        ⟶ (do skip; name ← run parse_ident_name; names ← source_loop f; pure (name ∷ names)) ∣
          pure [])
      p

unfoldable pub parse_sources : Parse (List Text)
unfolding source_loop run parse_ident_name pure ◌>>=◌
parse_sources = do
  name ← run parse_ident_name
  names ← λ p. source_loop (suc (count p.ahead)) p
  pure (name ∷ names)

-- The body of the loop of `parseProjection`.
unfoldable pub projection_member : ProjectionDecl → Parse ProjectionDecl
unfolding skip parse_sources parse_map_block parse_expr unexpected_member pure ◌⟶◌∣◌ ◌>>=◌
projection_member d =
    at_ident_lit "source"
    ⟶ (do skip; names ← parse_sources; pure (record d { sources = d.sources ++ names })) ∣
      at_ident_lit "map"
    ⟶ (do skip; es ← parse_map_block; pure (record d { map = es })) ∣ at_ident_lit "refreshOn"
    ⟶ (do skip; e ← parse_expr; pure (record d { refresh_on = e })) ∣
      unexpected_member "membro de Projection inesperado: " d

unfoldable pub parse_projection : Parse Decl
unfolding mark run expect parse_ident_name braces projection_member close_span pure ◌>>=◌
parse_projection = do
  start ← mark
  run (expect Token.projection)
  name ← run parse_ident_name
  d ←
      braces projection_member
        (record { span = nowhere; name = name; sources = []; map = []; refresh_on = absent })
  span ← close_span start
  pure (Decl.projection (record d { span = span }))

abbrev pub listed_stmts : List Stmt → Stmts
listed_stmts [] = no_stmts
listed_stmts (s ∷ ss) = stmt_cons s (listed_stmts ss)

pub record QueryBody : Type 0 where
  pub cache : List ConfigEntry
  pub stmts : List Stmt

-- The body of the loop of `parseQuery`.
unfoldable pub query_member : QueryBody → Parse QueryBody
unfolding skip parse_config_block parse_stmt pure ◌⟶◌∣◌ ◌>>=◌
query_member b =
    at_ident_lit "cache" ⟶ (do skip; es ← parse_config_block; pure (record b { cache = es })) ∣ (do
      s ← parse_stmt
      pure (record b { stmts = append b.stmts s }))

-- The type behind `->`, if it is there.
unfoldable pub parse_return_type : Parse (Option TypeRef)
unfolding skip parse_type_ref pure ◌⟶◌∣◌ ◌>>=◌
parse_return_type = at arrow ⟶ (do skip; t ← parse_type_ref; pure (some t)) ∣ pure none

unfoldable pub parse_query : Parse Decl
unfolding mark run expect parse_ident_name parse_param_list parse_return_type braces query_member
    close_span pure ◌>>=◌
parse_query = do
  start ← mark
  run (expect Token.query)
  name ← run parse_ident_name
  params ← parse_param_list
  ret ← parse_return_type
  body_start ← mark
  b ← braces query_member (record { cache = []; stmts = [] })
  body_span ← close_span body_start
  span ← close_span start
  pure (
      Decl.query (record {
        span = span;
        name = name;
        params = params;
        return = ret;
        cache = b.cache;
        body = block body_span (listed_stmts b.stmts);
      }))

source_loop-Reads : (n : ℕ) → Reads n (source_loop n)
unfolding source_loop
source_loop-Reads zero = record { fits = λ p h. absurd (omega arith) }
source_loop-Reads (suc n) = record { fits = (step (source_loop-Reads n)).fits }
  where
    step :
        Reads n (source_loop n)
        → Reads (suc n) (
            at comma
            ⟶ (do skip; name ← run parse_ident_name; names ← source_loop n; pure (name ∷ names)) ∣
              pure [])
    step rest = search (read_rules, Reads-past comma _ _ refl) depth 40

module _ {n : ℕ} where
  pub parse_return_type-Reads : Reads n parse_return_type
  unfolding parse_return_type
  parse_return_type-Reads = search (read_rules, parse_type_ref-Reads) depth 40

  source_names-Reads : Reads n (λ p. source_loop (suc (count p.ahead)) p)
  source_names-Reads = record {
    fits = λ p h. (source_loop-Reads (suc (count p.ahead))).fits p (omega arith);
  }

  view_member-Reads : (d : ViewDecl) → Reads n (view_member d)
  unfolding view_member
  view_member-Reads d = search (read_rules, parse_access_block-Reads, parse_field-Reads) depth 40

  projection_member-Reads : (d : ProjectionDecl) → Reads n (projection_member d)
  unfolding projection_member parse_sources
  projection_member-Reads d =
      search (read_rules, source_names-Reads, parse_map_block-Reads) depth 40

  query_member-Reads : (b : QueryBody) → Reads n (query_member b)
  unfolding query_member
  query_member-Reads b = search (read_rules, parse_config_block-Reads) depth 40

  pub parse_view-Reads : Reads n parse_view
  unfolding parse_view parse_from
  parse_view-Reads = search (read_rules, view_member-Reads) depth 40

  pub parse_projection-Reads : Reads n parse_projection
  unfolding parse_projection
  parse_projection-Reads = search (read_rules, projection_member-Reads) depth 40

  pub parse_query-Reads : Reads n parse_query
  unfolding parse_query
  parse_query-Reads =
      search (read_rules, parse_param_list-Reads, parse_return_type-Reads, query_member-Reads) depth
        40
