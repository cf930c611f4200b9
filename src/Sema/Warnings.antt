-- ===== src/Sema/Warnings.antt =====
-- sema/rules_warnings.go and sema/rules_upcast.go: the warnings on single declarations, and those on
-- sagas and on exposure.
use domainscript.Prelude.{
  ℕ, zero, suc, ◌+◌, Bool, true, false, not, ◌&&◌, ◌||◌, Option, none, some, List, [], ◌∷◌, ◌++◌,
  Text, codes, itoa, text_eq, nat_eq, ◌==◌, if◌then◌else◌, leb,
}
use domainscript.Token.{Pos, kind_eq, or, eq, string}
use domainscript.Diag
use domainscript.Diag.{Diagnostic}
use domainscript.Ast.{
  Expr, literal, binary, ident, expr_stmt, assign_stmt, Block, block, Stmts, no_stmts, stmt_cons,
}
use domainscript.Ast.Decls.{
  TypeRef, ConfigEntry, ValueObjectDecl, UseCaseDecl, QueryDecl, UpcastDecl,
}
use domainscript.Ast.Files.{
  Decl, ChannelDef, TopologyDecl, Route, GrpcRpc, GrpcService, VersionRoute,
}
use domainscript.Astutil.{for_each_expr, is_ident}
use domainscript.Program.Graph.{Program, Channel}
use domainscript.Resolver.Scope.Shadowing.{contains}
use domainscript.Resolver.Collect.{SourceUnit}
use domainscript.Resolver.Resolve.{each_unit}
use domainscript.Sema.Domain.{type_name}

-- What `Warningf` adds.
abbrev pub warned : Pos → Text → Diagnostic
warned pos msg = record { severity = Diag.warning; pos = pos; msg = msg; code = [] }

abbrev pub is_string_lit : Expr → Bool
is_string_lit (literal s k v) = k == string
is_string_lit _ = false

-- `countEqStringLeaves`
unfoldable pub count_eq_string_leaves : Expr → ℕ
count_eq_string_leaves (binary s op l r) =
    let n = count_eq_string_leaves l in
    let m = count_eq_string_leaves r in
    if op == or
    then (if n == 0 || m == 0 then 0 else n + m)
    else if op == eq && (is_string_lit l || is_string_lit r)
    then 1
    else 0
count_eq_string_leaves _ = 0

abbrev pub closed_string_set_size : Option Block → ℕ
unfolding count_eq_string_leaves
closed_string_set_size (some (block s (stmt_cons (expr_stmt t x) no_stmts))) =
    count_eq_string_leaves x
closed_string_set_size _ = 0

abbrev pub config_ident : List ConfigEntry → Text → Text
config_ident [] key = []
config_ident (e ∷ es) key = named_by e.value (config_ident es key)
  where
    named_by : Expr → Text → Text
    named_by (ident s n) rest = if e.key == key then n else rest
    named_by _ rest = rest

abbrev pub has_config_key : List ConfigEntry → Text → Bool
has_config_key [] key = false
has_config_key (e ∷ es) key = e.key == key || has_config_key es key

abbrev pub is_type : Text → Option TypeRef → Bool
is_type name none = false
is_type name (some t) = type_name t == name

abbrev pub is_empty {ℓ} : {A : Type ℓ} → List A → Bool
is_empty [] = true
is_empty (x ∷ xs) = false

abbrev pub any_event : List Expr → Bool
unfolding is_ident
any_event [] = false
any_event (e ∷ es) = is_ident e (codes "event") || any_event es

unfoldable pub references_event : Expr → Bool
unfolding for_each_expr is_ident
references_event e = any_event (for_each_expr e)

-- The loop of `checkUpcastReplaceableByDefault`: whether it ends, with the assignments counted.
unfoldable pub constant_assigns : ℕ → Stmts → Option ℕ
unfolding references_event
constant_assigns n no_stmts = some n
constant_assigns n (stmt_cons (assign_stmt s target x) ss) =
    let rest = constant_assigns (n + 1) ss in if references_event x then none else rest
constant_assigns n (stmt_cons _ ss) = none

abbrev pub block_stmts : Block → Stmts
block_stmts (block s ss) = ss

abbrev pub cross_tenant : Text
cross_tenant = codes "cross_tenant"

-- The targets that are exposed by routes, by calls and by versions.
abbrev pub route_targets : List Route → List Text
route_targets [] = []
route_targets (r ∷ rs) = if r.target == [] then route_targets rs else r.target ∷ route_targets rs

abbrev pub rpc_targets : List GrpcRpc → List Text
rpc_targets [] = []
rpc_targets (r ∷ rs) = if r.target == [] then rpc_targets rs else r.target ∷ rpc_targets rs

abbrev pub service_targets : List GrpcService → List Text
service_targets [] = []
service_targets (s ∷ ss) = rpc_targets s.rpcs ++ service_targets ss

abbrev pub version_targets : List VersionRoute → List Text
version_targets [] = []
version_targets (r ∷ rs) =
    if r.target == [] then version_targets rs else r.target ∷ version_targets rs

abbrev pub exposed_in : List Decl → List Text
exposed_in [] = []
exposed_in (Decl.interface n ∷ ds) =
    (route_targets n.routes ++ service_targets n.services) ++ exposed_in ds
exposed_in (Decl.version n ∷ ds) = version_targets n.routes ++ exposed_in ds
exposed_in (_ ∷ ds) = exposed_in ds

abbrev pub exposed_of : List SourceUnit → List Text
exposed_of [] = []
exposed_of (u ∷ us) = exposed_in u.file.decls ++ exposed_of us

module _ (quote : Text → Text) where
  unfoldable pub check_value_object_as_enum : ValueObjectDecl → List Diagnostic
  unfolding count_eq_string_leaves
  check_value_object_as_enum vo =
      let n = closed_string_set_size vo.valid in
      if is_type (codes "string") vo.base && is_empty vo.fields && leb 2 n
      then warned vo.span.start (
          codes "ValueObject "
          ++ (quote vo.name
              ++ (codes " valida contra um conjunto fechado de "
                  ++ (itoa n ++ codes " literais string; um Enum modelaria melhor (§2.3)"))))
        ∷ []
      else []

  abbrev pub unordered : ChannelDef → Text → Diagnostic
  unordered ch via = warned ch.span.start (
      codes "canal "
      ++ (ch.from
          ++ (codes " -> "
              ++ (ch.to
                  ++ (codes " via "
                      ++ (quote via
                          ++ codes
                              " não declara orderBy: a ordem das mensagens não é garantida (§11)"))))))

  -- The loop of `checkChannelOrderBy`.
  unfoldable pub check_channels : List ChannelDef → List Diagnostic
  check_channels [] = []
  check_channels (ch ∷ chs) =
      let via = config_ident ch.entries (codes "via") in
      let rest = check_channels chs in
      if (via == codes "queue" || via == codes "stream")
        && not (has_config_key ch.entries (codes "orderBy"))
      then unordered ch via ∷ rest
      else rest

  abbrev pub check_channel_order_by : TopologyDecl → List Diagnostic
  unfolding check_channels
  check_channel_order_by topo = check_channels topo.channels

  unfoldable pub check_cross_tenant_audit : UseCaseDecl → List Diagnostic
  check_cross_tenant_audit uc =
      if uc.tenancy == cross_tenant
      then warned uc.span.start (
          codes "UseCase "
          ++ (quote uc.name
              ++ codes
                  " é cross_tenant: acessa dados de todos os tenants e gera trilha de auditoria — confirme que o opt-in é intencional (§13.3)"))
        ∷ []
      else []

  unfoldable pub check_cache_high_cardinality : QueryDecl → List Diagnostic
  check_cache_high_cardinality q =
      if is_empty q.cache || not (is_type (codes "List") q.return)
      then []
      else warned q.span.start (
          codes "Query "
          ++ (quote q.name
              ++ codes
                  " tem cache sobre uma listagem (List): alta cardinalidade pode tornar o cache ineficaz (§15)"))
        ∷ []

  abbrev pub replaceable : UpcastDecl → Option ℕ → List Diagnostic
  replaceable u none = []
  replaceable u (some zero) = []
  replaceable u (some (suc n)) =
      warned u.span.start (
        codes "Upcast "
        ++ (quote u.event
            ++ (codes " ("
                ++ (u.from_ver
                    ++ (codes " -> "
                        ++ (u.to_ver
                            ++ codes
                                ") só atribui valores constantes; declare os campos novos com `default` no Event em vez de um Upcast (§4.3)"))))))
      ∷ []

  unfoldable pub check_upcast_replaceable_by_default : UpcastDecl → List Diagnostic
  unfolding constant_assigns
  check_upcast_replaceable_by_default u = replaceable u (constant_assigns 0 (block_stmts u.body))

  -- The first channel out of the module by `queue`, after which the loop breaks off.
  abbrev pub queue_from : Text → List Channel → Option Channel
  queue_from m [] = none
  queue_from m (ch ∷ chs) =
      if ch.from == m && ch.via == codes "queue" then some ch else queue_from m chs

  abbrev pub blocked : Pos → Text → Option Channel → List Diagnostic
  blocked pos saga none = []
  blocked pos saga (some ch) =
      warned pos (
        codes "Saga "
        ++ (quote saga
            ++ (codes " em modo await coordena pelo canal "
                ++ (ch.from
                    ++ (codes " -> "
                        ++ (ch.to
                            ++ codes
                                " via queue: bloquear sobre uma fila assíncrona pode esgotar o timeout (§18.2)"))))))
      ∷ []

  abbrev pub await_of : Program → Text → Decl → List Diagnostic
  await_of prog m (Decl.saga n) =
      if n.mode == codes "await"
      then blocked n.span.start n.name (queue_from m prog.channels)
      else []
  await_of prog m _ = []

  unfoldable pub check_saga_await_queue : Program → List SourceUnit → List Diagnostic
  check_saga_await_queue prog us = each_unit (await_of prog) us

  abbrev pub unexposed : List Text → Pos → Text → Text → List Diagnostic
  unexposed exposed pos kind name =
      if name == [] || contains exposed name
      then []
      else warned pos (
          kind
          ++ (codes " "
              ++ (quote name
                  ++ codes
                      " não é exposto em nenhuma interface (HTTP/gRPC) nem rota de versão: confirme se é alcançável (§10)")))
        ∷ []

  abbrev pub exposure_of : List Text → Text → Decl → List Diagnostic
  exposure_of exposed m (Decl.use_case n) = unexposed exposed n.span.start (codes "UseCase") n.name
  exposure_of exposed m (Decl.query n) = unexposed exposed n.span.start (codes "Query") n.name
  exposure_of exposed m _ = []

  unfoldable pub check_exposure : List SourceUnit → List Diagnostic
  check_exposure us = each_unit (exposure_of (exposed_of us)) us
