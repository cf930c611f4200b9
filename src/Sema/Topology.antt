-- ===== src/Sema/Topology.antt =====
-- sema/rules_crossfile.go: the rules on transactions, on joins, on channels and on tenants, which
-- read the graph of the program.
pub mod Transactions
use domainscript.Prelude.{
  ℕ, Bool, true, false, not, ◌&&◌, ◌||◌, Option, none, some, List, [], ◌∷◌, ◌++◌, Text, codes,
  text_eq, ◌==◌, if◌then◌else◌, length, ltb,
}
use domainscript.Token.{Pos}
use domainscript.Diag.{Diagnostic}
use domainscript.Ast.{Expr, ident, call, query, Clauses, no_clauses, clause, Block}
use domainscript.Ast.Files.{Decl}
use domainscript.Astutil.{for_each_expr_in_block, head_name, decl_blocks}
use domainscript.Symbols
use domainscript.Symbols.{Symbol, SymbolTable}
use domainscript.Program.Graph.{
  Program, Database, Channel, module_of_aggregate, database_of_aggregate, service_of_module,
  service_of_aggregate, channel_between,
}
use domainscript.Resolver.Scope.Shadowing.{contains}
use domainscript.Resolver.Collect.{SourceUnit, fault}
use domainscript.Resolver.References.{is_some}
use domainscript.Resolver.Resolve.{each_unit}
use domainscript.Sema.Domain.{is_event}
use domainscript.Sema.Flow.{join}

-- `distinct`, on what was seen so far.
unfoldable pub distinct_from : List Text → List Text → List Text
distinct_from seen [] = []
distinct_from seen (s ∷ ss) =
    if s == [] || contains seen s then distinct_from seen ss else s ∷ distinct_from (s ∷ seen) ss

unfoldable pub distinct : List Text → List Text
unfolding distinct_from
distinct ss = distinct_from [] ss

-- The verb `%v` on names.
abbrev pub names_text : List Text → Text
names_text ns = codes "[" ++ (join ns (codes " ") ++ codes "]")

-- The names that the visitor of `referencedAggregates` records.
abbrev pub recorded : Expr → List Text
recorded (ident s n) = n ∷ []
recorded (call s (ident r n) xs) = n ∷ []
recorded _ = []

abbrev pub recorded_all : List Expr → List Text
recorded_all [] = []
recorded_all (e ∷ es) = recorded e ++ recorded_all es

abbrev pub databases : List (Option Database) → List Database
databases [] = []
databases (none ∷ ds) = databases ds
databases (some d ∷ ds) = d ∷ databases ds

abbrev pub database_names : List Database → List Text
database_names [] = []
database_names (d ∷ ds) = d.name ∷ database_names ds

-- `allXA`
abbrev pub all_xa : List Database → Bool
all_xa [] = true
all_xa (d ∷ ds) = d.supports_xa && all_xa ds

module _ (quote : Text → Text) (prog : Program) where
  -- The aggregates among the names, each where it is met first.
  unfoldable pub aggregates_from : List Text → List Text → List Text
  unfolding module_of_aggregate
  aggregates_from seen [] = []
  aggregates_from seen (n ∷ ns) =
      if n == [] || contains seen n || module_of_aggregate prog n == []
      then aggregates_from seen ns
      else n ∷ aggregates_from (n ∷ seen) ns

  unfoldable pub referenced_aggregates : Option Block → List Text
  unfolding aggregates_from for_each_expr_in_block
  referenced_aggregates b = aggregates_from [] (recorded_all (for_each_expr_in_block b))

  abbrev pub databases_of : List Text → List (Option Database)
  unfolding database_of_aggregate
  databases_of [] = []
  databases_of (a ∷ as') = database_of_aggregate prog a ∷ databases_of as'

  abbrev pub services_of : List Text → List Text
  unfolding service_of_aggregate
  services_of [] = []
  services_of (a ∷ as') = service_of_aggregate prog a ∷ services_of as'

  abbrev pub cross_database : Text → List Text → Text
  cross_database name dbs =
      codes "UseCase "
      ++ (quote name
          ++ (codes " opera cross-database ("
              ++ (names_text dbs
                  ++ codes ") sem suporte XA em todos os bancos: modele como Saga (§23)")))

  abbrev pub cross_service : Text → List Text → Text
  cross_service name svcs =
      codes "UseCase "
      ++ (quote name
          ++ (codes " opera cross-service ("
              ++ (names_text svcs ++ codes "): transações distribuídas exigem uma Saga (§23)")))

  unfoldable pub check_databases : Pos → Text → List Database → List Diagnostic
  unfolding distinct
  check_databases pos name dbs =
      if ltb 1 (length (distinct (database_names dbs))) && not (all_xa dbs)
      then fault pos (cross_database name (distinct (database_names dbs))) ∷ []
      else []

  unfoldable pub check_services : Pos → Text → List Text → List Diagnostic
  unfolding distinct
  check_services pos name svcs =
      if ltb 1 (length (distinct svcs))
      then fault pos (cross_service name (distinct svcs)) ∷ []
      else []

  -- The body of the loop of `checkTransactions`, on the aggregates of a use case.
  unfoldable pub check_transaction : Pos → Text → List Text → List Diagnostic
  unfolding check_databases check_services database_of_aggregate service_of_aggregate
  check_transaction pos name aggs =
      if ltb (length aggs) 2
      then []
      else check_databases pos name (databases (databases_of aggs))
        ++ check_services pos name (services_of aggs)

  abbrev pub transaction_of : Text → Decl → List Diagnostic
  unfolding check_transaction referenced_aggregates
  transaction_of m (Decl.use_case uc) =
      if is_some uc.execute
      then check_transaction uc.span.start uc.name (referenced_aggregates uc.execute)
      else []
  transaction_of m _ = []

  unfoldable pub check_transactions : List SourceUnit → List Diagnostic
  unfolding check_transaction referenced_aggregates
  check_transactions us = each_unit transaction_of us

  -- The first aggregate of another module, for which the loop breaks off.
  unfoldable pub first_foreign : Text → List Text → Option Text
  unfolding module_of_aggregate
  first_foreign m [] = none
  first_foreign m (a ∷ as') =
      if module_of_aggregate prog a == m then first_foreign m as' else some a

  abbrev pub tenant_fault : Pos → Text → Option Text → List Diagnostic
  unfolding module_of_aggregate
  tenant_fault pos name none = []
  tenant_fault pos name (some agg) =
      fault pos (
        codes "UseCase "
        ++ (quote name
            ++ (codes " acessa o Aggregate "
                ++ (quote agg
                    ++ (codes " do módulo "
                        ++ (quote (module_of_aggregate prog agg)
                            ++ codes
                                ", fora do seu bounded context, sem o opt-in `tenancy: cross_tenant` (§13.3)"))))))
      ∷ []

  abbrev pub opt_in_of : Text → Decl → List Diagnostic
  unfolding first_foreign referenced_aggregates module_of_aggregate
  opt_in_of m (Decl.use_case uc) =
      if not (is_some uc.execute) || uc.tenancy == codes "cross_tenant"
      then []
      else tenant_fault uc.span.start uc.name (first_foreign m (referenced_aggregates uc.execute))
  opt_in_of m _ = []

  unfoldable pub check_cross_tenant_opt_in : List SourceUnit → List Diagnostic
  unfolding first_foreign referenced_aggregates module_of_aggregate
  check_cross_tenant_opt_in us = each_unit opt_in_of us

  abbrev pub channel_exists : Text → Text → Bool
  unfolding channel_between
  channel_exists a b = is_some (channel_between prog a b) || is_some (channel_between prog b a)

  abbrev pub no_channel : Pos → Text → Text → Text → Diagnostic
  unfolding service_of_module
  no_channel pos policy m producer = fault pos (
      codes "Policy "
      ++ (quote policy
          ++ (codes " (módulo "
              ++ (m
                  ++ (codes ", service "
                      ++ (service_of_module prog m
                          ++ (codes ") reage a evento do módulo "
                              ++ (producer
                                  ++ (codes " (service "
                                      ++ (service_of_module prog producer
                                          ++ codes
                                              ") sem canal declarado entre os services (§11)"))))))))))

  -- The guards of `checkServiceChannels`, from the producer on.
  abbrev pub crosses_services : Text → Text → Bool
  unfolding service_of_module
  crosses_services m producer =
      let consumer_service = service_of_module prog m in
      let producer_service = service_of_module prog producer in
      not (producer == [] || producer == m)
      && not
          (consumer_service == [] || producer_service == [] || consumer_service == producer_service)

  abbrev pub channel_of_event : Text → Pos → Text → Option (Symbol Decl) → List Diagnostic
  unfolding service_of_module channel_between
  channel_of_event m pos policy none = []
  channel_of_event m pos policy (some sym) =
      if is_event sym.kind
        && crosses_services m sym.module_name
        && not (channel_exists m sym.module_name)
      then no_channel pos policy m sym.module_name ∷ []
      else []

  abbrev pub joined_with : Expr → Pos → Database → Clauses → List Diagnostic
  unfolding database_of_aggregate head_name
  joined_with target pos base no_clauses = []
  joined_with target pos base (clause kw x extra cs) =
      let rest = joined_with target pos base cs in
      if kw == codes "join"
      then join_fault (database_of_aggregate prog (head_name x)) x ++ rest
      else rest
    where
      join_fault : Option Database → Expr → List Diagnostic
      join_fault none x = []
      join_fault (some db) x =
          if db.name == base.name
          then []
          else fault pos (
              codes "JOIN cross-database entre "
              ++ (quote (head_name target)
                  ++ (codes " ("
                      ++ (base.name
                          ++ (codes ") e "
                              ++ (quote (head_name x)
                                  ++ (codes " ("
                                      ++ (db.name
                                          ++ codes
                                              ") não é possível: use uma Projection (§6.4)"))))))))
            ∷ []

  abbrev pub joins_on : Expr → Pos → Clauses → Option Database → List Diagnostic
  unfolding database_of_aggregate head_name
  joins_on target pos cs none = []
  joins_on target pos cs (some base) = joined_with target pos base cs

  -- The visitor of `checkCrossDatabaseJoin`.
  abbrev pub joins_of : List Expr → List Diagnostic
  unfolding database_of_aggregate head_name
  joins_of [] = []
  joins_of (query s op target b cs ∷ es) =
      joins_on target s.start cs (database_of_aggregate prog (head_name target)) ++ joins_of es
  joins_of (_ ∷ es) = joins_of es

  abbrev pub joins_in : List Block → List Diagnostic
  unfolding database_of_aggregate head_name for_each_expr_in_block
  joins_in [] = []
  joins_in (b ∷ bs) = joins_of (for_each_expr_in_block (some b)) ++ joins_in bs

  unfoldable pub check_cross_database_join : List SourceUnit → List Diagnostic
  unfolding database_of_aggregate head_name for_each_expr_in_block decl_blocks
  check_cross_database_join us = each_unit (λ m d. joins_in (decl_blocks d)) us

  module _ (tab : SymbolTable Decl) where
    abbrev pub channel_of : Text → Decl → List Diagnostic
    unfolding Symbols.lookup service_of_module channel_between
    channel_of m (Decl.policy pol) =
        if pol.on == []
        then []
        else channel_of_event m pol.span.start pol.name (Symbols.lookup tab m pol.on)
    channel_of m _ = []

    unfoldable pub check_service_channels : List SourceUnit → List Diagnostic
    unfolding Symbols.lookup service_of_module channel_between
    check_service_channels us = each_unit channel_of us
