-- ===== src/Resolver/Collect.antt =====
-- resolver/resolver.go: the files of a program and the table of what they declare. What a pass
-- reports is the list of its diagnostics, in the order in which it adds them to the bag.
pub mod First
use domainscript.Prelude.{
  Bool, true, false, ◌&&◌, ◌||◌, not, Option, none, some, List, [], ◌∷◌, ◌++◌, Text, codes, text_eq,
  ◌==◌, if◌then◌else◌,
}
use domainscript.Token.{Pos}
use domainscript.Diag
use domainscript.Diag.{Diagnostic}
use domainscript.Ast.{Span}
use domainscript.Ast.Files.{
  Decl, File, error_decl, value_object, enum, error_type, event, aggregate, command, use_case, view,
  projection, query, policy, worker, notification, adapter, foreign, saga, metric, upcast,
  module_decl, interface, topology, version, rate_limit_tier, test, fixture,
}
use domainscript.Symbols
use domainscript.Symbols.{Symbol, SymbolKind, SymbolTable, symbol_kind_string}

-- What `Errorf` and `CodedErrorf` add.
abbrev pub fault : Pos → Text → Diagnostic
fault pos msg = record { severity = Diag.error; pos = pos; msg = msg; code = [] }

abbrev pub coded_fault : Pos → Text → Text → Diagnostic
coded_fault pos code msg = record { severity = Diag.error; pos = pos; msg = msg; code = code }

-- `unit`
pub record SourceUnit : Type 0 where
  pub module_name : Text
  pub file : File

-- `Decl.Span`
abbrev pub decl_span : Decl → Span
decl_span (error_decl s) = s
decl_span (value_object n) = n.span
decl_span (enum n) = n.span
decl_span (error_type n) = n.span
decl_span (event n) = n.span
decl_span (aggregate n) = n.span
decl_span (command n) = n.span
decl_span (use_case n) = n.span
decl_span (view n) = n.span
decl_span (projection n) = n.span
decl_span (query n) = n.span
decl_span (policy n) = n.span
decl_span (worker n) = n.span
decl_span (notification n) = n.span
decl_span (adapter n) = n.span
decl_span (foreign n) = n.span
decl_span (saga n) = n.span
decl_span (metric n) = n.span
decl_span (upcast n) = n.span
decl_span (module_decl n) = n.span
decl_span (interface n) = n.span
decl_span (topology n) = n.span
decl_span (version n) = n.span
decl_span (rate_limit_tier n) = n.span
decl_span (test n) = n.span
decl_span (fixture n) = n.span

-- The name, the kind and the visibility that a declaration is collected with.
abbrev pub declared_as : Decl → Option (Text × SymbolKind × Bool)
declared_as (value_object n) = some (n.name, Symbols.value_object, false)
declared_as (enum n) = some (n.name, Symbols.enum, false)
declared_as (error_type n) = some (n.name, Symbols.error, false)
declared_as (event n) = some (n.name, Symbols.event, n.public)
declared_as (aggregate n) = some (n.name, Symbols.aggregate, false)
declared_as (command n) = some (n.name, Symbols.command, false)
declared_as (use_case n) = some (n.name, Symbols.use_case, false)
declared_as (view n) = some (n.name, Symbols.view, false)
declared_as (projection n) = some (n.name, Symbols.projection, false)
declared_as (query n) = some (n.name, Symbols.query, false)
declared_as (policy n) = some (n.name, Symbols.policy, false)
declared_as (worker n) = some (n.name, Symbols.worker, false)
declared_as (notification n) = some (n.name, Symbols.notification, false)
declared_as (adapter n) = some (n.name, Symbols.adapter, false)
declared_as (saga n) = some (n.name, Symbols.saga, false)
declared_as (metric n) = some (n.name, Symbols.metric, false)
declared_as (fixture n) = some (n.name, Symbols.fixture, false)
declared_as _ = none

abbrev pub is_notification_adapter_pair : SymbolKind → SymbolKind → Bool
is_notification_adapter_pair Symbols.notification Symbols.adapter = true
is_notification_adapter_pair Symbols.adapter Symbols.notification = true
is_notification_adapter_pair _ _ = false

module _ (quote : Text → Text) where
  abbrev pub duplicate : Pos → SymbolKind → Text → SymbolKind → Diagnostic
  duplicate pos kind name existing = fault pos (
      codes "nome duplicado: "
      ++ (symbol_kind_string kind
          ++ (codes " "
              ++ (quote name
                  ++ (codes " já declarado como "
                      ++ (symbol_kind_string existing ++ codes " neste módulo"))))))

  -- The end of `collect`, by what `Define` answers.
  abbrev pub collected :
      Pos
      → SymbolKind
      → Text
      → Symbol Decl × Bool × SymbolTable Decl
      → List Diagnostic × SymbolTable Decl
  collected pos kind name (existing, fresh, t) =
      if fresh || is_notification_adapter_pair kind existing.kind
      then ([], t)
      else (duplicate pos kind name existing.kind ∷ [], t)

  abbrev pub collect_as :
      Text
      → Decl
      → Option (Text × SymbolKind × Bool)
      → SymbolTable Decl
      → List Diagnostic × SymbolTable Decl
  collect_as m d none t = ([], t)
  collect_as m d (some (name, kind, public)) t =
      if name == []
      then ([], t)
      else collected (decl_span d).start kind name (
          Symbols.define t
            (record { name = name; kind = kind; module_name = m; decl = d; public = public }))

  unfoldable pub collect : Text → Decl → SymbolTable Decl → List Diagnostic × SymbolTable Decl
  unfolding Symbols.define
  collect m d t = collect_as m d (declared_as d) t

  -- The loop of `Add`.
  unfoldable pub collect_all :
      Text → List Decl → SymbolTable Decl → List Diagnostic × SymbolTable Decl
  unfolding collect
  collect_all m [] t = ([], t)
  collect_all m (d ∷ ds) t =
      let (reports, t') = collect m d t in
      let (more, t'') = collect_all m ds t' in (reports ++ more, t'')

  -- `Add` on every unit.
  unfoldable pub add_units : List SourceUnit → SymbolTable Decl → List Diagnostic × SymbolTable Decl
  unfolding collect_all
  add_units [] t = ([], t)
  add_units (u ∷ us) t =
      let (reports, t') = collect_all u.module_name u.file.decls t in
      let (more, t'') = add_units us t' in (reports ++ more, t'')
