-- ===== src/Resolver/Config.antt =====
-- resolver/resolve_config.go: the names by which the configuration ties the topology together.
use domainscript.Prelude.{
  Bool, false, ◌||◌, Option, none, some, List, [], ◌∷◌, ◌++◌, Text, codes, text_eq, ◌==◌,
  if◌then◌else◌,
}
use domainscript.Token.{Pos}
use domainscript.Diag.{Diagnostic}
use domainscript.Ast.{Expr, Exprs, absent, ident, list, no_exprs, expr_cons}
use domainscript.Ast.Decls.{ConfigEntry}
use domainscript.Ast.Files.{
  ConfigBlock, Route, GrpcRpc, GrpcService, ServiceDef, ChannelDef, VersionRoute, VersionUpcast,
  VersionDowncast, Decl, module_decl, interface, topology, version,
}
use domainscript.Symbols
use domainscript.Symbols.{Symbol, SymbolKind, SymbolTable, symbol_kind_string}
use domainscript.Resolver.Scope.Shadowing.{contains}
use domainscript.Resolver.Collect.{SourceUnit, coded_fault}

-- `expectedRef`: in the space of symbols with the kinds that are accepted, or among the modules.
pub data ExpectedRef : Type 0 where
  symbol_of : Text → List SymbolKind → ExpectedRef
  module_of : Text → ExpectedRef

abbrev pub ref_aggregate : ExpectedRef
ref_aggregate = symbol_of (codes "Aggregate") (Symbols.aggregate ∷ [])

abbrev pub ref_operation : ExpectedRef
ref_operation = symbol_of (codes "UseCase ou Query") (Symbols.use_case ∷ Symbols.query ∷ [])

abbrev pub ref_use_case : ExpectedRef
ref_use_case = symbol_of (codes "UseCase") (Symbols.use_case ∷ [])

abbrev pub ref_command_view : ExpectedRef
ref_command_view = symbol_of (codes "Command ou View") (Symbols.command ∷ Symbols.view ∷ [])

abbrev pub ref_module : ExpectedRef
ref_module = module_of (codes "Module")

pub record ConfigRef : Type 0 where
  pub name : Text
  pub pos : Pos
  pub expect : ExpectedRef

abbrev pub config_value : List ConfigEntry → Text → Expr
config_value [] key = absent
config_value (e ∷ es) key = if e.key == key then e.value else config_value es key

-- The loop of `listRefs`.
abbrev pub ident_refs : Exprs → ExpectedRef → List ConfigRef
ident_refs no_exprs expect = []
ident_refs (expr_cons (ident s n) xs) expect =
    if n == []
    then ident_refs xs expect
    else record { name = n; pos = s.start; expect = expect } ∷ ident_refs xs expect
ident_refs (expr_cons _ xs) expect = ident_refs xs expect

abbrev pub refs_of_list : Expr → ExpectedRef → List ConfigRef
refs_of_list (list s xs) expect = ident_refs xs expect
refs_of_list _ expect = []

abbrev pub list_refs : List ConfigEntry → Text → ExpectedRef → List ConfigRef
list_refs entries key expect = refs_of_list (config_value entries key) expect

abbrev pub append_ref : List ConfigRef → Text → Pos → ExpectedRef → List ConfigRef
append_ref refs name pos expect =
    if name == [] then refs else refs ++ (record { name = name; pos = pos; expect = expect } ∷ [])

-- The loops of `collectConfigRefs`, each on the references so far.
abbrev pub block_refs : List ConfigRef → List ConfigBlock → List ConfigRef
block_refs refs [] = refs
block_refs refs (b ∷ bs) =
    if b.kind == codes "Database"
    then block_refs (refs ++ list_refs b.entries (codes "manages") ref_aggregate) bs
    else block_refs refs bs

abbrev pub route_refs : List ConfigRef → List Route → List ConfigRef
route_refs refs [] = refs
route_refs refs (rt ∷ rts) = route_refs (append_ref refs rt.target rt.span.start ref_operation) rts

abbrev pub rpc_refs : List ConfigRef → Pos → List GrpcRpc → List ConfigRef
rpc_refs refs pos [] = refs
rpc_refs refs pos (rpc ∷ rpcs) = rpc_refs (append_ref refs rpc.target pos ref_operation) pos rpcs

abbrev pub grpc_refs : List ConfigRef → List GrpcService → List ConfigRef
grpc_refs refs [] = refs
grpc_refs refs (svc ∷ svcs) = grpc_refs (rpc_refs refs svc.span.start svc.rpcs) svcs

abbrev pub service_refs : List ConfigRef → List ServiceDef → List ConfigRef
service_refs refs [] = refs
service_refs refs (s ∷ ss) =
    service_refs (refs ++ list_refs s.entries (codes "modules") ref_module) ss

abbrev pub channel_refs : List ConfigRef → List ChannelDef → List ConfigRef
channel_refs refs [] = refs
channel_refs refs (c ∷ cs) =
    channel_refs
      (append_ref (append_ref refs c.from c.span.start ref_module) c.to c.span.start ref_module) cs

abbrev pub version_route_refs : List ConfigRef → List VersionRoute → List ConfigRef
version_route_refs refs [] = refs
version_route_refs refs (rt ∷ rts) =
    version_route_refs (append_ref refs rt.target rt.span.start ref_use_case) rts

abbrev pub upcast_refs : List ConfigRef → List VersionUpcast → List ConfigRef
upcast_refs refs [] = refs
upcast_refs refs (up ∷ ups) =
    upcast_refs (append_ref refs up.target up.span.start ref_command_view) ups

abbrev pub downcast_refs : List ConfigRef → List VersionDowncast → List ConfigRef
downcast_refs refs [] = refs
downcast_refs refs (dn ∷ dns) =
    downcast_refs (append_ref refs dn.target dn.span.start ref_command_view) dns

unfoldable pub collect_config_refs : Decl → List ConfigRef
collect_config_refs (module_decl n) = block_refs [] n.blocks
collect_config_refs (interface n) = grpc_refs (route_refs [] n.routes) n.services
collect_config_refs (topology n) = channel_refs (service_refs [] n.services) n.channels
collect_config_refs (version n) =
    downcast_refs (upcast_refs (version_route_refs [] n.routes) n.upcasts) n.downcasts
collect_config_refs _ = []

-- The modules that a file declares, the map as the list of its keys.
abbrev pub modules_in : List Decl → List Text
modules_in [] = []
modules_in (module_decl n ∷ ds) = if n.name == [] then modules_in ds else n.name ∷ modules_in ds
modules_in (_ ∷ ds) = modules_in ds

unfoldable pub declared_modules : List SourceUnit → List Text
declared_modules [] = []
declared_modules (u ∷ us) = modules_in u.file.decls ++ declared_modules us

-- `==` on kinds, which have names of their own.
abbrev pub kind_allowed : SymbolKind → List SymbolKind → Bool
kind_allowed k [] = false
kind_allowed k (a ∷ allowed) =
    symbol_kind_string k == symbol_kind_string a || kind_allowed k allowed

abbrev pub code_config_ref : Text
code_config_ref = codes "E101"

module _ (quote : Text → Text) (t : SymbolTable Decl) (modules : List Text) (m : Text) where
  abbrev pub undeclared_ref : ConfigRef → Text → List Diagnostic
  undeclared_ref ref label =
      coded_fault ref.pos code_config_ref (
        codes "referência de configuração não declarada: "
        ++ (quote ref.name ++ (codes " (esperava " ++ (label ++ codes ")"))))
      ∷ []

  abbrev pub check_kind :
      ConfigRef → Text → List SymbolKind → Option (Symbol Decl) → List Diagnostic
  check_kind ref label kinds none = undeclared_ref ref label
  check_kind ref label kinds (some sym) =
      if kind_allowed sym.kind kinds
      then []
      else coded_fault ref.pos code_config_ref (
          codes "referência de configuração "
          ++ (quote ref.name
              ++ (codes ": esperava "
                  ++ (label ++ (codes ", encontrou " ++ symbol_kind_string sym.kind)))))
        ∷ []

  abbrev pub resolve_ref_as : ConfigRef → ExpectedRef → List Diagnostic
  unfolding Symbols.lookup Symbols.find
  resolve_ref_as ref (module_of label) =
      if contains modules ref.name then [] else undeclared_ref ref label
  resolve_ref_as ref (symbol_of label kinds) =
      check_kind ref label kinds
        (Symbols.or_else (Symbols.lookup t m ref.name) (Symbols.find t ref.name))

  unfoldable pub resolve_config_ref : ConfigRef → List Diagnostic
  unfolding Symbols.lookup Symbols.find
  resolve_config_ref ref = resolve_ref_as ref ref.expect

  unfoldable pub resolve_config_refs : List ConfigRef → List Diagnostic
  unfolding resolve_config_ref
  resolve_config_refs [] = []
  resolve_config_refs (ref ∷ refs) = resolve_config_ref ref ++ resolve_config_refs refs
