-- ===== src/Sema/Domain.antt =====
-- sema/rules_types.go, sema/rules_domain.go and sema/rules_program.go: the rules on the types of
-- the write side, on access, on adapters and on events of other modules.
use domainscript.Prelude.{
  Bool, true, false, not, ◌&&◌, ◌||◌, Option, none, some, List, [], ◌∷◌, ◌++◌, Text, codes, text_eq,
  ◌==◌, if◌then◌else◌,
}
use domainscript.Token.{Pos}
use domainscript.Diag.{Diagnostic}
use domainscript.Ast.{Expr, absent, call, member}
use domainscript.Ast.Decls.{
  TypeRef, type_ref, Field, AccessRule, HandleDecl, ApplyDecl, AggregateDecl, MapEntry,
}
use domainscript.Ast.Files.{Decl, VersionUpcast, VersionDecl}
use domainscript.Astutil.{for_each_expr_in_block, state_field}
use domainscript.Symbols
use domainscript.Symbols.{Symbol, SymbolKind, SymbolTable, symbol_kind_string}
use domainscript.Resolver.Scope.Shadowing.{contains}
use domainscript.Resolver.Collect.{SourceUnit, fault}
use domainscript.Resolver.References.{is_some}
use domainscript.Resolver.Resolve.{each_unit}

abbrev pub primitive_types : List Text
primitive_types =
    codes "integer" ∷ codes "decimal" ∷ codes "string" ∷ codes "boolean" ∷ codes "datetime" ∷ []

abbrev pub type_name : TypeRef → Text
type_name (type_ref s n args) = n

abbrev pub type_pos : TypeRef → Pos
type_pos (type_ref s n args) = s.start

-- The fields of `state` that are of the type `AppendList`.
abbrev pub append_lists : List Field → List Text
append_lists [] = []
append_lists (f ∷ fs) =
    if type_name f.type == codes "AppendList" then f.name ∷ append_lists fs else append_lists fs

abbrev pub rule_names : List AccessRule → List Text
rule_names [] = []
rule_names (r ∷ rs) = r.name ∷ rule_names rs

abbrev pub assigned_names : List MapEntry → List Text
assigned_names [] = []
assigned_names (e ∷ es) = e.name ∷ assigned_names es

-- The key of a name in a module: `module + "\x00" + name`.
abbrev pub scoped : Text → Text → Text
scoped m name = m ++ (0 ∷ name)

abbrev pub adapters_in : Text → List Decl → List Text
adapters_in m [] = []
adapters_in m (Decl.adapter a ∷ ds) =
    if a.name == [] then adapters_in m ds else scoped m a.name ∷ adapters_in m ds
adapters_in m (_ ∷ ds) = adapters_in m ds

abbrev pub adapters_of : List SourceUnit → List Text
adapters_of [] = []
adapters_of (u ∷ us) = adapters_in u.module_name u.file.decls ++ adapters_of us

abbrev pub is_event : SymbolKind → Bool
is_event Symbols.event = true
is_event _ = false

module _ (quote : Text → Text) where
  abbrev pub primitive_used : Text → Text → Field → Diagnostic
  primitive_used kind owner f = fault (type_pos f.type) (
      codes "primitivo "
      ++ (quote (type_name f.type)
          ++ (codes " proibido no Write Side: o campo "
              ++ (quote f.name
                  ++ (codes " de "
                      ++ (kind
                          ++ (codes " "
                              ++ (quote owner ++ codes " deve usar um ValueObject ou Enum"))))))))

  unfoldable pub check_write_side_primitives : Text → Text → List Field → List Diagnostic
  check_write_side_primitives kind owner [] = []
  check_write_side_primitives kind owner (f ∷ fs) =
      let rest = check_write_side_primitives kind owner fs in
      if contains primitive_types (type_name f.type)
      then primitive_used kind owner f ∷ rest
      else rest

  abbrev pub list_changed : Pos → Text → Text → Diagnostic
  list_changed pos method field = fault pos (
      method
      ++ (codes "() é proibido em AppendList: o campo de state "
          ++ (quote field ++ codes " é append-only (use apenas add())")))

  -- The visitor of `checkAppendListMutation`.
  abbrev pub flag_call : List Text → Pos → Expr → List Diagnostic
  unfolding state_field
  flag_call lists pos (member s x n p) =
      if (n == codes "remove" || n == codes "clear")
        && not (state_field x == [])
        && contains lists (state_field x)
      then list_changed pos n (state_field x) ∷ []
      else []
  flag_call lists pos _ = []

  abbrev pub flag : List Text → List Expr → List Diagnostic
  unfolding state_field
  flag lists [] = []
  flag lists (call s f xs ∷ es) = flag_call lists s.start f ++ flag lists es
  flag lists (_ ∷ es) = flag lists es

  abbrev pub flag_handlers : List Text → List HandleDecl → List Diagnostic
  unfolding for_each_expr_in_block state_field
  flag_handlers lists [] = []
  flag_handlers lists (h ∷ hs) =
      flag lists (for_each_expr_in_block (some h.body)) ++ flag_handlers lists hs

  abbrev pub flag_appliers : List Text → List ApplyDecl → List Diagnostic
  unfolding for_each_expr_in_block state_field
  flag_appliers lists [] = []
  flag_appliers lists (a ∷ as') =
      flag lists (for_each_expr_in_block (some a.body)) ++ flag_appliers lists as'

  abbrev pub flag_lists : AggregateDecl → List Text → List Diagnostic
  unfolding for_each_expr_in_block state_field
  flag_lists agg [] = []
  flag_lists agg (l ∷ ls) =
      flag_handlers (l ∷ ls) agg.handlers ++ flag_appliers (l ∷ ls) agg.appliers

  unfoldable pub check_append_list_mutation : AggregateDecl → List Diagnostic
  unfolding for_each_expr_in_block state_field
  check_append_list_mutation agg = flag_lists agg (append_lists agg.state)

  abbrev pub closed_handle : Text → HandleDecl → Diagnostic
  closed_handle owner h = fault h.span.start (
      codes "Handle "
      ++ (quote h.name
          ++ (codes " do Aggregate "
              ++ (quote owner
                  ++ codes " não tem entrada no bloco access (acesso é closed-by-default)"))))

  -- The loop of `checkAggregateAccess`.
  abbrev pub closed_handles : Text → List Text → List HandleDecl → List Diagnostic
  closed_handles owner allowed [] = []
  closed_handles owner allowed (h ∷ hs) =
      let rest = closed_handles owner allowed hs in
      if h.name == [] || contains allowed h.name then rest else closed_handle owner h ∷ rest

  unfoldable pub check_aggregate_access : AggregateDecl → List Diagnostic
  check_aggregate_access agg = closed_handles agg.name (rule_names agg.access) agg.handlers

  abbrev pub unadapted : List Text → Text → Decl → List Diagnostic
  unadapted adapters m (Decl.notification n) =
      if n.name == [] || contains adapters (scoped m n.name)
      then []
      else fault n.span.start (
          codes "Notification "
          ++ (quote n.name
              ++ codes " não tem Adapter correspondente (§9.1): declare um Adapter de mesmo nome"))
        ∷ []
  unadapted adapters m _ = []

  unfoldable pub check_notification_adapters : List SourceUnit → List Diagnostic
  check_notification_adapters us = each_unit (unadapted (adapters_of us)) us

  abbrev pub missing_default : VersionUpcast → Text → Text → Diagnostic
  missing_default up version field = fault up.span.start (
      codes "upcast de "
      ++ (quote up.target
          ++ (codes " na versão "
              ++ (version
                  ++ (codes " não atribui o campo obrigatório "
                      ++ (quote field
                          ++ codes
                              " e ele não tem default: forneça um valor no bloco `to` (§17)"))))))

  abbrev pub is_absent : Expr → Bool
  is_absent absent = true
  is_absent _ = false

  abbrev pub unassigned : VersionUpcast → Text → List Text → List Field → List Diagnostic
  unassigned up version assigned [] = []
  unassigned up version assigned (f ∷ fs) =
      let rest = unassigned up version assigned fs in
      if f.name == [] || not (is_absent f.default) || contains assigned f.name
      then rest
      else missing_default up version f.name ∷ rest

  abbrev pub unassigned_of : VersionUpcast → Text → Option (Symbol Decl) → List Diagnostic
  unassigned_of up version none = []
  unassigned_of up version (some sym) = unassigned_in sym.decl
    where
      unassigned_in : Decl → List Diagnostic
      unassigned_in (Decl.command cmd) = unassigned up version (assigned_names up.to) cmd.fields
      unassigned_in _ = []

  module _ (tab : SymbolTable Decl) where
    -- The loop of `checkVersionUpcastDefaults`.
    abbrev pub check_upcasts : Text → Text → List VersionUpcast → List Diagnostic
    unfolding Symbols.lookup
    check_upcasts m version [] = []
    check_upcasts m version (up ∷ ups) =
        let rest = check_upcasts m version ups in
        if up.target == []
        then rest
        else unassigned_of up version (Symbols.lookup tab m up.target) ++ rest

    unfoldable pub check_version_upcast_defaults : Text → VersionDecl → List Diagnostic
    unfolding Symbols.lookup
    check_version_upcast_defaults m v = check_upcasts m v.version v.upcasts

    abbrev pub foreign_event : Text → Pos → Text → Text → Option (Symbol Decl) → List Diagnostic
    foreign_event m pos policy event none = []
    foreign_event m pos policy event (some sym) =
        if not (is_event sym.kind) || sym.public || sym.module_name == m
        then []
        else fault pos (
            codes "Policy "
            ++ (quote policy
                ++ (codes " reage ao Event "
                    ++ (quote event
                        ++ (codes " do módulo "
                            ++ (quote sym.module_name
                                ++ codes
                                    ", que não é PublicEvent: exporte-o como PublicEvent para consumo cross-module (§7)"))))))
          ∷ []

    abbrev pub private_event : Text → Decl → List Diagnostic
    unfolding Symbols.lookup Symbols.find
    private_event m (Decl.policy pol) =
        if pol.on == [] || is_some (Symbols.lookup tab m pol.on)
        then []
        else foreign_event m pol.span.start pol.name pol.on (Symbols.find tab pol.on)
    private_event m _ = []

    unfoldable pub check_policy_public_event : List SourceUnit → List Diagnostic
    unfolding Symbols.lookup Symbols.find
    check_policy_public_event us = each_unit private_event us
