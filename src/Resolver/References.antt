-- ===== src/Resolver/References.antt =====
-- resolver/resolver.go: the types, the commands and the events that declarations name. The table is
-- read, not changed.
use domainscript.Prelude.{
  Bool, true, false, ◌||◌, Option, none, some, List, [], ◌∷◌, ◌++◌, Text, codes, text_eq, ◌==◌,
  if◌then◌else◌,
}
use domainscript.Token.{Pos}
use domainscript.Diag.{Diagnostic}
use domainscript.Ast.Decls.{
  TypeRef, TypeRefs, type_ref, no_types, type_cons, Field, OperatorDecl, HandleDecl,
}
use domainscript.Ast.Files.{
  Decl, value_object, enum, event, aggregate, command, use_case, view, query, policy, notification,
  saga,
}
use domainscript.Symbols
use domainscript.Symbols.{Symbol, SymbolTable}
use domainscript.Resolver.Scope.Shadowing.{contains}
use domainscript.Resolver.Collect.{fault}

abbrev pub builtin_types : List Text
builtin_types =
    codes "integer"
    ∷ codes "decimal"
    ∷ codes "string"
    ∷ codes "boolean"
    ∷ codes "datetime"
    ∷ codes "bytes"
    ∷ codes "List"
    ∷ codes "AppendList"
    ∷ codes "Set"
    ∷ codes "Map"
    ∷ codes "File"
    ∷ codes "FileStream"
    ∷ codes "FileRef"
    ∷ []

abbrev pub is_some {ℓ} : {A : Type ℓ} → Option A → Bool
is_some (some a) = true
is_some none = false

module _ (quote : Text → Text) (t : SymbolTable Decl) (m : Text) where
  -- The name of a type on its own.
  unfoldable pub resolve_type_name : Pos → Text → List Diagnostic
  unfolding Symbols.lookup
  resolve_type_name pos name =
      if contains builtin_types name || is_some (Symbols.lookup t m name)
      then []
      else fault pos (codes "tipo não declarado: " ++ quote name) ∷ []

  unfoldable mutual
    unfolding resolve_type_name

    pub resolve_type : TypeRef → List Diagnostic
    resolve_type (type_ref s name args) =
        let rest = resolve_types args in
        if name == [] then [] else resolve_type_name s.start name ++ rest

    pub resolve_types : TypeRefs → List Diagnostic
    resolve_types no_types = []
    resolve_types (type_cons a args) = resolve_type a ++ resolve_types args

  abbrev pub resolve_type_opt : Option TypeRef → List Diagnostic
  unfolding resolve_type
  resolve_type_opt none = []
  resolve_type_opt (some a) = resolve_type a

  unfoldable pub resolve_fields : List Field → List Diagnostic
  unfolding resolve_type
  resolve_fields [] = []
  resolve_fields (f ∷ fs) = resolve_type f.type ++ resolve_fields fs

  abbrev pub resolve_operators : List OperatorDecl → List Diagnostic
  unfolding resolve_fields resolve_type
  resolve_operators [] = []
  resolve_operators (op ∷ ops) =
      resolve_fields op.params ++ (resolve_type op.return ++ resolve_operators ops)

  abbrev pub resolve_handlers : List HandleDecl → List Diagnostic
  unfolding resolve_fields
  resolve_handlers [] = []
  resolve_handlers (h ∷ hs) = resolve_fields h.params ++ resolve_handlers hs

  unfoldable pub resolve_handles : Text → Text → Text → Pos → List Diagnostic
  unfolding Symbols.lookup
  resolve_handles kw owner name pos =
      if name == [] || is_some (Symbols.lookup t m name)
      then []
      else fault pos (
          kw
          ++ (codes " " ++ (quote owner ++ (codes " trata Command não declarado: " ++ quote name))))
        ∷ []

  unfoldable pub resolve_on : Text → Text → Pos → List Diagnostic
  unfolding Symbols.lookup Symbols.find
  resolve_on owner name pos =
      if name == [] || is_some (Symbols.lookup t m name) || is_some (Symbols.find t name)
      then []
      else fault pos (
          codes "Policy "
          ++ (quote owner ++ (codes " reage a Event não declarado: " ++ quote name)))
        ∷ []

  unfoldable pub resolve_decl : Decl → List Diagnostic
  unfolding resolve_type resolve_fields resolve_handles resolve_on
  resolve_decl (value_object n) =
      resolve_type_opt n.base ++ (resolve_fields n.fields ++ resolve_operators n.operators)
  resolve_decl (enum n) = resolve_type_opt n.base
  resolve_decl (event n) = resolve_fields n.fields
  resolve_decl (command n) = resolve_fields n.fields
  resolve_decl (aggregate n) = resolve_fields n.state ++ resolve_handlers n.handlers
  resolve_decl (use_case n) = resolve_handles (codes "UseCase") n.name n.handles n.span.start
  resolve_decl (saga n) =
      resolve_handles (codes "Saga") n.name n.handles n.span.start ++ resolve_fields n.state
  resolve_decl (policy n) = resolve_on n.name n.on n.span.start
  resolve_decl (query n) = resolve_fields n.params ++ resolve_type_opt n.return
  resolve_decl (view n) = resolve_fields n.fields
  resolve_decl (notification n) = resolve_fields n.fields
  resolve_decl _ = []
