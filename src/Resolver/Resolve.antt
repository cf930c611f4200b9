-- ===== src/Resolver/Resolve.antt =====
-- resolver/resolver.go: the passes over the units of a program, and what they leave in the bag.
use domainscript.Prelude.{List, [], ◌∷◌, ◌++◌, Text}
use domainscript.Diag
use domainscript.Diag.{Diagnostic, DiagnosticBag}
use domainscript.Ast.Files.{Decl, File}
use domainscript.Symbols
use domainscript.Symbols.{SymbolTable}
use domainscript.Resolver.Collect.{SourceUnit, add_units}
use domainscript.Resolver.References.{resolve_decl}
use domainscript.Resolver.Bodies.Declarations.{resolve_decl_bodies}
use domainscript.Resolver.Config.{collect_config_refs, declared_modules, resolve_config_refs}

-- A pass over the declarations of every unit.
abbrev pub each_decl : (Text → Decl → List Diagnostic) → Text → List Decl → List Diagnostic
each_decl pass m [] = []
each_decl pass m (d ∷ ds) = pass m d ++ each_decl pass m ds

abbrev pub each_unit : (Text → Decl → List Diagnostic) → List SourceUnit → List Diagnostic
each_unit pass [] = []
each_unit pass (u ∷ us) = each_decl pass u.module_name u.file.decls ++ each_unit pass us

module _ (quote : Text → Text) where
  unfoldable pub resolve_bodies : SymbolTable Decl → List SourceUnit → List Diagnostic
  unfolding resolve_decl_bodies
  resolve_bodies t us = each_unit (λ m d. resolve_decl_bodies quote t m d) us

  unfoldable pub resolve_config : SymbolTable Decl → List SourceUnit → List Diagnostic
  unfolding resolve_config_refs collect_config_refs declared_modules
  resolve_config t us =
      each_unit (λ m d. resolve_config_refs quote t (declared_modules us) m (collect_config_refs d))
        us

  unfoldable pub resolve_all : SymbolTable Decl → List SourceUnit → List Diagnostic
  unfolding resolve_decl resolve_bodies resolve_config
  resolve_all t us =
      each_unit (λ m d. resolve_decl quote t m d) us ++ (resolve_bodies t us ++ resolve_config t us)

  -- `Add` of every unit and then `ResolveAll`, on a fresh resolver with the bag.
  unfoldable pub resolve_units : List SourceUnit → DiagnosticBag → SymbolTable Decl × DiagnosticBag
  unfolding add_units resolve_all Diag.add_all
  resolve_units us bag =
      let (reports, t) = add_units quote us Symbols.empty in
      (t, Diag.add_all bag (reports ++ resolve_all t us))

  -- `Resolve`
  unfoldable pub resolve : File → DiagnosticBag → SymbolTable Decl × DiagnosticBag
  unfolding resolve_units
  resolve file bag = resolve_units (record { module_name = []; file = file } ∷ []) bag
