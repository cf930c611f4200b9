-- ===== src/Sema/Coverage.antt =====
-- sema/rules_warnings.go: the handles whose errors no scenario of a test exercises. The map of
-- tested handles is kept by the key of the aggregate.
use domainscript.Prelude.{
  Bool, true, false, not, ◌&&◌, ◌||◌, Option, none, some, List, [], ◌∷◌, ◌++◌, Text, codes, Map,
  text_eq, ◌==◌, if◌then◌else◌,
}
use domainscript.Prelude
use domainscript.Diag.{Diagnostic}
use domainscript.Ast.{ident, Stmt, expr_stmt, ensure_stmt, block_stmt}
use domainscript.Ast.Decls.{HandleDecl}
use domainscript.Ast.Files.{Decl, ScenarioDecl, WhenClause, ThenClause}
use domainscript.Astutil.{for_each_stmt, head_name}
use domainscript.Symbols
use domainscript.Symbols.{Symbol, SymbolKind, SymbolTable}
use domainscript.Resolver.Scope.Shadowing.{contains}
use domainscript.Resolver.Collect.{SourceUnit}
use domainscript.Resolver.Resolve.{each_unit}
use domainscript.Sema.Domain.{scoped}
use domainscript.Sema.Warnings.{warned}

-- The handle that a scenario calls to see an error.
abbrev pub error_handle : Option WhenClause → Option ThenClause → List Text
unfolding head_name
error_handle (some w) (some t) =
    if t.error == [] || head_name w.action == [] then [] else head_name w.action ∷ []
error_handle _ _ = []

abbrev pub error_handles : List ScenarioDecl → List Text
unfolding head_name
error_handles [] = []
error_handles (sc ∷ scs) = error_handle sc.when sc.then ++ error_handles scs

abbrev pub or_none : Option (List Text) → List Text
or_none (some hs) = hs
or_none none = []

-- `testedErrorHandles`: a test under the name of an earlier one adds to its handles.
abbrev pub add_tests : Text → List Decl → Map Text (List Text) → Map Text (List Text)
unfolding head_name
add_tests m [] out = out
add_tests m (Decl.test t ∷ ds) out =
    let key = scoped m t.name in
    add_tests m ds
      (Prelude.insert key (or_none (Prelude.lookup key out) ++ error_handles t.scenarios) out)
add_tests m (_ ∷ ds) out = add_tests m ds out

unfoldable pub tested_error_handles : List SourceUnit → Map Text (List Text) → Map Text (List Text)
unfolding head_name
tested_error_handles [] out = out
tested_error_handles (u ∷ us) out =
    tested_error_handles us (add_tests u.module_name u.file.decls out)

abbrev pub is_error_kind : SymbolKind → Bool
is_error_kind Symbols.error = true
is_error_kind _ = false

abbrev pub names_error : Option (Symbol Decl) → Bool
names_error (some sym) = is_error_kind sym.kind
names_error none = false

module _ (tab : SymbolTable Decl) (m : Text) where
  -- The visitor of `handleRaisesError`.
  abbrev pub raises : Stmt → Bool
  unfolding Symbols.lookup
  raises (ensure_stmt s c (expr_stmt t (ident r n))) = names_error (Symbols.lookup tab m n)
  raises _ = false

  abbrev pub any_raises : List Stmt → Bool
  unfolding Symbols.lookup
  any_raises [] = false
  any_raises (s ∷ ss) = raises s || any_raises ss

  unfoldable pub handle_raises_error : HandleDecl → Bool
  unfolding Symbols.lookup for_each_stmt
  handle_raises_error h = any_raises (for_each_stmt (block_stmt h.body))

module _ (quote : Text → Text) (tab : SymbolTable Decl) where
  abbrev pub untested : Text → HandleDecl → Diagnostic
  untested owner h = warned h.span.start (
      codes "Handle "
      ++ (quote h.name
          ++ (codes " do Aggregate "
              ++ (quote owner
                  ++ codes
                      " tem caminho de erro de negócio sem cenário de teste de erro (cobertura, §22.7)"))))

  abbrev pub uncovered : Text → Text → List Text → List HandleDecl → List Diagnostic
  unfolding handle_raises_error
  uncovered m owner covered [] = []
  uncovered m owner covered (h ∷ hs) =
      let rest = uncovered m owner covered hs in
      if not (h.name == []) && handle_raises_error tab m h && not (contains covered h.name)
      then untested owner h ∷ rest
      else rest

  -- An aggregate without a test is left alone.
  abbrev pub coverage_by : Text → Text → List HandleDecl → Option (List Text) → List Diagnostic
  unfolding handle_raises_error
  coverage_by m owner hs none = []
  coverage_by m owner hs (some covered) = uncovered m owner covered hs

  abbrev pub coverage_of : Map Text (List Text) → Text → Decl → List Diagnostic
  unfolding handle_raises_error
  coverage_of tested m (Decl.aggregate agg) =
      coverage_by m agg.name agg.handlers (Prelude.lookup (scoped m agg.name) tested)
  coverage_of tested m _ = []

  unfoldable pub check_handle_error_coverage : List SourceUnit → List Diagnostic
  unfolding handle_raises_error tested_error_handles
  check_handle_error_coverage us = each_unit (coverage_of (tested_error_handles us [])) us
