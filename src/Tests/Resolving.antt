-- ===== src/Tests/Resolving.antt =====
-- The resolver on files that the lexer and the parser read.
use domainscript.Prelude.{
  ℕ, ◌≡◌, refl, true, false, List, [], ◌∷◌, ◌++◌, map, length, Text, String, codes, Option, some,
  none, Map, text_eq,
}
use domainscript.Prelude
use domainscript.Lexer.{lex}
use domainscript.Diag
use domainscript.Diag.{Diagnostic}
use domainscript.Ast.{nowhere, Block, block, no_stmts}
use domainscript.Ast.Decls.{Field}
use domainscript.Ast.Files.{Decl, File}
use domainscript.Symbols
use domainscript.Symbols.{Symbol, SymbolTable}
use domainscript.Symbols.Laws.{declared}
use domainscript.Resolver.Scope.{new_scope, construct_query, contextual_receiver_names}
use domainscript.Resolver.Collect.{SourceUnit, add_units}
use domainscript.Resolver.Collect.First.{first_of, add_units-first}
use domainscript.Resolver.Bodies.Declarations.{resolve_body}
use domainscript.Resolver.Bodies.Free.{free_block}
use domainscript.Resolver.Bodies.Free.Reports.{reports_of}
use domainscript.Resolver.Bodies.Free.Statements.{hide_all, group_names, resolve_body-free}
use domainscript.Resolver.Resolve.{resolve_units}
use domainscript.Parser.Decls.Files.{parse}
use domainscript.Tests.Files.{tokens_of}

abbrev file_of : String → File
unfolding parse
file_of s = elim (parse (tokens_of s) (Diag.new_with_max 9)) [
  | some (file, p) ↦ file
  | none ↦ record { span = nowhere; decls = [] }
]

abbrev pub plain : Text → Text
plain name = name

abbrev unit_of : String → String → SourceUnit
unit_of m s = record { module_name = codes m; file = file_of s }

abbrev sales : String
sales =
    "Event Paid { amount Money } Query Total(from integer) integer { x = from + y return x + z } Command Paid { amount integer }"

abbrev pub messages : List Diagnostic → List Text
messages ds = map (λ (d : Diagnostic). d.msg) ds

-- The passes report in their order: the collection, the types, the bodies.
resolve-sales :
    messages (resolve_units plain (unit_of "sales" sales ∷ []) (Diag.new_with_max 9)).1.items
    ≡ codes "nome duplicado: Command Paid já declarado como Event neste módulo"
      ∷ codes "tipo não declarado: Money"
      ∷ codes "nome não declarado: y"
      ∷ codes "nome não declarado: z"
      ∷ []
unfolding resolve_units file_of parse lex Diag.key Prelude.itoa
resolve-sales = refl

add_units-first_example :
    declared
      (add_units plain (unit_of "sales" sales ∷ []) Symbols.empty).1
      (codes "sales")
      (codes "Paid")
    ≡ first_of (unit_of "sales" sales ∷ []) (codes "sales") (codes "Paid")
add_units-first_example =
    add_units-first plain (unit_of "sales" sales ∷ []) (codes "sales") (codes "Paid")

abbrev body_in : List Decl → Block
body_in (Decl.query q ∷ ds) = q.body
body_in (_ ∷ ds) = body_in ds
body_in [] = block nowhere no_stmts

abbrev params_in : List Decl → List Field
params_in (Decl.query q ∷ ds) = q.params
params_in (_ ∷ ds) = params_in ds
params_in [] = []

resolve_body-free_example :
    resolve_body plain Symbols.empty
      (codes "sales")
      (some (body_in (file_of sales).decls))
      construct_query
      (params_in (file_of sales).decls ∷ [])
    ≡ reports_of plain Symbols.empty (codes "sales") new_scope (
        hide_all
          (contextual_receiver_names construct_query
            ++ group_names (params_in (file_of sales).decls ∷ []))
          (free_block (body_in (file_of sales).decls)))
resolve_body-free_example =
    resolve_body-free plain Symbols.empty (codes "sales") (body_in (file_of sales).decls)
      construct_query (params_in (file_of sales).decls ∷ [])
