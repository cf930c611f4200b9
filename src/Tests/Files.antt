-- ===== src/Tests/Files.antt =====
-- The parser of files on texts that the lexer reads, and its theorems there.
use domainscript.Prelude.{
  ℕ, suc, ◌+◌, ◌*◌, ◌≤◌, ◌≡◌, refl, true, List, [], ◌∷◌, map, length, Text, String, codes, Option,
  some, none, Returns,
}
use domainscript.Token.{Pos, Token}
use domainscript.Lexer.{lex}
use domainscript.Diag
use domainscript.Diag.{has_errors}
use domainscript.Ast.{nowhere}
use domainscript.Ast.Decls.{TypeRef, type_ref, no_types, type_cons}
use domainscript.Parser.Decls.Fields.{parse_type_ref}
use domainscript.Parser.Decls.Fields.RoundTrip.{write, unspanned, parse_type_ref-write}
use domainscript.Ast.Files.{Decl, File}
use domainscript.Tests.{ascii}
use domainscript.Parser.{closing, Parser, at_end, new_parser}
use domainscript.Parser.Decls.Files.{parse}
use domainscript.Parser.Decls.Files.Sources.{parse-lex}
use domainscript.Parser.Decls.Files.Totality.{parse_total}
use domainscript.Parser.Decls.Files.Soundness.{parse-reports_error}

abbrev pub tokens_of : String → List Token
tokens_of s = elim (lex ascii (codes s)) [ some r ↦ r.0 | none ↦ [] ]

-- The kinds and names of the declarations of a file.
abbrev named : Decl → Text
named (Decl.error_decl s) = codes "?"
named (Decl.event d) = d.name
named (Decl.value_object d) = d.name
named (Decl.command d) = d.name
named (Decl.policy d) = d.name
named d = codes "-"

abbrev read : String → Option (List Text × ℕ)
read s = elim (parse (tokens_of s) (Diag.new_with_max 9)) [
  | some (file, p) ↦ some (map named file.decls, length p.bag.items)
  | none ↦ none
]

abbrev mixed : String
mixed = "Event Paid { amount Money, note ref List<string> = 3 } zzz Command Pay { amount Money }"

read-mixed : read mixed ≡ some (codes "Paid" ∷ codes "?" ∷ codes "Pay" ∷ [], 1)
unfolding parse lex
read-mixed = refl

parse_total_example :
    Returns
      (λ r.
        (at_end r.1 ≡ true)
        × (2 * length r.1.bag.items
            ≤ 2 * length (Diag.new_with_max 9).items + 2 + length (tokens_of mixed)))
      (parse (tokens_of mixed) (Diag.new_with_max 9))
parse_total_example = parse_total (tokens_of mixed) (Diag.new_with_max 9)

parse-lex_example :
    Returns
      (λ (toks, diags).
        Returns
          (λ r.
            (suc r.1.pos ≡ length toks)
            × (2 * length r.1.bag.items ≤ 2 * length (Diag.new_with_max 9).items + 2 + length toks))
          (parse toks (Diag.new_with_max 9)))
      (lex ascii (codes mixed))
parse-lex_example = parse-lex ascii (codes mixed) (Diag.new_with_max 9)

abbrev or_nothing : Option (File × Parser) → File × Parser
or_nothing (some r) = r
or_nothing none = (record { span = nowhere; decls = [] }, new_parser [] (Diag.new_with_max 0))

abbrev recovered : File × Parser
unfolding parse new_parser
recovered = or_nothing (parse (tokens_of mixed) (Diag.new_with_max 9))

parse-reports_error_example : has_errors recovered.1.bag ≡ true
unfolding parse lex
parse-reports_error_example = parse-reports_error (tokens_of mixed) 9 recovered refl refl

-- Map<string, List<Money>>
abbrev nested : TypeRef
nested = type_ref nowhere (codes "Map") (
    type_cons (type_ref nowhere (codes "string") no_types) (
      type_cons
        (type_ref nowhere (codes "List")
          (type_cons (type_ref nowhere (codes "Money") no_types) no_types))
        no_types))

abbrev start : Pos
start = record { line = 1; col = 1 }

parse_type_ref-write_example :
    let p = new_parser [] (Diag.new_with_max 9) in
    let end = closing [] start in
    (u : TypeRef) × (q : Parser) × (parse_type_ref (record p { ahead = write start nested end })
      ≡ some (u, q))
    × (unspanned u ≡ unspanned nested)
    × (q.ahead ≡ end)
    × (q.bag ≡ p.bag)
parse_type_ref-write_example =
    parse_type_ref-write start nested (new_parser [] (Diag.new_with_max 9)) (closing [] start) refl
