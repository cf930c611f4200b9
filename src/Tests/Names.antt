-- ===== src/Tests/Names.antt =====
-- The names of the generated code on concrete identifiers.
use domainscript.Prelude.{
  ◌≡◌, ◌≢◌, ℕ, ◌≤◌, refl, ◌↔◌, ◌⊎◌, true, false, [], ◌∷◌, ◌++◌, codes, text_eq, some, none,
}
use domainscript.Goname.{
  is_go_keyword, go_ident, operator_method, new_dedupe, register, register_all,
}
use domainscript.Goname.Idents.{go_ident-not_keyword, go_ident-joins}
use domainscript.Goname.Collisions.{register-distinct, register-collides}
use domainscript.Sema.Distance.{levenshtein}
use domainscript.Sema.Distance.Minimal.{Edits, levenshtein_exact}

operators :
    (operator_method (codes ">=") ≡ some (codes "Gte")) × (operator_method (codes "=>") ≡ none)
unfolding operator_method
operators = (refl, refl)

go_ident-not_keyword_example : is_go_keyword (go_ident (codes "type")) ≡ false
go_ident-not_keyword_example = go_ident-not_keyword (codes "type")

go_ident-joins_example : (go_ident (codes "type") ≡ go_ident (codes "type_")) ↔ (
    (codes "type" ≡ codes "type_")
    ⊎ (((is_go_keyword (codes "type") ≡ true) × (codes "type_" ≡ codes "type" ++ codes "_"))
        ⊎ ((is_go_keyword (codes "type_") ≡ true) × (codes "type" ≡ codes "type_" ++ codes "_"))))
go_ident-joins_example = go_ident-joins (codes "type") (codes "type_")

register-distinct_example :
    (register
      (register_all (register new_dedupe (codes "Wallet")).1 (codes "Order" ∷ codes "Wallet" ∷ []))
      (codes "Wallet")).0
    ≢ (register new_dedupe (codes "Wallet")).0
register-distinct_example =
    register-distinct new_dedupe (codes "Wallet") (codes "Order" ∷ codes "Wallet" ∷ [])

register-collides_example :
    let d = (register new_dedupe (codes "Order")).1 in
    let e = (register d (codes "Order2")).1 in
    (register d (codes "Order2")).0 ≡ (register e (codes "Order")).0
register-collides_example = register-collides (codes "Order")

kitten : levenshtein (codes "kitten") (codes "sitting") ≡ 3
unfolding levenshtein
kitten = refl

levenshtein_exact_example :
    (levenshtein (codes "kitten") (codes "sitting") ≤ 3)
    ↔ ((k : ℕ) × (k ≤ 3) × Edits k (codes "kitten") (codes "sitting"))
levenshtein_exact_example = levenshtein_exact (codes "kitten") (codes "sitting") 3
