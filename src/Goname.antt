-- ===== src/Goname.antt =====
-- codegen/goname/names.go: the Go names of the identifiers of the program. The tables of `unicode`
-- behind `ToUpper` and `ToLower`, and the verb `%q`, are parameters.
pub mod Idents
pub mod Collisions
use domainscript.Prelude.{
  ℕ, ◌+◌, Bool, true, false, ◌||◌, Option, none, some, List, [], ◌∷◌, ◌++◌, map, Text, codes, itoa,
  Map, text_eq, ◌==◌, ltb, if◌then◌else◌,
}
use domainscript.Prelude

-- The keys of `goKeywords`.
abbrev pub go_keywords : List Text
go_keywords = map codes (
    "break" ∷ "default" ∷ "func" ∷ "interface" ∷ "select" ∷ "case" ∷ "defer" ∷ "go" ∷ "map"
    ∷ "struct" ∷ "chan" ∷ "else" ∷ "goto" ∷ "package" ∷ "switch" ∷ "const" ∷ "fallthrough" ∷ "if"
    ∷ "range" ∷ "type" ∷ "continue" ∷ "for" ∷ "import" ∷ "return" ∷ "var" ∷ [])

abbrev pub listed : List Text → Text → Bool
listed [] s = false
listed (w ∷ ws) s = w == s || listed ws s

abbrev pub is_go_keyword : Text → Bool
is_go_keyword = listed go_keywords

abbrev pub operator_methods : Map Text Text
operator_methods =
    (codes "+", codes "Add")
    ∷ (codes "-", codes "Sub")
    ∷ (codes "*", codes "Mul")
    ∷ (codes "/", codes "Div")
    ∷ (codes ">=", codes "Gte")
    ∷ (codes "<=", codes "Lte")
    ∷ (codes ">", codes "Gt")
    ∷ (codes "<", codes "Lt")
    ∷ (codes "==", codes "Eq")
    ∷ (codes "!=", codes "Neq")
    ∷ []

unfoldable pub operator_method : Text → Option Text
operator_method op = Prelude.lookup op operator_methods

module _ (to_upper to_lower : ℕ → ℕ) (quote : Text → Text) where
  unfoldable pub export_field : Text → Text
  export_field [] = []
  export_field (r ∷ name) = to_upper r ∷ name

  unfoldable pub json_tag : Text → Text
  json_tag original_name = codes "`json:" ++ (quote original_name ++ codes "`")

  unfoldable pub package_name : Text → Text
  package_name module_name = map to_lower module_name

unfoldable pub enum_const_name : Text → Text → Text
enum_const_name enum_type member = enum_type ++ member

-- `Ident`
unfoldable pub go_ident : Text → Text
go_ident name = if is_go_keyword name then name ++ codes "_" else name

unfoldable pub qualified_ref : Text → Text → Text
qualified_ref pkg_alias name = pkg_alias ++ (codes "." ++ name)

-- `Dedupe`: how often each name has been registered.
pub record Dedupe : Type 0 where
  pub seen : Map Text ℕ

abbrev pub new_dedupe : Dedupe
new_dedupe = record { seen = [] }

-- `d.seen[name]`: a missing key reads as 0.
abbrev pub or_zero : Option ℕ → ℕ
or_zero (some n) = n
or_zero none = 0

abbrev pub times : Dedupe → Text → ℕ
times d name = or_zero (Prelude.lookup name d.seen)

-- The name at its `n`-th registration.
abbrev pub numbered : Text → ℕ → Text
numbered name n = if ltb 1 n then name ++ itoa n else name

-- `Register`: the name to use, and the counts that it leaves.
unfoldable pub register : Dedupe → Text → Text × Dedupe
register d name =
    let n = times d name + 1 in (numbered name n, record { seen = Prelude.insert name n d.seen })

-- The counts behind a list of registrations.
unfoldable pub register_all : Dedupe → List Text → Dedupe
unfolding register
register_all d [] = d
register_all d (name ∷ names) = register_all (register d name).1 names
