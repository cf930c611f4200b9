-- ===== src/Token/Lookup.antt =====
-- token/token.go: the map `keywords`, as `init` fills it, and `Lookup`.
use domainscript.Prelude.{
  Bool, true, false, Option, none, some, List, [], ◌∷◌, Text, Map, text_eq, if◌then◌else◌,
}
use domainscript.Prelude
use domainscript.Token.Kinds.{Kind, ident, all_kinds, is_keyword, kinds}

-- The kinds between `keyword_beg` and `keyword_end`, in the order of the loop.
abbrev pub select_keywords : List Kind → List Kind
unfolding is_keyword
select_keywords [] = []
select_keywords (k ∷ ks) = if is_keyword k then k ∷ select_keywords ks else select_keywords ks

-- The body of the loop: `keywords[kinds[k]] = k`.
unfoldable pub init_keywords : Map Text Kind → List Kind → Map Text Kind
init_keywords m [] = m
init_keywords m (k ∷ ks) = init_keywords (Prelude.insert (kinds k) k m) ks

unfoldable pub keywords : Map Text Kind
unfolding init_keywords is_keyword
keywords = init_keywords [] (select_keywords all_kinds)

abbrev pub or_ident : Option Kind → Kind
or_ident (some k) = k
or_ident none = ident

unfoldable pub lookup_ident : Text → Kind
unfolding keywords
lookup_ident s = or_ident (Prelude.lookup s keywords)
