-- ===== src/Parser/Decls/Fields.antt =====
-- parser/parse_decl.go: names, types, fields and parameters, and the blocks of entries.
pub mod RoundTrip
use domainscript.Prelude.{
  ℕ, zero, suc, ◌≡◌, refl, Bool, true, false, none, List, [], ◌∷◌, ◌==◌, text_eq, Text, arith,
  Returns-if,
}
use domainscript.Token.{
  Kind, kind_eq, eof, lt, gt, ident, ref, assign, lparen, rparen, colon, versionid, string,
}
use domainscript.Ast.{Expr, absent, Block}
use domainscript.Ast.Decls.{
  TypeRef, TypeRefs, type_ref, no_types, type_cons, Field, ConfigEntry, MapEntry, StorageEntry,
  AccessRule,
}
use domainscript.Parser.Cursor.{
  count, cur, at, accept, expect, parse_ident_name, is_nameable_keyword,
}
use domainscript.Parser.Operands.{Parse}
use domainscript.Parser.Expressions.{parse_expr}
use domainscript.Parser.Statements.{parse_block, parse_stmt}
use domainscript.Parser.Blocks.{parse_block-Fits, parse_stmt-Ends}
use domainscript.Parser.Moves.{advance-Moved, advance_strict, at-not_end}
use domainscript.Parser.Loops.{after}
use domainscript.Parser.Sequence.{
  pure, run, ◌⟶◌∣◌, ◌>>=◌, ◌>>◌, mark, close_span, skip, take_lit, take_kind, complain,
  at_ident_lit, skip_word, comma_list, braces, append, collect,
}
use domainscript.Parser.Sequence.Reads.{Reads, read_rules}

-- At a token that is consumed, the rest of the step has fewer tokens ahead.
pub Reads-past :
    {A : Type 0} {n : ℕ} (k : Kind) (m y : Parse A)
    → (k == eof) ≡ false
    → Reads n m
    → Reads (suc n) y
    → Reads (suc n) (at k ⟶ (skip >> m) ∣ y)
unfolding ◌⟶◌∣◌ ◌>>=◌ skip run
Reads-past k m y e rm ry = record {
  fits = λ p h.
      Returns-if (at k p)
        (λ c.
          let less = advance_strict p (at-not_end k p e c) in
          after (advance-Moved p) (rm.fits _ (omega (arith, less))))
        (λ _. ry.fits p h);
}

unfoldable pub parse_name : Parse Text
unfolding take_lit take_kind complain pure ◌⟶◌∣◌ ◌>>=◌
parse_name =
    at ident
    ⟶ take_lit ∣ (λ p. is_nameable_keyword (cur p).kind)
    ⟶ take_kind ∣ (do complain "esperava um nome, encontrei "; pure [])

pub parse_name-Reads : {n : ℕ} → Reads n parse_name
unfolding parse_name
parse_name-Reads = search read_rules depth 40

abbrev pub types_of : List TypeRef → TypeRefs
types_of [] = no_types
types_of (t ∷ ts) = type_cons t (types_of ts)

-- `parseTypeRef`, with the call of itself on fewer tokens.
unfoldable pub type_level : Parse TypeRef → Parse TypeRef
unfolding mark parse_name skip comma_list run expect pure close_span ◌⟶◌∣◌ ◌>>=◌
type_level nested = do
  start ← mark
  name ← parse_name
  args ←
      at lt
      ⟶ (do skip; ts ← comma_list gt nested; run (expect gt); pure (types_of ts)) ∣ pure no_types
  span ← close_span start
  pure (type_ref span name args)

unfoldable pub type_grammar : ℕ → Parse TypeRef
unfolding type_level
type_grammar zero p = none
type_grammar (suc n) p = type_level (type_grammar n) p

-- With a level for each token that is left, and one more.
unfoldable pub parse_type_ref : Parse TypeRef
unfolding type_grammar
parse_type_ref p = type_grammar (suc (count p.ahead)) p

module _ {n : ℕ} (nested : Parse TypeRef) (reads : Reads n nested) where
  type_level-Reads : Reads (suc n) (type_level nested)
  unfolding type_level
  type_level-Reads = search (read_rules, parse_name-Reads, Reads-past lt _ _ refl) depth 40

type_grammar-Reads : (n : ℕ) → Reads n (type_grammar n)
unfolding type_grammar
type_grammar-Reads zero = record { fits = λ p h. absurd (omega arith) }
type_grammar-Reads (suc n) = record {
  fits = λ p h. (type_level-Reads (type_grammar n) (type_grammar-Reads n)).fits p h;
}

pub parse_type_ref-Reads : {n : ℕ} → Reads n parse_type_ref
unfolding parse_type_ref
parse_type_ref-Reads = record {
  fits = λ p h. (type_grammar-Reads (suc (count p.ahead))).fits p (omega arith);
}

-- `parseBlock`, on the statements.
unfoldable pub parse_body : Parse Block
unfolding parse_block parse_stmt
parse_body = parse_block parse_stmt

pub parse_body-Reads : {n : ℕ} → Reads n parse_body
unfolding parse_body
parse_body-Reads {n} = record { fits = parse_block-Fits n parse_stmt λ p h. parse_stmt-Ends p }

-- The default of a field, behind `=`.
unfoldable pub parse_default : Parse Expr
unfolding skip parse_expr pure ◌⟶◌∣◌ ◌>>=◌
parse_default = at assign ⟶ (do skip; parse_expr) ∣ pure absent

unfoldable pub parse_redactable : Parse Bool
unfolding skip pure ◌⟶◌∣◌ ◌>>=◌
parse_redactable = at_ident_lit "redactable" ⟶ (do skip; pure true) ∣ pure false

unfoldable pub parse_field : Parse Field
unfolding mark run parse_ident_name accept parse_type_ref parse_redactable parse_default close_span
    pure ◌>>=◌
parse_field = do
  start ← mark
  name ← run parse_ident_name
  is_ref ← run (accept ref)
  type ← parse_type_ref
  redactable ← parse_redactable
  def ← parse_default
  span ← close_span start
  pure (record {
    span = span;
    name = name;
    type = type;
    ref = is_ref;
    redactable = redactable;
    default = def;
  })

pub parse_field-Reads : {n : ℕ} → Reads n parse_field
unfolding parse_field parse_redactable parse_default
parse_field-Reads = search (read_rules, parse_type_ref-Reads) depth 40

unfoldable pub parse_field_block : Parse (List Field)
unfolding braces collect parse_field
parse_field_block = braces (collect parse_field) []

pub parse_field_block-Reads : {n : ℕ} → Reads n parse_field_block
unfolding parse_field_block
parse_field_block-Reads = search (read_rules, parse_field-Reads) depth 40

unfoldable pub parse_param : Parse Field
unfolding mark run parse_ident_name accept parse_type_ref close_span pure ◌>>=◌
parse_param = do
  start ← mark
  name ← run parse_ident_name
  is_ref ← run (accept ref)
  type ← parse_type_ref
  span ← close_span start
  pure (record {
    span = span;
    name = name;
    type = type;
    ref = is_ref;
    redactable = false;
    default = absent;
  })

unfoldable pub parse_param_list : Parse (List Field)
unfolding run expect comma_list parse_param pure ◌>>=◌
parse_param_list = do
  run (expect lparen)
  params ← comma_list rparen parse_param
  run (expect rparen)
  pure params

pub parse_param_list-Reads : {n : ℕ} → Reads n parse_param_list
unfolding parse_param_list parse_param
parse_param_list-Reads = search (read_rules, parse_type_ref-Reads) depth 40

unfoldable pub parse_version : Parse Text
unfolding take_lit complain pure ◌⟶◌∣◌ ◌>>=◌
parse_version =
    at versionid ⟶ take_lit ∣ (do complain "esperava um version_id (ex.: v1), encontrei "; pure [])

pub parse_version-Reads : {n : ℕ} → Reads n parse_version
unfolding parse_version
parse_version-Reads = search read_rules depth 40

-- The body of the loop of `parseConfigBlock`.
unfoldable pub config_line : List ConfigEntry → Parse (List ConfigEntry)
unfolding run parse_ident_name expect parse_expr accept collect pure ◌>>=◌
config_line = collect (do
  key ← run parse_ident_name
  run (expect colon)
  val ← parse_expr
  pure (record { key = key; value = val }))

unfoldable pub parse_config_block : Parse (List ConfigEntry)
unfolding braces config_line
parse_config_block = braces config_line []

pub parse_config_block-Reads : {n : ℕ} → Reads n parse_config_block
unfolding parse_config_block config_line
parse_config_block-Reads = search read_rules depth 40

unfoldable pub parse_map_key : Parse Text
unfolding take_lit parse_name ◌⟶◌∣◌
parse_map_key = at string ⟶ take_lit ∣ parse_name

-- The body of the loop of `parseMapBlock`.
unfoldable pub map_line : List MapEntry → Parse (List MapEntry)
unfolding parse_map_key run expect parse_expr collect pure ◌>>=◌
map_line = collect (do
  name ← parse_map_key
  run (expect assign)
  val ← parse_expr
  pure (record { name = name; value = val }))

unfoldable pub parse_map_block : Parse (List MapEntry)
unfolding braces map_line
parse_map_block = braces map_line []

pub parse_map_block-Reads : {n : ℕ} → Reads n parse_map_block
unfolding parse_map_block map_line parse_map_key
parse_map_block-Reads = search (read_rules, parse_name-Reads) depth 40

-- The body of the loop of `parseStorageBlock`.
unfoldable pub storage_line : List StorageEntry → Parse (List StorageEntry)
unfolding run parse_ident_name expect collect pure ◌>>=◌
storage_line = collect (do
  key ← run parse_ident_name
  run (expect colon)
  val ← run parse_ident_name
  pure (record { key = key; value = val }))

unfoldable pub parse_storage_block : Parse (List StorageEntry)
unfolding braces storage_line
parse_storage_block = braces storage_line []

pub parse_storage_block-Reads : {n : ℕ} → Reads n parse_storage_block
unfolding parse_storage_block storage_line
parse_storage_block-Reads = search read_rules depth 40

-- The body of the loop of `parseAccessBlock`.
unfoldable pub access_line : List AccessRule → Parse (List AccessRule)
unfolding mark run parse_ident_name skip_word parse_expr close_span pure ◌>>=◌
access_line rules = do
  start ← mark
  name ← run parse_ident_name
  skip_word "requires"
  cond ← parse_expr
  span ← close_span start
  pure (append rules (record { span = span; name = name; condition = cond }))

unfoldable pub parse_access_block : Parse (List AccessRule)
unfolding braces access_line
parse_access_block = braces access_line []

pub parse_access_block-Reads : {n : ℕ} → Reads n parse_access_block
unfolding parse_access_block access_line
parse_access_block-Reads = search read_rules depth 40
