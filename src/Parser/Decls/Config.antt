-- ===== src/Parser/Decls/Config.antt =====
-- parser/parse_config.go: the generic lines of configuration, with the values that nest.
use domainscript.Prelude.{
  ℕ, zero, suc, ◌<◌, ◌≡◌, refl, Bool, true, false, ◌||◌, none, List, [], ◌∷◌, ◌==◌, text_eq, Text,
  arith, Returns, Returns-if, Returns-bind,
}
use domainscript.Token.{
  Kind, Pos, kind_eq, eof, ident, lbrace, lbrack, rbrack, colon, comma, string,
}
use domainscript.Ast.{Expr, Exprs, Entries, object, list, no_exprs, expr_cons, no_entries, entry}
use domainscript.Ast.Decls.{ConfigEntry}
use domainscript.Parser.Cursor.{Parser, count, cur, at, accept, expect, is_nameable_keyword}
use domainscript.Parser.Operands.{Parse}
use domainscript.Parser.Expressions.{parse_expr}
use domainscript.Parser.Moves.{Ends, expect-Moved, expect_strict}
use domainscript.Parser.Loops.{after}
use domainscript.Parser.Sequence.{
  pure, run, gets, ◌⟶◌∣◌, ◌>>=◌, ◌>>◌, mark, close_span, skip, take_lit, complain,
  unexpected_member, braces, comma_list, append,
}
use domainscript.Parser.Sequence.Reads.{Reads, read_rules}
use domainscript.Parser.Decls.Fields.{parse_name, parse_name-Reads}

-- At the token `k` the step consumes it first: what comes behind it has fewer tokens ahead.
record Past {A : Type 0} (k : Kind) (n : ℕ) (m : Parse A) : Type 0 where
  fits : (p : Parser) → count p.ahead < suc n → at k p ≡ true → Returns (Ends p) (m p)

module _ {A : Type 0} {n : ℕ} where
  Reads-at :
      (k : Kind) (m y : Parse A) → Past k n m → Reads (suc n) y → Reads (suc n) (at k ⟶ m ∣ y)
  unfolding ◌⟶◌∣◌
  Reads-at k m y pm ry = record {
    fits = λ p h. Returns-if (at k p) (pm.fits p h) (λ _. ry.fits p h);
  }

  Past-mark : (k : Kind) (f : Pos → Parse A) → ((a : Pos) → Past k n (f a)) → Past k n (mark >>= f)
  unfolding ◌>>=◌ mark gets
  Past-mark k f pf = record { fits = λ p h e. (pf (cur p).pos).fits p h e }

  Past-expect :
      (k : Kind) (f : Bool → Parse A)
      → (k == eof) ≡ false
      → ((b : Bool) → Reads n (f b))
      → Past k n (run (expect k) >>= f)
  unfolding ◌>>=◌ run
  Past-expect k f s rf = record {
    fits = λ p h e.
        let less = expect_strict k p s e in
        after (expect-Moved k p) ((rf (expect k p).0).fits _ (omega (arith, less)));
  }

Past-bind :
    {A B : Type 0} {n : ℕ} (k : Kind) (m : Parse A) (f : A → Parse B)
    → Past k n m
    → ((a : A) → Reads (suc n) (f a))
    → Past k n (m >>= f)
unfolding ◌>>=◌
Past-bind k m f pm rf = record {
  fits = λ p h e.
      Returns-bind (pm.fits p h e) λ x j. after j ((rf x.0).fits x.1 (omega (arith, j.left)));
}

-- `atConfigKey`
abbrev pub at_config_key : Parser → Bool
at_config_key p = at ident p || is_nameable_keyword (cur p).kind

abbrev pub listed_entries : List ConfigEntry → Entries
listed_entries [] = no_entries
listed_entries (e ∷ es) = entry e.key e.value (listed_entries es)

abbrev pub listed_exprs : List Expr → Exprs
listed_exprs [] = no_exprs
listed_exprs (e ∷ es) = expr_cons e (listed_exprs es)

-- The lines and the values, with the call of `parseConfigValue` behind the token that leads to it.
-- At a brace without a colon the source calls `parseConfigObject`, which is the value at a brace.
module _ (value : Parse Expr) where
  unfoldable pub entry_of : Parse ConfigEntry
  unfolding parse_name skip pure ◌⟶◌∣◌ ◌>>=◌
  entry_of = do
    key ← parse_name
    val ← at colon ⟶ (do skip; value) ∣ value
    pure (record { key = key; value = val })

  -- The body of the loop of `parseConfigEntries`.
  unfoldable pub entry_line : List ConfigEntry → Parse (List ConfigEntry)
  unfolding entry_of run accept pure unexpected_member ◌⟶◌∣◌ ◌>>=◌
  entry_line es =
      at_config_key
      ⟶ (do e ← entry_of; run (accept comma); pure (append es e)) ∣
        unexpected_member "esperava uma chave de configuração, encontrei " es

  unfoldable pub entries_of : Parse (List ConfigEntry)
  unfolding braces entry_line
  entries_of = braces entry_line []

  unfoldable pub object_of : Parse Expr
  unfolding mark entries_of close_span pure ◌>>=◌
  object_of = do
    start ← mark
    es ← entries_of
    span ← close_span start
    pure (object span (listed_entries es))

  unfoldable pub list_of : Parse Expr
  unfolding mark run expect comma_list close_span pure ◌>>=◌
  list_of = do
    start ← mark
    run (expect lbrack)
    es ← comma_list rbrack value
    run (expect rbrack)
    span ← close_span start
    pure (list span (listed_exprs es))

  unfoldable pub value_level : Parse Expr
  unfolding object_of list_of parse_expr ◌⟶◌∣◌
  value_level = at lbrace ⟶ object_of ∣ at lbrack ⟶ list_of ∣ parse_expr

unfoldable pub value_grammar : ℕ → Parse Expr
unfolding value_level
value_grammar zero p = none
value_grammar (suc n) p = value_level (value_grammar n) p

-- `parseConfigValue`, with a level for each token that is left, and one more.
unfoldable pub parse_config_value : Parse Expr
unfolding value_grammar
parse_config_value p = value_grammar (suc (count p.ahead)) p

unfoldable pub parse_config_entry : Parse ConfigEntry
unfolding entry_of parse_config_value
parse_config_entry = entry_of parse_config_value

unfoldable pub parse_config_entries : Parse (List ConfigEntry)
unfolding entries_of parse_config_value
parse_config_entries = entries_of parse_config_value

unfoldable pub parse_config_object : Parse Expr
unfolding object_of parse_config_value
parse_config_object = object_of parse_config_value

module _ {n : ℕ} (value : Parse Expr) (reads : Reads n value) where
  entry_of-Reads : Reads n (entry_of value)
  unfolding entry_of
  entry_of-Reads = search (read_rules, parse_name-Reads) depth 40

  entry_line-Reads : (es : List ConfigEntry) → Reads n (entry_line value es)
  unfolding entry_line
  entry_line-Reads es = search (read_rules, entry_of-Reads) depth 40

  entries_of-Reads : Reads n (entries_of value)
  unfolding entries_of
  entries_of-Reads = search (read_rules, entry_line-Reads) depth 40

  object_of-Reads : Reads n (object_of value)
  unfolding object_of
  object_of-Reads = search (read_rules, entries_of-Reads) depth 40

  object_of-Past : Past lbrace n (object_of value)
  unfolding object_of entries_of braces
  object_of-Past =
      search (read_rules, entry_line-Reads, Past-mark, Past-bind, Past-expect lbrace _ refl) depth
        40

  list_of-Past : Past lbrack n (list_of value)
  unfolding list_of
  list_of-Past = search (read_rules, Past-mark, Past-expect lbrack _ refl) depth 40

  value_level-Reads : Reads (suc n) (value_level value)
  unfolding value_level
  value_level-Reads = search (read_rules, Reads-at, object_of-Past, list_of-Past) depth 40

value_grammar-Reads : (n : ℕ) → Reads n (value_grammar n)
unfolding value_grammar
value_grammar-Reads zero = record { fits = λ p h. absurd (omega arith) }
value_grammar-Reads (suc n) = record {
  fits = λ p h. (value_level-Reads (value_grammar n) (value_grammar-Reads n)).fits p h;
}

module _ {n : ℕ} where
  pub parse_config_value-Reads : Reads n parse_config_value
  unfolding parse_config_value
  parse_config_value-Reads = record {
    fits = λ p h. (value_grammar-Reads (suc (count p.ahead))).fits p (omega arith);
  }

  pub parse_config_entry-Reads : Reads n parse_config_entry
  unfolding parse_config_entry
  parse_config_entry-Reads = entry_of-Reads parse_config_value parse_config_value-Reads

  pub parse_config_entries-Reads : Reads n parse_config_entries
  unfolding parse_config_entries
  parse_config_entries-Reads = entries_of-Reads parse_config_value parse_config_value-Reads

  pub parse_config_object-Reads : Reads n parse_config_object
  unfolding parse_config_object
  parse_config_object-Reads = object_of-Reads parse_config_value parse_config_value-Reads

unfoldable pub parse_string_lit : Parse Text
unfolding take_lit complain pure ◌⟶◌∣◌ ◌>>=◌
parse_string_lit = at string ⟶ take_lit ∣ (do complain "esperava uma string, encontrei "; pure [])

pub parse_string_lit-Reads : {n : ℕ} → Reads n parse_string_lit
unfolding parse_string_lit
parse_string_lit-Reads = search read_rules depth 40
