-- ===== src/Parser/Sequence.antt =====
-- parser/: what the functions of declarations are written with: steps of the cursor one after
-- another, a choice by the token ahead, and the loops up to a closing token.
pub mod Reads
use domainscript.Prelude.{
  ℕ, zero, suc, ◌+◌, Bool, true, false, not, ◌&&◌, String, Option, none, some, List, [], ◌∷◌, ◌++◌,
  Text, codes, text_eq, ◌==◌, if◌then◌else◌,
}
use domainscript.Prelude
use domainscript.Token.{Kind, Pos, kind_string, kind_eq, ident, lbrace, rbrace, comma}
use domainscript.Ast.{Span}
use domainscript.Parser.Cursor.{
  Parser, count, cur, at, at_end, advance, errorf, accept, expect, ensure_progress, span_from,
  is_nameable_keyword,
}
use domainscript.Parser.Operands.{Parse}

module _ {A : Type 0} where
  unfoldable pub pure : A → Parse A
  pure a p = some (a, p)

  -- A step that cannot fail.
  unfoldable pub run : (Parser → A × Parser) → Parse A
  run f p = some (f p)

  -- What is read off the cursor, which stays.
  unfoldable pub gets : (Parser → A) → Parse A
  gets f p = some (f p, p)

  infixr 2 ◌⟶◌∣◌
  -- A case of a `switch`, and the cases after it.
  unfoldable pub ◌⟶◌∣◌ : (Parser → Bool) → Parse A → Parse A → Parse A
  ◌⟶◌∣◌ c m n p = if c p then m p else n p

module _ {A B : Type 0} where
  infixl 10 ◌>>=◌ ◌>>◌
  unfoldable pub ◌>>=◌ : Parse A → (A → Parse B) → Parse B
  ◌>>=◌ m f p = Prelude.◌>>=◌ (m p) λ (a, q). f a q

  abbrev pub ◌>>◌ : Parse A → Parse B → Parse B
  m >> n = m >>= λ _. n

-- `p.cur().Pos`
unfoldable pub mark : Parse Pos
unfolding gets
mark = gets (λ p. (cur p).pos)

-- `p.spanFrom(start)`
unfoldable pub close_span : Pos → Parse Span
unfolding gets
close_span start = gets (span_from start)

-- `p.advance()`, for the sake of the move, of the lexeme or of the kind.
unfoldable pub skip : Parse (Unit {0})
unfolding run advance
skip = run (λ p. (tt, advance p))

unfoldable pub take_lit : Parse Text
unfolding run advance
take_lit = run (λ p. ((cur p).lit, advance p))

unfoldable pub take_kind : Parse Text
unfolding run advance
take_kind = run (λ p. (kind_string (cur p).kind, advance p))

-- `p.errorf(p.cur().Pos, ...)`, with the kind of the token at the end of the message.
unfoldable pub complain : String → Parse (Unit {0})
unfolding run errorf
complain msg = run (λ p. (tt, errorf (cur p).pos (codes msg ++ kind_string (cur p).kind) p))

-- `atIdentLit`
abbrev pub at_ident_lit : String → Parser → Bool
at_ident_lit lit p = at ident p && (cur p).lit == codes lit

-- The word, where it is there.
unfoldable pub skip_word : String → Parse (Unit {0})
unfolding pure skip ◌⟶◌∣◌
skip_word lit = at_ident_lit lit ⟶ skip ∣ pure tt

-- The default case of a `switch` over members.
unfoldable pub unexpected_member : {S : Type 0} → String → S → Parse S
unfolding complain skip pure ◌>>=◌
unexpected_member msg s = do complain msg; skip; pure s

module _ {S : Type 0} (close : Kind) (body : S → Parse S) where
  -- `for !p.at(close) && !p.atEnd()`, with `ensureProgress` at the end of its body.
  unfoldable pub loop : ℕ → S → Parse S
  unfolding ensure_progress
  loop zero s p = none
  loop (suc f) s p =
      let some_more = Prelude.◌>>=◌ (body s p) λ (t, q). loop f t (ensure_progress p.pos q) in
      if not (at close p) && not (at_end p) then some_more else some (s, p)

  -- With a round for each token that is left, and one more.
  unfoldable pub members : S → Parse S
  unfolding loop
  members s p = loop (suc (count p.ahead)) s p

-- The members between braces.
unfoldable pub braces : {S : Type 0} → (S → Parse S) → S → Parse S
unfolding expect run members pure ◌>>=◌
braces body s = do run (expect lbrace); t ← members rbrace body s; run (expect rbrace); pure t

module _ {A : Type 0} (close : Kind) (item : Parse A) where
  -- The loop of a list with commas: without one, the list ends.
  unfoldable pub comma_loop : ℕ → Parse (List A)
  unfolding accept ensure_progress
  comma_loop zero p = none
  comma_loop (suc f) p =
      let some_more = Prelude.◌>>=◌ (item p) λ (a, q).
        let c = accept comma q in
        let rest =
          Prelude.◌>>=◌ (comma_loop f (ensure_progress p.pos c.1)) λ (as', r). some (a ∷ as', r) in
        if c.0 then rest else some (a ∷ [], c.1) in
      if not (at close p) && not (at_end p) then some_more else some ([], p)

  unfoldable pub comma_list : Parse (List A)
  unfolding comma_loop
  comma_list p = comma_loop (suc (count p.ahead)) p

-- An element at the end of a slice.
abbrev pub append {ℓ} : {A : Type ℓ} → List A → A → List A
append xs x = xs ++ (x ∷ [])

-- The body of a loop that collects what `item` gives, a comma behind it or not.
unfoldable pub collect : {A : Type 0} → Parse A → List A → Parse (List A)
unfolding accept run pure ◌>>=◌
collect item xs = do x ← item; run (accept comma); pure (append xs x)
