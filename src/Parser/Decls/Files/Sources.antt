-- ===== src/Parser/Decls/Files/Sources.antt =====
-- lexer/lexer.go and parser/parse_decl.go: the lexer and the parser, one after the other.
use domainscript.Prelude.{
  suc, ◌+◌, ◌*◌, ◌≤◌, ◌≡◌, refl, sym, ap, subst, true, false, ◌==◌, List, [], ◌∷◌, ◌++◌, length,
  length-append, Text, All, arith, Returns, returns, Returns-mono, Returns-value,
}
use domainscript.Token.{Token, eof, kind_eq}
use domainscript.Diag.{DiagnosticBag}
use domainscript.Lexer.{Unicode, lex}
use domainscript.Lexer.Run.{lex-IsLexed}
use domainscript.Parser.Cursor.{Ahead, closing, more, head, count, close, new_parser}
use domainscript.Parser.Moves.{EofLast}
use domainscript.Parser.Decls.Files.{parse}
use domainscript.Parser.Decls.Files.Totality.{parse_file-Reads, parse_file-at_end, count-close}

-- Tokens whose only EOF is the last one are read up to that one.
close-EofLast :
    (body : List Token) (e : Token)
    → (e.kind == eof) ≡ true
    → All (λ t. (t.kind == eof) ≡ false) body
    → EofLast (close (body ++ e ∷ [])) × (count (close (body ++ e ∷ [])) ≡ length body)
close-EofLast [] e h n = rw h (tt, refl)
close-EofLast (t ∷ []) e h n = rw h ((n.0, tt), refl)
close-EofLast (t ∷ s ∷ ts) e h n =
    let (clean, counted) = close-EofLast (s ∷ ts) e h n.1 in ((n.0, clean), ap suc counted)

none_ahead : (a : Ahead) → EofLast a → ((head a).kind == eof) ≡ true → count a ≡ 0
none_ahead (closing lit pos) c h = refl
none_ahead (more t a) c h = absurd (cc (c.0, h))

-- What `parse` leaves of tokens whose only EOF is the last one.
parse-whole :
    (body toks : List Token) (e : Token) (bag : DiagnosticBag)
    → toks ≡ body ++ e ∷ []
    → (e.kind == eof) ≡ true
    → All (λ t. (t.kind == eof) ≡ false) body
    → Returns
        (λ r.
          (suc r.1.pos ≡ length toks)
          × (2 * length r.1.bag.items ≤ 2 * length bag.items + 2 + length toks))
        (parse toks bag)
unfolding parse new_parser
parse-whole body toks e bag split h n =
    let p = new_parser toks bag in
    let (r, ran, m) =
      Returns-value ((parse_file-Reads {n = suc (count p.ahead)}).fits p (omega arith)) in
    let (clean, counted) = rw (sym split) at (close-EofLast body e h n) in
    let none = none_ahead r.1.ahead (m.clean clean) (parse_file-at_end p r ran) in
    subst (Returns _) (sym ran) (
      returns (
        omega (arith, m.kept, none, counted, ap length split, length-append body (e ∷ [])),
        omega (arith, m.quiet, m.kept, count-close toks),
      ))

-- A source is lexed and its tokens are parsed, whatever it is: the parser has then read every token
-- and stands at the last one, the EOF; and it has added at most one diagnostic to the bag, and one
-- more for every two tokens.
pub parse-lex :
    (u : Unicode) (src : Text) (bag : DiagnosticBag)
    → Returns
        (λ (toks, diags).
          Returns
            (λ r.
              (suc r.1.pos ≡ length toks)
              × (2 * length r.1.bag.items ≤ 2 * length bag.items + 2 + length toks))
            (parse toks bag))
        (lex u src)
parse-lex u src bag =
    Returns-mono (lex-IsLexed u src)
      λ (toks, diags) h. parse-whole h.body toks _ bag h.ends refl h.no_eof
